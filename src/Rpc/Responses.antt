-- ===== src/Rpc/Responses.antt =====
-- The conversions of the responses.
-- src/ganker/rpc/conversion.py
use ganker.Base.{map}
use ganker.Base.Result.{Result, ok}
use ganker.Base.Float.{Float}
use ganker.Contracts.{
  CreateTrainingRunResponse, ForwardBackwardResponse, OptimStepResponse, SaveWeightsResponse,
  RefreshWeightsResponse, SampleResponse, GetTelemetrySummaryResponse, DownloadArtifactFileResponse,
}
use ganker.Rpc.Wire
use ganker.Rpc.Protobuf.{Protobuf, ◌>>=◌, traverse}
use ganker.Rpc.Values.{
  artifact_file_kind_to_proto, artifact_file_kind_from_proto, usage_to_proto, usage_from_proto,
  telemetry_summary_to_proto, telemetry_summary_from_proto, weight_artifact_to_proto,
  weight_artifact_from_proto, training_run_to_proto, training_run_from_proto,
}
use ganker.Rpc.Tensors.{
  sampled_sequence_to_proto, sampled_sequence_from_proto, forward_backward_output_to_proto,
  forward_backward_output_from_proto,
}

module _ (P : Protobuf) where
  unfoldable pub create_training_run_response_to_proto :
      CreateTrainingRunResponse → Result Wire.CreateTrainingRunResponse
  create_training_run_response_to_proto value = do
    run ← training_run_to_proto P value.run
    ok (record { request_id = value.request_id; run = run })

  unfoldable pub optim_step_response_to_proto : OptimStepResponse → Result Wire.OptimStepResponse
  optim_step_response_to_proto value = do
    usage ← usage_to_proto P value.usage
    optimizer_step ← P.int64 value.optimizer_step
    checkpoint_version ← P.int64 value.checkpoint_version
    ok (record {
      request_id = value.request_id;
      run_id = value.run_id;
      optimizer_step = optimizer_step;
      checkpoint_version = checkpoint_version;
      usage = usage;
    })

  unfoldable pub save_weights_response_to_proto :
      SaveWeightsResponse → Result Wire.SaveWeightsResponse
  save_weights_response_to_proto value = do
    artifact ← weight_artifact_to_proto P value.artifact
    ok (record { request_id = value.request_id; artifact = artifact })

  unfoldable pub refresh_weights_response_to_proto :
      RefreshWeightsResponse → Result Wire.RefreshWeightsResponse
  refresh_weights_response_to_proto value = do
    artifact ← weight_artifact_to_proto P value.artifact
    ok (record { request_id = value.request_id; artifact = artifact })

  unfoldable pub get_telemetry_summary_response_to_proto :
      GetTelemetrySummaryResponse → Result Wire.GetTelemetrySummaryResponse
  get_telemetry_summary_response_to_proto value = do
    summary ← telemetry_summary_to_proto P value.summary
    ok (record { request_id = value.request_id; summary = summary })

  unfoldable pub download_artifact_file_response_to_proto :
      DownloadArtifactFileResponse → Result Wire.DownloadArtifactFileResponse
  download_artifact_file_response_to_proto value = do
    artifact ← weight_artifact_to_proto P value.artifact
    file_kind ← artifact_file_kind_to_proto value.file_kind
    ok (record {
      request_id = value.request_id;
      artifact = artifact;
      file_kind = file_kind;
      path = value.path;
      contents = value.contents;
    })

unfoldable pub create_training_run_response_from_proto :
    Wire.CreateTrainingRunResponse → Result CreateTrainingRunResponse
create_training_run_response_from_proto value = do
  run ← training_run_from_proto value.run
  ok (record { request_id = value.request_id; run = run })

unfoldable pub optim_step_response_from_proto : Wire.OptimStepResponse → OptimStepResponse
optim_step_response_from_proto value = record {
  request_id = value.request_id;
  run_id = value.run_id;
  optimizer_step = value.optimizer_step;
  checkpoint_version = value.checkpoint_version;
  usage = usage_from_proto value.usage;
}

unfoldable pub save_weights_response_from_proto :
    Wire.SaveWeightsResponse → Result SaveWeightsResponse
save_weights_response_from_proto value = do
  artifact ← weight_artifact_from_proto value.artifact
  ok (record { request_id = value.request_id; artifact = artifact })

unfoldable pub refresh_weights_response_from_proto :
    Wire.RefreshWeightsResponse → Result RefreshWeightsResponse
refresh_weights_response_from_proto value = do
  artifact ← weight_artifact_from_proto value.artifact
  ok (record { request_id = value.request_id; artifact = artifact })

unfoldable pub get_telemetry_summary_response_from_proto :
    Wire.GetTelemetrySummaryResponse → GetTelemetrySummaryResponse
get_telemetry_summary_response_from_proto value = record {
  request_id = value.request_id;
  summary = telemetry_summary_from_proto value.summary;
}

unfoldable pub download_artifact_file_response_from_proto :
    Wire.DownloadArtifactFileResponse → Result DownloadArtifactFileResponse
download_artifact_file_response_from_proto value = do
  artifact ← weight_artifact_from_proto value.artifact
  file_kind ← artifact_file_kind_from_proto value.file_kind
  ok (record {
    request_id = value.request_id;
    artifact = artifact;
    file_kind = file_kind;
    path = value.path;
    contents = value.contents;
  })

module _ (P : Protobuf) (F : Float) where
  unfoldable pub forward_backward_response_to_proto :
      ForwardBackwardResponse F.Real → Result (Wire.ForwardBackwardResponse F.Real)
  forward_backward_response_to_proto value = do
    usage ← usage_to_proto P value.usage
    gradient_version ← P.int64 value.gradient_version
    ok (record {
      request_id = value.request_id;
      run_id = value.run_id;
      output = forward_backward_output_to_proto P F value.output;
      gradient_version = gradient_version;
      usage = usage;
    })

  unfoldable pub forward_backward_response_from_proto :
      Wire.ForwardBackwardResponse F.Real → ForwardBackwardResponse F.Real
  forward_backward_response_from_proto value = record {
    request_id = value.request_id;
    run_id = value.run_id;
    output = forward_backward_output_from_proto P F value.output;
    gradient_version = value.gradient_version;
    usage = usage_from_proto value.usage;
  }

  unfoldable pub sample_response_to_proto :
      SampleResponse F.Real → Result (Wire.SampleResponse F.Real)
  sample_response_to_proto value = do
    sequences ← traverse (sampled_sequence_to_proto P F) value.sequences
    artifact ← weight_artifact_to_proto P value.artifact
    usage ← usage_to_proto P value.usage
    ok (record {
      request_id = value.request_id;
      run_id = value.run_id;
      sequences = sequences;
      artifact = artifact;
      usage = usage;
    })

  unfoldable pub sample_response_from_proto :
      Wire.SampleResponse F.Real → Result (SampleResponse F.Real)
  sample_response_from_proto value = do
    artifact ← weight_artifact_from_proto value.artifact
    ok (record {
      request_id = value.request_id;
      run_id = value.run_id;
      sequences = map (sampled_sequence_from_proto P F) value.sequences;
      artifact = artifact;
      usage = usage_from_proto value.usage;
    })
