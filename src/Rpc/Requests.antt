-- ===== src/Rpc/Requests.antt =====
-- The conversions of the requests.
-- src/ganker/rpc/conversion.py
use ganker.Base.{Option, some, none, map}
use ganker.Base.Result.{Result, ok}
use ganker.Base.Float.{Float}
use ganker.Contracts.{
  CreateTrainingRunRequest, ForwardBackwardRequest, OptimStepRequest, SaveWeightsRequest,
  WeightArtifact, RefreshWeightsRequest, SampleRequest, GetTelemetrySummaryRequest,
  DownloadArtifactFileRequest,
}
use ganker.Rpc.Wire
use ganker.Rpc.Protobuf.{Protobuf, ◌>>=◌, traverse}
use ganker.Rpc.Values.{
  tuning_mode_to_proto, tuning_mode_from_proto, artifact_kind_to_proto, artifact_kind_from_proto,
  artifact_file_kind_to_proto, artifact_file_kind_from_proto, context_to_proto, context_from_proto,
  model_input_to_proto, model_input_from_proto, weight_artifact_to_proto,
  weight_artifact_from_proto,
}
use ganker.Rpc.Tensors.{
  datum_to_proto, datum_from_proto, sampling_params_to_proto, sampling_params_from_proto,
  adam_params_to_proto, adam_params_from_proto,
}

module _ (P : Protobuf) where
  unfoldable pub create_training_run_request_to_proto :
      CreateTrainingRunRequest → Result Wire.CreateTrainingRunRequest
  create_training_run_request_to_proto value = do
    tuning_mode ← tuning_mode_to_proto value.tuning_mode
    lora_rank ← P.int64 value.lora_rank
    ok (record {
      context = context_to_proto value.context;
      base_model = value.base_model;
      tuning_mode = tuning_mode;
      lora_rank = lora_rank;
    })

  -- `request.artifact.CopyFrom(…)` sets the field.
  abbrev pub optional_artifact_to_proto :
      Option WeightArtifact → Result (Option Wire.WeightArtifact)
  optional_artifact_to_proto none = ok none
  optional_artifact_to_proto (some artifact) = do
    message ← weight_artifact_to_proto P artifact
    ok (some message)

  unfoldable pub refresh_weights_request_to_proto :
      RefreshWeightsRequest → Result Wire.RefreshWeightsRequest
  refresh_weights_request_to_proto value = do
    artifact ← optional_artifact_to_proto value.artifact
    ok (record {
      context = context_to_proto value.context;
      run_id = value.run_id;
      artifact = artifact;
    })

  unfoldable pub download_artifact_file_request_to_proto :
      DownloadArtifactFileRequest → Result Wire.DownloadArtifactFileRequest
  download_artifact_file_request_to_proto value = do
    artifact ← weight_artifact_to_proto P value.artifact
    file_kind ← artifact_file_kind_to_proto value.file_kind
    ok (record {
      context = context_to_proto value.context;
      artifact = artifact;
      file_kind = file_kind;
    })

unfoldable pub create_training_run_request_from_proto :
    Wire.CreateTrainingRunRequest → Result CreateTrainingRunRequest
create_training_run_request_from_proto value = do
  tuning_mode ← tuning_mode_from_proto value.tuning_mode
  ok (record {
    context = context_from_proto value.context;
    base_model = value.base_model;
    tuning_mode = tuning_mode;
    lora_rank = value.lora_rank;
  })

unfoldable pub save_weights_request_to_proto : SaveWeightsRequest → Result Wire.SaveWeightsRequest
save_weights_request_to_proto value = do
  kind ← artifact_kind_to_proto value.kind
  ok (record { context = context_to_proto value.context; run_id = value.run_id; kind = kind })

unfoldable pub save_weights_request_from_proto : Wire.SaveWeightsRequest → Result SaveWeightsRequest
save_weights_request_from_proto value = do
  kind ← artifact_kind_from_proto value.kind
  ok (record { context = context_from_proto value.context; run_id = value.run_id; kind = kind })

-- `value.HasField("artifact")` chooses.
abbrev pub optional_artifact_from_proto :
    Option Wire.WeightArtifact → Result (Option WeightArtifact)
optional_artifact_from_proto none = ok none
optional_artifact_from_proto (some message) = do
  artifact ← weight_artifact_from_proto message
  ok (some artifact)

unfoldable pub refresh_weights_request_from_proto :
    Wire.RefreshWeightsRequest → Result RefreshWeightsRequest
refresh_weights_request_from_proto value = do
  artifact ← optional_artifact_from_proto value.artifact
  ok (record {
    context = context_from_proto value.context;
    run_id = value.run_id;
    artifact = artifact;
  })

unfoldable pub get_telemetry_summary_request_to_proto :
    GetTelemetrySummaryRequest → Wire.GetTelemetrySummaryRequest
get_telemetry_summary_request_to_proto value = record {
  context = context_to_proto value.context;
  run_id = value.run_id;
}

unfoldable pub get_telemetry_summary_request_from_proto :
    Wire.GetTelemetrySummaryRequest → GetTelemetrySummaryRequest
get_telemetry_summary_request_from_proto value = record {
  context = context_from_proto value.context;
  run_id = value.run_id;
}

unfoldable pub download_artifact_file_request_from_proto :
    Wire.DownloadArtifactFileRequest → Result DownloadArtifactFileRequest
download_artifact_file_request_from_proto value = do
  artifact ← weight_artifact_from_proto value.artifact
  file_kind ← artifact_file_kind_from_proto value.file_kind
  ok (record {
    context = context_from_proto value.context;
    artifact = artifact;
    file_kind = file_kind;
  })

module _ (P : Protobuf) (F : Float) where
  unfoldable pub forward_backward_request_to_proto :
      ForwardBackwardRequest F.Real → Result (Wire.ForwardBackwardRequest F.Real)
  forward_backward_request_to_proto value = do
    batch ← traverse (datum_to_proto P F) value.batch
    ok (record {
      context = context_to_proto value.context;
      run_id = value.run_id;
      batch = batch;
      loss_fn = value.loss_fn;
      loss_fn_config = value.loss_fn_config;
    })

  unfoldable pub forward_backward_request_from_proto :
      Wire.ForwardBackwardRequest F.Real → ForwardBackwardRequest F.Real
  forward_backward_request_from_proto value = record {
    context = context_from_proto value.context;
    run_id = value.run_id;
    batch = map (datum_from_proto P F) value.batch;
    loss_fn = value.loss_fn;
    loss_fn_config = P.items F.Real value.loss_fn_config;
  }

  unfoldable pub optim_step_request_to_proto :
      OptimStepRequest F.Real → Wire.OptimStepRequest F.Real
  optim_step_request_to_proto value = record {
    context = context_to_proto value.context;
    run_id = value.run_id;
    optimizer = adam_params_to_proto P F value.optimizer;
  }

  unfoldable pub optim_step_request_from_proto :
      Wire.OptimStepRequest F.Real → OptimStepRequest F.Real
  optim_step_request_from_proto value = record {
    context = context_from_proto value.context;
    run_id = value.run_id;
    optimizer = adam_params_from_proto P F value.optimizer;
  }

  unfoldable pub sample_request_to_proto : SampleRequest F.Real → Result (Wire.SampleRequest F.Real)
  sample_request_to_proto value = do
    prompt ← model_input_to_proto P value.prompt
    sampling_params ← sampling_params_to_proto P F value.sampling_params
    num_samples ← P.int64 value.num_samples
    ok (record {
      context = context_to_proto value.context;
      run_id = value.run_id;
      prompt = prompt;
      sampling_params = sampling_params;
      num_samples = num_samples;
    })

  unfoldable pub sample_request_from_proto : Wire.SampleRequest F.Real → SampleRequest F.Real
  sample_request_from_proto value = record {
    context = context_from_proto value.context;
    run_id = value.run_id;
    prompt = model_input_from_proto value.prompt;
    sampling_params = sampling_params_from_proto P F value.sampling_params;
    num_samples = value.num_samples;
  }
