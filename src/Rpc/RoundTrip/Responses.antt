-- ===== src/Rpc/RoundTrip/Responses.antt =====
-- The responses, converted there and back.
use ganker.Base.{◌≡◌, refl, map, All, arith}
use ganker.Base.Result.{ok}
use ganker.Base.Float.{Float}
use ganker.Contracts.{
  SampledSequence, CreateTrainingRunResponse, ForwardBackwardResponse, OptimStepResponse,
  SaveWeightsResponse, RefreshWeightsResponse, SampleResponse, GetTelemetrySummaryResponse,
  DownloadArtifactFileResponse,
}
use ganker.Rpc.Protobuf.{Protobuf, FitsInt64, bind-ok}
use ganker.Rpc.Tensors.{sampled_sequence_to_proto, sampled_sequence_from_proto}
use ganker.Rpc.Responses.{
  create_training_run_response_to_proto, create_training_run_response_from_proto,
  forward_backward_response_to_proto, forward_backward_response_from_proto,
  optim_step_response_to_proto, optim_step_response_from_proto, save_weights_response_to_proto,
  save_weights_response_from_proto, refresh_weights_response_to_proto,
  refresh_weights_response_from_proto, sample_response_to_proto, sample_response_from_proto,
  get_telemetry_summary_response_to_proto, get_telemetry_summary_response_from_proto,
  download_artifact_file_response_to_proto, download_artifact_file_response_from_proto,
}
use ganker.Rpc.RoundTrip.Lists.{Carries, Pairwise-eq, traverse-Pairwise}
use ganker.Rpc.RoundTrip.Values.{
  IsFileKind, FitsUsage, FitsSummary, FitsArtifact, FitsRun, Same, artifact_file_kind_carried,
  usage_carried, summary_carried, artifact_carried, run_carried,
}
use ganker.Rpc.RoundTrip.Tensors.{SameOutput, sequence_carried, output_carried}

abbrev pub FitsStepReply : OptimStepResponse → Type 0
FitsStepReply a = FitsUsage a.usage × FitsInt64 a.optimizer_step × FitsInt64 a.checkpoint_version

abbrev pub FitsDownloadReply : DownloadArtifactFileResponse → Type 0
FitsDownloadReply a = FitsArtifact a.artifact × IsFileKind a.file_kind

module _ (P : Protobuf) where
  pub create_response_carried :
      (a : CreateTrainingRunResponse)
      → FitsRun a.run
      → Carries
          (create_training_run_response_to_proto P)
          create_training_run_response_from_proto
          a
          (Same a)
  unfolding create_training_run_response_to_proto create_training_run_response_from_proto
  create_response_carried a h =
      let (m, r, sent, back, same) = run_carried P a.run h in
      (_, a, bind-ok _ sent refl, rw (back, same) refl, refl)

  pub step_response_carried :
      (a : OptimStepResponse)
      → FitsStepReply a
      → Carries
          (optim_step_response_to_proto P)
          (λ m. ok (optim_step_response_from_proto m))
          a
          (Same a)
  unfolding optim_step_response_to_proto optim_step_response_from_proto
  step_response_carried a (h, i, j) =
      let (m, u, sent, back, same) = usage_carried P a.usage h in
      (
        _,
        _,
        bind-ok _ sent (bind-ok _ (P.int64_keeps _ i) (bind-ok _ (P.int64_keeps _ j) refl)),
        refl,
        ground arith,
      )

  pub save_response_carried :
      (a : SaveWeightsResponse)
      → FitsArtifact a.artifact
      → Carries (save_weights_response_to_proto P) save_weights_response_from_proto a (Same a)
  unfolding save_weights_response_to_proto save_weights_response_from_proto
  save_response_carried a h =
      let (m, r, sent, back, same) = artifact_carried P a.artifact h in
      (_, a, bind-ok _ sent refl, rw (back, same) refl, refl)

  pub refresh_response_carried :
      (a : RefreshWeightsResponse)
      → FitsArtifact a.artifact
      → Carries (refresh_weights_response_to_proto P) refresh_weights_response_from_proto a (Same a)
  unfolding refresh_weights_response_to_proto refresh_weights_response_from_proto
  refresh_response_carried a h =
      let (m, r, sent, back, same) = artifact_carried P a.artifact h in
      (_, a, bind-ok _ sent refl, rw (back, same) refl, refl)

  pub summary_response_carried :
      (a : GetTelemetrySummaryResponse)
      → FitsSummary a.summary
      → Carries
          (get_telemetry_summary_response_to_proto P)
          (λ m. ok (get_telemetry_summary_response_from_proto m))
          a
          (Same a)
  unfolding get_telemetry_summary_response_to_proto get_telemetry_summary_response_from_proto
  summary_response_carried a h =
      let (m, u, sent, back, same) = summary_carried P a.summary h in
      (_, _, bind-ok _ sent refl, refl, ground arith)

  pub download_response_carried :
      (a : DownloadArtifactFileResponse)
      → FitsDownloadReply a
      → Carries
          (download_artifact_file_response_to_proto P)
          download_artifact_file_response_from_proto
          a
          (Same a)
  unfolding download_artifact_file_response_to_proto download_artifact_file_response_from_proto
  download_response_carried a (h, i) =
      let (m, r, sent, back, same) = artifact_carried P a.artifact h in
      let (n, k, kind_sent, kind_back, kind_same) = artifact_file_kind_carried a.file_kind i in
      (
        _,
        a,
        bind-ok _ sent (bind-ok _ kind_sent refl),
        rw (back, same, kind_back, kind_same) refl,
        refl,
      )

module _ (P : Protobuf) (F : Float) where
  abbrev pub FitsForwardReply : ForwardBackwardResponse F.Real → Type 0
  FitsForwardReply a = FitsUsage a.usage × FitsInt64 a.gradient_version

  abbrev pub FitsSequence : SampledSequence F.Real → Type 0
  FitsSequence s = All FitsInt64 s.tokens

  abbrev pub FitsSampleReply : SampleResponse F.Real → Type 0
  FitsSampleReply a = All FitsSequence a.sequences × FitsArtifact a.artifact × FitsUsage a.usage

  abbrev pub SameForwardReply :
      ForwardBackwardResponse F.Real → ForwardBackwardResponse F.Real → Type 0
  SameForwardReply a b =
      (b.request_id ≡ a.request_id)
      × (b.run_id ≡ a.run_id)
      × SameOutput P F a.output b.output
      × (b.gradient_version ≡ a.gradient_version)
      × (b.usage ≡ a.usage)

  pub forward_response_carried :
      (a : ForwardBackwardResponse F.Real)
      → FitsForwardReply a
      → Carries
          (forward_backward_response_to_proto P F)
          (λ m. ok (forward_backward_response_from_proto P F m))
          a
          (SameForwardReply a)
  unfolding forward_backward_response_to_proto forward_backward_response_from_proto
  forward_response_carried a (h, i) =
      let (m, u, sent, back, same) = usage_carried P a.usage h in
      (
        _,
        _,
        bind-ok _ sent (bind-ok _ (P.int64_keeps _ i) refl),
        refl,
        (refl, refl, output_carried P F a.output, refl, ground arith),
      )

  pub sample_response_carried :
      (a : SampleResponse F.Real)
      → FitsSampleReply a
      → Carries (sample_response_to_proto P F) (sample_response_from_proto P F) a (Same a)
  unfolding sample_response_to_proto sample_response_from_proto
  sample_response_carried a (h, i, j) =
      let (ms, all_sent, pairs) =
        traverse-Pairwise (sampled_sequence_to_proto P F) (sampled_sequence_from_proto P F)
          FitsSequence Same (sequence_carried P F) a.sequences h in
      let all_same = Pairwise-eq a.sequences (map (sampled_sequence_from_proto P F) ms) pairs in
      let (m, r, sent, back, same) = artifact_carried P a.artifact i in
      let (n, u, usage_sent, usage_back, usage_same) = usage_carried P a.usage j in
      (
        _,
        _,
        bind-ok _ all_sent (bind-ok _ sent (bind-ok _ usage_sent refl)),
        bind-ok _ back refl,
        ground arith,
      )
