-- ===== src/Rpc/RoundTrip/Requests.antt =====
-- The requests, converted there and back.
use ganker.Base.{◌≡◌, refl, ap, Option, some, none, All, arith}
use ganker.Base.Result.{ok}
use ganker.Base.Float.{Float}
use ganker.Contracts.{
  Datum, WeightArtifact, CreateTrainingRunRequest, ForwardBackwardRequest, OptimStepRequest,
  SaveWeightsRequest, RefreshWeightsRequest, SampleRequest, GetTelemetrySummaryRequest,
  DownloadArtifactFileRequest,
}
use ganker.Rpc.Protobuf.{Protobuf, FitsInt64, bind-ok}
use ganker.Rpc.Tensors.{
  datum_to_proto, datum_from_proto, adam_params_to_proto, adam_params_from_proto,
}
use ganker.Rpc.Requests.{
  create_training_run_request_to_proto, create_training_run_request_from_proto,
  forward_backward_request_to_proto, forward_backward_request_from_proto,
  optim_step_request_to_proto, optim_step_request_from_proto, save_weights_request_to_proto,
  save_weights_request_from_proto, optional_artifact_to_proto, optional_artifact_from_proto,
  refresh_weights_request_to_proto, refresh_weights_request_from_proto, sample_request_to_proto,
  sample_request_from_proto, get_telemetry_summary_request_to_proto,
  get_telemetry_summary_request_from_proto, download_artifact_file_request_to_proto,
  download_artifact_file_request_from_proto,
}
use ganker.Rpc.RoundTrip.Lists.{Carries, Pairwise, traverse-Pairwise}
use ganker.Rpc.RoundTrip.Values.{
  IsMode, IsKind, IsFileKind, FitsArtifact, Same, tuning_mode_carried, artifact_kind_carried,
  artifact_file_kind_carried, model_input_carried, artifact_carried,
}
use ganker.Rpc.RoundTrip.Tensors.{
  SameDatum, SameEntries, with_top_p, datum_carried, sampling_params_carried,
}

abbrev pub FitsCreate : CreateTrainingRunRequest → Type 0
FitsCreate q = IsMode q.tuning_mode × FitsInt64 q.lora_rank

abbrev pub FitsOptional : Option WeightArtifact → Type 0
FitsOptional none = Unit
FitsOptional (some a) = FitsArtifact a

abbrev pub FitsDownload : DownloadArtifactFileRequest → Type 0
FitsDownload q = FitsArtifact q.artifact × IsFileKind q.file_kind

module _ (P : Protobuf) where
  pub create_request_carried :
      (q : CreateTrainingRunRequest)
      → FitsCreate q
      → Carries
          (create_training_run_request_to_proto P)
          create_training_run_request_from_proto
          q
          (Same q)
  unfolding create_training_run_request_to_proto create_training_run_request_from_proto
  create_request_carried q (h, i) =
      let (m, k, sent, back, same) = tuning_mode_carried q.tuning_mode h in
      (_, q, bind-ok _ sent (bind-ok _ (P.int64_keeps _ i) refl), rw (back, same) refl, refl)

  pub save_request_carried :
      (q : SaveWeightsRequest)
      → IsKind q.kind
      → Carries save_weights_request_to_proto save_weights_request_from_proto q (Same q)
  unfolding save_weights_request_to_proto save_weights_request_from_proto
  save_request_carried q h =
      let (m, k, sent, back, same) = artifact_kind_carried q.kind h in
      (_, q, bind-ok _ sent refl, rw (back, same) refl, refl)

  optional_artifact_carried :
      (o : Option WeightArtifact)
      → FitsOptional o
      → Carries (optional_artifact_to_proto P) optional_artifact_from_proto o (Same o)
  optional_artifact_carried none h = (none, none, refl, refl, refl)
  optional_artifact_carried (some a) h =
      let (m, b, sent, back, same) = artifact_carried P a h in
      (some m, some b, bind-ok _ sent refl, bind-ok _ back refl, ap some same)

  pub refresh_request_carried :
      (q : RefreshWeightsRequest)
      → FitsOptional q.artifact
      → Carries (refresh_weights_request_to_proto P) refresh_weights_request_from_proto q (Same q)
  unfolding refresh_weights_request_to_proto refresh_weights_request_from_proto
  refresh_request_carried q h =
      let (m, k, sent, back, same) = optional_artifact_carried q.artifact h in
      (_, q, bind-ok _ sent refl, rw (back, same) refl, refl)

  pub summary_request_carried :
      (q : GetTelemetrySummaryRequest)
      → Carries
          (λ r. ok (get_telemetry_summary_request_to_proto r))
          (λ m. ok (get_telemetry_summary_request_from_proto m))
          q
          (Same q)
  unfolding get_telemetry_summary_request_to_proto get_telemetry_summary_request_from_proto
  summary_request_carried q = (_, q, refl, refl, refl)

  pub download_request_carried :
      (q : DownloadArtifactFileRequest)
      → FitsDownload q
      → Carries
          (download_artifact_file_request_to_proto P)
          download_artifact_file_request_from_proto
          q
          (Same q)
  unfolding download_artifact_file_request_to_proto download_artifact_file_request_from_proto
  download_request_carried q (h, i) =
      let (m, a, sent, back, same) = artifact_carried P q.artifact h in
      let (n, k, kind_sent, kind_back, kind_same) = artifact_file_kind_carried q.file_kind i in
      (
        _,
        q,
        bind-ok _ sent (bind-ok _ kind_sent refl),
        rw (back, same, kind_back, kind_same) refl,
        refl,
      )

module _ (P : Protobuf) (F : Float) where
  abbrev pub FitsDatum : Datum F.Real → Type 0
  FitsDatum d = All FitsInt64 d.model_input.token_ids

  abbrev pub FitsSample : SampleRequest F.Real → Type 0
  FitsSample q =
      All FitsInt64 q.prompt.token_ids
      × FitsInt64 q.sampling_params.max_tokens
      × FitsInt64 q.num_samples

  abbrev pub SameForward : ForwardBackwardRequest F.Real → ForwardBackwardRequest F.Real → Type 0
  SameForward q r =
      (r.context ≡ q.context)
      × (r.run_id ≡ q.run_id)
      × Pairwise (SameDatum P F) q.batch r.batch
      × (r.loss_fn ≡ q.loss_fn)
      × SameEntries P F q.loss_fn_config r.loss_fn_config

  abbrev pub sample_arrived : SampleRequest F.Real → SampleRequest F.Real
  sample_arrived q = record q { sampling_params = with_top_p P F q.sampling_params }

  pub forward_request_carried :
      (q : ForwardBackwardRequest F.Real)
      → All FitsDatum q.batch
      → Carries
          (forward_backward_request_to_proto P F)
          (λ m. ok (forward_backward_request_from_proto P F m))
          q
          (SameForward q)
  unfolding forward_backward_request_to_proto forward_backward_request_from_proto
  forward_request_carried q h =
      let (ms, sent, same) =
        traverse-Pairwise (datum_to_proto P F) (datum_from_proto P F) FitsDatum (SameDatum P F)
          (datum_carried P F) q.batch h in
      (
        _,
        _,
        bind-ok _ sent refl,
        refl,
        (refl, refl, same, refl, λ k. P.lookup-items F.Real k q.loss_fn_config),
      )

  pub step_request_carried :
      (q : OptimStepRequest F.Real)
      → Carries
          (λ r. ok (optim_step_request_to_proto P F r))
          (λ m. ok (optim_step_request_from_proto P F m))
          q
          (Same q)
  unfolding optim_step_request_to_proto optim_step_request_from_proto adam_params_to_proto
      adam_params_from_proto
  step_request_carried q = (_, q, refl, refl, refl)

  pub sample_request_carried :
      (q : SampleRequest F.Real)
      → FitsSample q
      → Carries
          (sample_request_to_proto P F)
          (λ m. ok (sample_request_from_proto P F m))
          q
          (λ r. r ≡ sample_arrived q)
  unfolding sample_request_to_proto sample_request_from_proto
  sample_request_carried q (h, i, j) =
      let (m, v, sent, back, same) = model_input_carried P q.prompt h in
      let (n, w, params_sent, params_back, params_same) =
        sampling_params_carried P F q.sampling_params i in
      (
        _,
        _,
        bind-ok _ sent (bind-ok _ params_sent (bind-ok _ (P.int64_keeps _ j) refl)),
        refl,
        ground arith,
      )
