-- ===== src/Rpc/Values.antt =====
-- The conversions of the values inside requests and responses.
-- src/ganker/rpc/conversion.py
use ganker.Base.{String, ◌<>◌, map, if◌then◌else◌}
use ganker.Base.Int.{ℤ, pos, eqb_ℤ}
use ganker.Base.Text.{show_ℤ}
use ganker.Base.Result.{Error, invalid_request, Result, ok, err}
use ganker.Contracts.{
  RequestContext, TuningMode, ArtifactKind, ArtifactFileKind, ModelInput, Usage, UsageBySource,
  TelemetrySummary, WeightArtifact, TrainingRun,
}
use ganker.Rpc.Wire
use ganker.Rpc.Protobuf.{Protobuf, ◌>>=◌, traverse}

abbrev unsupported : String → ℤ → Error
unsupported what n = invalid_request ("unsupported " <> what <> ": " <> show_ℤ n)

unfoldable pub tuning_mode_to_proto : TuningMode → Result ℤ
tuning_mode_to_proto TuningMode.lora = ok (pos 1)
tuning_mode_to_proto TuningMode.full = ok (pos 2)
tuning_mode_to_proto (TuningMode.unknown_mode n) = err (unsupported "tuning mode" n)

unfoldable pub tuning_mode_from_proto : ℤ → Result TuningMode
tuning_mode_from_proto n =
    if eqb_ℤ n (pos 1)
    then ok TuningMode.lora
    else if eqb_ℤ n (pos 2)
    then ok TuningMode.full
    else err (unsupported "tuning mode" n)

unfoldable pub artifact_kind_to_proto : ArtifactKind → Result ℤ
artifact_kind_to_proto ArtifactKind.full = ok (pos 1)
artifact_kind_to_proto ArtifactKind.delta = ok (pos 2)
artifact_kind_to_proto (ArtifactKind.unknown_kind n) = err (unsupported "artifact kind" n)

unfoldable pub artifact_kind_from_proto : ℤ → Result ArtifactKind
artifact_kind_from_proto n =
    if eqb_ℤ n (pos 1)
    then ok ArtifactKind.full
    else if eqb_ℤ n (pos 2)
    then ok ArtifactKind.delta
    else err (unsupported "artifact kind" n)

unfoldable pub artifact_file_kind_to_proto : ArtifactFileKind → Result ℤ
artifact_file_kind_to_proto ArtifactFileKind.manifest = ok (pos 1)
artifact_file_kind_to_proto ArtifactFileKind.payload = ok (pos 2)
artifact_file_kind_to_proto (ArtifactFileKind.unknown_file_kind n) =
    err (unsupported "artifact file kind" n)

unfoldable pub artifact_file_kind_from_proto : ℤ → Result ArtifactFileKind
artifact_file_kind_from_proto n =
    if eqb_ℤ n (pos 1)
    then ok ArtifactFileKind.manifest
    else if eqb_ℤ n (pos 2)
    then ok ArtifactFileKind.payload
    else err (unsupported "artifact file kind" n)

abbrev pub context_to_proto : RequestContext → Wire.RequestContext
context_to_proto value = record { request_id = value.request_id }

abbrev pub context_from_proto : Wire.RequestContext → RequestContext
context_from_proto value = record { request_id = value.request_id }

module _ (P : Protobuf) where
  unfoldable pub model_input_to_proto : ModelInput → Result Wire.ModelInput
  model_input_to_proto value = do
    token_ids ← traverse P.int64 value.token_ids
    ok (record { token_ids = token_ids; text = value.text })

  unfoldable pub usage_to_proto : Usage → Result Wire.Usage
  usage_to_proto value = do
    input_tokens ← P.int64 value.input_tokens
    output_tokens ← P.int64 value.output_tokens
    training_steps ← P.int64 value.training_steps
    samples ← P.int64 value.samples
    ok (record {
      input_tokens = input_tokens;
      output_tokens = output_tokens;
      training_steps = training_steps;
      samples = samples;
    })

unfoldable pub model_input_from_proto : Wire.ModelInput → ModelInput
model_input_from_proto value = record { token_ids = value.token_ids; text = value.text }

unfoldable pub usage_from_proto : Wire.Usage → Usage
usage_from_proto value = record {
  input_tokens = value.input_tokens;
  output_tokens = value.output_tokens;
  training_steps = value.training_steps;
  samples = value.samples;
}

module _ (P : Protobuf) where
  unfoldable pub usage_by_source_to_proto : UsageBySource → Result Wire.UsageBySource
  usage_by_source_to_proto value = do
    usage ← usage_to_proto P value.usage
    event_count ← P.int64 value.event_count
    ok (record { event_source = value.event_source; usage = usage; event_count = event_count })

  unfoldable pub telemetry_summary_to_proto : TelemetrySummary → Result Wire.TelemetrySummary
  telemetry_summary_to_proto value = do
    total ← usage_to_proto P value.total
    by_source ← traverse usage_by_source_to_proto value.by_source
    event_count ← P.int64 value.event_count
    ok (record {
      run_id = value.run_id;
      total = total;
      event_count = event_count;
      by_source = by_source;
    })

  unfoldable pub weight_artifact_to_proto : WeightArtifact → Result Wire.WeightArtifact
  weight_artifact_to_proto value = do
    kind ← artifact_kind_to_proto value.kind
    checkpoint_version ← P.int64 value.checkpoint_version
    ok (record {
      run_id = value.run_id;
      checkpoint_version = checkpoint_version;
      kind = kind;
      manifest_path = value.manifest_path;
      payload_path = value.payload_path;
    })

  unfoldable pub training_run_to_proto : TrainingRun → Result Wire.TrainingRun
  training_run_to_proto value = do
    tuning_mode ← tuning_mode_to_proto value.tuning_mode
    lora_rank ← P.int64 value.lora_rank
    checkpoint_version ← P.int64 value.checkpoint_version
    ok (record {
      run_id = value.run_id;
      base_model = value.base_model;
      tuning_mode = tuning_mode;
      lora_rank = lora_rank;
      checkpoint_version = checkpoint_version;
    })

unfoldable pub usage_by_source_from_proto : Wire.UsageBySource → UsageBySource
usage_by_source_from_proto value = record {
  event_source = value.event_source;
  usage = usage_from_proto value.usage;
  event_count = value.event_count;
}

unfoldable pub telemetry_summary_from_proto : Wire.TelemetrySummary → TelemetrySummary
telemetry_summary_from_proto value = record {
  run_id = value.run_id;
  total = usage_from_proto value.total;
  event_count = value.event_count;
  by_source = map usage_by_source_from_proto value.by_source;
}

unfoldable pub weight_artifact_from_proto : Wire.WeightArtifact → Result WeightArtifact
weight_artifact_from_proto value = do
  kind ← artifact_kind_from_proto value.kind
  ok (record {
    run_id = value.run_id;
    checkpoint_version = value.checkpoint_version;
    kind = kind;
    manifest_path = value.manifest_path;
    payload_path = value.payload_path;
  })

unfoldable pub training_run_from_proto : Wire.TrainingRun → Result TrainingRun
training_run_from_proto value = do
  tuning_mode ← tuning_mode_from_proto value.tuning_mode
  ok (record {
    run_id = value.run_id;
    base_model = value.base_model;
    tuning_mode = tuning_mode;
    lora_rank = value.lora_rank;
    checkpoint_version = value.checkpoint_version;
  })
