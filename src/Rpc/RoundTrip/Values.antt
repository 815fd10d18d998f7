-- ===== src/Rpc/RoundTrip/Values.antt =====
-- The values without floats arrive as they were sent.
use ganker.Base.{◌≡◌, refl, map, All, arith}
use ganker.Base.Result.{ok}
use ganker.Contracts.{
  TuningMode, ArtifactKind, ArtifactFileKind, ModelInput, Usage, UsageBySource, TelemetrySummary,
  WeightArtifact, TrainingRun,
}
use ganker.Rpc.Protobuf.{Protobuf, FitsInt64, bind-ok}
use ganker.Rpc.Values.{
  tuning_mode_to_proto, tuning_mode_from_proto, artifact_kind_to_proto, artifact_kind_from_proto,
  artifact_file_kind_to_proto, artifact_file_kind_from_proto, model_input_to_proto,
  model_input_from_proto, usage_to_proto, usage_from_proto, usage_by_source_to_proto,
  usage_by_source_from_proto, telemetry_summary_to_proto, telemetry_summary_from_proto,
  weight_artifact_to_proto, weight_artifact_from_proto, training_run_to_proto,
  training_run_from_proto,
}
use ganker.Rpc.RoundTrip.Lists.{Carries, Pairwise-eq, traverse-Pairwise, traverse-int64}

-- The members of the enums.
abbrev pub IsMode : TuningMode → Type 0
IsMode (TuningMode.unknown_mode n) = ⊥
IsMode _ = Unit

abbrev pub IsKind : ArtifactKind → Type 0
IsKind (ArtifactKind.unknown_kind n) = ⊥
IsKind _ = Unit

abbrev pub IsFileKind : ArtifactFileKind → Type 0
IsFileKind (ArtifactFileKind.unknown_file_kind n) = ⊥
IsFileKind _ = Unit

-- Every int has 64 bits, and every enum is a member.
abbrev pub FitsUsage : Usage → Type 0
FitsUsage u =
    FitsInt64 u.input_tokens
    × FitsInt64 u.output_tokens
    × FitsInt64 u.training_steps
    × FitsInt64 u.samples

abbrev pub FitsSource : UsageBySource → Type 0
FitsSource v = FitsUsage v.usage × FitsInt64 v.event_count

abbrev pub FitsSummary : TelemetrySummary → Type 0
FitsSummary s = FitsUsage s.total × FitsInt64 s.event_count × All FitsSource s.by_source

abbrev pub FitsArtifact : WeightArtifact → Type 0
FitsArtifact a = IsKind a.kind × FitsInt64 a.checkpoint_version

abbrev pub FitsRun : TrainingRun → Type 0
FitsRun r = IsMode r.tuning_mode × FitsInt64 r.lora_rank × FitsInt64 r.checkpoint_version

abbrev pub Same : {A : Type 0} → A → A → Type 0
Same a b = b ≡ a

pub tuning_mode_carried :
    (m : TuningMode) → IsMode m → Carries tuning_mode_to_proto tuning_mode_from_proto m (Same m)
unfolding tuning_mode_to_proto tuning_mode_from_proto
tuning_mode_carried TuningMode.lora h = (_, _, refl, refl, refl)
tuning_mode_carried TuningMode.full h = (_, _, refl, refl, refl)
tuning_mode_carried (TuningMode.unknown_mode n) h = absurd h

pub artifact_kind_carried :
    (k : ArtifactKind)
    → IsKind k
    → Carries artifact_kind_to_proto artifact_kind_from_proto k (Same k)
unfolding artifact_kind_to_proto artifact_kind_from_proto
artifact_kind_carried ArtifactKind.full h = (_, _, refl, refl, refl)
artifact_kind_carried ArtifactKind.delta h = (_, _, refl, refl, refl)
artifact_kind_carried (ArtifactKind.unknown_kind n) h = absurd h

pub artifact_file_kind_carried :
    (k : ArtifactFileKind)
    → IsFileKind k
    → Carries artifact_file_kind_to_proto artifact_file_kind_from_proto k (Same k)
unfolding artifact_file_kind_to_proto artifact_file_kind_from_proto
artifact_file_kind_carried ArtifactFileKind.manifest h = (_, _, refl, refl, refl)
artifact_file_kind_carried ArtifactFileKind.payload h = (_, _, refl, refl, refl)
artifact_file_kind_carried (ArtifactFileKind.unknown_file_kind n) h = absurd h

module _ (P : Protobuf) where
  pub model_input_carried :
      (v : ModelInput)
      → All FitsInt64 v.token_ids
      → Carries (model_input_to_proto P) (λ m. ok (model_input_from_proto m)) v (Same v)
  unfolding model_input_to_proto model_input_from_proto
  model_input_carried v h = (_, _, rw (traverse-int64 P v.token_ids h) refl, refl, refl)

  pub usage_carried :
      (u : Usage)
      → FitsUsage u
      → Carries (usage_to_proto P) (λ m. ok (usage_from_proto m)) u (Same u)
  unfolding usage_to_proto usage_from_proto
  usage_carried u (h, i, j, k) = (
    _,
    _,
    bind-ok _ (P.int64_keeps _ h) (
        bind-ok _ (P.int64_keeps _ i)
          (bind-ok _ (P.int64_keeps _ j) (bind-ok _ (P.int64_keeps _ k) refl))),
    refl,
    refl,
  )

  source_carried :
      (v : UsageBySource)
      → FitsSource v
      → Carries (usage_by_source_to_proto P) (λ m. ok (usage_by_source_from_proto m)) v (Same v)
  unfolding usage_by_source_to_proto usage_by_source_from_proto
  source_carried v (h, i) =
      let (m, u, sent, back, same) = usage_carried v.usage h in
      (_, _, bind-ok _ sent (bind-ok _ (P.int64_keeps _ i) refl), refl, ground (arith))

  pub summary_carried :
      (s : TelemetrySummary)
      → FitsSummary s
      → Carries (telemetry_summary_to_proto P) (λ m. ok (telemetry_summary_from_proto m)) s (Same s)
  unfolding telemetry_summary_to_proto telemetry_summary_from_proto
  summary_carried s (h, i, j) =
      let (m, u, sent, back, same) = usage_carried s.total h in
      let (ms, all_sent, sources) =
        traverse-Pairwise _ usage_by_source_from_proto FitsSource Same source_carried s.by_source
          j in
      let all_same = Pairwise-eq s.by_source (map usage_by_source_from_proto ms) sources in
      (
        _,
        _,
        bind-ok _ sent (bind-ok _ all_sent (bind-ok _ (P.int64_keeps _ i) refl)),
        refl,
        ground (arith),
      )

  pub artifact_carried :
      (a : WeightArtifact)
      → FitsArtifact a
      → Carries (weight_artifact_to_proto P) weight_artifact_from_proto a (Same a)
  unfolding weight_artifact_to_proto weight_artifact_from_proto
  artifact_carried a (h, i) =
      let (m, k, sent, back, same) = artifact_kind_carried a.kind h in
      (_, a, bind-ok _ sent (bind-ok _ (P.int64_keeps _ i) refl), rw (back, same) refl, refl)

  pub run_carried :
      (r : TrainingRun)
      → FitsRun r
      → Carries (training_run_to_proto P) training_run_from_proto r (Same r)
  unfolding training_run_to_proto training_run_from_proto
  run_carried r (h, i, j) =
      let (m, k, sent, back, same) = tuning_mode_carried r.tuning_mode h in
      (
        _,
        r,
        bind-ok _ sent (bind-ok _ (P.int64_keeps _ i) (bind-ok _ (P.int64_keeps _ j) refl)),
        rw (back, same) refl,
        refl,
      )
