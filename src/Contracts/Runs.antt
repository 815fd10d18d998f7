-- ===== src/Contracts/Runs.antt =====
-- Usage, telemetry, artifacts and runs of src/ganker/contracts.py.
use ganker.Base.{String, Bool, false, not, ◌||◌, ◌≡◌, List, arith}
use ganker.Base.Int.{ℤ, pos, eqb_ℤ, ◌+ℤ◌, +ℤ_assoc, +ℤ_comm, zero-+ℤ}
use ganker.Contracts.Values.{TuningMode, ArtifactKind}

pub record Usage : Type 0 where
  pub input_tokens : ℤ
  pub output_tokens : ℤ
  pub training_steps : ℤ
  pub samples : ℤ

abbrev pub no_usage : Usage
no_usage = record {
  input_tokens = pos 0;
  output_tokens = pos 0;
  training_steps = pos 0;
  samples = pos 0;
}

-- Python's `bool(n)` for an int.
abbrev pub is_nonzero : ℤ → Bool
is_nonzero n = not (eqb_ℤ n (pos 0))

unfoldable pub has_activity : Usage → Bool
has_activity u =
    is_nonzero u.input_tokens
    || (is_nonzero u.output_tokens || (is_nonzero u.training_steps || is_nonzero u.samples))

-- `add` returns the changed `self`.
unfoldable pub add : Usage → Usage → Usage
add self other = record {
  input_tokens = self.input_tokens +ℤ other.input_tokens;
  output_tokens = self.output_tokens +ℤ other.output_tokens;
  training_steps = self.training_steps +ℤ other.training_steps;
  samples = self.samples +ℤ other.samples;
}

pub add_assoc : (u v w : Usage) → add (add u v) w ≡ add u (add v w)
unfolding add
add_assoc u v w = λ i. record {
  input_tokens = +ℤ_assoc u.input_tokens v.input_tokens w.input_tokens i;
  output_tokens = +ℤ_assoc u.output_tokens v.output_tokens w.output_tokens i;
  training_steps = +ℤ_assoc u.training_steps v.training_steps w.training_steps i;
  samples = +ℤ_assoc u.samples v.samples w.samples i;
}

pub add_comm : (u v : Usage) → add u v ≡ add v u
unfolding add
add_comm u v = λ i. record {
  input_tokens = +ℤ_comm u.input_tokens v.input_tokens i;
  output_tokens = +ℤ_comm u.output_tokens v.output_tokens i;
  training_steps = +ℤ_comm u.training_steps v.training_steps i;
  samples = +ℤ_comm u.samples v.samples i;
}

pub no_usage-add : (u : Usage) → add no_usage u ≡ u
unfolding add
no_usage-add u = λ i. record {
  input_tokens = zero-+ℤ u.input_tokens i;
  output_tokens = zero-+ℤ u.output_tokens i;
  training_steps = zero-+ℤ u.training_steps i;
  samples = zero-+ℤ u.samples i;
}

pub has_activity-false : (u : Usage) → has_activity u ≡ false → u ≡ no_usage
unfolding has_activity
has_activity-false u h = ground arith

pub record UsageEvent : Type 0 where
  pub request_id : String
  pub run_id : String
  pub event_source : String
  pub usage : Usage

pub record UsageBySource : Type 0 where
  pub event_source : String
  pub usage : Usage
  pub event_count : ℤ

pub record TelemetrySummary : Type 0 where
  pub run_id : String
  pub total : Usage
  pub event_count : ℤ
  pub by_source : List UsageBySource

pub record WeightArtifact : Type 0 where
  pub run_id : String
  pub checkpoint_version : ℤ
  pub kind : ArtifactKind
  pub manifest_path : String
  pub payload_path : String

pub record TrainingRun : Type 0 where
  pub run_id : String
  pub base_model : String
  pub tuning_mode : TuningMode
  pub lora_rank : ℤ
  pub checkpoint_version : ℤ
