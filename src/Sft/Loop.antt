-- ===== src/Sft/Loop.antt =====
-- The training loop over the public client.
-- examples/sft/loop.py
pub mod Counting
pub mod Rounds
pub mod Report
pub mod Local
use ganker.Base.{
  ℕ, ◌+◌, String, Bool, true, false, not, ◌&&◌, Option, some, none, List, [], ◌∷◌, ◌++◌, length,
  is_nil, if◌then◌else◌, ◌==◌,
}
use ganker.Base.Int.{ℤ, pos, ◌+ℤ◌, is_nonpos, is_neg, leb_ℤ, eqb_ℤ, modulo}
use ganker.Base.Text.{show_ℤ}
use ganker.Base.Float.{Float}
use ganker.Base.Result.{
  Error, value_error, Result, ok, err, Exec, pure, raise, raise_if, ◌>>=◌, ◌>>◌,
}
use ganker.Contracts.{
  TuningMode, lora, unknown_mode, ArtifactKind, delta, Datum, SaveWeightsResponse, is_nonzero,
}
use ganker.Client
use ganker.Client.{Tuning, member, named, many, ServiceClient, TrainingClient}

pub record SftRunSummary (R : Type 0) : Type 0 where
  pub succeeded : Bool
  pub run_id : String
  pub base_model : String
  pub tuning : String
  pub steps : ℕ
  pub losses : List R
  pub final_loss : Option R
  pub optimizer_step : ℤ
  pub checkpoint_version : ℤ
  pub artifact_path : String
  pub manifest_path : String
  pub input_tokens : ℤ
  pub training_steps : ℤ

-- An int that is no member is shown as it is.
unfoldable pub tuning_name : Tuning → String
tuning_name (member lora) = "lora"
tuning_name (member TuningMode.full) = "full"
tuning_name (member (unknown_mode n)) = show_ℤ n
tuning_name (named s) = s

-- The variables of the loop.
pub record Progress (R : Type 0) : Type 0 where
  pub losses : List R
  pub input_tokens : ℤ
  pub training_steps : ℤ
  pub optimizer_step : ℤ
  pub checkpoint_version : ℤ
  pub saved : Option SaveWeightsResponse

abbrev pub last? : {A : Type 0} → List A → Option A
last? [] = none
last? (x ∷ []) = some x
last? (x ∷ y ∷ ys) = last? (y ∷ ys)

module _ (F : Float) {S : Type 0} (training : TrainingClient F.Real S) where
  -- The save at the end of a round.
  unfoldable pub save_if_due :
      ℤ → ArtifactKind → ℤ → Option SaveWeightsResponse → Exec S (Option SaveWeightsResponse)
  save_if_due save_every artifact_kind optimizer_step saved =
      let save =
        Client.save_weights F training artifact_kind "" >>= λ response. pure (some response) in
      if is_nonzero save_every && eqb_ℤ (modulo optimizer_step save_every) (pos 0)
      then save
      else pure saved

  unfoldable pub sft_step :
      F.Real → ℤ → ArtifactKind → List (Datum F.Real) → Progress F.Real → Exec S (Progress F.Real)
  unfolding save_if_due
  sft_step learning_rate save_every artifact_kind batch p = do
    fb ← Client.forward_backward F training (many batch) "cross_entropy" none ""
    step ← Client.optim_step F training none (some learning_rate) ""
    saved ← save_if_due save_every artifact_kind step.optimizer_step p.saved
    pure (record {
      losses = p.losses ++ fb.output.loss ∷ [];
      input_tokens = p.input_tokens +ℤ fb.usage.input_tokens;
      training_steps = p.training_steps +ℤ step.usage.training_steps;
      optimizer_step = step.optimizer_step;
      checkpoint_version = step.checkpoint_version;
      saved = saved;
    })

  unfoldable pub sft_steps :
      ℤ
      → F.Real
      → ℤ
      → ArtifactKind
      → List (List (Datum F.Real))
      → Progress F.Real
      → Exec S (Progress F.Real)
  sft_steps max_steps learning_rate save_every artifact_kind [] p = pure p
  sft_steps max_steps learning_rate save_every artifact_kind (batch ∷ dataset) p =
      let more = sft_step learning_rate save_every artifact_kind batch p >>= λ q.
      sft_steps max_steps learning_rate save_every artifact_kind dataset q in
      if leb_ℤ max_steps (pos (length p.losses)) then pure p else more

  -- `if saved is None`
  unfoldable pub save_if_none :
      ArtifactKind → Option SaveWeightsResponse → Exec S SaveWeightsResponse
  save_if_none artifact_kind none = Client.save_weights F training artifact_kind ""
  save_if_none artifact_kind (some response) = pure response

abbrev pub new_progress : {R : Type 0} → ℤ → Progress R
new_progress version = record {
  losses = [];
  input_tokens = pos 0;
  training_steps = pos 0;
  optimizer_step = pos 0;
  checkpoint_version = version;
  saved = none;
}

-- `ArtifactKind.DELTA if _tuning_name(tuning) == "lora" else ArtifactKind.FULL`
unfoldable pub kind_of : Tuning → ArtifactKind
unfolding tuning_name
kind_of tuning = if tuning_name tuning == "lora" then delta else ArtifactKind.full

module _ (F : Float) {S : Type 0} (client : ServiceClient F.Real S) where
  unfoldable pub run_sft :
      String
      → List (List (Datum F.Real))
      → Tuning
      → ℤ
      → F.Real
      → ℤ
      → ℤ
      → Exec S (SftRunSummary F.Real)
  unfolding tuning_name
  run_sft base_model dataset tuning lora_rank learning_rate max_steps save_every = do
    raise_if (is_nonpos max_steps) (value_error "max_steps must be positive")
    raise_if (F.le learning_rate (F.of_int (pos 0))) (value_error "learning_rate must be positive")
    raise_if (is_neg save_every) (value_error "save_every cannot be negative")
    training ← Client.create_training_client F client base_model tuning lora_rank ""
    p ←
        sft_steps F training max_steps learning_rate save_every (kind_of tuning) dataset
          (new_progress training.run.checkpoint_version)
    raise_if (is_nil p.losses) (value_error "dataset produced no SFT steps")
    saved ← save_if_none F training (kind_of tuning) p.saved
    pure (record {
      succeeded = true;
      run_id = training.run.run_id;
      base_model = base_model;
      tuning = tuning_name tuning;
      steps = length p.losses;
      losses = p.losses;
      final_loss = last? p.losses;
      optimizer_step = p.optimizer_step;
      checkpoint_version = p.checkpoint_version;
      artifact_path = saved.artifact.payload_path;
      manifest_path = saved.artifact.manifest_path;
      input_tokens = p.input_tokens;
      training_steps = p.training_steps;
    })
