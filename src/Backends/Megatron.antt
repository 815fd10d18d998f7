-- ===== src/Backends/Megatron.antt =====
-- `MegatronTrainingBackend` of src/ganker/backends/megatron.py, over any runtime.
pub mod Batch
pub mod Methods
pub mod Steps
pub mod Outcomes
pub mod Runs
pub mod Calls
pub mod Ends
use ganker.Base.{
  ℕ, ◌+◌, String, ◌<>◌, Bool, true, false, not, ◌&&◌, ◌||◌, Option, some, none, List, [], ◌∷◌, ◌==◌,
  is_empty, if◌then◌else◌,
}
use ganker.Base.Int.{ℤ, pos, ◌+ℤ◌}
use ganker.Base.Float.{Float}
use ganker.Base.Result.{
  Error, invalid_request, not_found, other_error, Result, ok, err, Exec, raise_if, raise, pure,
  gets, lift, or_raise, modify, ◌>>=◌, ◌>>◌,
}
use ganker.Base.Dict.{Dict, lookup, insert, values}
use ganker.Base.Text.{show_padded}
use ganker.Base.File.{Json, int, str, JsonObject}
use ganker.Contracts.{
  TuningMode, lora, full, unknown_mode, ArtifactKind, Datum, ForwardBackwardOutput, AdamParams,
  Usage, no_usage, WeightArtifact, TrainingRun,
}
use ganker.Artifacts
use ganker.Backends.{Hosted, on_files, ForwardBackwardResult, OptimStepResult, TrainingBackend}
use ganker.Backends.Fake.Training.{check_run}
use ganker.Backends.Megatron.Batch.{TensorBatch, Torch, token_count, datums_to_tensor_batch}

-- The runtime behind the protocol of the same name: it has a state of its own, may use the files,
-- and may raise. The config that `create_run` gets from the coordinator never changes, so it is part
-- of the runtime here. `save_weights` gives the payload, which can be `None`.
pub record MegatronRuntime (R : Type 0) : Type 1 where
  pub State : Type 0
  pub Handle : Type 0
  pub create_run : String → TuningMode → ℤ → Exec (Hosted State) Handle
  pub forward_backward :
      Handle → TensorBatch R → String → Dict R → Exec (Hosted State) (ForwardBackwardOutput R)
  pub optim_step : Handle → AdamParams R → Exec (Hosted State) (Unit {0})
  pub save_weights : Handle → String → ℤ → ArtifactKind → Exec (Hosted State) (Option JsonObject)
  pub shutdown : Handle → Exec (Hosted State) (Unit {0})

pub data RunStatus : Type 0 where
  ready gradients_pending checkpointing failed closed : RunStatus

abbrev pub status_value : RunStatus → String
status_value ready = "ready"
status_value gradients_pending = "gradients_pending"
status_value checkpointing = "checkpointing"
status_value failed = "failed"
status_value closed = "closed"

-- `state.status is expected`
abbrev pub same_status : RunStatus → RunStatus → Bool
same_status ready ready = true
same_status gradients_pending gradients_pending = true
same_status checkpointing checkpointing = true
same_status failed failed = true
same_status closed closed = true
same_status _ _ = false

pub record RunState (H : Type 0) : Type 0 where
  pub run_id : String
  pub base_model : String
  pub tuning_mode : TuningMode
  pub lora_rank : ℤ
  pub handle : H
  pub status : RunStatus
  pub gradient_version : ℤ
  pub optimizer_step : ℤ
  pub checkpoint_version : ℤ

-- The coordinator's fields, with the state of its runtime.
pub record State {R : Type 0} (M : MegatronRuntime R) : Type 0 where
  pub run_counter : ℕ
  pub runs : Dict (RunState M.Handle)
  pub runtime : M.State

-- The part of `MegatronBackendConfig` that goes into a payload.
pub record PayloadConfig : Type 0 where
  pub global_batch_size : ℤ
  pub micro_batch_size : ℤ
  pub pipeline_model_parallel_size : ℤ
  pub sequence_length : ℤ
  pub tensor_model_parallel_size : ℤ

-- `state.status not in (_RunStatus.FAILED, _RunStatus.CLOSED)`
abbrev pub is_active : RunStatus → Bool
is_active failed = false
is_active closed = false
is_active _ = true

-- `tuning_mode.name`, which an int that is no member does not have
abbrev pub mode_name : TuningMode → Result String
mode_name lora = ok "LORA"
mode_name full = ok "FULL"
mode_name (unknown_mode n) = err (other_error "'int' object has no attribute 'name'")

-- `a.update(b)`
unfoldable pub update : {V : Type 0} → Dict V → Dict V → Dict V
update a [] = a
update a ((k, v) ∷ b) = update (insert k v a) b

unfoldable pub run_name : ℕ → String
run_name n = "meg-run-" <> show_padded 6 n

abbrev pub run_message : {H : Type 0} → RunState H → TrainingRun
run_message r = record {
  run_id = r.run_id;
  base_model = r.base_model;
  tuning_mode = r.tuning_mode;
  lora_rank = r.lora_rank;
  checkpoint_version = r.checkpoint_version;
}

abbrev pub new_run : {H : Type 0} → String → String → TuningMode → ℤ → H → RunState H
new_run run_id base_model mode rank handle = record {
  run_id = run_id;
  base_model = base_model;
  tuning_mode = mode;
  lora_rank = rank;
  handle = handle;
  status = ready;
  gradient_version = pos 0;
  optimizer_step = pos 0;
  checkpoint_version = pos 0;
}

-- `[… for state in runs if active][0]`, if there is one
unfoldable pub first_active : {H : Type 0} → List (RunState H) → Option String
first_active [] = none
first_active (r ∷ rs) = if is_active r.status then some r.run_id else first_active rs

abbrev pub is_none : {A : Type 0} → Option A → Bool
is_none none = true
is_none (some a) = false

abbrev pub or_empty : Option JsonObject → JsonObject
or_empty none = []
or_empty (some payload) = payload

abbrev pub text_or : String → Option String → String
text_or s none = s
text_or s (some t) = t

-- `except Exception:` with the recovery `f`, which raises again
abbrev pub on_error : {S A : Type 0} → Exec S A → (S → S) → Exec S A
on_error m f s = let (r, s') = m s in elim r [ ok a ↦ (ok a, s') | err e ↦ (err e, f s') ]

module _ {R : Type 0} {M : MegatronRuntime R} where
  -- A call of the runtime.
  abbrev pub on_runtime : {A : Type 0} → Exec (Hosted M.State) A → Exec (Hosted (State M)) A
  on_runtime m h =
      let (r, x) = m (record { own = h.own.runtime; files = h.files }) in
      (r, record { own = record h.own { runtime = x.own }; files = x.files })

  -- The change of the object `self._runs[run_id]`.
  abbrev pub put_run : String → RunState M.Handle → Hosted (State M) → Hosted (State M)
  put_run run_id r h = record h { own = record h.own { runs = insert run_id r h.own.runs } }

  unfoldable pub get_run : String → Exec (Hosted (State M)) (RunState M.Handle)
  get_run run_id = do
    raise_if (is_empty run_id) (invalid_request "run_id is required")
    found ← gets (λ h. lookup run_id h.own.runs)
    or_raise found (not_found ("unknown run_id=" <> run_id))

  unfoldable pub ensure_no_active_run : Exec (Hosted (State M)) (Unit {0})
  ensure_no_active_run = do
    active ← gets (λ h. first_active (values h.own.runs))
    raise_if (not (is_none active)) (
        invalid_request (
          "Megatron backend supports one active run per actor; active run_id="
          <> text_or "" active))

  unfoldable pub require_status :
      RunState M.Handle → RunStatus → String → Exec (Hosted (State M)) (Unit {0})
  require_status state expected operation = raise_if (not (same_status state.status expected)) (
      invalid_request (
        "cannot "
        <> (operation
            <> (" run_id="
                <> (state.run_id
                    <> (" while run status is "
                        <> (status_value state.status
                            <> ("; expected " <> status_value expected))))))))
