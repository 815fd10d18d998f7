-- ===== src/Backends/Fake/Training.antt =====
-- `FakeTrainingBackend` of src/ganker/backends/fake.py
pub mod Runs
pub mod Calls
pub mod Returning
use ganker.Base.{
  ℕ, ◌+◌, String, ◌<>◌, Bool, true, false, not, ◌&&◌, Option, some, none, List, [], ◌∷◌, ◌++◌, ◌==◌,
  is_empty, if◌then◌else◌, length, is_nil,
}
use ganker.Base.Int.{ℤ, pos, negsuc, ◌+ℤ◌, is_neg, is_nonpos}
use ganker.Base.Float.{Float}
use ganker.Base.Result.{
  Error, invalid_request, not_found, Result, ok, err, Exec, bind, unless, raise_if, raise, pure,
  gets, lift, or_raise, modify, ◌>>=◌, ◌>>◌,
}
use ganker.Base.Dict.{Dict, lookup, insert, values}
use ganker.Base.Text.{show_ℤ, show_padded}
use ganker.Base.File.{Json, int, str, JsonObject, FileSystem}
use ganker.Contracts.{
  TuningMode, lora, full, unknown_mode, ArtifactKind, Datum, Num, float, TensorData,
  ForwardBackwardOutput, AdamParams, Usage, no_usage, WeightArtifact, TrainingRun,
}
use ganker.Artifacts
use ganker.Backends.{Hosted, on_files, ForwardBackwardResult, OptimStepResult, TrainingBackend}

pub record RunState : Type 0 where
  pub run_id : String
  pub base_model : String
  pub tuning_mode : TuningMode
  pub lora_rank : ℤ
  pub gradient_version : ℤ
  pub optimizer_step : ℤ
  pub checkpoint_version : ℤ

-- `run_counter` is the number that `next(self._run_counter)` returns next.
pub record State : Type 0 where
  pub run_counter : ℕ
  pub runs : Dict RunState

abbrev pub init : State
init = record { run_counter = 1; runs = [] }

-- The number of a mode, which is also its `str`.
abbrev pub mode_number : TuningMode → ℤ
mode_number lora = pos 1
mode_number full = pos 2
mode_number (unknown_mode n) = n

abbrev pub is_member : TuningMode → Bool
is_member lora = true
is_member full = true
is_member (unknown_mode n) = false

abbrev pub is_lora : TuningMode → Bool
is_lora lora = true
is_lora _ = false

abbrev pub is_full : TuningMode → Bool
is_full full = true
is_full _ = false

-- The guards that both training backends put before `create_training_run`.
unfoldable pub check_run : String → TuningMode → ℤ → Result (Unit {0})
check_run base_model mode rank =
    unless (is_empty base_model) (invalid_request "base_model is required") (
      unless (not (is_member mode))
        (invalid_request ("unsupported tuning mode: " <> show_ℤ (mode_number mode)))
        (unless (is_lora mode && is_nonpos rank)
          (invalid_request "lora_rank must be positive for LoRA runs")
          (unless (is_full mode && is_neg rank) (invalid_request "lora_rank cannot be negative")
            (ok tt))))

unfoldable pub run_name : ℕ → String
run_name n = "run-" <> show_padded 6 n

abbrev pub new_run : String → String → TuningMode → ℤ → RunState
new_run run_id base_model mode rank = record {
  run_id = run_id;
  base_model = base_model;
  tuning_mode = mode;
  lora_rank = rank;
  gradient_version = pos 0;
  optimizer_step = pos 0;
  checkpoint_version = pos 0;
}

abbrev pub run_message : RunState → TrainingRun
run_message r = record {
  run_id = r.run_id;
  base_model = r.base_model;
  tuning_mode = r.tuning_mode;
  lora_rank = r.lora_rank;
  checkpoint_version = r.checkpoint_version;
}

-- `self._runs[run_id]` and its object, which the methods change in place.
abbrev pub put_run : String → RunState → Hosted State → Hosted State
put_run run_id r h = record h { own = record h.own { runs = insert run_id r h.own.runs } }

unfoldable pub get_run : String → Exec (Hosted State) RunState
get_run run_id = do
  raise_if (is_empty run_id) (invalid_request "run_id is required")
  found ← gets (λ h. lookup run_id h.own.runs)
  or_raise found (not_found ("unknown run_id=" <> run_id))

unfoldable pub create_training_run : String → TuningMode → ℤ → Exec (Hosted State) TrainingRun
create_training_run base_model mode rank = do
  lift (check_run base_model mode rank)
  run_id ← gets (λ h. run_name h.own.run_counter)
  let r = new_run run_id base_model mode rank
  modify (λ h. record h { own = record h.own { run_counter = h.own.run_counter + 1 } })
  modify (put_run run_id r)
  pure (run_message r)

-- `len(datum.model_input.token_ids)` of all data, or the error of the first datum with no tokens
unfoldable pub count_tokens : {R : Type 0} → List (Datum R) → ℕ → Result ℕ
count_tokens [] n = ok n
count_tokens (d ∷ ds) n =
    let rest = count_tokens ds (n + length d.model_input.token_ids) in
    elim d.model_input.token_ids [
      | [] ↦ err (invalid_request "datum.model_input.token_ids cannot be empty")
      | t ∷ ts ↦ rest
    ]

module _ (F : Float) where
  -- `TensorData.from_floats(-0.01 * (index + 1) for …)` from `index` on
  unfoldable pub fake_logprobs : ℕ → List ℤ → List (Num F.Real)
  fake_logprobs index [] = []
  fake_logprobs index (t ∷ ts) =
      float (F.mul (F.literal (negsuc 0) 2) (F.of_int (pos (index + 1))))
      ∷ fake_logprobs (index + 1) ts

  unfoldable pub fake_outputs : List (Datum F.Real) → List (Dict (TensorData F.Real))
  fake_outputs [] = []
  fake_outputs (d ∷ ds) =
      (("logprobs", record { values = fake_logprobs 0 d.model_input.token_ids }) ∷ [])
      ∷ fake_outputs ds

  unfoldable pub loss_factor : String → F.Real
  loss_factor loss_fn =
      if loss_fn == "cross_entropy"
      then F.literal (pos 10) 1
      else if loss_fn == "sft"
      then F.literal (pos 10) 1
      else if loss_fn == "dpo"
      then F.literal (pos 20) 1
      else if loss_fn == "importance_sampling"
      then F.literal (pos 20) 1
      else if loss_fn == "ppo"
      then F.literal (pos 30) 1
      else if loss_fn == "rl"
      then F.literal (pos 30) 1
      else F.literal (pos 10) 1

  unfoldable pub fake_loss : ℕ → String → Dict F.Real → F.Real
  fake_loss token_count loss_fn config =
      F.add
        (F.div (F.mul (F.of_int (pos token_count)) (loss_factor loss_fn)) (F.literal (pos 1000) 1))
        (F.div (F.sum (values config)) (F.literal (pos 10000) 1))

  unfoldable pub forward_backward :
      String
      → List (Datum F.Real)
      → String
      → Dict F.Real
      → Exec (Hosted State) (ForwardBackwardResult F.Real)
  unfolding get_run
  forward_backward run_id batch loss_fn config = do
    state ← get_run run_id
    raise_if (is_nil batch) (invalid_request "data cannot be empty")
    raise_if (is_empty loss_fn) (invalid_request "loss_fn is required")
    token_count ← lift (count_tokens batch 0)
    let state' = record state { gradient_version = state.gradient_version +ℤ pos 1 }
    modify (put_run run_id state')
    let loss = fake_loss token_count loss_fn config
    pure (record {
      run_id = run_id;
      output = record {
        loss = loss;
        metrics = ("loss", loss) ∷ [];
        loss_fn_outputs = fake_outputs batch;
      };
      gradient_version = state'.gradient_version;
      usage = record no_usage { input_tokens = pos token_count };
    })

  unfoldable pub optim_step : String → AdamParams F.Real → Exec (Hosted State) OptimStepResult
  unfolding get_run
  optim_step run_id params = do
    state ← get_run run_id
    raise_if (F.le params.learning_rate (F.of_int (pos 0)))
        (invalid_request "learning_rate must be positive")
    let state' = record state {
      optimizer_step = state.optimizer_step +ℤ pos 1;
      checkpoint_version = state.checkpoint_version +ℤ pos 1;
    }
    modify (put_run run_id state')
    pure (record {
      run_id = run_id;
      optimizer_step = state'.optimizer_step;
      checkpoint_version = state'.checkpoint_version;
      usage = record no_usage { training_steps = pos 1 };
    })

unfoldable pub payload_of : RunState → JsonObject
payload_of r =
    ("backend", str "fake")
    ∷ ("base_model", str r.base_model)
    ∷ ("checkpoint_version", int r.checkpoint_version)
    ∷ ("gradient_version", int r.gradient_version)
    ∷ ("lora_rank", int r.lora_rank)
    ∷ ("optimizer_step", int r.optimizer_step)
    ∷ ("run_id", str r.run_id)
    ∷ ("tuning_mode", int (mode_number r.tuning_mode))
    ∷ []

unfoldable pub save_weights : String → String → ArtifactKind → Exec (Hosted State) WeightArtifact
unfolding get_run payload_of
save_weights root run_id kind = do
  state ← get_run run_id
  on_files (Artifacts.write root state.run_id state.checkpoint_version kind (payload_of state))

-- The backend behind the protocol, with its artifact store under `root`.
abbrev pub fake_training : (F : Float) → String → TrainingBackend F.Real
fake_training F root = record {
  State = State;
  create_training_run = create_training_run;
  forward_backward = forward_backward F;
  optim_step = optim_step F;
  save_weights = save_weights root;
}
