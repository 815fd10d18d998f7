-- ===== src/Backends/Fake/Training/Calls.antt =====
-- Runs of many calls, and what each call returns and changes.
use ganker.Base.{
  ℕ, ◌+◌, String, ◌≡◌, sym, some, none, List, [], ◌∷◌, arith, ◌==◌, if◌then◌else◌, Option-cases,
  inl, inr, length,
}
use mathlib.Core.Path.{subst}
use ganker.Base.Int.{ℤ, pos, ◌+ℤ◌}
use ganker.Base.Float.{Float}
use ganker.Base.File.{FileSystem}
use ganker.Base.Result.{Result-cases, KeepsOnRaise, KeepsOnRaise-intro, ok}
use ganker.Base.Dict.{Dict, lookup, insert, lookup-nil, lookup-insert}
use ganker.Contracts.{TuningMode, Datum, AdamParams, ArtifactKind, TrainingRun, no_usage}
use ganker.Artifacts.RoundTrip.{write_failed}
use ganker.Backends.{Hosted, ForwardBackwardResult, OptimStepResult}
use ganker.Backends.Fake.Training.{
  RunState, State, init, run_name, new_run, payload_of, put_run, create_training_run,
  forward_backward, optim_step, save_weights, count_tokens,
}
use ganker.Backends.Fake.Training.Runs.{
  IsValid, fresh_name, create_training_run-IsValid, forward_backward-IsValid, optim_step-IsValid,
  save_weights-own,
}

-- The calls of a client to the training backend.
pub data Call (R : Type 0) : Type 0 where
  create : String → TuningMode → ℤ → Call R
  forward : String → List (Datum R) → String → Dict R → Call R
  step : String → AdamParams R → Call R
  save : String → ArtifactKind → Call R

module _ (F : Float) (root : String) where
  unfoldable pub call : Call F.Real → Hosted State → Hosted State
  call (create base_model mode rank) h = (create_training_run base_model mode rank h).1
  call (forward run_id batch loss_fn config) h =
      (forward_backward F run_id batch loss_fn config h).1
  call (step run_id params) h = (optim_step F run_id params h).1
  call (save run_id kind) h = (save_weights root run_id kind h).1

  unfoldable pub calls : List (Call F.Real) → Hosted State → Hosted State
  calls [] h = h
  calls (c ∷ cs) h = calls cs (call c h)

  call-IsValid : (c : Call F.Real) (h : Hosted State) → IsValid h.own → IsValid (call c h).own
  unfolding call
  call-IsValid (create base_model mode rank) h v =
      create_training_run-IsValid base_model mode rank h v
  call-IsValid (forward run_id batch loss_fn config) h v =
      forward_backward-IsValid F run_id batch loss_fn config h v
  call-IsValid (step run_id params) h v = optim_step-IsValid F run_id params h v
  call-IsValid (save run_id kind) h v = subst IsValid (sym (save_weights-own root run_id kind h)) v

  calls_from :
      (cs : List (Call F.Real)) (h : Hosted State) → IsValid h.own → IsValid (calls cs h).own
  unfolding calls
  calls_from [] h v = v
  calls_from (c ∷ cs) h v = calls_from cs (call c h) (call-IsValid c h v)

init-IsValid : IsValid init
init-IsValid = record { at_key = λ k r e. cc (e, no_runs k) }
  where
    no_runs : (k : String) → lookup {V = RunState} k [] ≡ none
    no_runs k = lookup-nil k

-- After any calls on a new backend, whether they raise or not, every run stands under its own
-- name, the name's number is one that the counter has passed, and the run's checkpoint version is
-- its number of optimizer steps.
pub calls-IsValid :
    (F : Float) (root : String) (cs : List (Call F.Real)) (files : FileSystem)
    → IsValid (calls F root cs (record { own = init; files = files })).own
calls-IsValid F root cs files =
    calls_from F root cs (record { own = init; files = files }) init-IsValid

pub created :
    (base_model : String) (mode : TuningMode) (rank : ℤ) (h : Hosted State) (run : TrainingRun)
    → (create_training_run base_model mode rank h).0 ≡ ok run
    → (run.run_id ≡ run_name h.own.run_counter)
      × ((create_training_run base_model mode rank h).1.own.runs
          ≡ insert run.run_id (new_run run.run_id base_model mode rank) h.own.runs)
unfolding create_training_run
created base_model mode rank h run e = ground arith

-- In a valid state `create_training_run` returns a run whose name was free, stores that run as new
-- and leaves every other run as it was.
pub create_training_run_fresh :
    (base_model : String) (mode : TuningMode) (rank : ℤ) (h : Hosted State) (run : TrainingRun)
    (k : String)
    → IsValid h.own
    → (create_training_run base_model mode rank h).0 ≡ ok run
    → (lookup run.run_id h.own.runs ≡ none)
      × (lookup k (create_training_run base_model mode rank h).1.own.runs ≡ (
          if run.run_id == k
          then some (new_run run.run_id base_model mode rank)
          else lookup k h.own.runs))
create_training_run_fresh base_model mode rank h run k v e =
    let (named, stored) = created base_model mode rank h run e in
    (
      rw named (fresh_name h.own v),
      rw stored (lookup-insert k run.run_id (new_run run.run_id base_model mode rank) h.own.runs),
    )

-- A method of the training backend that raises has changed no run and no file.
pub raise_keeps :
    (F : Float) (root base_model run_id loss_fn : String) (mode : TuningMode) (rank : ℤ)
    (batch : List (Datum F.Real)) (config : Dict F.Real) (params : AdamParams F.Real)
    (kind : ArtifactKind) (h : Hosted State)
    → KeepsOnRaise (create_training_run base_model mode rank) h
      × KeepsOnRaise (forward_backward F run_id batch loss_fn config) h
      × KeepsOnRaise (optim_step F run_id params) h
      × KeepsOnRaise (save_weights root run_id kind) h
unfolding create_training_run forward_backward optim_step save_weights
raise_keeps F root base_model run_id loss_fn mode rank batch config params kind h = (
  KeepsOnRaise-intro (create_training_run base_model mode rank) h (λ e. ground arith),
  KeepsOnRaise-intro (forward_backward F run_id batch loss_fn config) h (λ e. ground arith),
  KeepsOnRaise-intro (optim_step F run_id params) h (λ e. ground arith),
  KeepsOnRaise-intro (save_weights root run_id kind) h (λ e.
      elim (Option-cases (lookup run_id h.own.runs)) [
        | inl f ↦ ground arith
        | inr (r, f) ↦
            ground
              (arith, write_failed root r.run_id r.checkpoint_version kind (payload_of r) h.files)
      ]),
)

-- The number of tokens in the data.
abbrev pub token_total : {R : Type 0} → List (Datum R) → ℕ
token_total [] = 0
token_total (d ∷ ds) = length d.model_input.token_ids + token_total ds

count_tokens-total :
    {R : Type 0} (ds : List (Datum R)) (n m : ℕ) → count_tokens ds n ≡ ok m → m ≡ n + token_total ds
unfolding count_tokens
count_tokens-total [] n m h = ground arith
count_tokens-total (d ∷ ds) n m h =
    ground (arith, count_tokens-total ds (n + length d.model_input.token_ids) m)

-- A `forward_backward` that returns counts the tokens of all its data, raises the gradient version
-- of its run by one and returns it, and changes nothing else about that run and no other run.
pub forward_backward_counts :
    (F : Float) (run_id : String) (batch : List (Datum F.Real)) (loss_fn : String)
    (config : Dict F.Real) (h : Hosted State) (r : RunState) (res : ForwardBackwardResult F.Real)
    → lookup run_id h.own.runs ≡ some r
    → (forward_backward F run_id batch loss_fn config h).0 ≡ ok res
    → (res.usage ≡ record no_usage { input_tokens = pos (token_total batch) })
      × (res.gradient_version ≡ r.gradient_version +ℤ pos 1)
      × ((forward_backward F run_id batch loss_fn config h).1
          ≡ put_run run_id (record r { gradient_version = res.gradient_version }) h)
unfolding forward_backward
forward_backward_counts F run_id batch loss_fn config h r res f e =
    elim (Result-cases (count_tokens batch 0)) [
      | inl (n, p) ↦ (ground (arith, count_tokens-total batch 0 n p), ground arith, ground arith)
      | inr (x, p) ↦ (ground arith, ground arith, ground arith)
    ]

-- An `optim_step` that returns makes one optimizer step and one checkpoint version, returns both,
-- and changes nothing else about that run and no other run.
pub optim_step_counts :
    (F : Float) (run_id : String) (params : AdamParams F.Real) (h : Hosted State) (r : RunState)
    (res : OptimStepResult)
    → lookup run_id h.own.runs ≡ some r
    → (optim_step F run_id params h).0 ≡ ok res
    → (res.optimizer_step ≡ r.optimizer_step +ℤ pos 1)
      × (res.checkpoint_version ≡ r.checkpoint_version +ℤ pos 1)
      × ((optim_step F run_id params h).1
          ≡ put_run run_id
              (record r {
                optimizer_step = res.optimizer_step;
                checkpoint_version = res.checkpoint_version;
              })
              h)
unfolding optim_step
optim_step_counts F run_id params h r res f e = ground arith
