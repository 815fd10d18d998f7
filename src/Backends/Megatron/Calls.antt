-- ===== src/Backends/Megatron/Calls.antt =====
-- Any sequence of calls of the Megatron backend, and what `close` leaves.
use ganker.Base.{
  ℕ, String, ◌≡◌, refl, sym, false, some, List, [], ◌∷◌, arith, inl, inr, ◌⊎◌, Bool-cases,
  string_dec,
}
use mathlib.Core.Path.{subst}
use ganker.Base.Int.{ℤ, pos, ◌+ℤ◌}
use ganker.Base.Float.{Float}
use ganker.Base.Result.{Result-cases}
use ganker.Base.Dict.{Dict, lookup, lookup-nil}
use ganker.Base.File.{FileSystem}
use ganker.Contracts.{TuningMode, ArtifactKind, Datum, AdamParams}
use ganker.Backends.{Hosted}
use ganker.Backends.Megatron.{
  MegatronRuntime, RunStatus, failed, closed, same_status, is_active, RunState, State,
  PayloadConfig,
}
use ganker.Backends.Megatron.Batch.{Torch}
use ganker.Backends.Megatron.Methods.{
  create_training_run, forward_backward, optim_step, save_weights, close_run, close_runs, close,
  with_status,
}
use ganker.Backends.Megatron.Outcomes.{
  create_training_run-Change, forward_backward-Change, optim_step-Change, save_weights-Change,
  same_status-true,
}
use ganker.Backends.Megatron.Runs.{Counted, IsRun, IsValid, Change-IsValid, either}

-- What `close` may make of a run.
pub data Closing {H : Type 0} : RunState H → RunState H → Type 0 where
  was_closed : (r : RunState H) → r.status ≡ closed → Closing r r
  now : (r : RunState H) (s : RunStatus) → (s ≡ closed) ⊎ (s ≡ failed) → Closing r (with_status s r)

module _ {R : Type 0} (M : MegatronRuntime R) where
  close_run-Closing : (r : RunState M.Handle) (x : Hosted M.State) → Closing r (close_run M r x).0
  unfolding close_run
  close_run-Closing r x = elim (Bool-cases (same_status r.status closed)) [
    | inl e ↦ subst (Closing r) (ground arith) (was_closed r (same_status-true r.status closed e))
    | inr e ↦ elim (Result-cases (M.shutdown r.handle x).0) [
      | inl (u, f) ↦ subst (Closing r) (ground arith) (now r closed (inl refl))
      | inr (y, f) ↦ subst (Closing r) (ground arith) (now r failed (inr refl))
    ]
  ]

  close_runs-Closing :
      (d : Dict (RunState M.Handle)) (x : Hosted M.State) (k : String) (r' : RunState M.Handle)
      → lookup k (close_runs M d x).0 ≡ some r'
      → (r : RunState M.Handle) × (lookup k d ≡ some r) × Closing r r'
  unfolding close_runs lookup
  close_runs-Closing [] x k r' e = cc
  close_runs-Closing ((j, t) ∷ d) x k r' e = elim (string_dec j k) [
    | yes p ↦ (t, ground arith, subst (Closing t) (ground arith) (close_run-Closing t x))
    | no q ↦
        let (r, found, closing) = close_runs-Closing d (close_run M t x).1 k r' (ground arith) in
        (r, ground arith, closing)
  ]

Closing-idle : {H : Type 0} (r r' : RunState H) → Closing r r' → is_active r'.status ≡ false
Closing-idle _ _ (was_closed r e) = ground arith
Closing-idle _ _ (now r s e) = ground arith

ended :
    (s : RunStatus) (g o : ℤ)
    → (s ≡ closed) ⊎ (s ≡ failed)
    → (g ≡ o) ⊎ (g ≡ o +ℤ pos 1)
    → Counted s g o
ended s g o (inl e) c = subst (λ (t : RunStatus). Counted t g o) (sym e) c
ended s g o (inr e) c = subst (λ (t : RunStatus). Counted t g o) (sym e) c

Closing-IsRun :
    {H : Type 0} (n : ℕ) (k : String) (r r' : RunState H)
    → Closing r r'
    → IsRun n k r
    → IsRun n k r'
Closing-IsRun n k _ _ (was_closed r e) v = v
Closing-IsRun n k _ _ (now r s e) v = record {
  number = v.number;
  passed = v.passed;
  named = v.named;
  numbered = v.numbered;
  versioned = v.versioned;
  counted =
      ended s r.gradient_version r.optimizer_step e
        (either r.status r.gradient_version r.optimizer_step v.counted);
}

module _ {R : Type 0} {M : MegatronRuntime R} where
  close-IsValid :
      (h : Hosted (State M))
      → IsValid h.own.run_counter h.own.runs
      → IsValid (close h).own.run_counter (close h).own.runs
  unfolding close
  close-IsValid h v =
      let x : Hosted M.State = record { own = h.own.runtime; files = h.files } in
      record {
        at_key = λ k r' e.
            let (r, found, closing) = close_runs-Closing M h.own.runs x k r' e in
            Closing-IsRun h.own.run_counter k r r' closing (v.at_key k r found);
        one_active = λ j k r' t' e f a b.
            let (r, _, closing) = close_runs-Closing M h.own.runs x j r' e in
            cc (Closing-idle r r' closing, a);
      }

-- The calls of a backend.
pub data Call (R : Type 0) : Type 0 where
  create : String → TuningMode → ℤ → Call R
  forward : String → List (Datum R) → String → Dict R → Call R
  step : String → AdamParams R → Call R
  save : String → ArtifactKind → Call R
  close_all : Call R

module _ (F : Float) (torch : Torch F.Real) {M : MegatronRuntime F.Real} (root : String)
    (config : PayloadConfig) where
  unfoldable pub call : Call F.Real → Hosted (State M) → Hosted (State M)
  call (create base_model mode rank) h = (create_training_run base_model mode rank h).1
  call (forward run_id batch loss_fn loss_fn_config) h =
      (forward_backward F torch run_id batch loss_fn loss_fn_config h).1
  call (step run_id params) h = (optim_step F run_id params h).1
  call (save run_id kind) h = (save_weights root config run_id kind h).1
  call close_all h = close h

  unfoldable pub calls : List (Call F.Real) → Hosted (State M) → Hosted (State M)
  calls [] h = h
  calls (c ∷ cs) h = calls cs (call c h)

  call-IsValid :
      (c : Call F.Real) (h : Hosted (State M))
      → IsValid h.own.run_counter h.own.runs
      → IsValid (call c h).own.run_counter (call c h).own.runs
  unfolding call
  call-IsValid (create base_model mode rank) h v =
      Change-IsValid _ _ (create_training_run-Change h base_model mode rank) v
  call-IsValid (forward run_id batch loss_fn loss_fn_config) h v =
      Change-IsValid _ _ (forward_backward-Change F torch h run_id batch loss_fn loss_fn_config) v
  call-IsValid (step run_id params) h v = Change-IsValid _ _ (optim_step-Change F h run_id params) v
  call-IsValid (save run_id kind) h v =
      Change-IsValid _ _ (save_weights-Change root config run_id kind h) v
  call-IsValid close_all h v = close-IsValid h v

  calls-IsValid :
      (cs : List (Call F.Real)) (h : Hosted (State M))
      → IsValid h.own.run_counter h.own.runs
      → IsValid (calls cs h).own.run_counter (calls cs h).own.runs
  unfolding calls
  calls-IsValid [] h v = v
  calls-IsValid (c ∷ cs) h v = calls-IsValid cs (call c h) (call-IsValid c h v)

-- A new backend.
abbrev pub init : {R : Type 0} (M : MegatronRuntime R) → M.State → FileSystem → Hosted (State M)
init M runtime files = record {
  own = record { run_counter = 1; runs = []; runtime = runtime };
  files = files;
}

init-IsValid : {H : Type 0} → IsValid {H = H} 1 []
init-IsValid = record {
  at_key = λ k r e. cc (e, lookup-nil k);
  one_active = λ j k r t e f a b. cc (e, lookup-nil j);
}

-- After any calls on a new backend, `close` among them, whether the calls and the runtime return or
-- raise: at most one run is active; no run is left in a checkpoint; a run stands under its own name,
-- of which the counter has passed the number; its checkpoint version is its number of optimizer
-- steps; and it has made as many optimizer steps as it has accumulated gradients, or one less,
-- where a ready run has made as many and a run with gradients pending one less.
pub reachable-IsValid :
    (F : Float) (torch : Torch F.Real) (M : MegatronRuntime F.Real) (root : String)
    (config : PayloadConfig) (cs : List (Call F.Real)) (runtime : M.State) (files : FileSystem)
    → let h = calls F torch {M = M} root config cs (init M runtime files) in
      IsValid h.own.run_counter h.own.runs
reachable-IsValid F torch M root config cs runtime files =
    calls-IsValid F torch root config cs (init M runtime files) init-IsValid
