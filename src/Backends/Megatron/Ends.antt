-- ===== src/Backends/Megatron/Ends.antt =====
-- Runs that have ended: what a failed or closed run refuses, and that a new run may follow.
use ganker.Base.{String, ◌≡◌, refl, false, some, none, List, [], ◌∷◌, arith, inl, inr}
use ganker.Base.Int.{ℤ}
use ganker.Base.Float.{Float}
use ganker.Base.Result.{ok, is_ok, Result-cases}
use ganker.Base.Dict.{Dict, lookup, values}
use ganker.Contracts.{TuningMode, ArtifactKind, Datum, AdamParams}
use ganker.Backends.{Hosted}
use ganker.Backends.Fake.Training.{check_run}
use ganker.Backends.Megatron.{
  MegatronRuntime, is_active, RunState, State, PayloadConfig, first_active, run_name, run_message,
  new_run, ensure_no_active_run, require_status,
}
use ganker.Backends.Megatron.Batch.{Torch}
use ganker.Backends.Megatron.Methods.{
  create_training_run, forward_backward, optim_step, save_weights, close_run, close_runs, close,
}
use ganker.Backends.Megatron.Outcomes.{get_run-cases}

module _ {R : Type 0} (M : MegatronRuntime R) where
  close_run-idle :
      (r : RunState M.Handle) (x : Hosted M.State) → is_active (close_run M r x).0.status ≡ false
  unfolding close_run
  close_run-idle r x = ground (arith, Result-cases (M.shutdown r.handle x).0)

  close_runs-idle :
      (d : Dict (RunState M.Handle)) (x : Hosted M.State)
      → first_active (values (close_runs M d x).0) ≡ none
  unfolding close_runs first_active
  close_runs-idle [] x = refl
  close_runs-idle ((k, r) ∷ d) x =
      ground (arith, close_run-idle r x, close_runs-idle d (close_run M r x).1)

-- After `close` no run blocks a new one, whether the runtime shut the runs down or raised: a
-- `create_training_run` whose arguments pass the guards returns a new run as soon as the runtime
-- creates one.
pub close-create_training_run :
    {R : Type 0} (M : MegatronRuntime R) (h : Hosted (State M)) (base_model : String)
    (mode : TuningMode) (rank : ℤ) (handle : M.Handle)
    → check_run base_model mode rank ≡ ok tt
    → (M.create_run base_model mode rank
        (record { own = (close h).own.runtime; files = (close h).files })).0
      ≡ ok handle
    → (create_training_run base_model mode rank (close h)).0
      ≡ ok (run_message (new_run (run_name h.own.run_counter) base_model mode rank handle))
unfolding create_training_run ensure_no_active_run close
close-create_training_run M h base_model mode rank handle e f =
    ground (arith, close_runs-idle M h.own.runs (record { own = h.own.runtime; files = h.files }))

-- A run that has failed or was closed refuses every further call: `forward_backward`, `optim_step`
-- and `save_weights` raise, and they change no run, no file and nothing in the runtime.
pub ended_refuses :
    (F : Float) (torch : Torch F.Real) (M : MegatronRuntime F.Real) (root run_id : String)
    (config : PayloadConfig) (h : Hosted (State M)) (r : RunState M.Handle)
    → lookup run_id h.own.runs ≡ some r
    → is_active r.status ≡ false
    → ((batch : List (Datum F.Real)) (loss_fn : String) (loss_fn_config : Dict F.Real)
        → (is_ok (forward_backward F torch run_id batch loss_fn loss_fn_config h).0 ≡ false)
          × ((forward_backward F torch run_id batch loss_fn loss_fn_config h).1 ≡ h))
      × ((params : AdamParams F.Real)
          → (is_ok (optim_step F run_id params h).0 ≡ false)
            × ((optim_step F run_id params h).1 ≡ h))
      × ((kind : ArtifactKind)
          → (is_ok (save_weights root config run_id kind h).0 ≡ false)
            × ((save_weights root config run_id kind h).1 ≡ h))
unfolding forward_backward optim_step save_weights require_status
ended_refuses F torch M root run_id config h r found idle = elim (get_run-cases h run_id) [
  | inl (x, e) ↦ (
    λ batch loss_fn loss_fn_config. (ground arith, ground arith),
    λ params. (ground arith, ground arith),
    λ kind. (ground arith, ground arith),
  )
  | inr (t, found', e) ↦
      let same : t ≡ r = ground arith in
      (
        λ batch loss_fn loss_fn_config. (ground arith, ground arith),
        λ params. (ground arith, ground arith),
        λ kind. (ground arith, ground arith),
      )
]
