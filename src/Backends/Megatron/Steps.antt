-- ===== src/Backends/Megatron/Steps.antt =====
-- The life of a run as a step relation: what a call of the Megatron backend may change.
use ganker.Base.{◌+◌, String, ◌≡◌, true, none, some}
use ganker.Base.Int.{ℤ, pos, ◌+ℤ◌}
use ganker.Base.Dict.{lookup, insert, values}
use ganker.Contracts.{TuningMode}
use ganker.Backends.Megatron.{
  MegatronRuntime, ready, gradients_pending, failed, is_active, RunState, State, run_name, new_run,
  first_active,
}
use ganker.Backends.Megatron.Methods.{with_status}

-- The steps of one run. A gradient is accumulated in a ready run, which then waits for the optimizer
-- step that uses it; an active run may fail; a saved run is ready again.
pub data Step {H : Type 0} : RunState H → RunState H → Type 0 where
  accumulate :
      (r : RunState H)
      → r.status ≡ ready
      → Step r
          (record r { gradient_version = r.gradient_version +ℤ pos 1; status = gradients_pending })
  apply :
      (r : RunState H)
      → r.status ≡ gradients_pending
      → Step r (record r {
        optimizer_step = r.optimizer_step +ℤ pos 1;
        checkpoint_version = r.checkpoint_version +ℤ pos 1;
        status = ready;
      })
  fail : (r : RunState H) → is_active r.status ≡ true → Step r (with_status failed r)
  keep : (r : RunState H) → r.status ≡ ready → Step r (with_status ready r)

-- The steps of the coordinator by a method other than `close`.
pub data Change {R : Type 0} {M : MegatronRuntime R} : State M → State M → Type 0 where
  stay : (s s' : State M) → s'.runs ≡ s.runs → s'.run_counter ≡ s.run_counter → Change s s'
  start :
      (s s' : State M) (base_model : String) (mode : TuningMode) (rank : ℤ) (handle : M.Handle)
      → first_active (values s.runs) ≡ none
      → s'.runs
        ≡ insert
            (run_name s.run_counter)
            (new_run (run_name s.run_counter) base_model mode rank handle)
            s.runs
      → s'.run_counter ≡ s.run_counter + 1
      → Change s s'
  move :
      (s s' : State M) (k : String) (r r' : RunState M.Handle)
      → lookup k s.runs ≡ some r
      → Step r r'
      → s'.runs ≡ insert k r' s.runs
      → s'.run_counter ≡ s.run_counter
      → Change s s'
