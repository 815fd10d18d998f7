-- ===== src/Backends/Megatron/Methods.antt =====
-- The methods of `MegatronTrainingBackend` of src/ganker/backends/megatron.py
use ganker.Base.{◌+◌, String, List, [], ◌∷◌, if◌then◌else◌}
use ganker.Base.Int.{ℤ, pos, ◌+ℤ◌}
use ganker.Base.Float.{Float}
use ganker.Base.Result.{
  invalid_request, ok, err, Exec, raise_if, pure, gets, lift, modify, ◌>>=◌, ◌>>◌,
}
use ganker.Base.Dict.{Dict}
use ganker.Base.File.{int, str, JsonObject}
use ganker.Contracts.{
  TuningMode, ArtifactKind, Datum, AdamParams, no_usage, WeightArtifact, TrainingRun,
}
use ganker.Artifacts
use ganker.Backends.{Hosted, on_files, ForwardBackwardResult, OptimStepResult, TrainingBackend}
use ganker.Backends.Fake.Training.{check_run}
use ganker.Backends.Megatron.{
  MegatronRuntime, RunStatus, ready, gradients_pending, checkpointing, failed, closed, status_value,
  same_status, RunState, State, PayloadConfig, mode_name, update, run_name, run_message, or_empty,
  on_error, on_runtime, put_run, get_run, ensure_no_active_run, require_status, new_run,
}
use ganker.Backends.Megatron.Batch.{Torch, token_count, datums_to_tensor_batch}

module _ {R : Type 0} {M : MegatronRuntime R} where
  unfoldable pub create_training_run : String → TuningMode → ℤ → Exec (Hosted (State M)) TrainingRun
  create_training_run base_model mode rank = do
    lift (check_run base_model mode rank)
    ensure_no_active_run
    handle ← on_runtime (M.create_run base_model mode rank)
    run_id ← gets (λ h. run_name h.own.run_counter)
    modify (λ h. record h { own = record h.own { run_counter = h.own.run_counter + 1 } })
    let state = new_run run_id base_model mode rank handle
    modify (put_run run_id state)
    pure (run_message state)

-- The object's status.
abbrev pub with_status : {H : Type 0} → RunStatus → RunState H → RunState H
with_status status r = record r { status = status }

-- The payload before the runtime's entries.
abbrev pub base_payload : {H : Type 0} → PayloadConfig → RunState H → String → JsonObject
base_payload config r mode =
    ("artifact_format", str "megatron")
    ∷ ("backend", str "megatron-bridge")
    ∷ ("base_model", str r.base_model)
    ∷ ("checkpoint_version", int r.checkpoint_version)
    ∷ ("gradient_version", int r.gradient_version)
    ∷ ("global_batch_size", int config.global_batch_size)
    ∷ ("lora_rank", int r.lora_rank)
    ∷ ("micro_batch_size", int config.micro_batch_size)
    ∷ ("optimizer_step", int r.optimizer_step)
    ∷ ("pipeline_model_parallel_size", int config.pipeline_model_parallel_size)
    ∷ ("run_id", str r.run_id)
    ∷ ("run_status", str (status_value ready))
    ∷ ("sequence_length", int config.sequence_length)
    ∷ ("tensor_model_parallel_size", int config.tensor_model_parallel_size)
    ∷ ("tuning_mode", str mode)
    ∷ []

module _ (F : Float) (torch : Torch F.Real) {M : MegatronRuntime F.Real} where
  unfoldable pub forward_backward :
      String
      → List (Datum F.Real)
      → String
      → Dict F.Real
      → Exec (Hosted (State M)) (ForwardBackwardResult F.Real)
  forward_backward run_id batch loss_fn config = do
    state ← get_run run_id
    require_status state ready "forward_backward"
    tensors ← lift (datums_to_tensor_batch F torch batch loss_fn)
    output ←
        on_error (on_runtime (M.forward_backward state.handle tensors loss_fn config))
          (put_run run_id (with_status failed state))
    let state' = record state {
      gradient_version = state.gradient_version +ℤ pos 1;
      status = gradients_pending;
    }
    modify (put_run run_id state')
    pure (record {
      run_id = run_id;
      output = output;
      gradient_version = state'.gradient_version;
      usage = record no_usage { input_tokens = pos (token_count tensors) };
    })

module _ (F : Float) {M : MegatronRuntime F.Real} where
  unfoldable pub optim_step : String → AdamParams F.Real → Exec (Hosted (State M)) OptimStepResult
  optim_step run_id params = do
    state ← get_run run_id
    raise_if (F.le params.learning_rate (F.of_int (pos 0)))
        (invalid_request "learning_rate must be positive")
    require_status state gradients_pending "optim_step"
    on_error (on_runtime (M.optim_step state.handle params))
        (put_run run_id (with_status failed state))
    let state' = record state {
      optimizer_step = state.optimizer_step +ℤ pos 1;
      checkpoint_version = state.checkpoint_version +ℤ pos 1;
      status = ready;
    }
    modify (put_run run_id state')
    pure (record {
      run_id = run_id;
      optimizer_step = state'.optimizer_step;
      checkpoint_version = state'.checkpoint_version;
      usage = record no_usage { training_steps = pos 1 };
    })

module _ {R : Type 0} {M : MegatronRuntime R} where
  -- The body of the `try` of `save_weights`.
  unfoldable pub checkpoint :
      String
      → PayloadConfig
      → String
      → RunState M.Handle
      → ArtifactKind
      → Exec (Hosted (State M)) WeightArtifact
  checkpoint root config run_id state kind = do
    runtime_payload ← on_runtime (M.save_weights state.handle run_id state.checkpoint_version kind)
    mode ← lift (mode_name state.tuning_mode)
    let payload = update (base_payload config state mode) (or_empty runtime_payload)
    on_files (Artifacts.write root state.run_id state.checkpoint_version kind payload)

  unfoldable pub save_weights :
      String → PayloadConfig → String → ArtifactKind → Exec (Hosted (State M)) WeightArtifact
  save_weights root config run_id kind = do
    state ← get_run run_id
    require_status state ready "save_weights"
    modify (put_run run_id (with_status checkpointing state))
    artifact ←
        on_error (checkpoint root config run_id state kind)
          (put_run run_id (with_status ready state))
    modify (put_run run_id (with_status ready state))
    pure artifact

module _ {R : Type 0} (M : MegatronRuntime R) where
  -- What `close` does with one run: the status after it, and the runtime.
  unfoldable pub close_run : RunState M.Handle → Hosted M.State → RunState M.Handle × Hosted M.State
  close_run r x =
      if same_status r.status closed
      then (r, x)
      else let (res, x') = M.shutdown r.handle x in
        (with_status (elim res [ ok _ ↦ closed | err _ ↦ failed ]) r, x')

  unfoldable pub close_runs :
      Dict (RunState M.Handle) → Hosted M.State → Dict (RunState M.Handle) × Hosted M.State
  close_runs [] x = ([], x)
  close_runs ((k, r) ∷ rs) x =
      let (r', x') = close_run r x in let (rs', x'') = close_runs rs x' in ((k, r') ∷ rs', x'')

module _ {R : Type 0} {M : MegatronRuntime R} where
  unfoldable pub close : Hosted (State M) → Hosted (State M)
  close h =
      let (runs, x) = close_runs M h.own.runs (record { own = h.own.runtime; files = h.files }) in
      record { own = record h.own { runs = runs; runtime = x.own }; files = x.files }

-- The backend behind the protocol, with its artifact store under `root`.
abbrev pub megatron_training :
    (F : Float)
    → Torch F.Real
    → MegatronRuntime F.Real
    → String
    → PayloadConfig
    → TrainingBackend F.Real
megatron_training F torch M root config = record {
  State = State M;
  create_training_run = create_training_run;
  forward_backward = forward_backward F torch;
  optim_step = optim_step F;
  save_weights = save_weights root config;
}
