-- ===== src/Sft/Loop/Local.antt =====
-- The transport in front of a local mesh of the fake backends counts the steps of its runs.
use ganker.Base.{ℕ, suc, ◌<◌, String, ◌≡◌, ◌∙◌, ap, true, false, length, is_empty, arith}
use ganker.Base.Int.{pos}
use ganker.Base.Float.{Float}
use ganker.Base.Result.{Error, Exec, is_ok}
use ganker.Base.Returns.{Returns}
use ganker.Contracts.{
  CreateTrainingRunRequest, ForwardBackwardRequest, OptimStepRequest, SaveWeightsRequest,
}
use ganker.Artifacts.{artifact_of, is_known}
use ganker.Backends.{TrainingBackend, InferenceBackend}
use ganker.Backends.Fake.Training.{fake_training, check_run}
use ganker.Backends.Fake.Training.Returning.{
  AtStep, HaveTokens, create_training_run-AtStep, forward_backward-AtStep, optim_step-AtStep,
  save_weights-AtStep,
}
use ganker.Backends.Fake.Inference.{fake_inference}
use ganker.Actors.{Mesh, Uuids}
use ganker.Actors.Proxy
use ganker.Actors.Returning.{
  create_training_run-Returns, forward_backward-Returns, optim_step-Returns, save_weights-Returns,
}
use ganker.Transport.Proxies.{Served, ask_proxy, monarch_proxy_transport}
use ganker.Sft.Loop.Counting.{CountsSteps}

ask_proxy-Returns :
    {R A : Type 0} (T : TrainingBackend R) (I : InferenceBackend R) (fresh : ℕ → Uuids)
    (remote : Error → Error) (P : A → Mesh T I → Type 0) (endpoint : Uuids → Exec (Mesh T I) A)
    (s : Served T I)
    → Returns P (endpoint (fresh s.calls)) s.mesh
    → Returns (λ a t. P a t.mesh) (ask_proxy T I fresh remote endpoint) s
unfolding ask_proxy
ask_proxy-Returns T I fresh remote P endpoint s (a, e, h) = (a, ground arith, h)

module _ (F : Float) (root : String) (fresh : ℕ → Uuids) (remote : Error → Error)
    (nonempty : (n : ℕ) → is_empty (fresh n).of_call ≡ false) where
  abbrev training_backend : TrainingBackend F.Real
  training_backend = fake_training F root

  abbrev inference_backend : InferenceBackend F.Real
  inference_backend = fake_inference F root

  abbrev LocalState : Type 0
  LocalState = Served training_backend inference_backend

  abbrev HasMade : String → ℕ → LocalState → Type 0
  HasMade run_id k s = AtStep run_id k s.mesh.training

  pub local_creates :
      (q : CreateTrainingRunRequest) (s : LocalState)
      → is_ok (check_run q.base_model q.tuning_mode q.lora_rank) ≡ true
      → Returns
          (λ a t. (a.run.checkpoint_version ≡ pos 0) × HasMade a.run.run_id 0 t)
          ((monarch_proxy_transport training_backend inference_backend fresh
              remote).create_training_run
            q)
          s
  unfolding monarch_proxy_transport
  local_creates q s h =
      ask_proxy-Returns training_backend inference_backend fresh remote
        (λ a t. (a.run.checkpoint_version ≡ pos 0) × AtStep a.run.run_id 0 t.training)
        (λ uuids. Proxy.create_training_run training_backend inference_backend uuids q) s
        (create_training_run-Returns training_backend inference_backend (fresh s.calls)
          (nonempty s.calls) (λ run t. (run.checkpoint_version ≡ pos 0) × AtStep run.run_id 0 t) q
          s.mesh
          (create_training_run-AtStep q.base_model q.tuning_mode q.lora_rank
            (record { own = s.mesh.training; files = s.mesh.files }) h))

  pub local_saves :
      (q : SaveWeightsRequest) (k : ℕ) (s : LocalState)
      → is_known q.kind ≡ true
      → HasMade q.run_id k s
      → Returns
          (λ a t. (a.artifact ≡ artifact_of root q.run_id (pos k) q.kind) × HasMade q.run_id k t)
          ((monarch_proxy_transport training_backend inference_backend fresh remote).save_weights q)
          s
  unfolding monarch_proxy_transport
  local_saves q k s known at =
      ask_proxy-Returns training_backend inference_backend fresh remote
        (λ a t.
          (a.artifact ≡ artifact_of root q.run_id (pos k) q.kind) × AtStep q.run_id k t.training)
        (λ uuids. Proxy.save_weights training_backend inference_backend uuids q) s
        (save_weights-Returns training_backend inference_backend (fresh s.calls) (nonempty s.calls)
          (λ a t. (a ≡ artifact_of root q.run_id (pos k) q.kind) × AtStep q.run_id k t) q s.mesh
          (save_weights-AtStep root q.run_id q.kind k
            (record { own = s.mesh.training; files = s.mesh.files }) known at))

  pub local_accumulates :
      (q : ForwardBackwardRequest F.Real) (k : ℕ) (s : LocalState)
      → (0 < length q.batch) × HaveTokens q.batch
      → is_empty q.loss_fn ≡ false
      → HasMade q.run_id k s
      → Returns
          (λ a t. HasMade q.run_id k t)
          ((monarch_proxy_transport training_backend inference_backend fresh
              remote).forward_backward
            q)
          s
  unfolding monarch_proxy_transport
  local_accumulates q k s (some_data, tokens) named at =
      ask_proxy-Returns training_backend inference_backend fresh remote
        (λ a t. AtStep q.run_id k t.training)
        (λ uuids. Proxy.forward_backward training_backend inference_backend uuids q) s
        (forward_backward-Returns training_backend inference_backend (fresh s.calls)
          (nonempty s.calls) (λ a t. AtStep q.run_id k t) q s.mesh
          (let (res, e, (same, at')) =
              forward_backward-AtStep F q.run_id q.batch q.loss_fn q.loss_fn_config k
                (record { own = s.mesh.training; files = s.mesh.files }) some_data tokens named
                at in
            (res, e, (ap is_empty same ∙ at.0, at'))))

  pub local_steps :
      (q : OptimStepRequest F.Real) (k : ℕ) (s : LocalState)
      → F.le q.optimizer.learning_rate (F.of_int (pos 0)) ≡ false
      → HasMade q.run_id k s
      → Returns
          (λ a t.
            (a.optimizer_step ≡ pos (suc k))
            × (a.checkpoint_version ≡ pos (suc k))
            × (a.usage.training_steps ≡ pos 1)
            × HasMade q.run_id (suc k) t)
          ((monarch_proxy_transport training_backend inference_backend fresh remote).optim_step q)
          s
  unfolding monarch_proxy_transport
  local_steps q k s positive at =
      ask_proxy-Returns training_backend inference_backend fresh remote
        (λ a t.
          (a.optimizer_step ≡ pos (suc k))
          × (a.checkpoint_version ≡ pos (suc k))
          × (a.usage.training_steps ≡ pos 1)
          × AtStep q.run_id (suc k) t.training)
        (λ uuids. Proxy.optim_step training_backend inference_backend uuids q) s
        (optim_step-Returns training_backend inference_backend (fresh s.calls) (nonempty s.calls)
          (λ a t.
            (a.optimizer_step ≡ pos (suc k))
            × (a.checkpoint_version ≡ pos (suc k))
            × (a.usage.training_steps ≡ pos 1)
            × AtStep q.run_id (suc k) t)
          q s.mesh
          (let (res, e, (same, one, step, version, at')) =
              optim_step-AtStep F q.run_id q.optimizer k
                (record { own = s.mesh.training; files = s.mesh.files }) positive at in
            (res, e, (ap is_empty same ∙ at.0, (step, version, one, at')))))

  abbrev pub local_counts :
      CountsSteps (monarch_proxy_transport training_backend inference_backend fresh remote)
  local_counts = record {
    At = HasMade;
    artifact_at = λ run_id k kind. artifact_of root run_id (pos k) kind;
    RunFits = λ q. is_ok (check_run q.base_model q.tuning_mode q.lora_rank) ≡ true;
    BatchFits = λ batch. (0 < length batch) × HaveTokens batch;
    OptimizerFits = λ params. F.le params.learning_rate (F.of_int (pos 0)) ≡ false;
    creates = local_creates;
    accumulates = local_accumulates;
    steps = local_steps;
    saves = local_saves;
  }
