-- ===== src/Actors/Returning.antt =====
-- The proxy actor returns where the training backend does, and leaves the backend's state to it.
use mathlib.Core.Path.{subst}
use ganker.Base.{sym, string_dec, String, ◌≡◌, refl, false, arith, is_empty}
use ganker.Base.Result.{Exec, pure, ◌>>=◌, ◌>>◌}
use ganker.Base.Returns.{Returns, Returns-pure, Returns-bind}
use ganker.Contracts.{
  Usage, CreateTrainingRunRequest, ForwardBackwardRequest, ForwardBackwardResponse,
  OptimStepRequest, OptimStepResponse, SaveWeightsRequest, TrainingRun, WeightArtifact,
}
use ganker.Telemetry.{request_id_from, handle_record, record_event}
use ganker.Backends.{
  Hosted, TrainingBackend, InferenceBackend, ForwardBackwardResult, OptimStepResult,
}
use ganker.Components
use ganker.Actors.{Mesh, Uuids, on_training, on_telemetry}
use ganker.Actors.Proxy

request_id-nonempty :
    (uuid request_id : String)
    → is_empty uuid ≡ false
    → is_empty (request_id_from uuid request_id) ≡ false
unfolding request_id_from
request_id-nonempty uuid request_id h = ground arith

trainer-nonempty : is_empty "trainer" ≡ false
unfolding string_dec
trainer-nonempty = refl

module _ {R : Type 0} (T : TrainingBackend R) (I : InferenceBackend R) (uuids : Uuids)
    (fresh : is_empty uuids.of_call ≡ false) where
  record_usage-Returns :
      (request_id run_id event_source : String) (usage : Usage) (mesh : Mesh T I)
      → is_empty request_id ≡ false
      → is_empty run_id ≡ false
      → is_empty event_source ≡ false
      → Returns
          (λ done t. t.training ≡ mesh.training)
          (Proxy.record_usage T I uuids request_id run_id event_source usage)
          mesh
  unfolding Proxy.record_usage on_telemetry handle_record record_event request_id_from
  record_usage-Returns request_id run_id event_source usage mesh h h' h'' =
      (tt, ground arith, ground arith)

  -- The state of the training backend with the files, as its actor has them.
  abbrev hosted : Mesh T I → Hosted T.State
  hosted mesh = record { own = mesh.training; files = mesh.files }

  pub create_training_run-Returns :
      (P : TrainingRun → T.State → Type 0) (request : CreateTrainingRunRequest) (mesh : Mesh T I)
      → Returns
          (λ run h. P run h.own)
          (T.create_training_run request.base_model request.tuning_mode request.lora_rank)
          (hosted mesh)
      → Returns
          (λ response t. P response.run t.training)
          (Proxy.create_training_run T I uuids request)
          mesh
  unfolding Proxy.create_training_run on_training Components.create_training_run
  create_training_run-Returns P request mesh h =
      Returns-bind (λ run t. P run t.own) (λ response t. P response.run t.own)
        (T.create_training_run request.base_model request.tuning_mode request.lora_rank)
        (λ run. pure (record {
          request_id = request_id_from uuids.of_call request.context.request_id;
          run = run;
        }))
        (hosted mesh) h λ run t h'. (_, refl, h')

  pub save_weights-Returns :
      (P : WeightArtifact → T.State → Type 0) (request : SaveWeightsRequest) (mesh : Mesh T I)
      → Returns
          (λ artifact h. P artifact h.own)
          (T.save_weights request.run_id request.kind)
          (hosted mesh)
      → Returns
          (λ response t. P response.artifact t.training)
          (Proxy.save_weights T I uuids request)
          mesh
  unfolding Proxy.save_weights on_training Components.save_weights
  save_weights-Returns P request mesh h =
      Returns-bind (λ artifact t. P artifact t.own) (λ response t. P response.artifact t.own)
        (T.save_weights request.run_id request.kind)
        (λ artifact. pure (record {
          request_id = request_id_from uuids.of_call request.context.request_id;
          artifact = artifact;
        }))
        (hosted mesh) h λ artifact t h'. (_, refl, h')

  -- The usage is recorded behind a call, and its response returned.
  recorded-Returns :
      {A : Type 0} (P : A → T.State → Type 0) (request_id run_id : A → String) (usage : A → Usage)
      (source : String) (m : Exec (Mesh T I) A) (mesh : Mesh T I)
      → is_empty source ≡ false
      → Returns
          (λ a t.
            (is_empty (request_id a) ≡ false) × (is_empty (run_id a) ≡ false) × P a t.training)
          m
          mesh
      → Returns
          (λ a t. P a t.training)
          (m >>= λ a.
            Proxy.record_usage T I uuids (request_id a) (run_id a) source (usage a) >> pure a)
          mesh
  recorded-Returns P request_id run_id usage source m mesh named h =
      Returns-bind
        (λ a t. (is_empty (request_id a) ≡ false) × (is_empty (run_id a) ≡ false) × P a t.training)
        (λ a t. P a t.training) m
        (λ a. Proxy.record_usage T I uuids (request_id a) (run_id a) source (usage a) >> pure a)
        mesh h
        λ a t (asked, run, h').
          Returns-bind (λ done u. u.training ≡ t.training) (λ b u. P b u.training)
            (Proxy.record_usage T I uuids (request_id a) (run_id a) source (usage a))
            (λ done. pure a) t
            (record_usage-Returns (request_id a) (run_id a) source (usage a) t asked run named)
            λ done u same. Returns-pure (λ b u. P b u.training) a u (subst (P a) (sym same) h')

  abbrev pub step_response : OptimStepRequest R → OptimStepResult → OptimStepResponse
  step_response request result = record {
    request_id = request_id_from uuids.of_call request.context.request_id;
    run_id = result.run_id;
    optimizer_step = result.optimizer_step;
    checkpoint_version = result.checkpoint_version;
    usage = result.usage;
  }

  abbrev pub forward_response :
      ForwardBackwardRequest R → ForwardBackwardResult R → ForwardBackwardResponse R
  forward_response request result = record {
    request_id = request_id_from uuids.of_call request.context.request_id;
    run_id = result.run_id;
    output = result.output;
    gradient_version = result.gradient_version;
    usage = result.usage;
  }

  -- What is known of a response before its usage is recorded.
  abbrev Named :
      {A : Type 0} → (A → T.State → Type 0) → (A → String) → (A → String) → A → T.State → Type 0
  Named P request_id run_id a t =
      (is_empty (request_id a) ≡ false) × (is_empty (run_id a) ≡ false) × P a t

  pub optim_step-Returns :
      (P : OptimStepResponse → T.State → Type 0) (request : OptimStepRequest R) (mesh : Mesh T I)
      → Returns
          (λ result h. (is_empty result.run_id ≡ false) × P (step_response request result) h.own)
          (T.optim_step request.run_id request.optimizer)
          (hosted mesh)
      → Returns (λ response t. P response t.training) (Proxy.optim_step T I uuids request) mesh
  unfolding Proxy.optim_step on_training Components.optim_step
  optim_step-Returns P request mesh h =
      recorded-Returns P (λ r. r.request_id) (λ r. r.run_id) (λ r. r.usage) "trainer"
        (on_training (Components.optim_step T uuids.of_call request)) mesh trainer-nonempty
        (Returns-bind
          (λ result t. (is_empty result.run_id ≡ false) × P (step_response request result) t.own)
          (λ r t. Named P (λ x. x.request_id) (λ x. x.run_id) r t.own)
          (T.optim_step request.run_id request.optimizer)
          (λ result. pure (step_response request result)) (hosted mesh) h
          λ result t (named, h'). (
            _,
            refl,
            (request_id-nonempty uuids.of_call request.context.request_id fresh, named, h'),
          ))

  pub forward_backward-Returns :
      (P : ForwardBackwardResponse R → T.State → Type 0) (request : ForwardBackwardRequest R)
      (mesh : Mesh T I)
      → Returns
          (λ result h. (is_empty result.run_id ≡ false) × P (forward_response request result) h.own)
          (T.forward_backward request.run_id request.batch request.loss_fn request.loss_fn_config)
          (hosted mesh)
      → Returns
          (λ response t. P response t.training)
          (Proxy.forward_backward T I uuids request)
          mesh
  unfolding Proxy.forward_backward on_training Components.forward_backward
  forward_backward-Returns P request mesh h =
      recorded-Returns P (λ r. r.request_id) (λ r. r.run_id) (λ r. r.usage) "trainer"
        (on_training (Components.forward_backward T uuids.of_call request)) mesh trainer-nonempty
        (Returns-bind
          (λ result t. (is_empty result.run_id ≡ false) × P (forward_response request result) t.own)
          (λ r t. Named P (λ x. x.request_id) (λ x. x.run_id) r t.own)
          (T.forward_backward request.run_id request.batch request.loss_fn request.loss_fn_config)
          (λ result. pure (forward_response request result)) (hosted mesh) h
          λ result t (named, h'). (
            _,
            refl,
            (request_id-nonempty uuids.of_call request.context.request_id fresh, named, h'),
          ))
