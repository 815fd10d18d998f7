-- ===== src/Actors/Ledger.antt =====
-- The events that a client's calls leave in the ledger.
use ganker.Base.{
  String, true, false, List, [], ◌∷◌, ◌++◌, ◌≡◌, refl, sym, ap, ◌∙◌, arith, is_empty, if◌then◌else◌,
  append_nil, inl, inr, ◌⊎◌,
}
use ganker.Base.Result.{Result, ok, err, is_ok, ◌>>=◌, ◌>>◌, Result-cases, pure, fmap}
use ganker.Contracts.{
  Usage, has_activity, UsageEvent, ForwardBackwardRequest, ForwardBackwardResponse,
  OptimStepRequest, OptimStepResponse, SampleRequest, SampleResponse,
}
use ganker.Backends.{Hosted, TrainingBackend, InferenceBackend}
use ganker.Telemetry.{TelemetryLedger, handle_record, record_event, request_id_from}
use ganker.Components
use ganker.Actors.{Mesh, Uuids, on_training, on_rollout, on_telemetry}
use ganker.Actors.Proxy
use ganker.Actors.Calls.{
  Call, Reply, serve_proxy, create_call, forward_call, step_call, save_call, refresh_call,
  sample_call, summary_call, create_reply, forward_reply, step_reply, save_reply, refresh_reply,
  sample_reply, summary_reply,
}

-- The event of a response, if it has any activity.
abbrev pub posted_event : String → String → String → Usage → List UsageEvent
posted_event request_id run_id source usage =
    if has_activity usage
    then (record { request_id = request_id; run_id = run_id; event_source = source; usage = usage })
      ∷ []
    else []

abbrev pub posted : {R : Type 0} → Reply R → List UsageEvent
posted (create_reply r) = []
posted (forward_reply r) = posted_event r.request_id r.run_id "trainer" r.usage
posted (step_reply r) = posted_event r.request_id r.run_id "trainer" r.usage
posted (save_reply r) = []
posted (refresh_reply r) = []
posted (sample_reply r) = posted_event r.request_id r.run_id "rollout" r.usage
posted (summary_reply r) = []

abbrev result_events : {A : Type 0} → (A → List UsageEvent) → Result A → List UsageEvent
result_events events (ok a) = events a
result_events events (err x) = []

module _ {R : Type 0} (T : TrainingBackend R) (I : InferenceBackend R) (uuids : Uuids) where
  record_usage-posts :
      (request_id run_id source : String) (usage : Usage) (mesh : Mesh T I)
      → is_empty request_id ≡ false
      → ((is_ok (Proxy.record_usage T I uuids request_id run_id source usage mesh).0 ≡ true)
          → (Proxy.record_usage T I uuids request_id run_id source usage mesh).1.telemetry
            ≡ mesh.telemetry ++ posted_event request_id run_id source usage)
        × ((is_ok (Proxy.record_usage T I uuids request_id run_id source usage mesh).0 ≡ false)
            → (Proxy.record_usage T I uuids request_id run_id source usage mesh).1.telemetry
              ≡ mesh.telemetry)
  unfolding Proxy.record_usage on_telemetry handle_record record_event request_id_from
  record_usage-posts request_id run_id source usage mesh named =
      (λ h. ground (arith, append_nil mesh.telemetry), λ h. ground arith)

  -- The answer (r, mesh') of a method that found the ledger `before`.
  abbrev Posted :
      {A : Type 0} → TelemetryLedger → (A → List UsageEvent) → Result A × Mesh T I → Type 0
  Posted {A} before events (r, mesh') =
      ((a : A) → r ≡ ok a → mesh'.telemetry ≡ before ++ events a)
      × (is_ok r ≡ false → mesh'.telemetry ≡ before)

  finished-Posted :
      {A : Type 0} (before : TelemetryLedger) (events : A → List UsageEvent) (a : A)
      (q : Result (Unit {0}) × Mesh T I) (mesh : Mesh T I)
      → (is_ok q.0 ≡ true → q.1.telemetry ≡ before ++ events a)
      → (is_ok q.0 ≡ false → q.1.telemetry ≡ before)
      → Posted before events (((λ (_ : Mesh T I). q) >> pure a) mesh)
  finished-Posted before events a (ok u, mesh') mesh good bad =
      (λ b h. good refl ∙ ap (λ (x : Result _). before ++ result_events events x) h, λ h. cc)
  finished-Posted before events a (err x, mesh') mesh good bad = (λ b h. cc, λ h. bad refl)

  -- A method that leaves the ledger alone, followed by the record of its response's usage.
  recorded-Posted :
      {A : Type 0} (request_id run_id : A → String) (source : String) (usage : A → Usage)
      (before : TelemetryLedger) (p : Result A × Mesh T I) (mesh : Mesh T I)
      → p.1.telemetry ≡ before
      → ((a : A) → p.0 ≡ ok a → is_empty (request_id a) ≡ false)
      → Posted before
          (λ a. posted_event (request_id a) (run_id a) source (usage a))
          (((λ (_ : Mesh T I). p) >>= λ a.
              Proxy.record_usage T I uuids (request_id a) (run_id a) source (usage a) >> pure a)
            mesh)
  recorded-Posted request_id run_id source usage before (err x, mesh') mesh same named =
      (λ a h. cc, λ h. same)
  recorded-Posted request_id run_id source usage before (ok a, mesh') mesh same named =
      let (good, bad) =
        record_usage-posts (request_id a) (run_id a) source (usage a) mesh' (named a refl) in
      let events = posted_event (request_id a) (run_id a) source (usage a) in
      finished-Posted before (λ a. posted_event (request_id a) (run_id a) source (usage a)) a
        (Proxy.record_usage T I uuids (request_id a) (run_id a) source (usage a) mesh') mesh'
        (λ h. good h ∙ ap (λ (l : TelemetryLedger). l ++ events) same) (λ h. bad h ∙ same)

  named_response :
      (request_id : String)
      → is_empty uuids.of_call ≡ false
      → is_empty (request_id_from uuids.of_call request_id) ≡ false
  unfolding request_id_from
  named_response request_id e = ground arith

  Posted-replied :
      {A : Type 0} (reply : A → Reply R) (before : TelemetryLedger) (p : Result A × Mesh T I)
      → Posted before (λ a. posted (reply a)) p
      → Posted before posted (fmap reply p.0, p.1)
  Posted-replied reply before (ok a, mesh') (good, bad) =
      (λ r h. good a refl ∙ ap (λ (x : Result _). before ++ result_events posted x) h, λ h. cc)
  Posted-replied reply before (err x, mesh') (good, bad) = (λ r h. cc, λ h. bad refl)

  forward_backward-named :
      (request : ForwardBackwardRequest R) (h : Hosted T.State) (a : ForwardBackwardResponse R)
      → is_empty uuids.of_call ≡ false
      → (Components.forward_backward T uuids.of_call request h).0 ≡ ok a
      → is_empty a.request_id ≡ false
  unfolding Components.forward_backward
  forward_backward-named request h a e x =
      let named = named_response request.context.request_id e in
      ground (
        arith,
        Result-cases
            (T.forward_backward request.run_id request.batch request.loss_fn request.loss_fn_config
              h).0,
      )

  optim_step-named :
      (request : OptimStepRequest R) (h : Hosted T.State) (a : OptimStepResponse)
      → is_empty uuids.of_call ≡ false
      → (Components.optim_step T uuids.of_call request h).0 ≡ ok a
      → is_empty a.request_id ≡ false
  unfolding Components.optim_step
  optim_step-named request h a e x =
      let named = named_response request.context.request_id e in
      ground (arith, Result-cases (T.optim_step request.run_id request.optimizer h).0)

  sample-named :
      (request : SampleRequest R) (h : Hosted I.State) (a : SampleResponse R)
      → is_empty uuids.of_call ≡ false
      → (Components.sample I uuids.of_call request h).0 ≡ ok a
      → is_empty a.request_id ≡ false
  unfolding Components.sample
  sample-named request h a e x =
      let named = named_response request.context.request_id e in
      ground (
        arith,
        Result-cases
            (I.sample request.run_id request.prompt request.sampling_params request.num_samples
              h).0,
      )

  silent-Posted :
      {A : Type 0} (reply : A → Reply R) (before : TelemetryLedger) (p : Result A × Mesh T I)
      → p.1.telemetry ≡ before
      → ((a : A) → posted (reply a) ≡ [])
      → Posted before posted (fmap reply p.0, p.1)
  silent-Posted reply before p same silent = Posted-replied reply before p (
    λ a h.
        same ∙ sym (append_nil before) ∙ sym (ap (λ (l : TelemetryLedger). before ++ l) (silent a)),
    λ h. same,
  )

  pub serve_proxy-Posted :
      (call : Call R) (mesh : Mesh T I)
      → is_empty uuids.of_call ≡ false
      → Posted mesh.telemetry posted (serve_proxy T I uuids call mesh)
  unfolding serve_proxy Proxy.create_training_run Proxy.forward_backward Proxy.optim_step
      Proxy.save_weights Proxy.refresh_weights Proxy.sample Proxy.get_telemetry_summary on_training
      on_rollout on_telemetry
  serve_proxy-Posted (create_call request) mesh e =
      silent-Posted create_reply mesh.telemetry (Proxy.create_training_run T I uuids request mesh)
        refl (λ a. refl)
  serve_proxy-Posted (forward_call request) mesh e =
      Posted-replied forward_reply mesh.telemetry (Proxy.forward_backward T I uuids request mesh) (
        recorded-Posted (λ r. r.request_id) (λ r. r.run_id) "trainer" (λ r. r.usage) mesh.telemetry
          (on_training (Components.forward_backward T uuids.of_call request) mesh) mesh refl
          (λ a h.
            forward_backward-named request (record { own = mesh.training; files = mesh.files }) a e
              h))
  serve_proxy-Posted (step_call request) mesh e =
      Posted-replied step_reply mesh.telemetry (Proxy.optim_step T I uuids request mesh) (
        recorded-Posted (λ r. r.request_id) (λ r. r.run_id) "trainer" (λ r. r.usage) mesh.telemetry
          (on_training (Components.optim_step T uuids.of_call request) mesh) mesh refl
          (λ a h.
            optim_step-named request (record { own = mesh.training; files = mesh.files }) a e h))
  serve_proxy-Posted (save_call request) mesh e =
      silent-Posted save_reply mesh.telemetry (Proxy.save_weights T I uuids request mesh) refl
        (λ a. refl)
  serve_proxy-Posted (refresh_call request) mesh e =
      silent-Posted refresh_reply mesh.telemetry (Proxy.refresh_weights T I uuids request mesh) refl
        (λ a. refl)
  serve_proxy-Posted (sample_call request) mesh e =
      Posted-replied sample_reply mesh.telemetry (Proxy.sample T I uuids request mesh) (
        recorded-Posted (λ r. r.request_id) (λ r. r.run_id) "rollout" (λ r. r.usage) mesh.telemetry
          (on_rollout (Components.sample I uuids.of_call request) mesh) mesh refl
          (λ a h. sample-named request (record { own = mesh.rollout; files = mesh.files }) a e h))
  serve_proxy-Posted (summary_call request) mesh e =
      silent-Posted summary_reply mesh.telemetry
        (Proxy.get_telemetry_summary T I uuids request mesh) refl (λ a. refl)

-- Whatever the backends do, a call that returns through the proxy actor has appended to the ledger
-- the one event that its reply stands for, or none if the reply has no usage or no activity, and a
-- call that raises has appended nothing. The condition on the fresh id is that
-- `uuid.uuid4().hex` is not empty.
pub serve_proxy_ledger :
    {R : Type 0} (T : TrainingBackend R) (I : InferenceBackend R) (uuids : Uuids) (call : Call R)
    (mesh : Mesh T I)
    → is_empty uuids.of_call ≡ false
    → ((reply : Reply R) × ((serve_proxy T I uuids call mesh).0 ≡ ok reply)
        × ((serve_proxy T I uuids call mesh).1.telemetry ≡ mesh.telemetry ++ posted reply))
      ⊎ ((is_ok (serve_proxy T I uuids call mesh).0 ≡ false)
          × ((serve_proxy T I uuids call mesh).1.telemetry ≡ mesh.telemetry))
serve_proxy_ledger T I uuids call mesh e =
    let (good, bad) = serve_proxy-Posted T I uuids call mesh e in
    elim (Result-cases (serve_proxy T I uuids call mesh).0) [
      | inl (reply, f) ↦ inl (reply, f, good reply f)
      | inr (x, f) ↦ inr (ap is_ok f, bad (ap is_ok f))
    ]
