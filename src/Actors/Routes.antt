-- ===== src/Actors/Routes.antt =====
-- The route through a controller: `ControllerProxyActor` and `ControllerActor` of src/ganker/actors.py.
use mathlib.Core.Path.{subst}
use ganker.Base.{arith, is_empty, false, ◌≡◌, refl, sym, ap, ◌++◌, ◌⊎◌, inl, inr}
use ganker.Base.Result.{Error, Result, ok, err, fmap, is_ok, map_error}
use ganker.Backends.{TrainingBackend, InferenceBackend}
use ganker.Actors.{Mesh, Uuids}
use ganker.Actors.Proxy
use ganker.Actors.Controller
use ganker.Actors.ControllerProxy
use ganker.Actors.Calls.{
  Call, Reply, serve_proxy, serve_controller, create_call, forward_call, step_call, save_call,
  refresh_call, sample_call, summary_call, create_reply, forward_reply, step_reply, save_reply,
  refresh_reply, sample_reply, summary_reply,
}
use ganker.Actors.Ledger.{posted, serve_proxy_ledger}

fmap-map_error :
    {A B : Type 0} (f : A → B) (g : Error → Error) (r : Result A)
    → fmap f (map_error g r) ≡ map_error g (fmap f r)
fmap-map_error f g (ok a) = refl
fmap-map_error f g (err e) = refl

error_of : {A : Type 0} (r : Result A) → is_ok r ≡ false → (error : Error) × (r ≡ err error)
error_of (ok a) h = absurd {0} (ground arith)
error_of (err e) h = (e, refl)

pair-map_error :
    {A B S : Type 0} (f : A → B) (g : Error → Error) (p : Result A × S)
    → ◌≡◌ {A = Result B × S} (fmap f (map_error g p.0), p.1) (map_error g (fmap f p.0), p.1)
pair-map_error {B = B} {S = S} f g (r, s) =
    ap (λ (q : Result B). let pair : Result B × S = (q, s) in pair) (fmap-map_error f g r)

module _ {R : Type 0} (T : TrainingBackend R) (I : InferenceBackend R) (remote : Error → Error)
    (uuids : Uuids) where
  -- The controller does what the proxy actor does, and its errors arrive as errors of Monarch.
  serve_controller-serve_proxy :
      (call : Call R) (mesh : Mesh T I)
      → serve_controller T I remote uuids call mesh ≡ (
        map_error remote (serve_proxy T I uuids call mesh).0,
        (serve_proxy T I uuids call mesh).1,
      )
  unfolding serve_controller serve_proxy Proxy.record_usage Controller.record_usage
      Proxy.create_training_run Proxy.forward_backward Proxy.optim_step Proxy.save_weights
      Proxy.refresh_weights Proxy.sample Proxy.get_telemetry_summary Controller.create_training_run
      Controller.forward_backward Controller.optim_step Controller.save_weights
      Controller.refresh_weights Controller.sample Controller.get_telemetry_summary
      ControllerProxy.ask_controller
  serve_controller-serve_proxy (create_call request) mesh =
      pair-map_error create_reply remote (Proxy.create_training_run T I uuids request mesh)
  serve_controller-serve_proxy (forward_call request) mesh =
      pair-map_error forward_reply remote (Proxy.forward_backward T I uuids request mesh)
  serve_controller-serve_proxy (step_call request) mesh =
      pair-map_error step_reply remote (Proxy.optim_step T I uuids request mesh)
  serve_controller-serve_proxy (save_call request) mesh =
      pair-map_error save_reply remote (Proxy.save_weights T I uuids request mesh)
  serve_controller-serve_proxy (refresh_call request) mesh =
      pair-map_error refresh_reply remote (Proxy.refresh_weights T I uuids request mesh)
  serve_controller-serve_proxy (sample_call request) mesh =
      pair-map_error sample_reply remote (Proxy.sample T I uuids request mesh)
  serve_controller-serve_proxy (summary_call request) mesh =
      pair-map_error summary_reply remote (Proxy.get_telemetry_summary T I uuids request mesh)

-- Whatever the backends do, a call that returns through the controller proxy and the controller
-- has appended to the ledger the one event that its reply stands for, or none if the reply has no
-- usage or no activity, and a call that raises has appended nothing and raises what Monarch makes
-- of an error. The condition on the fresh id is that `uuid.uuid4().hex` is not empty.
pub serve_controller_ledger :
    {R : Type 0} (T : TrainingBackend R) (I : InferenceBackend R) (remote : Error → Error)
    (uuids : Uuids) (call : Call R) (mesh : Mesh T I)
    → is_empty uuids.of_call ≡ false
    → let (r, after) = serve_controller T I remote uuids call mesh in
      ((reply : Reply R) × (r ≡ ok reply) × (after.telemetry ≡ mesh.telemetry ++ posted reply))
      ⊎ ((error : Error) × (r ≡ err (remote error)) × (after.telemetry ≡ mesh.telemetry))
serve_controller_ledger {R = R} T I remote uuids call mesh e =
    let (answered, mesh') = serve_proxy T I uuids call mesh in
    subst
      (λ (p : Result (Reply R) × Mesh T I).
        ((reply : Reply R) × (p.0 ≡ ok reply) × (p.1.telemetry ≡ mesh.telemetry ++ posted reply))
        ⊎ ((error : Error) × (p.0 ≡ err (remote error)) × (p.1.telemetry ≡ mesh.telemetry)))
      (sym (serve_controller-serve_proxy T I remote uuids call mesh))
      (elim (serve_proxy_ledger T I uuids call mesh e) [
        | inl (reply, f, g) ↦ inl (reply, ap (map_error remote) f, g)
        | inr (f, g) ↦
            let (error, raised) = error_of answered f in
            inr (error, ap (map_error remote) raised, g)
      ])
