-- ===== src/Actors/Handoff.antt =====
-- Weights that a mesh of fake backends saves are the weights that it then samples with.
use mathlib.Core.Path.{subst}
use ganker.Base.{
  is_empty, String, false, ◌≡◌, sym, ap, ◌∙◌, some, none, arith, inl, inr, ◌⊎◌, Option-cases,
}
use ganker.Base.Float.{Float}
use ganker.Base.Result.{Result, ok, ◌>>=◌, Result-cases, fmap, tap-eq-ok, is_ok}
use ganker.Base.Dict.{lookup}
use ganker.Base.Int.{ℤ}
use ganker.Contracts.{
  RequestContext, ArtifactKind, ModelInput, SamplingParams, SaveWeightsRequest,
  RefreshWeightsRequest, SampleRequest, SaveWeightsResponse, SampleResponse, WeightArtifact,
}
use ganker.Artifacts
use ganker.Artifacts.RoundTrip.{latest-write}
use ganker.Backends.{Hosted, on_files, TrainingBackend, InferenceBackend, SampleResult}
use ganker.Backends.Fake.Training
use ganker.Backends.Fake.Training.{fake_training}
use ganker.Backends.Fake.Training.Runs.{IsValid}
use ganker.Backends.Fake.Inference
use ganker.Backends.Fake.Inference.{fake_inference}
use ganker.Backends.Fake.Inference.Loaded.{refresh_weights-sample}
use ganker.Components
use ganker.Actors.{Mesh, Uuids, on_training, on_rollout}
use ganker.Actors.Proxy

get_run-found :
    (run_id : String) (h : Hosted Training.State) (r : Training.RunState)
    → is_empty run_id ≡ false
    → lookup run_id h.own.runs ≡ some r
    → Training.get_run run_id h ≡ (ok r, h)
unfolding Training.get_run
get_run-found run_id h r n l = ground arith

save_weights-writes :
    (root run_id : String) (kind : ArtifactKind) (h : Hosted Training.State) (r : Training.RunState)
    → is_empty run_id ≡ false
    → lookup run_id h.own.runs ≡ some r
    → Training.save_weights root run_id kind h
      ≡ on_files (Artifacts.write root r.run_id r.checkpoint_version kind (Training.payload_of r)) h
unfolding Training.save_weights
save_weights-writes root run_id kind h r n l =
    ap
      (λ (p : Result Training.RunState × Hosted Training.State).
        ((λ (_ : Hosted Training.State). p) >>= λ state. on_files (
            Artifacts.write root state.run_id state.checkpoint_version kind
              (Training.payload_of state)))
          h)
      (get_run-found run_id h r n l)

save_weights-known :
    (root run_id : String) (kind : ArtifactKind) (h : Hosted Training.State) (a : WeightArtifact)
    → (Training.save_weights root run_id kind h).0 ≡ ok a
    → (is_empty run_id ≡ false) × (r : Training.RunState) × (lookup run_id h.own.runs ≡ some r)
unfolding Training.save_weights Training.get_run
save_weights-known root run_id kind h a e = elim (Option-cases (lookup run_id h.own.runs)) [
  | inl l ↦ ground arith
  | inr (r, l) ↦ (ground arith, r, l)
]

save_weights-latest :
    (root run_id : String) (kind : ArtifactKind) (h : Hosted Training.State) (a : WeightArtifact)
    → IsValid h.own
    → (Training.save_weights root run_id kind h).0 ≡ ok a
    → Artifacts.latest root run_id (Training.save_weights root run_id kind h).1.files ≡ ok a
save_weights-latest root run_id kind h a v e =
    let (n, r, l) = save_weights-known root run_id kind h a e in
    let w = save_weights-writes root run_id kind h r n l in
    let run = v.at_key run_id r l in
    let stored =
      latest-write root r.run_id r.checkpoint_version kind (Training.payload_of r) h.files a
        (sym (ap (λ (p : Result WeightArtifact × Hosted Training.State). p.0) w) ∙ e) in
    rw w (
      subst
        (λ (k : String).
          Artifacts.latest root k
            (Artifacts.write root r.run_id r.checkpoint_version kind (Training.payload_of r)
              h.files).1
          ≡ ok a)
        run.named stored)

refresh_weights-latest :
    (root run_id : String) (h : Hosted Inference.State) (a : WeightArtifact)
    → is_empty run_id ≡ false
    → Artifacts.latest root run_id h.files ≡ ok a
    → (Inference.refresh_weights root run_id none h).0 ≡ ok a
unfolding Inference.refresh_weights
refresh_weights-latest root run_id h a n e = ground arith

module _ {R : Type 0} (T : TrainingBackend R) (I : InferenceBackend R) where
  saved_artifact :
      (uuid : String) (request : SaveWeightsRequest) (h : Hosted T.State)
      (response : SaveWeightsResponse)
      → (Components.save_weights T uuid request h).0 ≡ ok response
      → ((T.save_weights request.run_id request.kind h).0 ≡ ok response.artifact)
        × ((Components.save_weights T uuid request h).1
            ≡ (T.save_weights request.run_id request.kind h).1)
  unfolding Components.save_weights
  saved_artifact uuid request h response e =
      elim (Result-cases (T.save_weights request.run_id request.kind h).0) [
        | inl (a, f) ↦ (ground arith, ground arith)
        | inr (x, f) ↦ ground arith
      ]

  refreshed_artifact :
      (uuid : String) (request : RefreshWeightsRequest) (h : Hosted I.State) (a : WeightArtifact)
      → (I.refresh_weights request.run_id request.artifact h).0 ≡ ok a
      → (fmap (λ r. r.artifact) (Components.refresh_weights I uuid request h).0 ≡ ok a)
        × ((Components.refresh_weights I uuid request h).1
            ≡ (I.refresh_weights request.run_id request.artifact h).1)
  unfolding Components.refresh_weights
  refreshed_artifact uuid request h a e = (ground arith, ground arith)

  sampled_artifact :
      (uuids : Uuids) (request : SampleRequest R) (mesh : Mesh T I) (response : SampleResponse R)
      → (Proxy.sample T I uuids request mesh).0 ≡ ok response
      → (res : SampleResult R) × ((I.sample request.run_id request.prompt request.sampling_params
            request.num_samples
            (record { own = mesh.rollout; files = mesh.files })).0
          ≡ ok res)
        × (res.artifact ≡ response.artifact)
  unfolding Proxy.sample Components.sample on_rollout
  sampled_artifact uuids request mesh response e =
      let answered =
        tap-eq-ok (on_rollout (Components.sample I uuids.of_call request) mesh)
          (λ r. Proxy.record_usage T I uuids r.request_id r.run_id "rollout" r.usage) mesh e in
      elim (Result-cases
        (I.sample request.run_id request.prompt request.sampling_params request.num_samples
          (record { own = mesh.rollout; files = mesh.files })).0) [
            | inl (res, f) ↦ (res, f, ground arith)
            | inr (x, f) ↦ ground arith
          ]

-- In a mesh of the fake backends whose runs are well-formed, let a `save_weights` through the proxy
-- actor return an artifact. A `refresh_weights` of the same run that names no artifact then
-- returns this artifact, and a `sample` of the run after it raises or has used the artifact.
pub save_refresh_sample :
    (F : Float) (root : String) (u u' u'' : Uuids)
    (mesh : Mesh (fake_training F root) (fake_inference F root)) (request : SaveWeightsRequest)
    (saved : SaveWeightsResponse) (context context' : RequestContext) (prompt : ModelInput)
    (params : SamplingParams F.Real) (num_samples : ℤ)
    → IsValid mesh.training
    → (Proxy.save_weights (fake_training F root) (fake_inference F root) u request mesh).0
      ≡ ok saved
    → let mesh' =
        (Proxy.save_weights (fake_training F root) (fake_inference F root) u request mesh).1 in
      let refresh =
        Proxy.refresh_weights
          (fake_training F root)
          (fake_inference F root)
          u'
          (record { context = context; run_id = request.run_id; artifact = none })
          mesh' in
      let sampled =
        Proxy.sample
          (fake_training F root)
          (fake_inference F root)
          u''
          (record {
            context = context';
            run_id = request.run_id;
            prompt = prompt;
            sampling_params = params;
            num_samples = num_samples;
          })
          refresh.1 in
      (fmap (λ r. r.artifact) refresh.0 ≡ ok saved.artifact)
      × ((is_ok sampled.0 ≡ false)
          ⊎ ((response : SampleResponse F.Real) × (sampled.0 ≡ ok response)
              × (response.artifact ≡ saved.artifact)))
unfolding Proxy.save_weights Proxy.refresh_weights Proxy.sample on_training on_rollout
    Components.save_weights Components.refresh_weights Components.sample
save_refresh_sample F root u u' u'' mesh request saved context context' prompt params num_samples v
      e =
    let T = fake_training F root in
    let I = fake_inference F root in
    let h : Hosted Training.State = record { own = mesh.training; files = mesh.files } in
    let run_id = request.run_id in
    let a = saved.artifact in
    let (e1, kept) = saved_artifact T I u.of_call request h saved e in
    let stored = save_weights-latest root run_id request.kind h a v e1 in
    let (named, _, _) = save_weights-known root run_id request.kind h a e1 in
    let files = (Components.save_weights T u.of_call request h).1.files in
    let latest : Artifacts.latest root run_id files ≡ ok a =
      ap (λ (x : Hosted Training.State). Artifacts.latest root run_id x.files) kept ∙ stored in
    let h' : Hosted Inference.State = record { own = mesh.rollout; files = files } in
    let found = refresh_weights-latest root run_id h' a named latest in
    let (refreshed, kept') =
      refreshed_artifact T I u'.of_call
        (record { context = context; run_id = run_id; artifact = none }) h' a found in
    let request' : SampleRequest F.Real = record {
      context = context';
      run_id = run_id;
      prompt = prompt;
      sampling_params = params;
      num_samples = num_samples;
    } in
    let mesh'' =
      (Proxy.refresh_weights T I u' (record { context = context; run_id = run_id; artifact = none })
        (Proxy.save_weights T I u request mesh).1).1 in
    (
      refreshed,
      elim (Result-cases (Proxy.sample T I u'' request' mesh'').0) [
        | inr (x, e2) ↦ inl (ap is_ok e2)
        | inl (response, e2) ↦
            let (res, e3, same) = sampled_artifact T I u'' request' mesh'' response e2 in
            inr (
              response,
              e2,
              sym same
                  ∙ refresh_weights-sample F root run_id none prompt params num_samples h' a res
                      found
                      (ap
                          (λ (x : Hosted Inference.State).
                            (Inference.sample F root run_id prompt params num_samples x).0)
                          (sym kept')
                        ∙ e3),
            )
      ],
    )
