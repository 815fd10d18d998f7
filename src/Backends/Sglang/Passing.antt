-- ===== src/Backends/Sglang/Passing.antt =====
-- What the calls of the SGLang backend of src/ganker/backends/sglang.py that return have passed, and
-- what the fake backend does then.
use ganker.Base.{
  String, ◌≡◌, refl, false, Option, some, none, List, [], ◌∷◌, arith, ◌==◌, is_empty, Bool-cases,
  inl, inr, ℕ,
}
use ganker.Base.Int.{ℤ}
use ganker.Base.Float.{Float}
use ganker.Base.Result.{Result, ok, Exec, bind, Result-cases, pure, ◌>>=◌}
use ganker.Base.Dict.{Dict, lookup, insert, lookup-insert}
use ganker.Base.File.{FileSystem, JsonObject}
use ganker.Contracts.{ModelInput, SamplingParams, WeightArtifact}
use ganker.Backends.{Hosted, SampleResult, InferenceBackend}
use ganker.Backends.Fake.Inference
use ganker.Backends.Fake.Inference.{fake_inference}
use ganker.Backends.Sglang
use ganker.Backends.Sglang.{
  SglangLoadedArtifact, SglangRuntime, SglangState, NoObject, sglang_inference,
  read_artifact_payload, validate_sampling_request,
}

-- A call of the rollout component to an inference backend.
pub data InferenceCall (R : Type 0) : Type 0 where
  refresh_call : String → Option WeightArtifact → InferenceCall R
  sample_call : String → ModelInput → SamplingParams R → ℤ → InferenceCall R

-- The artifact that a call refreshes to or samples with.
unfoldable pub answer :
    {R : Type 0} (I : InferenceBackend R) → InferenceCall R → Exec (Hosted I.State) WeightArtifact
answer I (refresh_call run_id artifact) = I.refresh_weights run_id artifact
answer I (sample_call run_id prompt params num_samples) =
    I.sample run_id prompt params num_samples >>= λ result. pure result.artifact

-- The artifacts of calls, each with the files that it finds, if all return.
unfoldable pub answers :
    {R : Type 0} (I : InferenceBackend R)
    → List (FileSystem × InferenceCall R)
    → I.State
    → Result (List WeightArtifact)
unfolding answer
answers I [] own = ok []
answers I ((files, call) ∷ calls) own =
    let (r, h) = answer I call (record { own = own; files = files }) in
    bind r λ artifact. bind (answers I calls h.own) λ rest. ok (artifact ∷ rest)

-- A runtime that loads an artifact gives this artifact back, as `SGLangHTTPRuntime` does.
pub record KeepsArtifact {R : Type 0} (runtime : SglangRuntime R) : Type 0 where
  pub keeps :
      (run_id : String) (artifact : WeightArtifact) (payload : JsonObject) (w : runtime.World)
      (loaded : SglangLoadedArtifact)
      → (runtime.refresh_weights run_id artifact payload w).0 ≡ ok loaded
      → loaded.artifact ≡ artifact

-- The artifact that is loaded.
abbrev pub artifact_of_loaded : Option SglangLoadedArtifact → Option WeightArtifact
artifact_of_loaded none = none
artifact_of_loaded (some loaded) = some loaded.artifact

-- The dictionaries have the same artifacts.
abbrev pub SameArtifacts : Dict SglangLoadedArtifact → Dict WeightArtifact → Type 0
SameArtifacts d e = (k : String) → artifact_of_loaded (lookup k d) ≡ lookup k e

pub SameArtifacts-insert :
    (k : String) (loaded : SglangLoadedArtifact) (d : Dict SglangLoadedArtifact)
    (e : Dict WeightArtifact)
    → SameArtifacts d e
    → SameArtifacts (insert k loaded d) (insert k loaded.artifact e)
SameArtifacts-insert k loaded d e same j = elim (Bool-cases (k == j)) [
  | inl p ↦ rw (lookup-insert, lookup-insert, p) refl
  | inr p ↦ rw (lookup-insert, lookup-insert, p) (same j)
]

module _ (F : Float) (runtime : SglangRuntime F.Real) (kept : KeepsArtifact runtime)
    (classify : List ℕ → NoObject) (root : String) where
  abbrev State : Type 0
  State = SglangState F runtime classify root

  -- What a load does to the state.
  pub load_artifact-loads :
      (run_id : String) (artifact : WeightArtifact) (h : Hosted State)
      (loaded : SglangLoadedArtifact)
      → (Sglang.load_artifact F runtime classify root run_id artifact h).0 ≡ ok loaded
      → (loaded.artifact ≡ artifact)
        × ((Sglang.load_artifact F runtime classify root run_id artifact h).1.own.loaded_artifacts
            ≡ insert run_id loaded h.own.loaded_artifacts)
        × ((Sglang.load_artifact F runtime classify root run_id artifact h).1.files ≡ h.files)
  unfolding Sglang.load_artifact
  load_artifact-loads run_id artifact h loaded e =
      elim (Result-cases (read_artifact_payload classify artifact h.files)) [
        | inr (x, p) ↦ absurd {0} (ground arith)
        | inl (payload, p) ↦
            elim (Result-cases (runtime.refresh_weights run_id artifact payload h.own.world).0) [
              | inr (x, q) ↦ absurd {0} (ground arith)
              | inl (l, q) ↦
                  let same : l ≡ loaded = ground arith in
                  (
                    kept.keeps run_id artifact payload h.own.world loaded (ground arith),
                    ground arith,
                    ground arith,
                  )
            ]
      ]

  pub select_artifact-keeps :
      (run_id : String) (wanted : Option WeightArtifact) (h : Hosted State)
      → (Sglang.select_artifact F runtime classify root run_id wanted h).1 ≡ h
  unfolding Sglang.select_artifact
  select_artifact-keeps run_id none h = refl
  select_artifact-keeps run_id (some artifact) h = ground arith

  pub select_artifact-selected :
      (run_id : String) (wanted : Option WeightArtifact) (h : Hosted State) (f : Inference.State)
      → Inference.selected root run_id wanted (record { own = f; files = h.files }) ≡ (
        (Sglang.select_artifact F runtime classify root run_id wanted h).0,
        record { own = f; files = h.files },
      )
  unfolding Sglang.select_artifact Inference.selected
  select_artifact-selected run_id none h f = refl
  select_artifact-selected run_id (some artifact) h f = ground arith

  -- What a refresh that returns has passed.
  pub refresh_weights-parts :
      (run_id : String) (wanted : Option WeightArtifact) (h : Hosted State) (a : WeightArtifact)
      → (Sglang.refresh_weights F runtime classify root run_id wanted h).0 ≡ ok a
      → (is_empty run_id ≡ false)
        × (chosen : WeightArtifact) × (loaded : SglangLoadedArtifact) × ((Sglang.select_artifact F
              runtime classify root run_id wanted h).0
            ≡ ok chosen)
        × ((Sglang.load_artifact F runtime classify root run_id chosen h).0 ≡ ok loaded)
        × (loaded.artifact ≡ a)
        × ((Sglang.refresh_weights F runtime classify root run_id wanted h).1
            ≡ (Sglang.load_artifact F runtime classify root run_id chosen h).1)
  unfolding Sglang.refresh_weights
  refresh_weights-parts run_id wanted h a e =
      let kept = select_artifact-keeps run_id wanted h in
      elim (Result-cases (Sglang.select_artifact F runtime classify root run_id wanted h).0) [
        | inr (x, p) ↦ absurd {0} (ground arith)
        | inl (chosen, p) ↦
            elim (Result-cases (Sglang.load_artifact F runtime classify root run_id chosen h).0) [
              | inr (x, q) ↦ absurd {0} (ground arith)
              | inl (loaded, q) ↦ (ground arith, chosen, loaded, p, q, ground arith, ground arith)
            ]
      ]

  pub fake_refresh :
      (run_id : String) (wanted : Option WeightArtifact) (h : Hosted Inference.State)
      (a : WeightArtifact)
      → is_empty run_id ≡ false
      → Inference.selected root run_id wanted h ≡ (ok a, h)
      → Inference.refresh_weights root run_id wanted h
        ≡ (ok a, record h { own = insert run_id a h.own })
  unfolding Inference.refresh_weights
  fake_refresh run_id wanted h a n e = ground arith

  -- What a sample that returns has passed.
  pub sample-parts :
      (run_id : String) (prompt : ModelInput) (params : SamplingParams F.Real) (n : ℤ)
      (h : Hosted State) (res : SampleResult F.Real)
      → (Sglang.sample F runtime classify root run_id prompt params n h).0 ≡ ok res
      → let found = lookup run_id h.own.loaded_artifacts in
        (is_empty run_id ≡ false)
        × (validate_sampling_request F prompt params n ≡ ok tt)
        × (loaded : SglangLoadedArtifact) × ((Sglang.ensure_loaded F runtime classify root run_id
              found h).0
            ≡ ok loaded)
        × (loaded.artifact ≡ res.artifact)
        × ((Sglang.sample F runtime classify root run_id prompt params n h).1.own.loaded_artifacts
            ≡ (Sglang.ensure_loaded F runtime classify root run_id found h).1.own.loaded_artifacts)
  unfolding Sglang.sample
  sample-parts run_id prompt params n h res e =
      let found = lookup run_id h.own.loaded_artifacts in
      let (r, h') = Sglang.ensure_loaded F runtime classify root run_id found h in
      elim (Result-cases (validate_sampling_request F prompt params n)) [
        | inr (x, v) ↦ absurd {0} (ground arith)
        | inl (done, v) ↦
            elim (Result-cases (Sglang.ensure_loaded F runtime classify root run_id found h).0) [
              | inr (x, p) ↦ absurd {0} (ground arith)
              | inl (loaded, p) ↦
                  elim (Result-cases (runtime.sample prompt params n loaded h'.own.world).0) [
                    | inr (x, q) ↦ absurd {0} (ground arith)
                    | inl (items, q) ↦ (ground arith, v, loaded, p, ground arith, ground arith)
                  ]
            ]
      ]

  pub check_sampling-passed :
      (prompt : ModelInput) (params : SamplingParams F.Real) (n : ℤ)
      → validate_sampling_request F prompt params n ≡ ok tt
      → Inference.check_sampling F params n ≡ ok tt
  unfolding validate_sampling_request Inference.check_sampling
  check_sampling-passed prompt params n e = ground arith

  pub fake_sample :
      (run_id : String) (prompt : ModelInput) (params : SamplingParams F.Real) (n : ℤ)
      (h h' : Hosted Inference.State) (a : WeightArtifact)
      → is_empty run_id ≡ false
      → Inference.check_sampling F params n ≡ ok tt
      → Inference.ensure_loaded root run_id (lookup run_id h.own) h ≡ (ok a, h')
      → answer (fake_inference F root) (sample_call run_id prompt params n) h ≡ (ok a, h')
  unfolding answer Inference.sample
  fake_sample run_id prompt params n h h' a named passed e = ground arith
