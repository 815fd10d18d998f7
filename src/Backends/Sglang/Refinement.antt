-- ===== src/Backends/Sglang/Refinement.antt =====
-- The SGLang backend refines the fake backend in the choice of artifacts.
-- src/ganker/backends/sglang.py
use mathlib.Core.Path.{subst}
use ganker.Base.{
  String, ◌≡◌, refl, sym, ap, ◌∙◌, Option, some, none, List, [], ◌∷◌, arith, inl, inr, ℕ,
}
use ganker.Base.Int.{ℤ}
use ganker.Base.Float.{Float}
use ganker.Base.Result.{Result, ok, bind, Result-cases, bind-eq-ok}
use ganker.Base.Dict.{Dict, lookup, insert, lookup-nil}
use ganker.Base.File.{FileSystem}
use ganker.Contracts.{ModelInput, SamplingParams, WeightArtifact}
use ganker.Artifacts
use ganker.Backends.{Hosted, SampleResult}
use ganker.Backends.Fake.Inference
use ganker.Backends.Fake.Inference.{fake_inference}
use ganker.Backends.Sglang
use ganker.Backends.Sglang.{
  SglangLoadedArtifact, SglangRuntime, SglangState, NoObject, sglang_inference,
}
use ganker.Backends.Sglang.Passing.{
  InferenceCall, refresh_call, sample_call, answer, answers, KeepsArtifact, artifact_of_loaded,
  SameArtifacts, SameArtifacts-insert, load_artifact-loads, select_artifact-selected,
  refresh_weights-parts, fake_refresh, sample-parts, check_sampling-passed, fake_sample,
}

module _ (F : Float) (runtime : SglangRuntime F.Real) (kept : KeepsArtifact runtime)
    (classify : List ℕ → NoObject) (root : String) where
  abbrev State : Type 0
  State = SglangState F runtime classify root

  -- A state of the fake backend with the same artifacts, and the files.
  abbrev Follows :
      Result WeightArtifact × Hosted Inference.State
      → WeightArtifact
      → FileSystem
      → Dict SglangLoadedArtifact
      → Type 0
  Follows answered a files d =
      (f : Inference.State) × (answered ≡ (ok a, record { own = f; files = files }))
      × SameArtifacts d f

  refresh_weights-Follows :
      (run_id : String) (wanted : Option WeightArtifact) (h : Hosted State) (f : Inference.State)
      (a : WeightArtifact)
      → SameArtifacts h.own.loaded_artifacts f
      → (Sglang.refresh_weights F runtime classify root run_id wanted h).0 ≡ ok a
      → Follows
          (Inference.refresh_weights root run_id wanted (record { own = f; files = h.files }))
          a
          h.files
          (Sglang.refresh_weights F runtime classify root run_id wanted h).1.own.loaded_artifacts
  refresh_weights-Follows run_id wanted h f a same e =
      let (named, chosen, loaded, picked, read, given, after) =
        refresh_weights-parts F runtime kept classify root run_id wanted h a e in
      let (own, stored, _) =
        load_artifact-loads F runtime kept classify root run_id chosen h loaded read in
      let h' : Hosted Inference.State = record { own = f; files = h.files } in
      let selected =
        select_artifact-selected F runtime kept classify root run_id wanted h f
        ∙ ap (λ (r : Result WeightArtifact). (r, h')) picked in
      (
        insert run_id loaded.artifact f,
        subst
            (λ (x : WeightArtifact).
              Inference.refresh_weights root run_id wanted h'
              ≡ (ok a, record { own = insert run_id x f; files = h.files }))
            (sym own)
            (subst
              (λ (x : WeightArtifact).
                Inference.refresh_weights root run_id wanted h'
                ≡ (ok x, record { own = insert run_id chosen f; files = h.files }))
              (sym own ∙ given)
              (fake_refresh F runtime kept classify root run_id wanted h' chosen named selected)),
        subst (λ (d : Dict SglangLoadedArtifact). SameArtifacts d (insert run_id loaded.artifact f))
            (sym (ap (λ (x : Hosted State). x.own.loaded_artifacts) after ∙ stored))
            (SameArtifacts-insert run_id loaded h.own.loaded_artifacts f same),
      )

  -- A load that finds nothing loaded.
  ensure_loaded-parts :
      (run_id : String) (h : Hosted State) (loaded : SglangLoadedArtifact)
      → (Sglang.ensure_loaded F runtime classify root run_id none h).0 ≡ ok loaded
      → (chosen : WeightArtifact) × (Artifacts.latest root run_id h.files ≡ ok chosen)
        × ((Sglang.load_artifact F runtime classify root run_id chosen h).0 ≡ ok loaded)
        × ((Sglang.ensure_loaded F runtime classify root run_id none h).1
            ≡ (Sglang.load_artifact F runtime classify root run_id chosen h).1)
  unfolding Sglang.ensure_loaded Sglang.select_artifact
  ensure_loaded-parts run_id h loaded e =
      elim (Result-cases (Artifacts.latest root run_id h.files)) [
        | inr (x, p) ↦ absurd {0} (ground arith)
        | inl (chosen, p) ↦ (chosen, p, ground arith, ground arith)
      ]

  fake_ensure_loaded :
      (run_id : String) (h : Hosted Inference.State) (a : WeightArtifact)
      → Artifacts.latest root run_id h.files ≡ ok a
      → Inference.ensure_loaded root run_id none h
        ≡ (ok a, record h { own = insert run_id a h.own })
  unfolding Inference.ensure_loaded
  fake_ensure_loaded run_id h a e = ground arith

  ensure_loaded-Follows :
      (run_id : String) (found : Option SglangLoadedArtifact) (h : Hosted State)
      (f : Inference.State) (loaded : SglangLoadedArtifact)
      → SameArtifacts h.own.loaded_artifacts f
      → (Sglang.ensure_loaded F runtime classify root run_id found h).0 ≡ ok loaded
      → Follows
          (Inference.ensure_loaded root run_id
            (artifact_of_loaded found)
            (record { own = f; files = h.files }))
          loaded.artifact
          h.files
          (Sglang.ensure_loaded F runtime classify root run_id found h).1.own.loaded_artifacts
  unfolding Sglang.ensure_loaded Inference.ensure_loaded
  ensure_loaded-Follows run_id (some l) h f loaded same e =
      let equal : l ≡ loaded = cc in
      (
        f,
        ap (λ (x : SglangLoadedArtifact). (ok x.artifact, record { own = f; files = h.files }))
            equal,
        same,
      )
  ensure_loaded-Follows run_id none h f loaded same e =
      let (chosen, found, read, after) = ensure_loaded-parts run_id h loaded e in
      let (own, stored, _) =
        load_artifact-loads F runtime kept classify root run_id chosen h loaded read in
      let h' : Hosted Inference.State = record { own = f; files = h.files } in
      (
        insert run_id loaded.artifact f,
        subst
            (λ (x : WeightArtifact).
              Inference.ensure_loaded root run_id none h'
              ≡ (ok x, record { own = insert run_id x f; files = h.files }))
            (sym own) (fake_ensure_loaded run_id h' chosen found),
        subst (λ (d : Dict SglangLoadedArtifact). SameArtifacts d (insert run_id loaded.artifact f))
            (sym (ap (λ (x : Hosted State). x.own.loaded_artifacts) after ∙ stored))
            (SameArtifacts-insert run_id loaded h.own.loaded_artifacts f same),
      )

  sample-Follows :
      (run_id : String) (prompt : ModelInput) (params : SamplingParams F.Real) (n : ℤ)
      (h : Hosted State) (f : Inference.State) (res : SampleResult F.Real)
      → SameArtifacts h.own.loaded_artifacts f
      → (Sglang.sample F runtime classify root run_id prompt params n h).0 ≡ ok res
      → Follows
          (answer
            (fake_inference F root)
            (sample_call run_id prompt params n)
            (record { own = f; files = h.files }))
          res.artifact
          h.files
          (Sglang.sample F runtime classify root run_id prompt params n h).1.own.loaded_artifacts
  sample-Follows run_id prompt params n h f res same e =
      let (named, passed, loaded, ready, given, after) =
        sample-parts F runtime kept classify root run_id prompt params n h res e in
      let found = lookup run_id h.own.loaded_artifacts in
      let h' : Hosted Inference.State = record { own = f; files = h.files } in
      let (g, fake, same') = ensure_loaded-Follows run_id found h f loaded same ready in
      (
        g,
        fake_sample F runtime kept classify root run_id prompt params n h'
            (record { own = g; files = h.files }) res.artifact named
            (check_sampling-passed F runtime kept classify root prompt params n passed)
            (subst
              (λ (o : Option WeightArtifact).
                Inference.ensure_loaded root run_id o h'
                ≡ (ok res.artifact, record { own = g; files = h.files }))
              (same run_id)
              (subst
                (λ (x : WeightArtifact).
                  Inference.ensure_loaded root run_id (artifact_of_loaded found) h'
                  ≡ (ok x, record { own = g; files = h.files }))
                given fake)),
        subst (λ (d : Dict SglangLoadedArtifact). SameArtifacts d g) (sym after) same',
      )

  answer-Follows :
      (call : InferenceCall F.Real) (h : Hosted State) (f : Inference.State) (a : WeightArtifact)
      → SameArtifacts h.own.loaded_artifacts f
      → (answer (sglang_inference F runtime classify root) call h).0 ≡ ok a
      → Follows
          (answer (fake_inference F root) call (record { own = f; files = h.files }))
          a
          h.files
          (answer (sglang_inference F runtime classify root) call h).1.own.loaded_artifacts
  unfolding answer
  answer-Follows (refresh_call run_id wanted) h f a same e =
      refresh_weights-Follows run_id wanted h f a same e
  answer-Follows (sample_call run_id prompt params n) h f a same e =
      let m = Sglang.sample F runtime classify root run_id prompt params n in
      elim (Result-cases (m h).0) [
        | inr (x, p) ↦ absurd {0} (ground arith)
        | inl (res, p) ↦
            let (g, fake, same') = sample-Follows run_id prompt params n h f res same p in
            let equal : res.artifact ≡ a = ground arith in
            let after : (answer (sglang_inference F runtime classify root)
                  (sample_call run_id prompt params n) h).1
                ≡ (m h).1 =
              ground arith in
            (
              g,
              fake ∙ ap (λ (x : WeightArtifact). (ok x, record { own = g; files = h.files })) equal,
              subst (λ (x : Hosted State). SameArtifacts x.own.loaded_artifacts g) (sym after)
                  same',
            )
      ]

  answers-Follows :
      (calls : List (FileSystem × InferenceCall F.Real)) (s : State) (f : Inference.State)
      (artifacts : List WeightArtifact)
      → SameArtifacts s.loaded_artifacts f
      → answers (sglang_inference F runtime classify root) calls s ≡ ok artifacts
      → answers (fake_inference F root) calls f ≡ ok artifacts
  unfolding answers
  answers-Follows [] s f artifacts same e = e
  answers-Follows ((files, call) ∷ calls) s f artifacts same e =
      let I = sglang_inference F runtime classify root in
      let h : Hosted State = record { own = s; files = files } in
      let (a, p, e') =
        bind-eq-ok (answer I call h).0
          (λ artifact. bind (answers I calls (answer I call h).1.own) λ rest. ok (artifact ∷ rest))
          e in
      let (rest, q, e'') =
        bind-eq-ok (answers I calls (answer I call h).1.own) (λ rest. ok (a ∷ rest)) e' in
      let (g, fake, same') = answer-Follows call h f a same p in
      let later = answers-Follows calls (answer I call h).1.own g rest same' q in
      rw (fake, later) e''

  -- Let a runtime give back the artifact that it loads, and let calls of a client, each with the files
  -- that it finds, all return on a new SGLang backend. Then they all return on a new fake backend, and
  -- each of them refreshes to, or samples with, the same artifact there.
  pub sglang-refines :
      (calls : List (FileSystem × InferenceCall F.Real)) (w : runtime.World)
      (artifacts : List WeightArtifact)
      → answers
          (sglang_inference F runtime classify root)
          calls
          (record { loaded_artifacts = []; world = w })
        ≡ ok artifacts
      → answers (fake_inference F root) calls [] ≡ ok artifacts
  sglang-refines calls w artifacts e =
      answers-Follows calls (record { loaded_artifacts = []; world = w }) [] artifacts
        (λ k. rw (lookup-nil, lookup-nil) refl) e
