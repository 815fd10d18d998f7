-- ===== src/Backends/Fake/Inference/Loaded.antt =====
-- Which artifact a sample uses.
use ganker.Base.{String, ◌≡◌, false, Option, some, none, arith, Option-cases, inl, inr}
use ganker.Base.Int.{ℤ}
use ganker.Base.Float.{Float}
use ganker.Base.Result.{ok, is_ok, Result-cases, KeepsOnRaise, KeepsOnRaise-intro}
use ganker.Artifacts.{latest}
use ganker.Base.Dict.{lookup, lookup-insert_self}
use ganker.Base.File.{FileSystem}
use ganker.Contracts.{ModelInput, SamplingParams, WeightArtifact}
use ganker.Backends.{Hosted, SampleResult}
use ganker.Backends.Fake.Inference.{
  State, refresh_weights, sample, check_sampling, ensure_loaded, selected,
}

module _ (root run_id : String) where
  refresh_weights-loads :
      (wanted : Option WeightArtifact) (h : Hosted State) (a : WeightArtifact)
      → (refresh_weights root run_id wanted h).0 ≡ ok a
      → lookup run_id (refresh_weights root run_id wanted h).1.own ≡ some a
  unfolding refresh_weights selected
  refresh_weights-loads none h a e = ground (arith, lookup-insert_self run_id a h.own)
  refresh_weights-loads (some w) h a e = ground (arith, lookup-insert_self run_id a h.own)

  sample-loads :
      (F : Float) (prompt : ModelInput) (params : SamplingParams F.Real) (n : ℤ) (h : Hosted State)
      (res : SampleResult F.Real)
      → (sample F root run_id prompt params n h).0 ≡ ok res
      → lookup run_id (sample F root run_id prompt params n h).1.own ≡ some res.artifact
  unfolding sample ensure_loaded
  sample-loads F prompt params n h res e = elim (Option-cases (lookup run_id h.own)) [
    | inl l ↦ elim (Result-cases (latest root run_id h.files)) [
      | inl (a, f) ↦ ground (arith, lookup-insert_self run_id a h.own)
      | inr (x, f) ↦ ground arith
    ]
    | inr (a, l) ↦ ground arith
  ]

  sample-uses :
      (F : Float) (prompt : ModelInput) (params : SamplingParams F.Real) (n : ℤ) (h : Hosted State)
      (res : SampleResult F.Real) (a : WeightArtifact)
      → lookup run_id h.own ≡ some a
      → (sample F root run_id prompt params n h).0 ≡ ok res
      → res.artifact ≡ a
  unfolding sample ensure_loaded
  sample-uses F prompt params n h res a l e = ground arith

-- A `sample` that returns after a `refresh_weights` of the same run has used the artifact that the
-- refresh returned.
pub refresh_weights-sample :
    (F : Float) (root run_id : String) (wanted : Option WeightArtifact) (prompt : ModelInput)
    (params : SamplingParams F.Real) (n : ℤ) (h : Hosted State) (a : WeightArtifact)
    (res : SampleResult F.Real)
    → (refresh_weights root run_id wanted h).0 ≡ ok a
    → (sample F root run_id prompt params n (refresh_weights root run_id wanted h).1).0 ≡ ok res
    → res.artifact ≡ a
refresh_weights-sample F root run_id wanted prompt params n h a res e f =
    sample-uses root run_id F prompt params n (refresh_weights root run_id wanted h).1 res a
      (refresh_weights-loads root run_id wanted h a e) f

-- A `sample` that returns decides the artifact of the run's later samples: a second `sample` that
-- returns uses the same artifact, whatever was written to the files between the two.
pub sample-sample :
    (F : Float) (root run_id : String) (prompt prompt' : ModelInput)
    (params params' : SamplingParams F.Real) (n n' : ℤ) (h : Hosted State) (files : FileSystem)
    (res res' : SampleResult F.Real)
    → (sample F root run_id prompt params n h).0 ≡ ok res
    → (sample F root run_id prompt' params' n'
        (record (sample F root run_id prompt params n h).1 { files = files })).0
      ≡ ok res'
    → res'.artifact ≡ res.artifact
sample-sample F root run_id prompt prompt' params params' n n' h files res res' e e' =
    sample-uses root run_id F prompt' params' n'
      (record (sample F root run_id prompt params n h).1 { files = files }) res' res.artifact
      (sample-loads root run_id F prompt params n h res e) e'

module _ (root run_id : String) where
  refresh_raise_keeps :
      (h : Hosted State) (wanted : Option WeightArtifact)
      → is_ok (refresh_weights root run_id wanted h).0 ≡ false
      → (refresh_weights root run_id wanted h).1 ≡ h
  unfolding refresh_weights selected
  refresh_raise_keeps h none e = ground (arith, Result-cases (latest root run_id h.files))
  refresh_raise_keeps h (some w) e = ground arith

sample_raise_keeps :
    (F : Float) (root run_id : String) (h : Hosted State) (prompt : ModelInput)
    (params : SamplingParams F.Real) (n : ℤ)
    → is_ok (sample F root run_id prompt params n h).0 ≡ false
    → (sample F root run_id prompt params n h).1 ≡ h
unfolding sample ensure_loaded check_sampling
sample_raise_keeps F root run_id h prompt params n e = elim (Option-cases (lookup run_id h.own)) [
  | inl l ↦ ground (arith, Result-cases (latest root run_id h.files))
  | inr (a, l) ↦ ground arith
]

-- A `refresh_weights` or a `sample` that raises leaves the loaded artifacts and the files as they
-- were.
pub raise_keeps_loaded :
    (F : Float) (root run_id : String) (h : Hosted State) (wanted : Option WeightArtifact)
    (prompt : ModelInput) (params : SamplingParams F.Real) (n : ℤ)
    → KeepsOnRaise (refresh_weights root run_id wanted) h
      × KeepsOnRaise (sample F root run_id prompt params n) h
raise_keeps_loaded F root run_id h wanted prompt params n = (
  KeepsOnRaise-intro (refresh_weights root run_id wanted) h
      (refresh_raise_keeps root run_id h wanted),
  KeepsOnRaise-intro (sample F root run_id prompt params n) h
      (sample_raise_keeps F root run_id h prompt params n),
)
