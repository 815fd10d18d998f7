-- ===== src/Backends/Fake/Inference/Tokens.antt =====
-- The tokens of a request's samples are consecutive numbers, and the usage counts them.
use ganker.Base.{
  ℕ, zero, suc, ◌+◌, ◌*◌, String, ◌≡◌, refl, sym, ap, ◌∙◌, false, List, [], ◌∷◌, ◌++◌, map, arith,
  length, range, length-map,
}
use mathlib.Core.Path.{ap₂, subst}
use mathlib.Core.Logic.{inl, inr}
use ganker.Base.Int.{ℤ, pos, ◌+ℤ◌, ◌*ℤ◌, pos_part, is_nonpos}
use ganker.Base.Float.{Float}
use ganker.Base.Result.{ok, Result-cases}
use ganker.Base.Dict.{lookup}
use ganker.Contracts.{ModelInput, SamplingParams, SampledSequence, WeightArtifact, no_usage}
use ganker.Backends.{Hosted, SampleResult}
use ganker.Backends.Fake.Inference.{
  State, last_token, sample_tokens, sample_sequence, sample_sequences, sample, check_sampling,
  ensure_loaded, count_input,
}

-- n tokens that follow `first`
abbrev pub following : ℤ → ℕ → ℕ → List ℤ
following first start n = map (λ i. first +ℤ pos i) (range start n)

-- All tokens of a response, in order.
abbrev pub all_tokens : {R : Type 0} → List (SampledSequence R) → List ℤ
all_tokens [] = []
all_tokens (s ∷ ss) = s.tokens ++ all_tokens ss

length-range : (start n : ℕ) → length (range start n) ≡ n
length-range start zero = refl
length-range start (suc n) = ap suc (length-range (start + 1) n)

token_shift : (a : ℤ) (b c : ℕ) → a +ℤ pos b +ℤ pos c +ℤ pos 1 ≡ a +ℤ pos (b + c + 1)
unfolding ◌+ℤ◌
token_shift a b c = ground arith

tokens_from :
    (base version : ℤ) (start offset n : ℕ)
    → map (λ o. base +ℤ version +ℤ pos start +ℤ pos o +ℤ pos 1) (range offset n)
      ≡ following (base +ℤ version) (start + offset + 1) n
tokens_from base version start offset zero = refl
tokens_from base version start offset (suc n) =
    let e : start + (offset + 1) + 1 ≡ start + offset + 1 + 1 = omega arith in
    ap₂ ◌∷◌ (token_shift (base +ℤ version) start offset) (
      tokens_from base version start (offset + 1) n
      ∙ ap (λ (k : ℕ). following (base +ℤ version) k n) e)

following-append :
    (first : ℤ) (start m n : ℕ)
    → following first start m ++ following first (start + m) n ≡ following first start (m + n)
following-append first start zero n =
    let e : start + 0 ≡ start = omega arith in
    let f : 0 + n ≡ n = omega arith in ap₂ (following first) e (sym f)
following-append first start (suc m) n =
    let e : start + suc m ≡ start + 1 + m = omega arith in
    let f : suc m + n ≡ suc (m + n) = omega arith in
    ap (λ (l : List ℤ). (first +ℤ pos start) ∷ l)
      (ap (λ (k : ℕ). following first (start + 1) m ++ following first k n) e
        ∙ following-append first (start + 1) m n)
    ∙ sym (ap (following first start) f)

module _ (F : Float) (prompt : ModelInput) (artifact : WeightArtifact) where
  abbrev first : ℤ
  first = last_token prompt.token_ids +ℤ artifact.checkpoint_version

  tokens-sample_sequence :
      (max index : ℕ)
      → (sample_sequence F prompt artifact max index).tokens ≡ following first (index * max + 1) max
  unfolding sample_sequence sample_tokens
  tokens-sample_sequence max index =
      let e : index * max + 0 + 1 ≡ index * max + 1 = omega arith in
      tokens_from (last_token prompt.token_ids) artifact.checkpoint_version (index * max) 0 max
      ∙ ap (λ (k : ℕ). following first k max) e

  tokens-sample_sequences :
      (max index n : ℕ)
      → all_tokens (sample_sequences F prompt artifact max index n)
        ≡ following first (index * max + 1) (n * max)
  unfolding sample_sequences
  tokens-sample_sequences max index zero =
      let e : 0 ≡ zero * max = omega arith in ap (following first (index * max + 1)) e
  tokens-sample_sequences max index (suc n) =
      let e : (index + 1) * max + 1 ≡ index * max + 1 + max = omega arith in
      let f : max + n * max ≡ suc n * max = omega arith in
      ap₂ ◌++◌ (tokens-sample_sequence max index)
        (tokens-sample_sequences max (index + 1) n ∙ ap (λ (k : ℕ). following first k (n * max)) e)
      ∙ following-append first (index * max + 1) max (n * max)
      ∙ ap (following first (index * max + 1)) f

  length-sample_sequences :
      (max index n : ℕ) → length (sample_sequences F prompt artifact max index n) ≡ n
  unfolding sample_sequences
  length-sample_sequences max index zero = refl
  length-sample_sequences max index (suc n) = ap suc (length-sample_sequences max (index + 1) n)

-- What `sample` returns with the artifact that it finds.
abbrev pub answer :
    (F : Float)
    → String
    → ModelInput
    → SamplingParams F.Real
    → ℤ
    → WeightArtifact
    → SampleResult F.Real
answer F run_id prompt params num_samples artifact = record {
  run_id = run_id;
  sequences =
      sample_sequences F prompt artifact (pos_part params.max_tokens) 0 (pos_part num_samples);
  artifact = artifact;
  usage = record no_usage {
    input_tokens = pos (count_input prompt);
    output_tokens = params.max_tokens *ℤ num_samples;
    samples = num_samples;
  };
}

pub sample-eq-ok :
    (F : Float) (root run_id : String) (prompt : ModelInput) (params : SamplingParams F.Real)
    (num_samples : ℤ) (h : Hosted State) (res : SampleResult F.Real)
    → (sample F root run_id prompt params num_samples h).0 ≡ ok res
    → (artifact : WeightArtifact) × (is_nonpos params.max_tokens ≡ false)
      × (is_nonpos num_samples ≡ false)
      × (answer F run_id prompt params num_samples artifact ≡ res)
unfolding sample check_sampling
sample-eq-ok F root run_id prompt params num_samples h res e =
    elim (Result-cases (ensure_loaded root run_id (lookup run_id h.own) h).0) [
      | inl (artifact, f) ↦ (artifact, ground arith, ground arith, ground arith)
      | inr (x, f) ↦ ground arith
    ]

pos_part-inverse : (n : ℤ) → is_nonpos n ≡ false → pos (pos_part n) ≡ n
pos_part-inverse n e = ground arith

*ℤ_pos : (m n : ℕ) → pos m *ℤ pos n ≡ pos (n * m)
unfolding ◌*ℤ◌
*ℤ_pos m n = let e : m * n ≡ n * m = omega arith in ap pos e

length-following : (first : ℤ) (start n : ℕ) → length (following first start n) ≡ n
length-following first start n =
    length-map (λ i. first +ℤ pos i) (range start n) ∙ length-range start n

abbrev IsConsecutive :
    (F : Float) → ModelInput → SamplingParams F.Real → ℤ → SampleResult F.Real → Type 0
IsConsecutive F prompt params num_samples res =
    (pos (length res.sequences) ≡ num_samples)
    × (all_tokens res.sequences
        ≡ following (last_token prompt.token_ids +ℤ res.artifact.checkpoint_version) 1
            (pos_part num_samples * pos_part params.max_tokens))
    × (res.usage.samples ≡ num_samples)
    × (res.usage.output_tokens ≡ pos (length (all_tokens res.sequences)))

answer-IsConsecutive :
    (F : Float) (run_id : String) (prompt : ModelInput) (params : SamplingParams F.Real)
    (num_samples : ℤ) (artifact : WeightArtifact)
    → is_nonpos params.max_tokens ≡ false
    → is_nonpos num_samples ≡ false
    → IsConsecutive F prompt params num_samples (answer F run_id prompt params num_samples artifact)
answer-IsConsecutive F run_id prompt params num_samples artifact e1 e2 =
    let n = pos_part num_samples in
    let m = pos_part params.max_tokens in
    let p = pos_part-inverse num_samples e2 in
    let q = pos_part-inverse params.max_tokens e1 in
    let z : 0 * m + 1 ≡ 1 = omega arith in
    let first = last_token prompt.token_ids +ℤ artifact.checkpoint_version in
    let t =
      tokens-sample_sequences F prompt artifact m 0 n
      ∙ ap (λ (k : ℕ). following first k (n * m)) z in
    (
      ap pos (length-sample_sequences F prompt artifact m 0 n) ∙ p,
      t,
      refl,
      sym (ap₂ ◌*ℤ◌ q p)
          ∙ *ℤ_pos m n
          ∙ ap pos (sym (ap length t ∙ length-following first 1 (n * m))),
    )

-- A `sample` that returns gives `num_samples` sequences. Their tokens, one sequence after the
-- other, are `num_samples * max_tokens` consecutive numbers, of which the first is one more than
-- the sum of the prompt's last token (0 if it has none) and the artifact's version; the usage
-- counts the sequences and these tokens.
pub sample_tokens_consecutive :
    (F : Float) (root run_id : String) (prompt : ModelInput) (params : SamplingParams F.Real)
    (num_samples : ℤ) (h : Hosted State) (res : SampleResult F.Real)
    → (sample F root run_id prompt params num_samples h).0 ≡ ok res
    → (pos (length res.sequences) ≡ num_samples)
      × (all_tokens res.sequences
          ≡ following
              (last_token prompt.token_ids +ℤ res.artifact.checkpoint_version)
              1
              (pos_part num_samples * pos_part params.max_tokens))
      × (res.usage.samples ≡ num_samples)
      × (res.usage.output_tokens ≡ pos (length (all_tokens res.sequences)))
sample_tokens_consecutive F root run_id prompt params num_samples h res e =
    let (artifact, e1, e2, e3) = sample-eq-ok F root run_id prompt params num_samples h res e in
    subst (IsConsecutive F prompt params num_samples) e3
      (answer-IsConsecutive F run_id prompt params num_samples artifact e1 e2)
