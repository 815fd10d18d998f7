-- ===== src/Sft/Lengths.antt =====
-- An encoded example fills the sequence length.
use ganker.Base.{
  ℕ, zero, suc, ◌+◌, ◌-◌, ◌≤◌, ◌≡◌, refl, ap, ◌∙◌, some, List, [], ◌∷◌, ◌++◌, map, arith, length,
  take, drop, replicate, range, length-append, length-map, length-replicate, string_dec, inl, inr,
}
use mathlib.Core.Path.{subst}
use ganker.Base.Int.{ℤ, pos_part}
use ganker.Base.Float.{Float}
use ganker.Base.Result.{ok, Result-cases}
use ganker.Base.Dict.{lookup}
use ganker.Contracts.{Datum, TensorData, int, float}
use ganker.Sft.{
  Tokenizer, SftExample, SftDataConfig, set_last, weights_of, fit, to_datum, encode_tokens,
  encode_sft_example, zero_weight,
}

length-range : (start n : ℕ) → length (range start n) ≡ n
length-range start zero = refl
length-range start (suc n) = ap suc (length-range (start + 1) n)

module _ {A : Type 0} where
  length-set_last : (xs : List A) (x : A) → length (set_last xs x) ≡ length xs
  length-set_last [] x = refl
  length-set_last (y ∷ []) x = refl
  length-set_last (y ∷ z ∷ ys) x = ap suc (length-set_last (z ∷ ys) x)

  length-take_same :
      {B : Type 0} (n : ℕ) (xs : List A) (ys : List B)
      → length xs ≡ length ys
      → length (take n xs) ≡ length (take n ys)
  length-take_same zero xs ys h = refl
  length-take_same (suc n) [] [] h = refl
  length-take_same (suc n) [] (y ∷ ys) h = absurd (omega (arith, h))
  length-take_same (suc n) (x ∷ xs) [] h = absurd (omega (arith, h))
  length-take_same (suc n) (x ∷ xs) (y ∷ ys) h =
      ap suc (length-take_same n xs ys (omega (arith, h)))

  length-take_le : (n : ℕ) (xs : List A) → length (take n xs) ≤ n
  length-take_le zero xs = omega arith
  length-take_le (suc n) [] = omega arith
  length-take_le (suc n) (x ∷ xs) = let h = length-take_le n xs in omega (arith, h)

module _ {A : Type 0} where
  -- A list as long as `ys` becomes n long by the padding that `ys` needs.
  length-fit :
      {B : Type 0} (n : ℕ) (pad : A) (xs : List A) (ys : List B)
      → length xs ≡ length ys
      → length (fit n (n - length (take n ys)) pad xs) ≡ n
  unfolding fit
  length-fit n pad xs ys h =
      let k = n - length (take n ys) in
      let same = length-take_same n xs ys h in
      let le = length-take_le n ys in
      let all = length-append (take n xs) (replicate k pad) in
      let padding = length-replicate k pad in omega (arith, same, le, all, padding)

-- A datum with n tokens, n targets and n weights.
abbrev pub IsFull : {R : Type 0} → ℕ → Datum R → Type 0
IsFull {R} n d =
    (length d.model_input.token_ids ≡ n)
    × ((targets : TensorData R) × (lookup "target_tokens" d.loss_fn_inputs ≡ some targets)
        × (length targets.values ≡ n))
    × ((weights : TensorData R) × (lookup "weights" d.loss_fn_inputs ≡ some weights)
        × (length weights.values ≡ n))

module _ (F : Float) where
  to_datum-IsFull :
      (n : ℕ) (input_ids targets : List ℤ) (weights : List F.Real)
      → length input_ids ≡ n
      → length targets ≡ n
      → length weights ≡ n
      → IsFull n (to_datum F input_ids targets weights)
  unfolding lookup string_dec
  to_datum-IsFull n input_ids targets weights a b c = (
    a,
    (record { values = map int targets }, refl, length-map int targets ∙ b),
    (record { values = map float weights }, refl, length-map float weights ∙ c),
  )

  length-weights_of :
      (weight : F.Real) (first end n : ℕ) → length (weights_of F weight first end n) ≡ n
  unfolding weights_of
  length-weights_of weight first end n =
      length-set_last _ (zero_weight F) ∙ length-map _ (range 0 n) ∙ length-range 0 n

  encode_tokens-IsFull :
      (weight : F.Real) (tokenizer : Tokenizer) (config : SftDataConfig)
      (prompt completion : List ℤ) (d : Datum F.Real)
      → encode_tokens F weight tokenizer config prompt completion ≡ some d
      → IsFull (pos_part config.sequence_length) d
  unfolding encode_tokens
  encode_tokens-IsFull weight tokenizer config prompt completion d e =
      let n = pos_part config.sequence_length in
      let ids : List ℤ =
        (tokenizer.bos_token_id ∷ prompt) ++ completion ++ tokenizer.eos_token_id ∷ [] in
      let targets : List ℤ = drop 1 ids ++ tokenizer.pad_token_id ∷ [] in
      let weights : List F.Real =
        weights_of F weight (length prompt) (length prompt + length completion + 1) (length ids) in
      let k = n - length (take n ids) in
      let shifted : length targets ≡ length ids =
        length-append (drop 1 ids) (tokenizer.pad_token_id ∷ [])
        ∙ (let e1 : length (drop 1 ids) + 1 ≡ length ids = omega arith in e1) in
      let same : to_datum F (fit n k tokenizer.pad_token_id ids)
            (fit n k tokenizer.pad_token_id targets) (fit n k (zero_weight F) weights)
          ≡ d =
        ground arith in
      subst (IsFull n) same (
        to_datum-IsFull n _ _ _ (length-fit n tokenizer.pad_token_id ids ids refl)
          (length-fit n tokenizer.pad_token_id targets ids shifted)
          (length-fit n (zero_weight F) weights ids (
            length-weights_of weight (length prompt) (length prompt + length completion + 1)
              (length ids))))

-- An example that is encoded becomes a datum of exactly `sequence_length` tokens, targets and
-- weights, whatever the tokenizer gives.
pub encode_sft_example-IsFull :
    (F : Float) (example : SftExample F.Real) (tokenizer : Tokenizer) (config : SftDataConfig)
    (d : Datum F.Real)
    → encode_sft_example F example tokenizer config ≡ ok (some d)
    → IsFull (pos_part config.sequence_length) d
unfolding encode_sft_example
encode_sft_example-IsFull F example tokenizer config d e =
    elim (Result-cases (tokenizer.encode example.prompt)) [
      | inr (x, f) ↦ ground arith
      | inl (prompt, f) ↦ elim (Result-cases (tokenizer.encode example.completion)) [
        | inr (x, g) ↦ ground arith
        | inl (completion, g) ↦
            encode_tokens-IsFull F example.weight tokenizer config prompt completion d
              (ground arith)
      ]
    ]
