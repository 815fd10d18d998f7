-- ===== src/Backends/Megatron/Batch/Pieces.antt =====
-- The pieces of a split batch.
use mathlib.Core.Path.{subst}
use native.Mathlib.Nat.{div-add-mod'}
use ganker.Base.{
  ℕ, zero, suc, ◌+◌, ◌*◌, ◌%◌, ◌/◌, ◌≤◌, ◌≡◌, refl, sym, ap, ◌∙◌, List, [], ◌∷◌, ◌++◌, arith, eqb,
  length, take, drop, All, append_nil, Bool-cases, inl, inr, ◌⊎◌,
}
use ganker.Base.Int.{ℤ, pos, negsuc}
use ganker.Base.Result.{ok}
use ganker.Backends.Megatron.Batch.{TensorBatch, slice, slices, split_tensor_batch}

-- The rows of all pieces, one piece after the other.
abbrev pub joined : {A B : Type 0} → (A → List B) → List A → List B
joined rows [] = []
joined rows (x ∷ xs) = rows x ++ joined rows xs

module _ {A : Type 0} where
  take-drop : (n : ℕ) (xs : List A) → take n xs ++ drop n xs ≡ xs
  take-drop zero xs = refl
  take-drop (suc n) [] = refl
  take-drop (suc n) (x ∷ xs) = ap (λ (l : List A). x ∷ l) (take-drop n xs)

  drop-nil : (n : ℕ) → drop {A = A} n [] ≡ []
  drop-nil zero = refl
  drop-nil (suc n) = refl

  drop-drop : (m n : ℕ) (xs : List A) → drop n (drop m xs) ≡ drop (m + n) xs
  drop-drop zero n xs = let e : n ≡ zero + n = omega arith in ap (λ (k : ℕ). drop k xs) e
  drop-drop (suc m) n [] = drop-nil n ∙ sym (drop-nil (suc m + n))
  drop-drop (suc m) n (x ∷ xs) =
      let e : suc m + n ≡ suc (m + n) = omega arith in
      drop-drop m n xs ∙ ap (λ (k : ℕ). drop k (x ∷ xs)) (sym e)

  drop-all : (n : ℕ) (xs : List A) → length xs ≤ n → drop n xs ≡ []
  drop-all zero [] h = refl
  drop-all zero (x ∷ xs) h = absurd (omega (arith, h))
  drop-all (suc n) [] h = refl
  drop-all (suc n) (x ∷ xs) h = drop-all n xs (omega (arith, h))

  length-take-drop :
      (start size : ℕ) (xs : List A)
      → start + size ≤ length xs
      → length (take size (drop start xs)) ≡ size
  length-take-drop zero zero xs h = refl
  length-take-drop zero (suc n) [] h = absurd (omega (arith, h))
  length-take-drop zero (suc n) (x ∷ xs) h = ap suc (length-take-drop zero n xs (omega (arith, h)))
  length-take-drop (suc m) size [] h = absurd (omega (arith, h))
  length-take-drop (suc m) size (x ∷ xs) h = length-take-drop m size xs (omega (arith, h))

module _ {R : Type 0} {B : Type 0} (rows : TensorBatch R → List B) where
  joined-slices :
      (start size n : ℕ) (batch : TensorBatch R)
      → ((i j : ℕ) (b : TensorBatch R) → rows (slice i j b) ≡ take j (drop i (rows b)))
      → length (rows batch) ≡ start + n * size
      → joined rows (slices start size batch n) ≡ drop start (rows batch)
  unfolding slices
  joined-slices start size zero batch sliced h =
      sym (drop-all start (rows batch) (omega (arith, h)))
  joined-slices start size (suc n) batch sliced h =
      let g : length (rows batch) ≡ start + size + n * size = omega (arith, h) in
      ap (λ (l : List B). l ++ joined rows (slices (start + size) size batch n))
        (sliced start size batch)
      ∙ ap (λ (l : List B). take size (drop start (rows batch)) ++ l)
          (joined-slices (start + size) size n batch sliced g
            ∙ sym (drop-drop start size (rows batch)))
      ∙ take-drop size (drop start (rows batch))

slices-sizes :
    {R : Type 0} (start size n : ℕ) (batch : TensorBatch R)
    → length batch.input_ids ≡ start + n * size
    → All (λ b. length b.input_ids ≡ size) (slices start size batch n)
unfolding slices
slices-sizes start size zero batch h = tt
slices-sizes start size (suc n) batch h =
    let g : length batch.input_ids ≡ start + size + n * size = omega (arith, h) in
    (
      length-take-drop start size batch.input_ids (omega (arith, h)),
      slices-sizes (start + size) size n batch g,
    )

split-cases :
    {R : Type 0} (batch : TensorBatch R) (m : ℕ) (pieces : List (TensorBatch R))
    → split_tensor_batch batch (pos m) ≡ ok pieces
    → ((batch ∷ [] ≡ pieces) × (length batch.input_ids ≡ m))
      ⊎ ((slices 0 m batch (length batch.input_ids / m) ≡ pieces)
          × (length batch.input_ids ≡ 0 + length batch.input_ids / m * m))
unfolding split_tensor_batch
split-cases batch m pieces e =
    let total = length batch.input_ids in
    let whole : total / m * m + total % m ≡ total = div-add-mod' total m in
    elim (Bool-cases (eqb total m)) [
      | inl t ↦ inl (ground arith, ground arith)
      | inr f ↦
          let exact : total % m ≡ 0 = ground arith in
          inr (ground arith, omega (arith, whole, exact))
    ]

abbrev IsPieces : {R : Type 0} → TensorBatch R → ℤ → List (TensorBatch R) → Type 0
IsPieces batch micro_batch_size pieces =
    All (λ piece. pos (length piece.input_ids) ≡ micro_batch_size) pieces
    × (joined (λ piece. piece.input_ids) pieces ≡ batch.input_ids)
    × (joined (λ piece. piece.target_tokens) pieces ≡ batch.target_tokens)
    × (joined (λ piece. piece.weights) pieces ≡ batch.weights)

All-map :
    {A : Type 0} (P Q : A → Type 0) (f : (x : A) → P x → Q x) (xs : List A) → All P xs → All Q xs
All-map P Q f [] h = tt
All-map P Q f (x ∷ xs) (p, ps) = (f x p, All-map P Q f xs ps)

slices-IsPieces :
    {R : Type 0} (batch : TensorBatch R) (m n : ℕ)
    → length batch.target_tokens ≡ length batch.input_ids
    → length batch.weights ≡ length batch.input_ids
    → length batch.input_ids ≡ 0 + n * m
    → IsPieces batch (pos m) (slices 0 m batch n)
slices-IsPieces {R} batch m n h1 h2 h = (
  All-map (λ b. length b.input_ids ≡ m) (λ b. pos (length b.input_ids) ≡ pos m) (λ b e. ap pos e)
      (slices 0 m batch n) (slices-sizes 0 m n batch h),
  joined-slices (λ b. b.input_ids) 0 m n batch (λ i j b. refl) h,
  joined-slices (λ b. b.target_tokens) 0 m n batch (λ i j b. refl) (h1 ∙ h),
  joined-slices (λ b. b.weights) 0 m n batch (λ i j b. refl) (h2 ∙ h),
)

-- A split that is accepted has pieces of the configured size, of which the rows, one piece after
-- the other, are the rows of the batch, in each of the three tensors. The condition is that the
-- tensors have equally many rows.
pub split_tensor_batch_pieces :
    {R : Type 0} (batch : TensorBatch R) (micro_batch_size : ℤ) (pieces : List (TensorBatch R))
    → length batch.target_tokens ≡ length batch.input_ids
    → length batch.weights ≡ length batch.input_ids
    → split_tensor_batch batch micro_batch_size ≡ ok pieces
    → All (λ piece. pos (length piece.input_ids) ≡ micro_batch_size) pieces
      × (joined (λ piece. piece.input_ids) pieces ≡ batch.input_ids)
      × (joined (λ piece. piece.target_tokens) pieces ≡ batch.target_tokens)
      × (joined (λ piece. piece.weights) pieces ≡ batch.weights)
unfolding split_tensor_batch
split_tensor_batch_pieces batch (negsuc m) pieces h1 h2 e = cc
split_tensor_batch_pieces batch (pos m) pieces h1 h2 e = elim (split-cases batch m pieces e) [
  | inl (same, size) ↦ subst (IsPieces batch (pos m)) same (
    (ap pos size, tt),
    append_nil batch.input_ids,
    append_nil batch.target_tokens,
    append_nil batch.weights,
  )
  | inr (same, exact) ↦
      subst (IsPieces batch (pos m)) same
        (slices-IsPieces batch m (length batch.input_ids / m) h1 h2 exact)
]
