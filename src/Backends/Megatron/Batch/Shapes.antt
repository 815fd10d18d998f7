-- ===== src/Backends/Megatron/Batch/Shapes.antt =====
-- The tensors of an accepted batch are rectangles of one shape.
use ganker.Base.{
  ℕ, zero, suc, ◌+◌, ◌*◌, ◌<◌, ◌≡◌, refl, sym, ap, ◌∙◌, false, Option, some, none, List, [], ◌∷◌,
  map, arith, String, length, is_nil, replicate, All, length-map, length-replicate, inl, inr,
}
use mathlib.Core.Path.{subst, ap₂}
use ganker.Base.Int.{ℤ}
use ganker.Base.Float.{Float}
use ganker.Base.Result.{ok, Result-cases}
use ganker.Contracts.{Datum, Num}
use ganker.Backends.Megatron.Batch.{
  TensorBatch, Torch, Row, differs, num_to_int, num_to_float, to_ints, required_tensor_values,
  tensor_row, tensor_rows, datums_to_tensor_batch, token_count, first_length,
}

is_nil-false : {A : Type 0} (xs : List A) → is_nil xs ≡ false → 0 < length xs
is_nil-false [] h = cc
is_nil-false (x ∷ xs) h = omega arith

module _ (F : Float) where
  length-to_ints :
      (ns : List (Num F.Real)) (is : List ℤ) → to_ints F ns ≡ ok is → length is ≡ length ns
  unfolding to_ints
  length-to_ints [] is e = ground arith
  length-to_ints (n ∷ ns) is e = elim (Result-cases (num_to_int F n)) [
    | inl (i, f) ↦ elim (Result-cases (to_ints F ns)) [
      | inl (js, g) ↦ ground (arith, length-to_ints ns js g)
      | inr (x, g) ↦ ground arith
    ]
    | inr (x, f) ↦ ground arith
  ]

  abbrev IsRow : ℕ → Row F.Real → Type 0
  IsRow n r = (length r.tokens ≡ n) × (length r.targets ≡ n) × (length r.weights ≡ n)

  tensor_row-IsRow :
      (index : ℕ) (expected : Option ℕ) (d : Datum F.Real) (r : Row F.Real)
      → tensor_row F index expected d ≡ ok r
      → IsRow (length r.tokens) r
        × (0 < length r.tokens)
        × (differs expected (length r.tokens) ≡ false)
  unfolding tensor_row
  tensor_row-IsRow index expected d r e =
      elim (Result-cases (required_tensor_values d "target_tokens" index)) [
        | inr (x, f) ↦ ground arith
        | inl (targets, f) ↦ elim (Result-cases (required_tensor_values d "weights" index)) [
          | inr (x, g) ↦ ground arith
          | inl (weights, g) ↦ elim (Result-cases (to_ints F targets)) [
            | inr (x, k) ↦ ground arith
            | inl (ints, k) ↦ ground (
              arith,
              length-to_ints targets ints k,
              length-map (num_to_float F) weights,
              is_nil-false d.model_input.token_ids,
            )
          ]
        ]
      ]

  -- The rows after the first datum, which set the length.
  tensor_rows-IsRow :
      (index n : ℕ) (ds : List (Datum F.Real)) (rows : List (Row F.Real))
      → tensor_rows F index (some n) ds ≡ ok rows
      → All (IsRow n) rows × (length rows ≡ length ds)
  unfolding tensor_rows
  tensor_rows-IsRow index n [] rows e = ground arith
  tensor_rows-IsRow index n (d ∷ ds) rows e = elim (Result-cases (tensor_row F index (some n) d)) [
    | inr (x, f) ↦ ground arith
    | inl (r, f) ↦ elim (Result-cases (tensor_rows F (index + 1) (some n) ds)) [
      | inr (x, g) ↦ ground arith
      | inl (rs, g) ↦
          let same : r ∷ rs ≡ rows = ground arith in
          let (each, count) = tensor_rows-IsRow (index + 1) n ds rs g in
          let row = tensor_row-IsRow index (some n) d r f in
          subst (λ (l : List (Row F.Real)). All (IsRow n) l × (length l ≡ suc (length ds))) same
            ((ground arith, each), ap suc count)
    ]
  ]

  IsRow-lengths :
      (n : ℕ) (rows : List (Row F.Real))
      → All (IsRow n) rows
      → (map length (map (λ r. r.tokens) rows) ≡ replicate (length rows) n)
        × (map length (map (λ r. r.targets) rows) ≡ replicate (length rows) n)
        × (map length (map (λ r. r.weights) rows) ≡ replicate (length rows) n)
  IsRow-lengths n [] h = (refl, refl, refl)
  IsRow-lengths n (r ∷ rs) ((a, b, c), h) =
      let (x, y, z) = IsRow-lengths n rs h in (ap₂ ◌∷◌ a x, ap₂ ◌∷◌ b y, ap₂ ◌∷◌ c z)

  tensor_rows_new-IsRow :
      (ds : List (Datum F.Real)) (rows : List (Row F.Real))
      → is_nil ds ≡ false
      → tensor_rows F 0 none ds ≡ ok rows
      → (n : ℕ) × (0 < n) × All (IsRow n) rows × (length rows ≡ length ds)
  unfolding tensor_rows
  tensor_rows_new-IsRow [] rows h e = cc
  tensor_rows_new-IsRow (d ∷ ds) rows h e = elim (Result-cases (tensor_row F 0 none d)) [
    | inr (x, f) ↦ ground arith
    | inl (r, f) ↦
        let n = length r.tokens in
        let (row, positive, _) = tensor_row-IsRow 0 none d r f in
        elim (Result-cases (tensor_rows F (0 + 1) (some n) ds)) [
          | inr (x, g) ↦ ground arith
          | inl (rs, g) ↦
              let same : r ∷ rs ≡ rows = ground arith in
              let (each, count) = tensor_rows-IsRow (0 + 1) n ds rs g in
              (
                n,
                positive,
                subst (All (IsRow n)) same (row, each),
                ap length (sym same) ∙ ap suc count,
              )
        ]
  ]

rectangle :
    {A : Type 0} (xs : List (List A)) (k n : ℕ)
    → map length xs ≡ replicate k n
    → length xs * first_length xs ≡ k * n
rectangle [] zero n h = omega arith
rectangle [] (suc k) n h = cc
rectangle (x ∷ xs) zero n h = cc
rectangle (x ∷ xs) (suc k) n h =
    ap₂ ◌*◌ (sym (length-map length (x ∷ xs)) ∙ ap length h ∙ length-replicate (suc k) n)
      (ap head h)
  where
    head : List ℕ → ℕ
    head [] = length x
    head (m ∷ ms) = m

abbrev HasShape : (F : Float) → ℕ → ℕ → TensorBatch F.Real → Type 0
HasShape F k n batch =
    (map length batch.input_ids ≡ replicate k n)
    × (map length batch.target_tokens ≡ replicate k n)
    × (map length batch.weights ≡ replicate k n)
    × (length batch.input_ids * first_length batch.input_ids ≡ k * n)

-- A conversion that returns gives three tensors of one shape: a row for each datum, and in each row
-- the same positive number of entries; `token_count` is the number of entries of one tensor. The
-- conditions on torch are that `torch.tensor` keeps the number and the lengths of the rows.
pub datums_to_tensor_batch_shape :
    (F : Float) (torch : Torch F.Real) (ds : List (Datum F.Real)) (loss_fn : String)
    (batch : TensorBatch F.Real)
    (long_keeps : (rows rows' : List (List ℤ))
      → torch.long rows ≡ ok rows'
      → map length rows' ≡ map length rows)
    (float32_keeps : (rows rows' : List (List F.Real))
      → torch.float32 rows ≡ ok rows'
      → map length rows' ≡ map length rows)
    → datums_to_tensor_batch F torch ds loss_fn ≡ ok batch
    → (n : ℕ) × (0 < n)
      × (map length batch.input_ids ≡ replicate (length ds) n)
      × (map length batch.target_tokens ≡ replicate (length ds) n)
      × (map length batch.weights ≡ replicate (length ds) n)
      × (token_count batch ≡ length ds * n)
unfolding datums_to_tensor_batch token_count
datums_to_tensor_batch_shape F torch ds loss_fn batch long_keeps float32_keeps e =
    elim (Result-cases (tensor_rows F 0 none ds)) [
      | inr (x, f) ↦ ground arith
      | inl (rows, f) ↦ elim (Result-cases (torch.long (map (λ r. r.tokens) rows))) [
        | inr (x, f1) ↦ ground arith
        | inl (a, f1) ↦ elim (Result-cases (torch.long (map (λ r. r.targets) rows))) [
          | inr (x, f2) ↦ ground arith
          | inl (b, f2) ↦ elim (Result-cases (torch.float32 (map (λ r. r.weights) rows))) [
            | inr (x, f3) ↦ ground arith
            | inl (c, f3) ↦
                let filled : is_nil ds ≡ false = ground arith in
                let same : record { input_ids = a; target_tokens = b; weights = c } ≡ batch =
                  ground arith in
                let (n, positive, each, count) = tensor_rows_new-IsRow F ds rows filled f in
                let (l1, l2, l3) = IsRow-lengths F n rows each in
                let size = ap (λ (k : ℕ). replicate k n) count in
                let la = long_keeps (map (λ r. r.tokens) rows) a f1 ∙ l1 ∙ size in
                let lb = long_keeps (map (λ r. r.targets) rows) b f2 ∙ l2 ∙ size in
                let lc = float32_keeps (map (λ r. r.weights) rows) c f3 ∙ l3 ∙ size in
                let (s1, s2, s3, s4) =
                  subst (HasShape F (length ds) n) same
                    (la, lb, lc, rectangle a (length ds) n la) in
                (n, positive, s1, s2, s3, s4)
          ]
        ]
      ]
    ]
