-- ===== src/Sft/Batches.antt =====
-- The batches of a data set.
use ganker.Base.{
  ℕ, zero, suc, ◌+◌, ◌<◌, ◌≤◌, ◌≡◌, refl, sym, ap, ◌∙◌, Bool, true, false, List, [], ◌∷◌, ◌++◌,
  arith, if◌then◌else◌, length, eqb, All, append_nil, length-append, Bool-cases, inl, inr,
}
use mathlib.Core.Path.{subst}
use ganker.Base.Int.{pos}
use ganker.Base.Result.{ok}
use ganker.Sft.{fill_batches, close_batch, batch_datums}

abbrev pub flat : {A : Type 0} → List (List A) → List A
flat [] = []
flat (xs ∷ xss) = xs ++ flat xss

module _ {A : Type 0} where
  append_assoc : (xs ys zs : List A) → (xs ++ ys) ++ zs ≡ xs ++ (ys ++ zs)
  append_assoc [] ys zs = refl
  append_assoc (x ∷ xs) ys zs = ap (λ (l : List A). x ∷ l) (append_assoc xs ys zs)

  flat-snoc : (xss : List (List A)) (xs : List A) → flat (xss ++ xs ∷ []) ≡ flat xss ++ xs
  flat-snoc [] xs = append_nil xs
  flat-snoc (ys ∷ xss) xs =
      ap (λ (l : List A). ys ++ l) (flat-snoc xss xs) ∙ sym (append_assoc ys (flat xss) xs)

  All-snoc :
      (P : List A → Type 0) (xss : List (List A)) (xs : List A)
      → All P xss
      → P xs
      → All P (xss ++ xs ∷ [])
  All-snoc P [] xs h p = (p, tt)
  All-snoc P (ys ∷ xss) xs (q, h) p = (q, All-snoc P xss xs h p)

  -- The pass of the loop that fills a batch, and one that does not.
  fill-full :
      (size : ℕ) (d : A) (ds : List A) (batches : List (List A)) (batch : List A)
      → eqb (length (batch ++ d ∷ [])) size ≡ true
      → fill_batches size (d ∷ ds) batches batch
        ≡ fill_batches size ds (batches ++ (batch ++ d ∷ []) ∷ []) []
  unfolding fill_batches
  fill-full size d ds batches batch e =
      let full = batch ++ d ∷ [] in
      ap
        (λ (b : Bool).
          let p : List (List A) × List A =
            if b then (batches ++ full ∷ [], []) else (batches, full) in
          fill_batches size ds p.0 p.1)
        e

  fill-more :
      (size : ℕ) (d : A) (ds : List A) (batches : List (List A)) (batch : List A)
      → eqb (length (batch ++ d ∷ [])) size ≡ false
      → fill_batches size (d ∷ ds) batches batch ≡ fill_batches size ds batches (batch ++ d ∷ [])
  unfolding fill_batches
  fill-more size d ds batches batch e =
      let full = batch ++ d ∷ [] in
      ap
        (λ (b : Bool).
          let p : List (List A) × List A =
            if b then (batches ++ full ∷ [], []) else (batches, full) in
          fill_batches size ds p.0 p.1)
        e

  -- The rows of the batches and of the batch that is being filled.
  fill_batches-flat :
      (size : ℕ) (ds : List A) (batches : List (List A)) (batch : List A)
      → flat (close_batch (fill_batches size ds batches batch)) ≡ flat batches ++ (batch ++ ds)
  unfolding fill_batches
  fill_batches-flat size [] batches [] = sym (append_nil (flat batches))
  fill_batches-flat size [] batches (x ∷ batch) =
      flat-snoc batches (x ∷ batch)
      ∙ ap (λ (l : List A). flat batches ++ l) (sym (append_nil (x ∷ batch)))
  fill_batches-flat size (d ∷ ds) batches batch =
      let full = batch ++ d ∷ [] in
      let joined : full ++ ds ≡ batch ++ (d ∷ ds) = append_assoc batch (d ∷ []) ds in
      elim (Bool-cases (eqb (length full) size)) [
        | inl e ↦
            ap (λ (p : List (List A) × List A). flat (close_batch p))
              (fill-full size d ds batches batch e)
            ∙ (fill_batches-flat size ds (batches ++ full ∷ []) []
                ∙ ap (λ (l : List A). l ++ ds) (flat-snoc batches full)
                ∙ append_assoc (flat batches) full ds
                ∙ ap (λ (l : List A). flat batches ++ l) joined)
        | inr e ↦
            ap (λ (p : List (List A) × List A). flat (close_batch p))
              (fill-more size d ds batches batch e)
            ∙ (fill_batches-flat size ds batches full
                ∙ ap (λ (l : List A). flat batches ++ l) joined)
      ]

  abbrev IsBatch : ℕ → List A → Type 0
  IsBatch size batch = (0 < length batch) × (length batch ≤ size)

  fill_batches-IsBatch :
      (size : ℕ) (ds : List A) (batches : List (List A)) (batch : List A)
      → All (IsBatch size) batches
      → length batch < size
      → All (IsBatch size) (close_batch (fill_batches size ds batches batch))
  unfolding fill_batches
  fill_batches-IsBatch size [] batches [] h below = h
  fill_batches-IsBatch size [] batches (x ∷ batch) h below =
      All-snoc (IsBatch size) batches (x ∷ batch) h (omega arith, omega (arith, below))
  fill_batches-IsBatch size (d ∷ ds) batches batch h below =
      let full = batch ++ d ∷ [] in
      let count : length full ≡ length batch + 1 = length-append batch (d ∷ []) in
      elim (Bool-cases (eqb (length full) size)) [
        | inl e ↦
            subst (λ (p : List (List A) × List A). All (IsBatch size) (close_batch p))
              (sym (fill-full size d ds batches batch e))
              (fill_batches-IsBatch size ds (batches ++ full ∷ []) []
                (All-snoc (IsBatch size) batches full h
                  (omega (arith, count), omega (arith, count, below)))
                (omega (arith, below)))
        | inr e ↦
            let apart : length full < size = ground arith in
            subst (λ (p : List (List A) × List A). All (IsBatch size) (close_batch p))
              (sym (fill-more size d ds batches batch e))
              (fill_batches-IsBatch size ds batches full h apart)
      ]

-- Batches that are accepted hold the data in order, all of it and nothing else, and each has at
-- least one datum and at most `batch_size`.
pub flat-batch_datums :
    {A : Type 0} (ds : List A) (batch_size : ℕ) (batches : List (List A))
    → batch_datums ds (pos batch_size) ≡ ok batches
    → (flat batches ≡ ds) × All (λ batch. (0 < length batch) × (length batch ≤ batch_size)) batches
unfolding batch_datums
flat-batch_datums ds zero batches e = cc
flat-batch_datums ds (suc k) batches e =
    let same : close_batch (fill_batches (suc k) ds [] []) ≡ batches = ground arith in
    let positive : 0 < suc k = omega arith in
    (
      ap flat (sym same) ∙ fill_batches-flat (suc k) ds [] [],
      subst (All (IsBatch (suc k))) same (fill_batches-IsBatch (suc k) ds [] [] tt positive),
    )
