-- ===== src/Torchrun/Selection.antt =====
-- The data that a rank selects.
use ganker.Base.{
  ℕ, zero, suc, ◌+◌, ◌*◌, ◌%◌, ◌<◌, ◌≡◌, refl, sym, ap, ◌∙◌, false, List, [], ◌∷◌, arith, length,
  is_nil, get_elem?, some,
}
use native.Mathlib.Nat.{mod-lt}
use ganker.Base.Int.{pos, ◌+ℤ◌, ◌*ℤ◌, modulo}
use ganker.Base.Result.{ok}
use ganker.Torchrun.{select_data_parallel_item, select_from, select_data_parallel_items}

get_elem?-below :
    {A : Type 0} (xs : List A) (i : ℕ) → i < length xs → (x : A) × (get_elem? xs i ≡ some x)
get_elem?-below [] i h = absurd (omega (arith, h))
get_elem?-below (x ∷ xs) zero h = (x, refl)
get_elem?-below (x ∷ xs) (suc i) h = get_elem?-below xs i (omega (arith, h))

-- The position that the rank selects at a step.
abbrev pub position : {A : Type 0} → List A → ℕ → ℕ → ℕ → ℕ
position items step rank size = (step * size + rank) % length items

select_data_parallel_item-found :
    {A : Type 0} (items : List A) (step rank size : ℕ)
    → 0 < length items
    → rank < size
    → (x : A) × (select_data_parallel_item items (pos step) (pos rank) (pos size) ≡ ok x)
      × (get_elem? items (position items step rank size) ≡ some x)
unfolding select_data_parallel_item modulo ◌*ℤ◌ ◌+ℤ◌
select_data_parallel_item-found items step rank size h below =
    let (x, e) =
      get_elem?-below items (position items step rank size) (mod-lt (step * size + rank) h) in
    (x, ground (arith, not_nil items h), e)
  where
    not_nil : {A : Type 0} (xs : List A) → 0 < length xs → is_nil xs ≡ false
    not_nil [] h = absurd (omega (arith, h))
    not_nil (x ∷ xs) h = refl

module _ {A : Type 0} (items : List A) (step rank size accum : ℕ) (filled : 0 < length items)
    (below : rank < size) where
  abbrev Picks : ℕ → ℕ → List A → Type 0
  Picks m n xs =
      (length xs ≡ n)
      × ((j : ℕ)
          → j < n
          → get_elem? xs j ≡ get_elem? items (position items (step * accum + (m + j)) rank size))

  select_from-Picks :
      (m n : ℕ)
      → (xs : List A) × (select_from items (pos step) (pos rank) (pos size) (pos accum) m n ≡ ok xs)
        × Picks m n xs
  unfolding select_from ◌*ℤ◌ ◌+ℤ◌
  select_from-Picks m zero = ([], refl, (refl, λ j h. absurd (omega (arith, h))))
  select_from-Picks m (suc n) =
      let (xs, e, (size_xs, at)) = select_from-Picks (m + 1) n in
      let (x, f, found) =
        select_data_parallel_item-found items (step * accum + m) rank size filled below in
      (x ∷ xs, ground arith, (ap suc size_xs, λ j h. picked j x xs found at h))
    where
      picked :
          (j : ℕ) (x : A) (xs : List A)
          → get_elem? items (position items (step * accum + m) rank size) ≡ some x
          → ((i : ℕ)
              → i < n
              → get_elem? xs i
                ≡ get_elem? items (position items (step * accum + (m + 1 + i)) rank size))
          → j < suc n
          → get_elem? (x ∷ xs) j
            ≡ get_elem? items (position items (step * accum + (m + j)) rank size)
      picked zero x xs found at h =
          let z : step * accum + m ≡ step * accum + (m + 0) = omega arith in
          sym found ∙ ap (λ (k : ℕ). get_elem? items (position items k rank size)) z
      picked (suc j) x xs found at h =
          let z : step * accum + (m + 1 + j) ≡ step * accum + (m + suc j) = omega arith in
          at j (omega (arith, h)) ∙ ap (λ (k : ℕ). get_elem? items (position items k rank size)) z

-- A selection whose guards pass always returns, without an index out of range. It returns
-- `grad_accum_steps` items, and the item of microstep j is the one at the position
-- ((step * grad_accum_steps + j) * data_parallel_size + data_parallel_rank) % len(items).
pub select_data_parallel_items_total :
    {A : Type 0} (items : List A) (step rank size accum j : ℕ)
    → 0 < length items
    → rank < size
    → j < accum
    → (xs : List A) × (select_data_parallel_items items (pos step) (pos rank) (pos size) (pos accum)
        ≡ ok xs)
      × (length xs ≡ accum)
      × (get_elem? xs j ≡ get_elem? items (position items (step * accum + j) rank size))
unfolding select_data_parallel_items
select_data_parallel_items_total items step rank size accum j filled below inside =
    let (xs, e, (size_xs, at)) =
      select_from-Picks items step rank size accum filled below 0 accum in
    let z : step * accum + (0 + j) ≡ step * accum + j = omega arith in
    (
      xs,
      ground (arith, inside),
      size_xs,
      at j inside ∙ ap (λ (k : ℕ). get_elem? items (position items k rank size)) z,
    )
