-- ===== src/Base/Dict.antt =====
-- Python's `dict` with texts as keys, in the order of insertion.
use Prim.Native.String.{String}
use mathlib.Core.Path.{◌≡◌, refl}
use mathlib.Core.Logic.{◌≢◌, ◌⊎◌, inl, inr}
use mathlib.Core.Option.{Option, none, some}
use mathlib.Core.List.{List, [], ◌∷◌}
use native.Mathlib.Omega.{arith}
use mathlib.Core.Bool.{Bool, true, false, ◌||◌}
use ganker.Base.Order.{contains, IsDistinct}
use ganker.Base.Tests.{string_dec, ◌==◌, if◌then◌else◌}

abbrev pub Dict {ℓ} : Type ℓ → Type ℓ
Dict V = List (String × V)

module _ {ℓ} {V : Type ℓ} where
  -- `d.get(k)`
  unfoldable pub lookup : String → Dict V → Option V
  lookup k [] = none
  lookup k ((j, v) ∷ d) = if j == k then some v else lookup k d

  -- `d[k] = v`
  unfoldable pub insert : String → V → Dict V → Dict V
  insert k v [] = (k, v) ∷ []
  insert k v ((j, w) ∷ d) = if j == k then (k, v) ∷ d else (j, w) ∷ insert k v d

  abbrev pub keys : Dict V → List String
  keys [] = []
  keys ((k, v) ∷ d) = k ∷ keys d

  abbrev pub values : Dict V → List V
  values [] = []
  values ((k, v) ∷ d) = v ∷ values d

  pub lookup-nil : (k : String) → lookup k [] ≡ none
  unfolding lookup
  lookup-nil k = refl

  pub lookup-insert :
      (j k : String) (v : V) (d : Dict V)
      → lookup j (insert k v d) ≡ (if k == j then some v else lookup j d)
  unfolding lookup insert
  lookup-insert j k v [] = refl
  lookup-insert j k v ((i, w) ∷ d) = ground (arith, lookup-insert j k v d)

  pub lookup-insert_self : (k : String) (v : V) (d : Dict V) → lookup k (insert k v d) ≡ some v
  lookup-insert_self k v d = ground (arith, lookup-insert k k v d)

  pub lookup-insert_ne :
      (j k : String) (v : V) (d : Dict V) → k ≢ j → lookup j (insert k v d) ≡ lookup j d
  lookup-insert_ne j k v d h = ground (arith, lookup-insert j k v d)

  -- To store what is there already changes nothing.
  pub lookup-insert_again :
      (j k : String) (v : V) (d : Dict V)
      → lookup k d ≡ some v
      → lookup j (insert k v d) ≡ lookup j d
  lookup-insert_again j k v d h = elim (string_dec k j) [
    | yes p ↦ ground (arith, lookup-insert j k v d)
    | no q ↦ lookup-insert_ne j k v d q
  ]

  pub insert-insert : (k : String) (v w : V) (d : Dict V) → insert k v (insert k w d) ≡ insert k v d
  unfolding insert
  insert-insert k v w [] = ground arith
  insert-insert k v w ((j, x) ∷ d) = ground (arith, insert-insert k v w d)

  -- An entry after an insertion is the new one or an old one.
  pub lookup-insert_cases :
      (j k : String) (v x : V) (d : Dict V)
      → lookup j (insert k v d) ≡ some x
      → ((k ≡ j) × (v ≡ x)) ⊎ ((k ≢ j) × (lookup j d ≡ some x))
  lookup-insert_cases j k v x d h = elim (string_dec k j) [
    | yes p ↦ inl (p, ground (arith, lookup-insert j k v d))
    | no q ↦ inr (q, ground (arith, lookup-insert j k v d))
  ]

-- `{k: f(v) for k, v in d.items()}`
abbrev pub map_values {ℓ κ} : {V : Type ℓ} {W : Type κ} → (V → W) → Dict V → Dict W
map_values f [] = []
map_values f ((k, v) ∷ d) = (k, f v) ∷ map_values f d

abbrev pub is_some {ℓ} : {A : Type ℓ} → Option A → Bool
is_some none = false
is_some (some a) = true

module _ {ℓ} {V : Type ℓ} where
  pub contains-keys : (k : String) (d : Dict V) → contains k (keys d) ≡ is_some (lookup k d)
  unfolding contains lookup
  contains-keys k [] = refl
  contains-keys k ((j, v) ∷ d) = ground (arith, contains-keys k d)

  contains-keys-insert :
      (j k : String) (v : V) (d : Dict V)
      → contains j (keys (insert k v d)) ≡ (k == j || contains j (keys d))
  unfolding contains insert
  contains-keys-insert j k v [] = refl
  contains-keys-insert j k v ((i, w) ∷ d) = ground (arith, contains-keys-insert j k v d)

  -- No key stands twice, whatever is stored.
  pub keys-insert-IsDistinct :
      (k : String) (v : V) (d : Dict V) → IsDistinct (keys d) → IsDistinct (keys (insert k v d))
  unfolding contains insert
  keys-insert-IsDistinct k v [] h = (refl, tt)
  keys-insert-IsDistinct k v ((j, w) ∷ d) h =
      ground (arith, keys-insert-IsDistinct k v d h.1, contains-keys-insert j k v d)
