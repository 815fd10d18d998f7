-- ===== src/Base/Order.antt =====
-- The order of texts by code points, `in` on a list of texts, and `sorted`.
use Prim.Native.Char.{code}
use Prim.Native.String.{String}
use Prim.Native.Nat.{ℕ}
use mathlib.Core.Path.{◌≡◌, refl, ap₂}
use mathlib.Core.Logic.{inl, inr}
use mathlib.Core.Bool.{Bool, true, false, ◌||◌}
use mathlib.Core.List.{List, [], ◌∷◌, Permᴰ}
use native.Mathlib.Omega.{arith}
use text.Mathlib.TextEquality.{Char-path}
use ganker.Base.Tests.{◌==◌, if◌then◌else◌, ltb, eqb, Bool-cases}
use ganker.Base.Lists.{All}

-- Python's `s < t`
unfoldable pub str_ltb : String → String → Bool
str_ltb String.[] String.[] = false
str_ltb String.[] (String.◌∷◌ d t) = true
str_ltb (String.◌∷◌ c s) String.[] = false
str_ltb (String.◌∷◌ c s) (String.◌∷◌ d t) =
    if ltb (code c) (code d) then true else if eqb (code c) (code d) then str_ltb s t else false

pub str_lt_trans : (s t u : String) → str_ltb s t ≡ true → str_ltb t u ≡ true → str_ltb s u ≡ true
unfolding str_ltb
str_lt_trans String.[] String.[] u h k = cc
str_lt_trans String.[] (String.◌∷◌ d t) String.[] h k = cc
str_lt_trans String.[] (String.◌∷◌ d t) (String.◌∷◌ e u) h k = refl
str_lt_trans (String.◌∷◌ c s) String.[] u h k = cc
str_lt_trans (String.◌∷◌ c s) (String.◌∷◌ d t) String.[] h k = cc
str_lt_trans (String.◌∷◌ c s) (String.◌∷◌ d t) (String.◌∷◌ e u) h k =
    ground (arith, str_lt_trans s t u)

pub str_lt_irrefl : (s : String) → str_ltb s s ≡ false
unfolding str_ltb
str_lt_irrefl String.[] = refl
str_lt_irrefl (String.◌∷◌ c s) = ground (arith, str_lt_irrefl s)

same_code : (m n : ℕ) → ltb m n ≡ false → ltb n m ≡ false → m ≡ n
same_code m n h k = ground arith

pub str_lt_total : (s t : String) → str_ltb s t ≡ false → str_ltb t s ≡ false → s ≡ t
unfolding str_ltb
str_lt_total String.[] String.[] h k = refl
str_lt_total String.[] (String.◌∷◌ d t) h k = cc
str_lt_total (String.◌∷◌ c s) String.[] h k = cc
str_lt_total (String.◌∷◌ c s) (String.◌∷◌ d t) h k =
    let same : code c ≡ code d = ground arith in
    let e : c ≡ d = Char-path c d same in
    let r : s ≡ t = str_lt_total s t (ground arith) (ground arith) in λ i. String.◌∷◌ (e i) (r i)

-- `k in xs`
unfoldable pub contains : String → List String → Bool
contains k [] = false
contains k (x ∷ xs) = x == k || contains k xs

-- `sorted(xs)`
insert_sorted : String → List String → List String
insert_sorted x [] = x ∷ []
insert_sorted x (y ∷ ys) = if str_ltb y x then y ∷ insert_sorted x ys else x ∷ y ∷ ys

unfoldable pub sorted : List String → List String
unfolding insert_sorted str_ltb
sorted [] = []
sorted (x ∷ xs) = insert_sorted x (sorted xs)

sorted-cons : (x : String) (xs : List String) → sorted (x ∷ xs) ≡ insert_sorted x (sorted xs)
unfolding sorted
sorted-cons x xs = refl

abbrev pub IsStrict : List String → Type 0
IsStrict [] = Unit
IsStrict (x ∷ xs) = All (λ y. str_ltb x y ≡ true) xs × IsStrict xs

abbrev pub IsDistinct : List String → Type 0
IsDistinct [] = Unit
IsDistinct (x ∷ xs) = (contains x xs ≡ false) × IsDistinct xs

contains-insert_sorted :
    (k x : String) (xs : List String) → contains k (insert_sorted x xs) ≡ (x == k || contains k xs)
unfolding insert_sorted contains
contains-insert_sorted k x [] = refl
contains-insert_sorted k x (y ∷ ys) = ground (arith, contains-insert_sorted k x ys)

pub contains-sorted : (k : String) (xs : List String) → contains k (sorted xs) ≡ contains k xs
unfolding contains
contains-sorted k [] = unfold sorted in refl
contains-sorted k (x ∷ xs) = rw (sorted-cons, contains-insert_sorted, contains-sorted k xs)

All-insert_sorted :
    (w x : String) (xs : List String)
    → str_ltb w x ≡ true
    → All (λ y. str_ltb w y ≡ true) xs
    → All (λ y. str_ltb w y ≡ true) (insert_sorted x xs)
unfolding insert_sorted
All-insert_sorted w x [] h k = (h, tt)
All-insert_sorted w x (y ∷ ys) h k = elim (Bool-cases (str_ltb y x)) [
  | inl p ↦ rw p (k.0, All-insert_sorted w x ys h k.1)
  | inr p ↦ rw p (h, k)
]

All-lt_trans :
    (x y : String) (ys : List String)
    → str_ltb x y ≡ true
    → All (λ z. str_ltb y z ≡ true) ys
    → All (λ z. str_ltb x z ≡ true) ys
All-lt_trans x y [] h k = tt
All-lt_trans x y (z ∷ zs) h k = (str_lt_trans x y z h k.0, All-lt_trans x y zs h k.1)

insert_sorted-IsStrict :
    (x : String) (xs : List String)
    → contains x xs ≡ false
    → IsStrict xs
    → IsStrict (insert_sorted x xs)
unfolding insert_sorted contains
insert_sorted-IsStrict x [] fresh s = (tt, tt)
insert_sorted-IsStrict x (y ∷ ys) fresh s = elim (Bool-cases (str_ltb y x)) [
  | inl p ↦ rw p (All-insert_sorted y x ys p s.0, insert_sorted-IsStrict x ys (ground arith) s.1)
  | inr p ↦ elim (Bool-cases (str_ltb x y)) [
    | inl q ↦ rw p ((q, All-lt_trans x y ys q s.0), s)
    | inr q ↦ absurd (ground (arith, str_lt_total x y q p))
  ]
]

pub sorted-IsStrict : (xs : List String) → IsDistinct xs → IsStrict (sorted xs)
sorted-IsStrict [] d = unfold sorted in tt
sorted-IsStrict (x ∷ xs) d =
    rw sorted-cons
      (insert_sorted-IsStrict x (sorted xs) (rw contains-sorted d.0) (sorted-IsStrict xs d.1))

-- A text below all of a list is not in it.
below_not_in :
    (x : String) (ys : List String) → All (λ y. str_ltb x y ≡ true) ys → contains x ys ≡ false
unfolding contains
below_not_in x [] h = refl
below_not_in x (y ∷ ys) h = ground (arith, below_not_in x ys h.1, str_lt_irrefl x, h.0)

not_first :
    (x y : String) (ys : List String)
    → str_ltb x y ≡ true
    → All (λ z. str_ltb y z ≡ true) ys
    → contains x (y ∷ ys) ≡ false
not_first x y ys h k = below_not_in x (y ∷ ys) (h, All-lt_trans x y ys h k)

pub contains-first : (x : String) (xs : List String) → contains x (x ∷ xs) ≡ true
unfolding contains
contains-first x xs = ground arith

contains-nil : (k : String) → contains k [] ≡ false
unfolding contains
contains-nil k = refl

pub contains-later :
    (k x : String) (xs : List String) → contains k xs ≡ true → contains k (x ∷ xs) ≡ true
unfolding contains
contains-later k x xs h = ground (arith, h)

tails_agree :
    (x y : String) (xs ys : List String)
    → x ≡ y
    → contains x xs ≡ false
    → contains y ys ≡ false
    → (k : String) → contains k (x ∷ xs) ≡ contains k (y ∷ ys)
    → contains k xs ≡ contains k ys
unfolding contains
tails_agree x y xs ys e p q k h = ground arith

-- A strictly increasing list is fixed by what it contains.
pub IsStrict-unique :
    (xs ys : List String)
    → IsStrict xs
    → IsStrict ys
    → ((k : String) → contains k xs ≡ contains k ys)
    → xs ≡ ys
IsStrict-unique [] [] s t h = refl
IsStrict-unique [] (y ∷ ys) s t h = cc (h y, contains-first y ys, contains-nil y)
IsStrict-unique (x ∷ xs) [] s t h = cc (h x, contains-first x xs, contains-nil x)
IsStrict-unique (x ∷ xs) (y ∷ ys) s t h = elim (Bool-cases (str_ltb x y)) [
  | inl p ↦ cc (h x, contains-first x xs, not_first x y ys p t.0)
  | inr p ↦ elim (Bool-cases (str_ltb y x)) [
    | inl q ↦ cc (h y, contains-first y ys, not_first y x xs q s.0)
    | inr q ↦
        let e = str_lt_total x y p q in
        ap₂ ◌∷◌ e (
          IsStrict-unique xs ys s.1 t.1
            λ k. tails_agree x y xs ys e (below_not_in x xs s.0) (below_not_in y ys t.0) k (h k))
  ]
]

Permᴰ-refl : (xs : List String) → Permᴰ xs xs
Permᴰ-refl [] = Permᴰ.nil
Permᴰ-refl (x ∷ xs) = Permᴰ.cons refl (Permᴰ-refl xs)

insert_sorted-perm : (x : String) (xs : List String) → Permᴰ (insert_sorted x xs) (x ∷ xs)
unfolding insert_sorted
insert_sorted-perm x [] = Permᴰ.cons refl Permᴰ.nil
insert_sorted-perm x (y ∷ ys) = elim (Bool-cases (str_ltb y x)) [
  | inl p ↦ rw p (Permᴰ.trans (Permᴰ.cons refl (insert_sorted-perm x ys)) (Permᴰ.swap refl refl))
  | inr p ↦ rw p (Permᴰ-refl (x ∷ y ∷ ys))
]

pub sorted-perm : (xs : List String) → Permᴰ (sorted xs) xs
sorted-perm [] = unfold sorted in Permᴰ.nil
sorted-perm (x ∷ xs) =
    rw sorted-cons
      (Permᴰ.trans (insert_sorted-perm x (sorted xs)) (Permᴰ.cons refl (sorted-perm xs)))
