-- ===== src/Rpc/RoundTrip/Lists.antt =====
-- Conversions there and back, and the lists that they go over.
use ganker.Base.{◌≡◌, refl, List, [], ◌∷◌, map, All, arith}
use ganker.Base.Int.{ℤ}
use ganker.Base.Result.{Result, ok}
use ganker.Rpc.Protobuf.{Protobuf, FitsInt64, traverse}

-- The value converts to a message, and what that converts back to satisfies `Q`.
abbrev pub Carries : {A M B : Type 0} → (A → Result M) → (M → Result B) → A → (B → Type 0) → Type 0
Carries {M = M} {B = B} to from a Q = (m : M) × (b : B) × (to a ≡ ok m) × (from m ≡ ok b) × Q b

-- The elements of two lists are related in order, and there are equally many.
abbrev pub Pairwise : {A B : Type 0} → (A → B → Type 0) → List A → List B → Type 0
Pairwise Q [] [] = Unit
Pairwise Q (x ∷ xs) (y ∷ ys) = Q x y × Pairwise Q xs ys
Pairwise Q _ _ = ⊥

-- A list converts element by element, if the way back cannot fail.
pub traverse-Pairwise :
    {A M B : Type 0} (to : A → Result M) (from : M → B) (Fits : A → Type 0) (Q : A → B → Type 0)
    → ((x : A) → Fits x → Carries to (λ m. ok (from m)) x (Q x))
    → (xs : List A) → All Fits xs
    → (ms : List M) × (traverse to xs ≡ ok ms) × Pairwise Q xs (map from ms)
unfolding traverse
traverse-Pairwise to from Fits Q each [] h = ([], refl, tt)
traverse-Pairwise to from Fits Q each (x ∷ xs) h =
    let (m, b, sent, back, q) = each x h.0 in
    let (ms, all_sent, qs) = traverse-Pairwise to from Fits Q each xs h.1 in
    (m ∷ ms, rw (sent, all_sent) refl, (ground (arith), qs))

pub traverse-int64 : (P : Protobuf) (ns : List ℤ) → All FitsInt64 ns → traverse P.int64 ns ≡ ok ns
unfolding traverse
traverse-int64 P [] h = refl
traverse-int64 P (n ∷ ns) h = rw (P.int64_keeps n h.0, traverse-int64 P ns h.1) refl

pub Pairwise-eq : {A : Type 0} (xs ys : List A) → Pairwise (λ x y. y ≡ x) xs ys → ys ≡ xs
Pairwise-eq [] [] h = refl
Pairwise-eq [] (y ∷ ys) h = absurd h
Pairwise-eq (x ∷ xs) [] h = absurd h
Pairwise-eq (x ∷ xs) (y ∷ ys) h = cc (h.0, Pairwise-eq xs ys h.1)
