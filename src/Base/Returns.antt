-- ===== src/Base/Returns.antt =====
-- A method returns, with what holds of its result and of the state after it.
use mathlib.Core.Path.{◌≡◌, refl, sym}
use mathlib.Core.Path.{subst}
use mathlib.Core.Bool.{Bool, false}
use native.Mathlib.Omega.{arith}
use ganker.Base.Result.{Error, Result, ok, Exec, ◌>>=◌, ◌>>◌, raise_if, pure}

abbrev pub Returns : {S A : Type 0} → (A → S → Type 0) → Exec S A → S → Type 0
Returns {A = A} P m s = (a : A) × ((m s).0 ≡ ok a) × P a (m s).1

pub Returns-pure :
    {S A : Type 0} (P : A → S → Type 0) (a : A) (s : S) → P a s → Returns P (pure a) s
Returns-pure P a s h = (a, refl, h)

>>=-step :
    {S A B : Type 0} (m : Exec S A) (f : A → Exec S B) (s : S) (a : A)
    → (m s).0 ≡ ok a
    → (m >>= f) s ≡ f a (m s).1
>>=-step m f s a e = ground arith

pub Returns-bind :
    {S A B : Type 0} (Q : A → S → Type 0) (P : B → S → Type 0) (m : Exec S A) (f : A → Exec S B)
    (s : S)
    → Returns Q m s
    → ((a : A) (t : S) → Q a t → Returns P (f a) t)
    → Returns P (m >>= f) s
Returns-bind {S} {A} {B} Q P m f s (a, e, h) k =
    subst (λ (q : Result B × S). (b : B) × (q.0 ≡ ok b) × P b q.1) (sym (>>=-step m f s a e))
      (k a (m s).1 h)

-- A guard that a method passes.
pub Returns-raise_if :
    {S B : Type 0} (P : B → S → Type 0) (c : Bool) (x : Error) (k : Exec S B) (s : S)
    → c ≡ false
    → Returns P k s
    → Returns P (raise_if c x >> k) s
Returns-raise_if P c x k s e h = subst (λ b. Returns P (raise_if b x >> k) s) (sym e) h
