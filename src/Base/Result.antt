-- ===== src/Base/Result.antt =====
-- Exceptions as values, and methods that change an object and may raise.
-- src/ganker/errors.py
use Prim.Native.String.{String}
use mathlib.Core.Path.{◌≡◌, refl, ap}
use mathlib.Core.Logic.{◌⊎◌, inl, inr}
use mathlib.Core.Bool.{Bool, true, false}
use mathlib.Core.Option.{Option, none, some}

-- The members of `grpc.StatusCode` that the code names; the others go by their name.
pub data StatusCode : Type 0 where
  invalid_argument unavailable_code not_found_code deadline_exceeded internal : StatusCode
  unauthenticated : StatusCode
  other_code : String → StatusCode

-- The classes of errors.py, the `GrpcTransportError` of rpc/client.py, and the standard exceptions
-- that the code raises. The text of each is its message; `other_error` is any exception of another
-- class.
pub data Error : Type 0 where
  invalid_request not_found backend_unavailable : String → Error
  grpc_transport_error : StatusCode → String → Error
  value_error key_error type_error index_error timeout_error other_error : String → Error

pub data Result {ℓ} (A : Type ℓ) : Type ℓ where
  ok : A → Result A
  err : Error → Result A

-- A method: what was written before a raise stays written, so the state comes back in both cases.
abbrev pub Exec {ℓ κ} : Type ℓ → Type κ → Type (ℓ ⊔ κ)
Exec S A = S → Result A × S

module _ {ℓ κ} {S : Type ℓ} {A : Type κ} where
  abbrev pub pure : A → Exec S A
  pure a s = (ok a, s)

  abbrev pub raise : Error → Exec S A
  raise e s = (err e, s)

  abbrev pub lift : Result A → Exec S A
  lift r s = (r, s)

  abbrev pub gets : (S → A) → Exec S A
  gets f s = (ok (f s), s)

  abbrev pub or_raise : Option A → Error → Exec S A
  or_raise none e = raise e
  or_raise (some a) e = pure a

infixl 5 ◌>>=◌ ◌>>◌
abbrev pub ◌>>=◌ {ℓ κ λ'} :
    {S : Type ℓ} {A : Type κ} {B : Type λ'} → Exec S A → (A → Exec S B) → Exec S B
◌>>=◌ m f s = let (r, s') = m s in elim r [ ok a ↦ f a s' | err e ↦ (err e, s') ]

abbrev pub ◌>>◌ {ℓ κ λ'} : {S : Type ℓ} {A : Type κ} {B : Type λ'} → Exec S A → Exec S B → Exec S B
m >> k = m >>= λ _. k

-- `if c: raise e`
abbrev pub raise_if {ℓ} : {S : Type ℓ} → Bool → Error → Exec S (Unit {0})
raise_if true e s = (err e, s)
raise_if false e s = (ok tt, s)

abbrev pub modify {ℓ} : {S : Type ℓ} → (S → S) → Exec S (Unit {0})
modify f s = (ok tt, f s)

-- The same for code that has no state.
abbrev pub bind {ℓ κ} : {A : Type ℓ} {B : Type κ} → Result A → (A → Result B) → Result B
bind (ok a) f = f a
bind (err e) f = err e

abbrev pub fmap {ℓ κ} : {A : Type ℓ} {B : Type κ} → (A → B) → Result A → Result B
fmap f (ok a) = ok (f a)
fmap f (err e) = err e

-- An error that arrives as another one.
abbrev pub map_error {ℓ} : {A : Type ℓ} → (Error → Error) → Result A → Result A
map_error f (ok a) = ok a
map_error f (err e) = err (f e)

-- `if c: raise e`, and then `k`
abbrev pub unless {ℓ} : {A : Type ℓ} → Bool → Error → Result A → Result A
unless true e k = err e
unless false e k = k

abbrev pub is_ok {ℓ} : {A : Type ℓ} → Result A → Bool
is_ok (ok a) = true
is_ok (err e) = false

pub Result-cases {ℓ} :
    {A : Type ℓ} (r : Result A) → ((a : A) × (r ≡ ok a)) ⊎ ((e : Error) × (r ≡ err e))
Result-cases (ok a) = inl (a, refl)
Result-cases (err e) = inr (e, refl)

pub bind-eq-ok {ℓ κ} :
    {A : Type ℓ} {B : Type κ} (m : Result A) (f : A → Result B) {b : B}
    → bind m f ≡ ok b
    → (a : A) × (m ≡ ok a) × (f a ≡ ok b)
bind-eq-ok (ok a) f h = (a, refl, h)
bind-eq-ok (err e) f h = cc

-- What a method that returned has passed.
pub >>=-eq-ok {ℓ κ λ'} :
    {S : Type ℓ} {A : Type κ} {B : Type λ'} (m : Exec S A) (f : A → Exec S B) (s : S) {b : B}
    → ((m >>= f) s).0 ≡ ok b
    → (a : A) × ((m s).0 ≡ ok a) × ((f a (m s).1).0 ≡ ok b)
>>=-eq-ok m f s h = elim (Result-cases (m s).0) [ inl (a, e) ↦ (a, e, cc) | inr (x, e) ↦ cc ]

pub raise_if-eq-ok {ℓ κ} :
    {S : Type ℓ} {B : Type κ} (c : Bool) (e : Error) (k : Exec S B) (s : S) {b : B}
    → ((raise_if c e >> k) s).0 ≡ ok b
    → (c ≡ false) × ((k s).0 ≡ ok b)
raise_if-eq-ok true e k s h = cc
raise_if-eq-ok false e k s h = (refl, h)

pub unless-eq-ok {ℓ} :
    {A : Type ℓ} (c : Bool) (e : Error) (k : Result A) {a : A}
    → unless c e k ≡ ok a
    → (c ≡ false) × (k ≡ ok a)
unless-eq-ok true e k h = cc
unless-eq-ok false e k h = (refl, h)

-- A step that follows a method and gives its result again.
pub tap-eq-ok {ℓ κ λ'} :
    {S : Type ℓ} {A : Type κ} {B : Type λ'} (p : Result A × S) (g : A → Exec S B) (s : S) {a : A}
    → (((λ (_ : S). p) >>= λ x. g x >> pure x) s).0 ≡ ok a
    → p.0 ≡ ok a
tap-eq-ok (err x, s') g s h = cc
tap-eq-ok (ok x, s') g s h = elim (Result-cases (g x s').0) [ inl (b, e) ↦ cc | inr (y, e) ↦ cc ]

-- A method that raises has changed nothing.
abbrev pub KeepsOnRaise {ℓ κ} : {S : Type ℓ} {A : Type κ} → Exec S A → S → Type ℓ
KeepsOnRaise m s = (is_ok (m s).0 ≡ true) ⊎ ((m s).1 ≡ s)

pub KeepsOnRaise-intro {ℓ κ} :
    {S : Type ℓ} {A : Type κ} (m : Exec S A) (s : S)
    → (is_ok (m s).0 ≡ false → (m s).1 ≡ s)
    → KeepsOnRaise m s
KeepsOnRaise-intro m s f = elim (Result-cases (m s).0) [
  | inl (a, e) ↦ inl (ap is_ok e)
  | inr (x, e) ↦ inr (f (ap is_ok e))
]
