-- ===== src/Rpc/Protobuf.antt =====
-- What the conversions use of the protobuf package, which is not part of the repository.
use ganker.Base.{◌^◌, ◌<◌, String, ◌≡◌, List, [], ◌∷◌}
use ganker.Base.Int.{ℤ, pos, negsuc}
use ganker.Base.Result.{Result, ok, bind}
use ganker.Base.Dict.{Dict, lookup}

-- An int of 64 bits with a sign.
abbrev pub FitsInt64 : ℤ → Type 0
FitsInt64 (pos n) = n < 2 ^ 63
FitsInt64 (negsuc n) = n < 2 ^ 63

pub record Protobuf : Type 1 where
  -- What an int64 field holds after an assignment, or the error of the assignment.
  pub int64 : ℤ → Result ℤ
  -- The entries of a map field in the order in which the message gives them, which is not the order
  -- in which they were put in.
  pub items : (V : Type 0) → Dict V → Dict V
  pub int64_keeps : (n : ℤ) → FitsInt64 n → int64 n ≡ ok n
  pub lookup-items : (V : Type 0) (k : String) (d : Dict V) → lookup k (items V d) ≡ lookup k d

infixl 5 ◌>>=◌
abbrev pub ◌>>=◌ {ℓ κ} : {A : Type ℓ} {B : Type κ} → Result A → (A → Result B) → Result B
m >>= f = bind m f

-- `[f(x) for x in xs]`
unfoldable pub traverse {ℓ κ} :
    {A : Type ℓ} {B : Type κ} → (A → Result B) → List A → Result (List B)
traverse f [] = ok []
traverse f (x ∷ xs) = do y ← f x; ys ← traverse f xs; ok (y ∷ ys)

pub bind-ok {ℓ κ} :
    {A : Type ℓ} {B : Type κ} {m : Result A} {a : A} {b : B} (f : A → Result B)
    → m ≡ ok a
    → f a ≡ ok b
    → bind m f ≡ ok b
bind-ok f h k = rw h k
