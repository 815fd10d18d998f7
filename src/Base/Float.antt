-- ===== src/Base/Float.antt =====
-- Python's `float`, of which the development knows only what a theorem names: the type and its
-- operations are a parameter.
use Prim.Native.Nat.{ℕ}
use mathlib.Core.Bool.{Bool}
use mathlib.Core.List.{List}
use ganker.Base.Int.{ℤ}
use ganker.Base.Result.{Result}

pub record Float : Type 1 where
  pub Real : Type 0
  -- The literal `m * 10 ** -e`, and `float(i)`.
  pub literal : ℤ → ℕ → Real
  pub of_int : ℤ → Real
  pub add : Real → Real → Real
  pub mul : Real → Real → Real
  pub div : Real → Real → Real
  -- `sum(values)`
  pub sum : List Real → Real
  -- The tests `a < b` and `a <= b`.
  pub lt : Real → Real → Bool
  pub le : Real → Real → Bool
  -- `bool(a)`
  pub truthy : Real → Bool
  -- `int(a)`, which raises for an infinity and a NaN
  pub to_int : Real → Result ℤ
