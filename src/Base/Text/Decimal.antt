-- ===== src/Base/Text/Decimal.antt =====
-- `int` reads back what `str` and the padded formats print, so these are injective.
use Prim.Native.Char.{Char, code}
use Prim.Native.Nat.{ℕ, zero, suc, ◌+◌, ◌-◌, ◌*◌, ◌/◌, ◌%◌, ◌<◌}
use Prim.Native.String.{String}
use mathlib.Core.Path.{◌≡◌, refl, ap, ◌∙◌}
use mathlib.Core.Bool.{Bool, true, false}
use mathlib.Core.Option
use mathlib.Core.Option.{Option, none, some}
use native.Mathlib.Omega.{arith}
use ganker.Base.Tests.{ltb, eqb, Bool-cases}
use mathlib.Core.Logic.{inl, inr}
use ganker.Base.Int.{ℤ, pos, negsuc, neg_ℕ}
use ganker.Base.Int.{pos-injective}
use ganker.Base.Text.{
  digit, show_fuel, show, show_ℤ, pad, has_more_digits, show_padded, scan_digits, scan_sign,
  skip_space, is_digit, is_space, int_of_text,
}

tens : (n : ℕ) → n / 10 * 10 + n % 10 ≡ n
tens n = omega arith

zero_tens : (n : ℕ) → 0 * 10 + n ≡ n
zero_tens n = omega arith

-- A character that the scanners take for a digit of value d.
abbrev IsDigitOf : ℕ → ℕ → Type 0
IsDigitOf d c =
    (is_digit c ≡ true)
    × (c - 48 ≡ d)
    × (is_space c ≡ false)
    × (eqb c 45 ≡ false)
    × (eqb c 43 ≡ false)

digit-IsDigitOf : (d : ℕ) → d < 10 → IsDigitOf d (code (digit d))
unfolding is_digit is_space
digit-IsDigitOf zero h = (refl, refl, refl, refl, refl)
digit-IsDigitOf (suc zero) h = (refl, refl, refl, refl, refl)
digit-IsDigitOf (suc (suc zero)) h = (refl, refl, refl, refl, refl)
digit-IsDigitOf (suc (suc (suc zero))) h = (refl, refl, refl, refl, refl)
digit-IsDigitOf (suc (suc (suc (suc zero)))) h = (refl, refl, refl, refl, refl)
digit-IsDigitOf (suc (suc (suc (suc (suc zero))))) h = (refl, refl, refl, refl, refl)
digit-IsDigitOf (suc (suc (suc (suc (suc (suc zero)))))) h = (refl, refl, refl, refl, refl)
digit-IsDigitOf (suc (suc (suc (suc (suc (suc (suc zero))))))) h = (refl, refl, refl, refl, refl)
digit-IsDigitOf (suc (suc (suc (suc (suc (suc (suc (suc zero)))))))) h =
    (refl, refl, refl, refl, refl)
digit-IsDigitOf (suc (suc (suc (suc (suc (suc (suc (suc (suc zero))))))))) h =
    (refl, refl, refl, refl, refl)
digit-IsDigitOf (suc (suc (suc (suc (suc (suc (suc (suc (suc (suc d)))))))))) h =
    absurd (omega arith)

-- A text that begins with a digit.
abbrev StartsWithDigit : String → Type 0
StartsWithDigit s = (d : ℕ) × (rest : String) × (d < 10) × (s ≡ String.◌∷◌ (digit d) rest)

scan_step :
    (n : ℕ) (c : Char) (after : Bool) (rest : String)
    → is_digit (code c) ≡ true
    → scan_digits n after (String.◌∷◌ c rest) ≡ scan_digits (n * 10 + (code c - 48)) true rest
unfolding scan_digits
scan_step n c after rest h = rw h

scan-digit :
    (n d : ℕ) (after : Bool) (rest : String)
    → d < 10
    → scan_digits n after (String.◌∷◌ (digit d) rest) ≡ scan_digits (n * 10 + d) true rest
scan-digit n d after rest h =
    let (is, value, _, _, _) = digit-IsDigitOf d h in
    scan_step n (digit d) after rest is ∙ ap (λ (v : ℕ). scan_digits (n * 10 + v) true rest) value

steps :
    (c : Char) (rest : String)
    → is_space (code c) ≡ false
    → eqb (code c) 45 ≡ false
    → eqb (code c) 43 ≡ false
    → int_of_text (String.◌∷◌ c rest) ≡ Option.map pos (scan_digits 0 false (String.◌∷◌ c rest))
unfolding skip_space scan_sign int_of_text
steps c rest space minus plus = rw (space, skip_space) (rw (minus, plus))

int_of_text-digit :
    (d : ℕ) (rest : String)
    → d < 10
    → int_of_text (String.◌∷◌ (digit d) rest)
      ≡ Option.map pos (scan_digits 0 false (String.◌∷◌ (digit d) rest))
int_of_text-digit d rest h =
    let (_, _, space, minus, plus) = digit-IsDigitOf d h in steps (digit d) rest space minus plus

-- The digits that are printed read back as the number.
scan-show_fuel :
    (f n : ℕ) (rest : String)
    → n < f
    → scan_digits 0 false (show_fuel f n rest) ≡ scan_digits n true rest
unfolding show_fuel
scan-show_fuel zero n rest h = absurd (omega arith)
scan-show_fuel (suc f) n rest h = elim (Bool-cases (ltb n 10)) [
  | inl small ↦ rw (small, show_fuel) (scan-digit 0 n false rest (ground arith) ∙ rw (zero_tens n))
  | inr big ↦
      rw (big, show_fuel)
        (scan-show_fuel f (n / 10) (String.◌∷◌ (digit (n % 10)) rest) (ground arith)
          ∙ scan-digit (n / 10) (n % 10) true rest (omega arith)
          ∙ rw (tens n))
]

show_fuel-StartsWithDigit : (f n : ℕ) (rest : String) → n < f → StartsWithDigit (show_fuel f n rest)
unfolding show_fuel
show_fuel-StartsWithDigit zero n rest h = absurd (omega arith)
show_fuel-StartsWithDigit (suc f) n rest h = elim (Bool-cases (ltb n 10)) [
  | inl small ↦ rw (small, show_fuel) (n, rest, ground arith, refl)
  | inr big ↦ rw (big, show_fuel) (show_fuel-StartsWithDigit f (n / 10) _ (ground arith))
]

int_of_text-StartsWithDigit :
    (s : String) → StartsWithDigit s → int_of_text s ≡ Option.map pos (scan_digits 0 false s)
int_of_text-StartsWithDigit s (d, rest, h, e) = rw e (int_of_text-digit d rest h)

scan_end : (n : ℕ) → scan_digits n true "" ≡ some n
unfolding scan_digits
scan_end n = refl

scan-show : (n : ℕ) → scan_digits 0 false (show n) ≡ some n
unfolding show
scan-show n = scan-show_fuel (n + 1) n "" (omega arith) ∙ scan_end n

show-StartsWithDigit : (n : ℕ) → StartsWithDigit (show n)
unfolding show
show-StartsWithDigit n = show_fuel-StartsWithDigit (n + 1) n "" (omega arith)

-- `int(str(n)) == n`
pub int_of_text-show : (n : ℕ) → int_of_text (show n) ≡ some (pos n)
int_of_text-show n =
    int_of_text-StartsWithDigit (show n) (show-StartsWithDigit n)
    ∙ ap (Option.map pos) (scan-show n)

int_of_text-minus :
    (s : String) → int_of_text (String.◌∷◌ "-" s) ≡ Option.map neg_ℕ (scan_digits 0 false s)
unfolding int_of_text
int_of_text-minus s = refl

pub int_of_text-show_ℤ : (i : ℤ) → int_of_text (show_ℤ i) ≡ some i
unfolding show_ℤ
int_of_text-show_ℤ (pos n) = int_of_text-show n
int_of_text-show_ℤ (negsuc n) =
    int_of_text-minus (show (n + 1)) ∙ ap (Option.map neg_ℕ) (scan-show (n + 1)) ∙ ground arith

pub show_ℤ-injective : (i j : ℤ) → show_ℤ i ≡ show_ℤ j → i ≡ j
show_ℤ-injective i j h = cc (int_of_text-show_ℤ i, int_of_text-show_ℤ j, ap int_of_text h)

scan-pad :
    (w n : ℕ) (rest : String)
    → has_more_digits (suc w) n ≡ false
    → scan_digits 0 false (pad (suc w) n rest) ≡ scan_digits n true rest
unfolding pad has_more_digits
scan-pad zero n rest h =
    scan-digit 0 (n % 10) false rest (omega arith)
    ∙ ap (λ (v : ℕ). scan_digits v true rest) (ground arith)
scan-pad (suc w) n rest h =
    scan-pad w (n / 10) (String.◌∷◌ (digit (n % 10)) rest) h
    ∙ scan-digit (n / 10) (n % 10) true rest (omega arith)
    ∙ ap (λ (v : ℕ). scan_digits v true rest) (tens n)

pad-StartsWithDigit :
    (w n d : ℕ) (rest : String) → d < 10 → StartsWithDigit (pad w n (String.◌∷◌ (digit d) rest))
unfolding pad
pad-StartsWithDigit zero n d rest h = (d, rest, h, refl)
pad-StartsWithDigit (suc w) n d rest h =
    pad-StartsWithDigit w (n / 10) (n % 10) (String.◌∷◌ (digit d) rest) (omega arith)

int_of_text-pad :
    (w n : ℕ) → has_more_digits (suc w) n ≡ false → int_of_text (pad (suc w) n "") ≡ some (pos n)
int_of_text-pad w n h =
    int_of_text-StartsWithDigit (pad (suc w) n "")
      (unfold pad in pad-StartsWithDigit w (n / 10) (n % 10) "" (omega arith))
    ∙ ap (Option.map pos) (scan-pad w n "" h ∙ scan_end n)

-- `int(f"{n:0wd}") == n`, for a width of at least 1
pub int_of_text-show_padded : (w n : ℕ) → int_of_text (show_padded (suc w) n) ≡ some (pos n)
unfolding show_padded
int_of_text-show_padded w n = elim (Bool-cases (has_more_digits (suc w) n)) [
  | inl more ↦ rw more (int_of_text-show n)
  | inr few ↦ rw few (int_of_text-pad w n few)
]

pub show_padded-injective : (w m n : ℕ) → show_padded (suc w) m ≡ show_padded (suc w) n → m ≡ n
show_padded-injective w m n h =
    pos-injective m n
      (cc (int_of_text-show_padded w m, int_of_text-show_padded w n, ap int_of_text h))
