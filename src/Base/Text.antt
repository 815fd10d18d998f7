-- ===== src/Base/Text.antt =====
-- Decimal text of numbers: `str(n)`, the zero-padded formats, and `int(text)`.
pub mod Decimal
use Prim.Native.Nat.{ℕ, zero, suc, ◌+◌, ◌-◌, ◌*◌, ◌/◌, ◌%◌}
use Prim.Native.Char.{Char, code}
use Prim.Native.String.{String, ◌++◌}
use mathlib.Core.Path.{◌≡◌, refl}
use mathlib.Core.Bool.{Bool, true, false, not, ◌&&◌, ◌||◌}
use mathlib.Core.Option
use mathlib.Core.Option.{Option, none, some}
use ganker.Base.Tests.{ltb, leb, eqb, if◌then◌else◌}
use ganker.Base.Int.{ℤ, pos, negsuc, neg_ℕ}

abbrev digit : ℕ → Char
digit zero = "0"
digit (suc zero) = "1"
digit (suc (suc zero)) = "2"
digit (suc (suc (suc zero))) = "3"
digit (suc (suc (suc (suc zero)))) = "4"
digit (suc (suc (suc (suc (suc zero))))) = "5"
digit (suc (suc (suc (suc (suc (suc zero)))))) = "6"
digit (suc (suc (suc (suc (suc (suc (suc zero))))))) = "7"
digit (suc (suc (suc (suc (suc (suc (suc (suc zero)))))))) = "8"
digit _ = "9"

-- The digits of n before `rest`. The fuel n + 1 is enough, since each round divides by ten.
show_fuel : ℕ → ℕ → String → String
show_fuel zero n rest = rest
show_fuel (suc f) n rest =
    let more = show_fuel f (n / 10) (String.◌∷◌ (digit (n % 10)) rest) in
    if ltb n 10 then String.◌∷◌ (digit n) rest else more

unfoldable pub show : ℕ → String
unfolding show_fuel
show n = show_fuel (n + 1) n ""

unfoldable pub show_ℤ : ℤ → String
unfolding show
show_ℤ (pos n) = show n
show_ℤ (negsuc n) = String.◌∷◌ "-" (show (n + 1))

-- The last w digits of n, before `rest`.
pad : ℕ → ℕ → String → String
pad zero n rest = rest
pad (suc w) n rest = pad w (n / 10) (String.◌∷◌ (digit (n % 10)) rest)

-- 10 ** w <= n, tested by w divisions.
has_more_digits : ℕ → ℕ → Bool
has_more_digits zero n = ltb 0 n
has_more_digits (suc w) n = has_more_digits w (n / 10)

-- `f"{n:0wd}"`
unfoldable pub show_padded : ℕ → ℕ → String
unfolding pad has_more_digits show
show_padded w n = if has_more_digits w n then show n else pad w n ""

is_digit : ℕ → Bool
is_digit c = leb 48 c && leb c 57

-- ASCII white space, as `str.strip` and `int` see it.
unfoldable pub is_space : ℕ → Bool
is_space c = eqb c 32 || ((leb 9 c && leb c 13) || (leb 28 c && leb c 31))

all_space : String → Bool
all_space String.[] = true
all_space (String.◌∷◌ c s) = is_space (code c) && all_space s

-- Digits with single underscores between them, and white space behind. The flag tells that the
-- character before was a digit.
scan_digits : ℕ → Bool → String → Option ℕ
scan_digits n after String.[] = if after then some n else none
scan_digits n after (String.◌∷◌ c s) =
    let more = scan_digits (n * 10 + (code c - 48)) true s in
    let underscored = scan_digits n false s in
    if is_digit (code c)
    then more
    else if after && eqb (code c) 95
    then underscored
    else if after && (is_space (code c) && all_space s)
    then some n
    else none

scan_sign : String → Option ℤ
scan_sign String.[] = none
scan_sign (String.◌∷◌ c s) =
    if eqb (code c) 45
    then Option.map neg_ℕ (scan_digits 0 false s)
    else if eqb (code c) 43
    then Option.map pos (scan_digits 0 false s)
    else Option.map pos (scan_digits 0 false (String.◌∷◌ c s))

skip_space : String → String
skip_space String.[] = String.[]
skip_space (String.◌∷◌ c s) = if is_space (code c) then skip_space s else String.◌∷◌ c s

-- `int(text)` for ASCII text; `none` where it raises a `ValueError`.
unfoldable pub int_of_text : String → Option ℤ
unfolding scan_digits scan_sign skip_space is_digit is_space all_space
int_of_text s = scan_sign (skip_space s)

-- `len(text.split())` for ASCII text. The flag tells that the character before was in a word.
count_words : Bool → String → ℕ
count_words inside String.[] = 0
count_words inside (String.◌∷◌ c s) =
    let more = count_words (not (is_space (code c))) s in
    if is_space (code c) || inside then more else suc more

unfoldable pub word_count : String → ℕ
unfolding count_words is_space
word_count s = count_words false s

word_count_test : word_count "  the quick  fox " ≡ 3
unfolding word_count
word_count_test = refl

show_tests : (show 0 ≡ "0") × (show 1234567890 ≡ "1234567890") × (show_ℤ (negsuc 41) ≡ "-42")
unfolding show show_ℤ
show_tests = (refl, refl, refl)

show_padded_tests :
    (show_padded 6 1 ≡ "000001")
    × (show_padded 5 99999 ≡ "99999")
    × (show_padded 5 123456 ≡ "123456")
unfolding show_padded
show_padded_tests = (refl, refl, refl)

int_of_text_tests :
    (int_of_text " -1_000 " ≡ some (negsuc 999))
    × (int_of_text "+08" ≡ some (pos 8))
    × (int_of_text "1_" ≡ none)
    × (int_of_text "" ≡ none)
    × (int_of_text "8x" ≡ none)
unfolding int_of_text
int_of_text_tests = (refl, refl, refl, refl, refl)
