-- ===== src/Rpc/Prefixes.antt =====
-- Prefixes of texts.
use text.Mathlib.TextLemmas.{nil-append, cons-append}
use text.Mathlib.TextEquality.{Char-path}
use ganker.Base.{String, ◌<>◌, ◌≡◌, ap, some, arith}
use ganker.Rpc.Errors.{strip_prefix}

-- What follows a prefix, with the prefix, is the text.
pub strip_prefix-eq_some : (p s rest : String) → strip_prefix p s ≡ some rest → s ≡ p <> rest
unfolding strip_prefix
strip_prefix-eq_some String.[] s rest h = cc (nil-append rest)
strip_prefix-eq_some (String.◌∷◌ c p) String.[] rest h = cc
strip_prefix-eq_some (String.◌∷◌ c p) (String.◌∷◌ d s) rest h =
    ground (arith, Char-path c d, strip_prefix-eq_some p s rest, cons-append c p rest)

pub strip_prefix-append : (p s : String) → strip_prefix p (p <> s) ≡ some s
unfolding strip_prefix
strip_prefix-append String.[] s = ap some (nil-append s)
strip_prefix-append (String.◌∷◌ c p) s =
    rw (cons-append c p s) (ground (arith, strip_prefix-append p s))
