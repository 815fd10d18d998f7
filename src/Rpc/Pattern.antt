-- ===== src/Rpc/Pattern.antt =====
-- The form `Class('quoted')` in a text, which the server's pattern reads.
-- `_map_wrapped_exception` of src/ganker/rpc/server.py
use text.Mathlib.TextLemmas.{append_assoc, nil-append, cons-append}
use Prim.Native.Char.{code}
use text.Mathlib.TextEquality.{Char-path}
use mathlib.Core.Option
use mathlib.Core.Path.{subst}
use ganker.Base.{
  String, ◌<>◌, ◌≡◌, sym, ap, ◌∙◌, some, false, arith, inl, inr, Bool-cases, Option-cases, eqb,
}
use ganker.Rpc.Errors.{strip_prefix, quoted, match_name}
use ganker.Rpc.Prefixes.{strip_prefix-eq_some, strip_prefix-append}

abbrev pub NoQuote : String → Type 0
NoQuote String.[] = Unit
NoQuote (String.◌∷◌ c s) = (eqb (code c) 39 ≡ false) × NoQuote s

-- A name and a text between single quotes, as `name('text')`, before the rest of a text. `repr` writes
-- an error in this form, with its message as it is, only if it escapes nothing in the message: line
-- ends, control characters and backslashes come out escaped, and a single quote changes the quotes.
abbrev pub as_call : String → String → String → String
as_call name message after = name <> ("('" <> (message <> ("')" <> after)))

quoted-eq_some :
    (s message : String)
    → quoted s ≡ some message
    → (after : String) × (s ≡ message <> ("')" <> after)) × NoQuote message
unfolding quoted
quoted-eq_some String.[] message h = cc
quoted-eq_some (String.◌∷◌ c s) message h = elim (Bool-cases (eqb (code c) 39)) [
  | inl quote ↦ elim (Option-cases (strip_prefix ")" s)) [
    | inl e ↦ absurd {0} (ground arith)
    | inr (rest, e) ↦
        let nothing : message ≡ "" = ground arith in
        let first : c ≡ "'" = Char-path c "'" (ground arith) in
        let closing : s ≡ ")" <> rest = strip_prefix-eq_some ")" s rest e in
        (
          rest,
          rw (nothing, first, closing) (sym (nil-append ("')" <> rest) ∙ cons-append "'" ")" rest)),
          rw nothing tt,
        )
  ]
  | inr other ↦ elim (Option-cases (quoted s)) [
    | inl e ↦ absurd {0} (ground arith)
    | inr (m, e) ↦
        let (after, split, clean) = quoted-eq_some s m e in
        let longer : message ≡ String.◌∷◌ c m = ground arith in
        (
          after,
          rw longer (ap (String.◌∷◌ c) split ∙ sym (cons-append c m ("')" <> after))),
          rw longer (other, clean),
        )
  ]
]

quoted-append :
    (message after : String) → NoQuote message → quoted (message <> ("')" <> after)) ≡ some message
unfolding quoted
quoted-append String.[] after h =
    rw (nil-append ("')" <> after), cons-append "'" ")" after)
      (ap (Option.map (λ (rest : String). "")) (strip_prefix-append ")" after))
quoted-append (String.◌∷◌ c m) after h =
    rw (cons-append c m ("')" <> after)) (ground (arith, h.0, quoted-append m after h.1))

pub match_name-eq_some :
    (n s name message : String)
    → match_name n s ≡ some (name, message)
    → (name ≡ n) × ((after : String) × (s ≡ as_call n message after)) × NoQuote message
unfolding match_name
match_name-eq_some n s name message h = elim (Option-cases (strip_prefix (n <> "('") s)) [
  | inl e ↦ absurd {0} (ground arith)
  | inr (rest, e) ↦ elim (Option-cases (quoted rest)) [
    | inl f ↦ absurd {0} (ground arith)
    | inr (m, f) ↦
        let same : m ≡ message = ground arith in
        let (after, split, clean) = quoted-eq_some rest m f in
        (
          ground arith,
          (
            after,
            strip_prefix-eq_some (n <> "('") s rest e
                ∙ append_assoc n "('" rest
                ∙ ap (λ x. n <> ("('" <> x)) (split ∙ ap (λ x. x <> ("')" <> after)) same),
          ),
          subst NoQuote same clean,
        )
  ]
]

pub match_name-as_call :
    (n message after : String)
    → NoQuote message
    → match_name n (as_call n message after) ≡ some (n, message)
unfolding match_name
match_name-as_call n message after h =
    let rest = message <> ("')" <> after) in
    let found : strip_prefix (n <> "('") (as_call n message after) ≡ some rest =
      ap (strip_prefix (n <> "('")) (sym (append_assoc n "('" rest))
      ∙ strip_prefix-append (n <> "('") rest in
    ground (arith, found, quoted-append message after h)
