-- ===== src/Rpc/Wrapped.antt =====
-- Errors that arrive inside the text of another exception.
use text.Mathlib.TextLemmas.{nil-append, cons-append}
use ganker.Base.{
  String, ◌<>◌, ◌≡◌, refl, sym, ap, ◌∙◌, Option, some, none, true, arith, ◌⊎◌, inl, inr, string_dec,
  Option-cases,
}
use ganker.Base.Dict.{is_some}
use ganker.Base.Result.{StatusCode, invalid_argument, not_found_code, unavailable_code, internal}
use ganker.Rpc.Errors.{
  strip_prefix, or_else, quoted, match_name, match_here, search_error, map_wrapped_exception,
}
use ganker.Rpc.Pattern.{NoQuote, as_call, match_name-eq_some, match_name-as_call}

-- The errors that the server looks for, with their names and their statuses.
pub data Wrapped : Type 0 where
  invalid missing unavailable : Wrapped

abbrev pub wrapped_name : Wrapped → String
wrapped_name invalid = "InvalidRequestError"
wrapped_name missing = "NotFoundError"
wrapped_name unavailable = "BackendUnavailableError"

abbrev pub wrapped_status : Wrapped → StatusCode
wrapped_status invalid = invalid_argument
wrapped_status missing = not_found_code
wrapped_status unavailable = unavailable_code

-- The text contains the form `Class('message')` for such a class and a message without single quotes.
abbrev pub Occurs : String → Wrapped → String → Type 0
Occurs text k message =
    (before : String) × (after : String) × (text ≡ before <> as_call (wrapped_name k) message after)
    × NoQuote message

or_else-left : {A : Type 0} (a b : Option A) → is_some a ≡ true → is_some (or_else a b) ≡ true
or_else-left none b h = cc
or_else-left (some x) b h = refl

or_else-right : {A : Type 0} (a b : Option A) → is_some b ≡ true → is_some (or_else a b) ≡ true
or_else-right none b h = h
or_else-right (some x) b h = refl

-- Where the pattern matches at the start of a text.
abbrev Starts : String → String → String → Type 0
Starts s name message =
    (k : Wrapped) × (name ≡ wrapped_name k)
    × ((after : String) × (s ≡ as_call (wrapped_name k) message after))
    × NoQuote message

match_here-eq_some :
    (s name message : String) → match_here s ≡ some (name, message) → Starts s name message
unfolding match_here
match_here-eq_some s name message h = elim (Option-cases (match_name "InvalidRequestError" s)) [
  | inr ((n, m), e) ↦
      let (same, split, clean) = match_name-eq_some _ s name message (ground arith) in
      (invalid, same, split, clean)
  | inl e ↦ elim (Option-cases (match_name "NotFoundError" s)) [
    | inr ((n, m), f) ↦
        let (same, split, clean) = match_name-eq_some _ s name message (ground arith) in
        (missing, same, split, clean)
    | inl f ↦
        let (same, split, clean) = match_name-eq_some _ s name message (ground arith) in
        (unavailable, same, split, clean)
  ]
]

module _ (s : String) where
  abbrev as_invalid : Option (String × String)
  as_invalid = match_name "InvalidRequestError" s

  abbrev as_missing : Option (String × String)
  as_missing = match_name "NotFoundError" s

  abbrev as_unavailable : Option (String × String)
  as_unavailable = match_name "BackendUnavailableError" s

  match_here-wrapped :
      (k : Wrapped) → is_some (match_name (wrapped_name k) s) ≡ true → is_some (match_here s) ≡ true
  unfolding match_here
  match_here-wrapped invalid h = or_else-left as_invalid (or_else as_missing as_unavailable) h
  match_here-wrapped missing h =
      or_else-right as_invalid (or_else as_missing as_unavailable)
        (or_else-left as_missing as_unavailable h)
  match_here-wrapped unavailable h =
      or_else-right as_invalid (or_else as_missing as_unavailable)
        (or_else-right as_missing as_unavailable h)

match_here-as_call :
    (k : Wrapped) (message after : String)
    → NoQuote message
    → is_some (match_here (as_call (wrapped_name k) message after)) ≡ true
match_here-as_call k message after h =
    match_here-wrapped (as_call (wrapped_name k) message after) k
      (ap is_some (match_name-as_call (wrapped_name k) message after h))

search_error-here : (s : String) → is_some (match_here s) ≡ true → is_some (search_error s) ≡ true
unfolding search_error match_here match_name strip_prefix quoted
search_error-here String.[] h = cc
search_error-here (String.◌∷◌ c s) h = or_else-left (match_here (String.◌∷◌ c s)) (search_error s) h

search_error-eq_some :
    (s name message : String)
    → search_error s ≡ some (name, message)
    → (k : Wrapped) × (name ≡ wrapped_name k) × Occurs s k message
unfolding search_error
search_error-eq_some String.[] name message h = cc
search_error-eq_some (String.◌∷◌ c s) name message h =
    elim (Option-cases (match_here (String.◌∷◌ c s))) [
      | inr (found, e) ↦
          let (k, same, (after, split), clean) =
            match_here-eq_some (String.◌∷◌ c s) name message (ground arith) in
          let whole = as_call (wrapped_name k) message after in
          (k, same, ("", after, split ∙ sym (nil-append whole), clean))
      | inl e ↦
          let (k, same, (before, after, split, clean)) =
            search_error-eq_some s name message (ground arith) in
          let whole = as_call (wrapped_name k) message after in
          (
            k,
            same,
            (
              String.◌∷◌ c before,
              after,
              ap (String.◌∷◌ c) split ∙ sym (cons-append c before whole),
              clean,
            ),
          )
    ]

search_error-occurs :
    (before after : String) (k : Wrapped) (message : String)
    → NoQuote message
    → is_some (search_error (before <> as_call (wrapped_name k) message after)) ≡ true
unfolding search_error
search_error-occurs String.[] after k message h =
    rw (nil-append (as_call (wrapped_name k) message after)) (
      search_error-here (as_call (wrapped_name k) message after)
        (match_here-as_call k message after h))
search_error-occurs (String.◌∷◌ c before) after k message h =
    rw (cons-append c before (as_call (wrapped_name k) message after)) (
      or_else-right (match_here (String.◌∷◌ c (before <> as_call (wrapped_name k) message after)))
        (search_error (before <> as_call (wrapped_name k) message after))
        (search_error-occurs before after k message h))

status_known :
    (text : String) (k : Wrapped) (name message : String)
    → search_error text ≡ some (name, message)
    → name ≡ wrapped_name k
    → map_wrapped_exception text ≡ (wrapped_status k, message)
unfolding map_wrapped_exception string_dec
status_known text invalid name message h e = rw (h, map_wrapped_exception, e) refl
status_known text missing name message h e = rw (h, map_wrapped_exception, e) refl
status_known text unavailable name message h e = rw (h, map_wrapped_exception, e) refl

-- Let an exception be of no class that the server knows, so that only its text is read. If the form
-- `Class('quoted')` occurs in this text, with one of the three error classes and no single quote
-- between the quotes, then the client gets the status of such a class and, as its message, what
-- stands between the quotes in such an occurrence, as it is written there. If the form occurs
-- nowhere, the client gets the status INTERNAL without details.
pub wrapped_exception_status :
    (text : String)
    → ((k : Wrapped) × (message : String) × Occurs text k message
        × (map_wrapped_exception text ≡ (wrapped_status k, message)))
      ⊎ (((k : Wrapped) (message : String) → Occurs text k message → ⊥)
          × (map_wrapped_exception text ≡ (internal, "unexpected server error")))
unfolding map_wrapped_exception
wrapped_exception_status text = elim (Option-cases (search_error text)) [
  | inl none_found ↦ inr (
    λ k message (before, after, split, clean).
        let found = search_error-occurs before after k message clean in ground arith,
    rw (none_found, map_wrapped_exception) refl,
  )
  | inr ((name, message), found) ↦
      let (k, same, occurs) = search_error-eq_some text name message found in
      inl (k, message, occurs, status_known text k name message found same)
]
