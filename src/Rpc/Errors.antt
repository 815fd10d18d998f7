-- ===== src/Rpc/Errors.antt =====
-- Errors on the wire: what the server makes of an exception, and the client of a status.
-- src/ganker/rpc/server.py and src/ganker/rpc/client.py
use Prim.Native.Char.{code}
use mathlib.Core.Option
use ganker.Base.{String, ◌<>◌, Option, some, none, if◌then◌else◌, eqb, ◌==◌}
use ganker.Base.Result.{
  StatusCode, invalid_argument, unavailable_code, not_found_code, deadline_exceeded, internal,
  unauthenticated, other_code, Error, invalid_request, not_found, backend_unavailable,
  grpc_transport_error, value_error, key_error, type_error, index_error, timeout_error, other_error,
}

-- How a call of an RPC ends: with a reply, or with a status and its details.
pub data Outcome (A : Type 0) : Type 0 where
  replied : A → Outcome A
  aborted : StatusCode → Option String → Outcome A

-- `code.name`
abbrev pub code_name : StatusCode → String
code_name invalid_argument = "INVALID_ARGUMENT"
code_name unavailable_code = "UNAVAILABLE"
code_name not_found_code = "NOT_FOUND"
code_name deadline_exceeded = "DEADLINE_EXCEEDED"
code_name internal = "INTERNAL"
code_name unauthenticated = "UNAUTHENTICATED"
code_name (other_code name) = name

-- What follows a prefix.
unfoldable pub strip_prefix : String → String → Option String
strip_prefix String.[] s = some s
strip_prefix (String.◌∷◌ c p) String.[] = none
strip_prefix (String.◌∷◌ c p) (String.◌∷◌ d s) =
    let rest = strip_prefix p s in if eqb (code c) (code d) then rest else none

abbrev pub or_else {ℓ} : {A : Type ℓ} → Option A → Option A → Option A
or_else none o = o
or_else (some a) o = some a

-- `([^']*)'\)`: the text up to the first quote, after which the bracket closes.
unfoldable pub quoted : String → Option String
unfolding strip_prefix
quoted String.[] = none
quoted (String.◌∷◌ c s) =
    let more = Option.map (String.◌∷◌ c) (quoted s) in
    if eqb (code c) 39 then Option.map (λ rest. "") (strip_prefix ")" s) else more

-- `name\('([^']*)'\)` at the start of a text, with both groups.
unfoldable pub match_name : String → String → Option (String × String)
unfolding quoted strip_prefix
match_name name s = elim (strip_prefix (name <> "('") s) [
  | none ↦ none
  | some rest ↦ Option.map (λ message. (name, message)) (quoted rest)
]

unfoldable pub match_here : String → Option (String × String)
unfolding match_name
match_here s =
    or_else (match_name "InvalidRequestError" s)
      (or_else (match_name "NotFoundError" s) (match_name "BackendUnavailableError" s))

-- `re.search`: the first place where the pattern matches.
unfoldable pub search_error : String → Option (String × String)
unfolding match_here
search_error String.[] = none
search_error (String.◌∷◌ c s) = or_else (match_here (String.◌∷◌ c s)) (search_error s)

-- The text is f"{exc!r}\n{exc}".
unfoldable pub map_wrapped_exception : String → StatusCode × String
unfolding search_error
map_wrapped_exception text = elim (search_error text) [
  | none ↦ (internal, "unexpected server error")
  | some (name, message) ↦
      if name == "InvalidRequestError"
      then (invalid_argument, message)
      else if name == "NotFoundError"
      then (not_found_code, message)
      else if name == "BackendUnavailableError"
      then (unavailable_code, message)
      else (internal, message)
]

-- The `except` clauses of `_handle`. `text` gives the text of an exception as above.
unfoldable pub map_exception : (Error → String) → Error → StatusCode × String
unfolding map_wrapped_exception
map_exception text (invalid_request m) = (invalid_argument, m)
map_exception text (not_found m) = (not_found_code, m)
map_exception text (backend_unavailable m) = (unavailable_code, m)
map_exception text (timeout_error m) = (deadline_exceeded, m)
map_exception text (grpc_transport_error c m) = (internal, code_name c <> (": " <> m))
map_exception text (value_error m) = map_wrapped_exception (text (value_error m))
map_exception text (key_error m) = map_wrapped_exception (text (key_error m))
map_exception text (type_error m) = map_wrapped_exception (text (type_error m))
map_exception text (index_error m) = map_wrapped_exception (text (index_error m))
map_exception text (other_error m) = map_wrapped_exception (text (other_error m))

-- `exc.details() or ""`
abbrev details_or_empty : Option String → String
details_or_empty none = ""
details_or_empty (some d) = d

unfoldable pub map_rpc_error : StatusCode → Option String → Error
map_rpc_error invalid_argument d = invalid_request (details_or_empty d)
map_rpc_error not_found_code d = not_found (details_or_empty d)
map_rpc_error unavailable_code d = backend_unavailable (details_or_empty d)
map_rpc_error deadline_exceeded d = grpc_transport_error deadline_exceeded (details_or_empty d)
map_rpc_error internal d = grpc_transport_error internal (details_or_empty d)
map_rpc_error unauthenticated d = grpc_transport_error unauthenticated (details_or_empty d)
map_rpc_error (other_code name) d = grpc_transport_error (other_code name) (details_or_empty d)
