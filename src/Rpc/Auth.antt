-- ===== src/Rpc/Auth.antt =====
-- The bearer token: which clients the server admits.
use text.Mathlib.TextLemmas.{append_cancel_left}
use ganker.Base.{
  String, ◌<>◌, ◌≡◌, ◌≢◌, refl, ◌∙◌, Option, some, none, true, false, arith, is_empty, Bool-cases,
  inl, inr, [],
}
use ganker.Base.Dict.{lookup, insert}
use ganker.Rpc.Server.{Host, check_auth, dict_of}
use ganker.Rpc.Client.{connect_metadata}

module _ {S : Type 0} (host : Host S) where
  authorization_seen :
      (token : String)
      → is_empty token ≡ false
      → lookup "authorization" (dict_of (host.invocation_metadata (connect_metadata (some token))))
        ≡ some ("Bearer " <> token)
  unfolding connect_metadata lookup insert
  authorization_seen token h =
      host.authorization_kept (connect_metadata (some token)) ∙ ground (arith, h)

  no_authorization_seen :
      (client : Option String)
      → connect_metadata client ≡ []
      → lookup "authorization" (dict_of (host.invocation_metadata (connect_metadata client))) ≡ none
  unfolding lookup
  no_authorization_seen client h = host.authorization_kept (connect_metadata client) ∙ rw h refl

  -- A client with the server's token is admitted, and so is any client of a server without one.
  pub check_auth-connect :
      (token : Option String)
      → check_auth token (host.invocation_metadata (connect_metadata token)) ≡ true
  unfolding check_auth
  check_auth-connect none = refl
  check_auth-connect (some token) = elim (Bool-cases (is_empty token)) [
    | inl e ↦ rw e refl
    | inr e ↦ ground (arith, authorization_seen token e)
  ]

  -- A client with another token, or with none, is not.
  pub check_auth-other :
      (token : String) (client : Option String)
      → is_empty token ≡ false
      → client ≢ some token
      → check_auth (some token) (host.invocation_metadata (connect_metadata client)) ≡ false
  unfolding check_auth connect_metadata
  check_auth-other token none h other = ground (arith, no_authorization_seen none refl)
  check_auth-other token (some t) h other = elim (Bool-cases (is_empty t)) [
    | inl e ↦ ground (arith, e, no_authorization_seen (some t) (rw e refl))
    | inr e ↦ ground (arith, e, authorization_seen t e, append_cancel_left "Bearer " t token)
  ]
