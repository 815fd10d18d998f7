-- ===== src/Rpc/Relay.antt =====
-- A call through the client's transport and the servicer, against the same call of the transport
-- behind the servicer.
use ganker.Base.{String, ◌≡◌, refl, ap, some, true, false, List, arith, inl, inr}
use ganker.Base.Result.{
  unauthenticated, grpc_transport_error, Error, Result, ok, err, Exec, lift, ◌>>=◌, Result-cases,
  fmap,
}
use ganker.Actors.Calls.{replied}
use ganker.Rpc.Errors.{map_exception, map_rpc_error}
use ganker.Rpc.Server.{GankerProxyServicer, handle, check_auth}
use ganker.Rpc.Client.{call}
use ganker.Rpc.RoundTrip.{Carries}

-- An exception of the server as the client sees it.
abbrev pub across : (Error → String) → Error → Error
across text e = let (c, message) = map_exception text e in map_rpc_error c (some message)

-- What the client sees of a result: a reply that fits arrives, and an error is mapped.
abbrev pub Answers :
    {A : Type 0} → (Error → String) → (A → Type 0) → (A → A → Type 0) → Result A → Result A → Type 0
Answers {A = A} text Fits Same (ok a) r = Fits a → (b : A) × (r ≡ ok b) × Same a b
Answers text Fits Same (err e) r = r ≡ err (across text e)

Answers-intro :
    {A : Type 0} (text : Error → String) (Fits : A → Type 0) (Same : A → A → Type 0)
    (x y : Result A)
    → ((a : A) → x ≡ ok a → Fits a → (b : A) × (y ≡ ok b) × Same a b)
    → ((e : Error) → x ≡ err e → y ≡ err (across text e))
    → Answers text Fits Same x y
Answers-intro text Fits Same (ok a) y f g = f a refl
Answers-intro text Fits Same (err e) y f g = g e refl

module _ {R S Q M A W : Type 0} (self : GankerProxyServicer R S) (metadata : List (String × String))
    (to_request : Q → Result M) (from_request : M → Result Q) (method : Q → Exec S A)
    (to_response : A → Result W) (from_response : W → Result A) where
  abbrev pub remote : Q → Exec S A
  remote q = do
    m ← lift (to_request q)
    w ←
        call metadata
          (λ (n : M). handle self do r ← lift (from_request n); a ← method r; lift (to_response a))
          m
    lift (from_response w)

  -- What a call that returned has gone through.
  pub remote-eq-ok :
      (q : Q) (s : S) (b : A)
      → (remote q s).0 ≡ ok b
      → (r : Q) × (a : A) × (w : W) × ((method r s).0 ≡ ok a)
        × (to_response a ≡ ok w)
        × (from_response w ≡ ok b)
  unfolding call handle
  remote-eq-ok q s b h = elim (Result-cases (to_request q)) [
    | inr (e, failed) ↦ absurd {0} (ground arith)
    | inl (m, sent) ↦ elim (Result-cases (from_request m)) [
      | inr (e, failed) ↦ absurd {0} (ground arith)
      | inl (r, back) ↦ elim (Result-cases (method r s).0) [
        | inr (e, failed) ↦ absurd {0} (ground arith)
        | inl (a, answered) ↦ elim (Result-cases (to_response a)) [
          | inr (e, failed) ↦ absurd {0} (ground arith)
          | inl (w, replied) ↦ (r, a, w, answered, replied, ground arith)
        ]
      ]
    ]
  ]

  -- A client that is not admitted changes nothing.
  pub remote_refused :
      (q : Q) (Arrives : Q → Type 0) (s : S)
      → check_auth self.bearer_token (self.host.invocation_metadata metadata) ≡ false
      → Carries to_request from_request q Arrives
      → remote q s ≡ (err (grpc_transport_error unauthenticated "invalid bearer token"), s)
  unfolding call handle map_rpc_error
  remote_refused q Arrives s refused (m, r, sent, back, arrives) = ground (arith, refused, sent)

  pub replied_refused :
      {B : Type 0} (as_reply : A → B) (q : Q) (Arrives : Q → Type 0) (s : S)
      → check_auth self.bearer_token (self.host.invocation_metadata metadata) ≡ false
      → Carries to_request from_request q Arrives
      → replied as_reply (remote q) s
        ≡ (err (grpc_transport_error unauthenticated "invalid bearer token"), s)
  replied_refused as_reply q Arrives s refused c =
      ap (λ (x : Result A × S). (fmap as_reply x.0, x.1)) (remote_refused q Arrives s refused c)

  module _ (admitted : check_auth self.bearer_token (self.host.invocation_metadata metadata) ≡ true)
      (Fits : A → Type 0) (Same : A → A → Type 0)
      (carried : (a : A) → Fits a → Carries to_response from_response a (Same a)) where
    module _ (m : M) (r q : Q) (s : S) (sent : to_request q ≡ ok m)
        (back : from_request m ≡ ok r) where
      replies :
          (a : A) → (method r s).0 ≡ ok a → Fits a → (b : A) × ((remote q s).0 ≡ ok b) × Same a b
      unfolding call handle
      replies a e fits =
          let (w, b, sent_back, arrived, same) = carried a fits in
          (b, ground (arith, admitted), same)

      raises : (e : Error) → (method r s).0 ≡ err e → (remote q s).0 ≡ err (across self.host.text e)
      unfolding call handle
      raises e h = ground (arith, admitted)

      same_state : (remote q s).1 ≡ (method r s).1
      unfolding call handle
      same_state = ground (arith, admitted, Result-cases (method r s).0)

    -- The request that arrives is answered by the transport behind the servicer.
    pub remote_relays :
        (q : Q) (Arrives : Q → Type 0)
        → Carries to_request from_request q Arrives
        → (r : Q) × Arrives r
          × ((s : S)
              → ((remote q s).1 ≡ (method r s).1)
                × Answers self.host.text Fits Same (method r s).0 (remote q s).0)
    remote_relays q Arrives (m, r, sent, back, arrives) = (
      r,
      arrives,
      λ s. (
        same_state m r q s sent back,
        Answers-intro self.host.text Fits Same (method r s).0 (remote q s).0
            (replies m r q s sent back) (raises m r q s sent back),
      ),
    )

-- The same of the replies that the methods give.
pub Answers-fmap :
    {A B : Type 0} (text : Error → String) (f : A → B) (Fits : A → Type 0) (Same : A → A → Type 0)
    (Fits' : B → Type 0) (Same' : B → B → Type 0)
    → ((a : A) → Fits' (f a) → Fits a)
    → ((a b : A) → Same a b → Same' (f a) (f b))
    → (x y : Result A) → Answers text Fits Same x y
    → Answers text Fits' Same' (fmap f x) (fmap f y)
Answers-fmap text f Fits Same Fits' Same' fits same (err e) y h = ap (fmap f) h
Answers-fmap text f Fits Same Fits' Same' fits same (ok a) y h =
    λ k. let (b, e, arrived) = h (fits a k) in (f b, ap (fmap f) e, same a b arrived)

-- `remote_relays` for calls and replies.
module _ {R S Q M A W B : Type 0} (self : GankerProxyServicer R S)
    (metadata : List (String × String))
    (admitted : check_auth self.bearer_token (self.host.invocation_metadata metadata) ≡ true)
    (FitsReply : B → Type 0) (SameReply : B → B → Type 0) (to_request : Q → Result M)
    (from_request : M → Result Q) (method : Q → Exec S A) (to_response : A → Result W)
    (from_response : W → Result A) (as_reply : A → B) (Fits : A → Type 0)
    (Same : A → A → Type 0) where
  pub replied_relays :
      ((a : A) → FitsReply (as_reply a) → Fits a)
      → ((a b : A) → Same a b → SameReply (as_reply a) (as_reply b))
      → ((a : A) → Fits a → Carries to_response from_response a (Same a))
      → (q : Q) (Arrives : Q → Type 0) → Carries to_request from_request q Arrives
      → (r : Q) × Arrives r
        × ((s : S)
            → ((replied as_reply
                  (remote self metadata to_request from_request method to_response from_response q)
                  s).1
                ≡ (replied as_reply (method r) s).1)
              × Answers self.host.text FitsReply SameReply
                  (replied as_reply (method r) s).0
                  (replied as_reply
                    (remote self metadata to_request from_request method to_response from_response
                      q)
                    s).0)
  replied_relays fits same carried q Arrives c =
      let (r, arrives, answers) =
        remote_relays self metadata to_request from_request method to_response from_response
          admitted Fits Same carried q Arrives c in
      (
        r,
        arrives,
        λ s. (
          (answers s).0,
          Answers-fmap self.host.text as_reply Fits Same FitsReply SameReply fits same _ _
              (answers s).1,
        ),
      )
