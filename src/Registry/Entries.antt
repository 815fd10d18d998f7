-- ===== src/Registry/Entries.antt =====
-- What the registry of src/ganker/distributed/registry.py returns for the endpoints that were put.
use ganker.Base.{
  String, ◌≡◌, refl, ap, ◌∙◌, false, Option, some, none, List, [], ◌∷◌, arith, is_empty,
  if◌then◌else◌, ◌==◌, string_dec, Bool-cases, inl, inr,
}
use ganker.Base.Result.{Result, ok, bind, Exec, lift, ◌>>=◌}
use ganker.Base.Dict.{Dict, lookup, lookup-insert, map_values}
use ganker.Base.File.{str, to_str, truthy, get_item}
use ganker.Registry.{
  RoleKey, EndpointAddress, RoleEndpoint, key, storage_key, check_address, check_endpoint,
  heartbeat_endpoint, status_or,
}
use ganker.Registry.Payload.{
  Entry, one, as_dict, from_dict, address_as_dict, address_from_dict, addresses_as_dicts,
  addresses_from_dicts, time_or,
}
use ganker.Registry.Mapping.{Store, Clock, put, get, heartbeat, decoded}

-- The constructors accepted the addresses.
abbrev pub Addressed : List EndpointAddress → Type 0
Addressed [] = Unit
Addressed (a ∷ rest) = (check_address a ≡ ok tt) × Addressed rest

-- An endpoint that its constructors accept, with both times set.
pub record IsEndpoint (e : RoleEndpoint) : Type 0 where
  pub addressed : Addressed e.addresses
  pub checked : check_endpoint e ≡ ok tt
  pub started : is_empty e.started_at ≡ false
  pub alive : is_empty e.last_heartbeat ≡ false

address_from_dict-as_dict :
    (a : EndpointAddress) → check_address a ≡ ok tt → address_from_dict (address_as_dict a) ≡ ok a
unfolding address_from_dict address_as_dict get_item lookup string_dec
address_from_dict-as_dict a h = rw h refl

addresses_from_dicts-as_dicts :
    (addresses : List EndpointAddress)
    → Addressed addresses
    → addresses_from_dicts (addresses_as_dicts addresses) ≡ ok addresses
unfolding addresses_from_dicts addresses_as_dicts
addresses_from_dicts-as_dicts [] h = refl
addresses_from_dicts-as_dicts (a ∷ rest) (first, others) =
    rw (address_from_dict-as_dict a first, addresses_from_dicts-as_dicts rest others) refl

map_values-to_str : (d : Dict String) → map_values to_str (map_values str d) ≡ d
map_values-to_str [] = refl
map_values-to_str ((k, v) ∷ d) = ap (λ (x : Dict String). (k, v) ∷ x) (map_values-to_str d)

time_or-set :
    (show : Entry → String) (now time : String)
    → is_empty time ≡ false
    → time_or show now (some (one (str time))) ≡ time
unfolding truthy
time_or-set show now time h = rw h refl

-- The dictionary of an endpoint is read as the endpoint.
from_dict-as_dict :
    (show : Entry → String) (now later : String) (e : RoleEndpoint)
    → IsEndpoint e
    → from_dict show now later (as_dict e) ≡ ok e
unfolding from_dict as_dict lookup string_dec
from_dict-as_dict show now later e v =
    let places = addresses_from_dicts-as_dicts e.addresses v.addressed in
    let t1 = time_or-set show now e.started_at v.started in
    let t2 = time_or-set show later e.last_heartbeat v.alive in
    let m = map_values-to_str e.metadata in
    let read : from_dict show now later (as_dict e) ≡ (bind (check_endpoint e) λ _. ok e) = λ i.
      bind (places i) λ addresses.
        let x : RoleEndpoint = record e {
          addresses = addresses;
          started_at = t1 i;
          last_heartbeat = t2 i;
          metadata = m i;
        } in
        bind (check_endpoint x) λ _. ok x in
    read ∙ ground (arith, v.checked)

-- The endpoint under a key after a `put` is the one that was put, with all its fields, if the keys
-- have one storage key, and otherwise what stood there before. The condition is that the endpoint's
-- constructors accept it and its times are set. A `put` stores the dictionary that `as_dict` writes,
-- and a `get` reads it by `from_dict`.
pub get-put :
    (show : Entry → String) (clock : Clock) (e : RoleEndpoint) (k : RoleKey) (store : Store)
    → IsEndpoint e
    → get show clock k (put e store).1
      ≡ (if storage_key (key e) == storage_key k then ok e else get show clock k store)
unfolding get put
get-put show clock e k store v =
    ap (decoded show clock (storage_key k))
      (lookup-insert (storage_key k) (storage_key (key e)) (as_dict e) store)
    ∙ ground (arith, from_dict-as_dict show clock.now clock.later e v)

put-returns : (e : RoleEndpoint) (s : Store) → (put e s).0 ≡ ok e
unfolding put
put-returns e s = refl

-- The status after a heartbeat: the given one, or the old one if none or an empty one is given.
abbrev pub status_after : Option String → String → String
status_after none old = old
status_after (some status) old = if is_empty status then old else status

-- What a heartbeat makes of an endpoint: the status and the time change, and all else stays.
pub record IsBeating (old : RoleEndpoint) (status : Option String) (time : String)
    (e : RoleEndpoint) : Type 0 where
  pub same_key : key e ≡ key old
  pub same_protocol : e.protocol ≡ old.protocol
  pub same_addresses : e.addresses ≡ old.addresses
  pub same_epoch : e.epoch ≡ old.epoch
  pub same_region : e.region ≡ old.region
  pub same_start : e.started_at ≡ old.started_at
  pub same_metadata : e.metadata ≡ old.metadata
  pub beaten : e.last_heartbeat ≡ time
  pub marked : e.status ≡ status_after status old.status

beating : (time : String) (e : RoleEndpoint) (status : Option String) → RoleEndpoint
beating time e status = record e { status = status_or status e.status; last_heartbeat = time }

status_or-status_after :
    (status : Option String) (old : String) → status_or status old ≡ status_after status old
status_or-status_after none old = refl
status_or-status_after (some s) old = refl

beating-IsBeating :
    (time : String) (e : RoleEndpoint) (status : Option String)
    → IsBeating e status time (beating time e status)
unfolding beating
beating-IsBeating time e status = record {
  same_key = refl;
  same_protocol = refl;
  same_addresses = refl;
  same_epoch = refl;
  same_region = refl;
  same_start = refl;
  same_metadata = refl;
  beaten = refl;
  marked = status_or-status_after status e.status;
}

beating-IsEndpoint :
    (time : String) (e : RoleEndpoint) (status : Option String)
    → is_empty time ≡ false
    → IsEndpoint e
    → IsEndpoint (beating time e status)
unfolding beating check_endpoint
beating-IsEndpoint time e status n v = record {
  addressed = v.addressed;
  checked = v.checked;
  started = v.started;
  alive = n;
}

heartbeat_endpoint-beating :
    (time : String) (e : RoleEndpoint) (status : Option String)
    → IsEndpoint e
    → heartbeat_endpoint time e status ≡ ok (beating time e status)
unfolding heartbeat_endpoint beating check_endpoint
heartbeat_endpoint-beating time e status v = rw v.checked refl

heartbeat-beating :
    (show : Entry → String) (clock : Clock) (e : RoleEndpoint) (status : Option String)
    (store : Store)
    → IsEndpoint e
    → get show clock (key e) store ≡ ok e
    → heartbeat show clock (key e) status store ≡ put (beating clock.beat e status) store
unfolding heartbeat
heartbeat-beating show clock e status store v found =
    let next : RoleEndpoint → Exec Store RoleEndpoint =
      λ x. lift (heartbeat_endpoint clock.beat x status) >>= put in
    let first : heartbeat show clock (key e) status store ≡ next e store =
      ap (λ (r : Result RoleEndpoint). ((λ (_ : Store). (r, store)) >>= next) store) found in
    first
    ∙ ap (λ (r : Result RoleEndpoint). (lift r >>= put) store)
        (heartbeat_endpoint-beating clock.beat e status v)

-- What stood under a key before the two writes to one key.
overwritten :
    {A : Type 0} (i j k : String) (x y old now : A)
    → now ≡ (if i == k then x else old)
    → j ≡ i
    → (if j == k then y else now) ≡ (if i == k then y else old)
overwritten i j k x y old now h e =
    rw e (elim (Bool-cases (i == k)) [ inl p ↦ ground arith | inr p ↦ ground arith ])

-- Let an endpoint be put. A `heartbeat` for its key then returns an endpoint with the time of the
-- heartbeat and with the given status, or with the old status if none or an empty one is given; all
-- other fields are the old ones. A `get` finds this endpoint under every key with the same storage
-- key, and under every other key what stood there before. The conditions are that the constructors
-- accept the endpoint that was put, that its times are set and that `utc_now_iso()` is not empty.
pub heartbeat-put :
    (show : Entry → String) (clock clock' : Clock) (e : RoleEndpoint) (status : Option String)
    (k : RoleKey) (store : Store)
    → is_empty clock.beat ≡ false
    → IsEndpoint e
    → let beat = heartbeat show clock (key e) status (put e store).1 in
      (e' : RoleEndpoint) × (beat.0 ≡ ok e')
      × IsBeating e status clock.beat e'
      × (get show clock' k beat.1
          ≡ (if storage_key (key e) == storage_key k then ok e' else get show clock' k store))
heartbeat-put show clock clock' e status k store n v =
    let s = (put e store).1 in
    let found : get show clock (key e) s ≡ ok e =
      get-put show clock e (key e) store v ∙ ground arith in
    let e' = beating clock.beat e status in
    let beat = heartbeat-beating show clock e status s v found in
    let stored = get-put show clock' e' k s (beating-IsEndpoint clock.beat e status n v) in
    let before = get-put show clock' e k store v in
    let same = beating-IsBeating clock.beat e status in
    (
      e',
      ap (λ (p : Result RoleEndpoint × Store). p.0) beat ∙ put-returns e' s,
      same,
      ap (λ (p : Result RoleEndpoint × Store). get show clock' k p.1) beat
          ∙ stored
          ∙ overwritten (storage_key (key e)) (storage_key (key e')) (storage_key k) (ok e) (ok e')
              (get show clock' k store) (get show clock' k s) before (ap storage_key same.same_key),
    )
