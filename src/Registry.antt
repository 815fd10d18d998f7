-- ===== src/Registry.antt =====
-- The registry of the endpoints of distributed roles.
-- src/ganker/distributed/registry.py
pub mod Payload
pub mod Mapping
pub mod Entries
use ganker.Base.{
  String, ◌<>◌, Bool, true, false, not, ◌&&◌, ◌||◌, Option, some, none, List, [], ◌∷◌, ◌==◌,
  is_empty, if◌then◌else◌, is_nil,
}
use Prim.Native.Char.{code}
use ganker.Base.{eqb}
use ganker.Base.Int.{ℤ, is_neg}
use ganker.Base.Text.{show_ℤ}
use ganker.Base.Result.{
  Error, invalid_request, not_found, Result, ok, err, bind, fmap, unless, Exec, lift, pure, modify,
  ◌>>=◌, ◌>>◌,
}
use ganker.Base.Dict.{Dict, lookup, insert}

pub record RoleKey : Type 0 where
  pub deployment_id : String
  pub run_id : String
  pub role : String
  pub rank : ℤ

-- `RoleKey.__post_init__`
unfoldable pub check_key : RoleKey → Result (Unit {0})
check_key k = unless (is_empty k.deployment_id) (invalid_request "deployment_id is required") (
    unless (is_empty k.run_id) (invalid_request "run_id is required") (
      unless (is_empty k.role) (invalid_request "role is required")
        (unless (is_neg k.rank) (invalid_request "rank must be non-negative") (ok tt))))

unfoldable pub storage_key : RoleKey → String
storage_key k =
    "ganker:"
    <> (k.deployment_id <> (":" <> (k.run_id <> (":" <> (k.role <> (":" <> show_ℤ k.rank))))))

pub record EndpointAddress : Type 0 where
  pub family : String
  pub host : String
  pub port : ℤ

-- `EndpointAddress.__post_init__`
unfoldable pub check_address : EndpointAddress → Result (Unit {0})
check_address a =
    unless
      (not
        (a.family == "ipv4" || (a.family == "ipv6" || (a.family == "ipc" || a.family == "inproc"))))
      (invalid_request ("unsupported address family: " <> a.family))
      (unless (is_empty a.host) (invalid_request "address host is required")
        (unless (is_neg a.port) (invalid_request "address port must be non-negative") (ok tt)))

-- `s.startswith("[")`
abbrev pub starts_with_bracket : String → Bool
starts_with_bracket String.[] = false
starts_with_bracket (String.◌∷◌ c s) = eqb (code c) 91

unfoldable pub host_for_uri : EndpointAddress → String
host_for_uri a =
    if a.family == "ipv6" && not (starts_with_bracket a.host)
    then "[" <> (a.host <> "]")
    else a.host

unfoldable pub address_target : EndpointAddress → String → String
unfolding host_for_uri
address_target a protocol =
    if a.family == "ipc" || a.family == "inproc"
    then a.family <> ("://" <> a.host)
    else protocol <> ("://" <> (host_for_uri a <> (":" <> show_ℤ a.port)))

pub record RoleEndpoint : Type 0 where
  pub deployment_id : String
  pub run_id : String
  pub role : String
  pub rank : ℤ
  pub protocol : String
  pub addresses : List EndpointAddress
  pub status : String
  pub epoch : ℤ
  pub region : String
  pub started_at : String
  pub last_heartbeat : String
  pub metadata : Dict String

abbrev pub key : RoleEndpoint → RoleKey
key e = record { deployment_id = e.deployment_id; run_id = e.run_id; role = e.role; rank = e.rank }

-- `RoleEndpoint.__post_init__`
unfoldable pub check_endpoint : RoleEndpoint → Result (Unit {0})
unfolding check_key
check_endpoint e = bind (check_key (key e)) λ _.
    unless (is_empty e.protocol) (invalid_request "endpoint protocol is required") (
      unless (is_nil e.addresses) (invalid_request "endpoint requires at least one address")
        (unless (is_neg e.epoch) (invalid_request "endpoint epoch must be non-negative") (ok tt)))

abbrev pub or_text : String → String → String
or_text s d = if is_empty s then d else s

-- The first address of a family.
unfoldable pub find_family : String → List EndpointAddress → Option EndpointAddress
find_family family [] = none
find_family family (a ∷ rest) = if a.family == family then some a else find_family family rest

abbrev pub found_or : Option EndpointAddress → Error → Result EndpointAddress
found_or none e = err e
found_or (some a) e = ok a

-- An endpoint that passed its guard has a first address, so the last case does not arise.
unfoldable pub preferred_address : RoleEndpoint → Option String → Result EndpointAddress
unfolding find_family
preferred_address e (some family) = found_or (find_family family e.addresses) (
    not_found (
      e.role
      <> (":" <> (show_ℤ e.rank <> (" has no " <> (family <> (" address in " <> e.region)))))))
preferred_address e none = elim e.addresses [
  | [] ↦ err (invalid_request "endpoint requires at least one address")
  | a ∷ rest ↦ ok a
]

unfoldable pub target : RoleEndpoint → Option String → Result String
unfolding preferred_address address_target
target e family = fmap (λ a. address_target a e.protocol) (preferred_address e family)

-- `status or self.status`
abbrev pub status_or : Option String → String → String
status_or none old = old
status_or (some status) old = or_text status old

-- `RoleEndpoint.heartbeat`, whose constructor checks its guards again. `now` is what `utc_now_iso()`
-- gives.
unfoldable pub heartbeat_endpoint : String → RoleEndpoint → Option String → Result RoleEndpoint
unfolding check_endpoint
heartbeat_endpoint now e status =
    let beating = record e { status = status_or status e.status; last_heartbeat = now } in
    bind (check_endpoint beating) λ _. ok beating
