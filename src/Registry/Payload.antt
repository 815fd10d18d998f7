-- ===== src/Registry/Payload.antt =====
-- The dictionaries that stand for endpoints in a store: `as_dict` and `from_dict` of
-- src/ganker/distributed/registry.py
use ganker.Base.{
  String, Bool, true, false, Option, some, none, List, [], ◌∷◌, is_empty, if◌then◌else◌,
}
use ganker.Base.Int.{ℤ, pos}
use ganker.Base.Result.{key_error, type_error, other_error, Result, ok, err, bind}
use ganker.Base.Dict.{Dict, lookup, map_values}
use ganker.Base.File.{Json, int, str, JsonObject, get_item, to_str, to_int, truthy}
use ganker.Registry.{EndpointAddress, RoleEndpoint, check_address, check_endpoint}

-- A value of such a dictionary: a scalar, a list of dictionaries or a dictionary.
pub data Entry : Type 0 where
  one : Json → Entry
  dicts : List JsonObject → Entry
  dict : JsonObject → Entry

abbrev pub Payload : Type 0
Payload = Dict Entry

-- `EndpointAddress.as_dict`
unfoldable pub address_as_dict : EndpointAddress → JsonObject
address_as_dict a = ("family", str a.family) ∷ ("host", str a.host) ∷ ("port", int a.port) ∷ []

unfoldable pub addresses_as_dicts : List EndpointAddress → List JsonObject
unfolding address_as_dict
addresses_as_dicts [] = []
addresses_as_dicts (a ∷ rest) = address_as_dict a ∷ addresses_as_dicts rest

-- `RoleEndpoint.as_dict`
unfoldable pub as_dict : RoleEndpoint → Payload
unfolding addresses_as_dicts
as_dict e =
    ("deployment_id", one (str e.deployment_id))
    ∷ ("run_id", one (str e.run_id))
    ∷ ("role", one (str e.role))
    ∷ ("rank", one (int e.rank))
    ∷ ("protocol", one (str e.protocol))
    ∷ ("addresses", dicts (addresses_as_dicts e.addresses))
    ∷ ("status", one (str e.status))
    ∷ ("epoch", one (int e.epoch))
    ∷ ("region", one (str e.region))
    ∷ ("started_at", one (str e.started_at))
    ∷ ("last_heartbeat", one (str e.last_heartbeat))
    ∷ ("metadata", dict (map_values str e.metadata))
    ∷ []

abbrev int_or : ℤ → Option Json → Result ℤ
int_or default none = ok default
int_or default (some value) = to_int value

-- `EndpointAddress.from_dict`, with the guards of the constructor
unfoldable pub address_from_dict : JsonObject → Result EndpointAddress
unfolding check_address
address_from_dict payload = bind (get_item payload "family") λ family.
    bind (get_item payload "host") λ host. bind (int_or (pos 0) (lookup "port" payload)) λ port.
      let a : EndpointAddress = record {
        family = to_str family;
        host = to_str host;
        port = port;
      } in
      bind (check_address a) λ _. ok a

unfoldable pub addresses_from_dicts : List JsonObject → Result (List EndpointAddress)
unfolding address_from_dict
addresses_from_dicts [] = ok []
addresses_from_dicts (payload ∷ rest) =
    bind (address_from_dict payload)
      λ a. bind (addresses_from_dicts rest) λ addresses. ok (a ∷ addresses)

-- `for address in value`, which takes a text apart and fails on a number. What it yields of a text or
-- of a dictionary has no items.
abbrev addresses_of : Option Entry → Result (List EndpointAddress)
addresses_of none = ok []
addresses_of (some (dicts list)) = addresses_from_dicts list
addresses_of (some (dict [])) = ok []
addresses_of (some (dict (item ∷ items))) = err (type_error "string indices must be integers")
addresses_of (some (one (str s))) =
    if is_empty s then ok [] else err (type_error "string indices must be integers")
addresses_of (some (one value)) = err (type_error "object is not iterable")

abbrev metadata_of : Option Entry → Result (Dict String)
metadata_of none = ok []
metadata_of (some (dict items)) = ok (map_values to_str items)
metadata_of (some value) = err (other_error "object has no attribute 'items'")

abbrev entry : Payload → String → Result Entry
entry payload key = or_key_error (lookup key payload)
  where
    or_key_error : Option Entry → Result Entry
    or_key_error none = err (key_error key)
    or_key_error (some value) = ok value

abbrev entry_truthy : Entry → Bool
entry_truthy (one value) = truthy value
entry_truthy (dicts []) = false
entry_truthy (dicts (item ∷ items)) = true
entry_truthy (dict []) = false
entry_truthy (dict (item ∷ items)) = true

-- `int(value)`, and with a default
abbrev entry_int : Entry → Result ℤ
entry_int (one value) = to_int value
entry_int value = err (type_error "int() argument has no integer value")

abbrev entry_int_or : ℤ → Option Entry → Result ℤ
entry_int_or default none = ok default
entry_int_or default (some value) = entry_int value

-- `show` is what `str` gives for a list or a dictionary, `now` and `later` what the two calls of
-- `utc_now_iso()` give.
module _ (show : Entry → String) where
  abbrev entry_str : Entry → String
  entry_str (one value) = to_str value
  entry_str value = show value

  abbrev entry_str_or : String → Option Entry → String
  entry_str_or default none = default
  entry_str_or default (some value) = entry_str value

  -- `str(value or utc_now_iso())`
  abbrev pub time_or : String → Option Entry → String
  time_or now none = now
  time_or now (some value) = if entry_truthy value then entry_str value else now

  -- `RoleEndpoint.from_dict`, with the guards of the constructor
  unfoldable pub from_dict : String → String → Payload → Result RoleEndpoint
  unfolding addresses_from_dicts check_endpoint
  from_dict now later payload = bind (entry payload "deployment_id") λ deployment_id.
      bind (entry payload "run_id") λ run_id. bind (entry payload "role") λ role.
        bind (entry payload "rank") λ r. bind (entry_int r) λ rank.
          bind (entry payload "protocol") λ protocol.
            bind (addresses_of (lookup "addresses" payload)) λ addresses.
              bind (entry_int_or (pos 0) (lookup "epoch" payload)) λ epoch.
                bind (metadata_of (lookup "metadata" payload)) λ metadata.
                  let e : RoleEndpoint = record {
                    deployment_id = entry_str deployment_id;
                    run_id = entry_str run_id;
                    role = entry_str role;
                    rank = rank;
                    protocol = entry_str protocol;
                    addresses = addresses;
                    status = entry_str_or "starting" (lookup "status" payload);
                    epoch = epoch;
                    region = entry_str_or "" (lookup "region" payload);
                    started_at = time_or now (lookup "started_at" payload);
                    last_heartbeat = time_or later (lookup "last_heartbeat" payload);
                    metadata = metadata;
                  } in
                  bind (check_endpoint e) λ _. ok e
