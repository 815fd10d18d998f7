-- ===== src/Registry/Mapping.antt =====
-- `MappingRunRegistry` of src/ganker/distributed/registry.py over a dictionary: put, get, heartbeat.
use ganker.Base.{String, Option, some, none, ◌<>◌}
use ganker.Base.Result.{not_found, Result, ok, err, Exec, lift, ◌>>=◌}
use ganker.Base.Dict.{Dict, lookup, insert}
use ganker.Registry.{RoleKey, RoleEndpoint, key, storage_key, heartbeat_endpoint}
use ganker.Registry.Payload.{Entry, Payload, as_dict, from_dict}

abbrev pub Store : Type 0
Store = Dict Payload

-- What the calls of `utc_now_iso()` give: in `from_dict` for the start and for the heartbeat, and in
-- `heartbeat`.
pub record Clock : Type 0 where
  pub now : String
  pub later : String
  pub beat : String

-- The keys of an endpoint passed their guards in its constructor.
unfoldable pub put : RoleEndpoint → Exec Store RoleEndpoint
unfolding storage_key as_dict
put endpoint store = (ok endpoint, insert (storage_key (key endpoint)) (as_dict endpoint) store)

module _ (show : Entry → String) (clock : Clock) where
  abbrev pub decoded : String → Option Payload → Result RoleEndpoint
  decoded k none = err (not_found ("role endpoint not found: " <> k))
  decoded k (some payload) = from_dict show clock.now clock.later payload

  unfoldable pub get : RoleKey → Store → Result RoleEndpoint
  unfolding storage_key from_dict
  get k store = decoded (storage_key k) (lookup (storage_key k) store)

  unfoldable pub heartbeat : RoleKey → Option String → Exec Store RoleEndpoint
  unfolding get put heartbeat_endpoint
  heartbeat k status = do
    endpoint ← λ store. (get k store, store)
    beating ← lift (heartbeat_endpoint clock.beat endpoint status)
    put beating
