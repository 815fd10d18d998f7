-- ===== src/Tests/Endpoints.antt =====
-- A trainer that is put into an empty registry.
use ganker.Base.{false, ◌≡◌, refl, [], ◌∷◌, some, string_dec, if◌then◌else◌, ◌==◌, is_empty, String}
use ganker.Base.Int.{pos}
use ganker.Base.Result.{Result, ok}
use ganker.Registry.{RoleEndpoint, key, storage_key, check_endpoint, check_address}
use ganker.Registry.Payload.{Entry}
use ganker.Registry.Mapping.{Store, Clock, put, get, heartbeat}
use ganker.Registry.Entries.{Addressed, IsEndpoint, IsBeating, get-put, heartbeat-put}

abbrev trainer : RoleEndpoint
trainer = record {
  deployment_id = "d";
  run_id = "r";
  role = "trainer";
  rank = pos 0;
  protocol = "tcp";
  addresses = (record { family = "ipv4"; host = "10.0.0.1"; port = pos 80 }) ∷ [];
  status = "starting";
  epoch = pos 0;
  region = "";
  started_at = "t0";
  last_heartbeat = "t0";
  metadata = [];
}

abbrev no_endpoints : Store
no_endpoints = []

abbrev show : Entry → String
show value = "[]"

abbrev clock : Clock
clock = record { now = "t1"; later = "t1"; beat = "t1" }

addressed : Addressed trainer.addresses
unfolding check_address string_dec
addressed = (refl, tt)

checked : check_endpoint trainer ≡ ok tt
unfolding check_endpoint string_dec
checked = refl

trainer-IsEndpoint : IsEndpoint trainer
unfolding string_dec
trainer-IsEndpoint = record {
  addressed = addressed;
  checked = checked;
  started = refl;
  alive = refl;
}

get-put_example : get show clock (key trainer) (put trainer no_endpoints).1 ≡ (
    if storage_key (key trainer) == storage_key (key trainer)
    then ok trainer
    else get show clock (key trainer) no_endpoints)
get-put_example = get-put show clock trainer (key trainer) no_endpoints trainer-IsEndpoint

abbrev beat : Result RoleEndpoint × Store
beat = heartbeat show clock (key trainer) (some "ready") (put trainer no_endpoints).1

timed : is_empty "t1" ≡ false
unfolding string_dec
timed = refl

heartbeat-put_example :
    (e : RoleEndpoint) × (beat.0 ≡ ok e)
    × IsBeating trainer (some "ready") "t1" e
    × (get show clock (key trainer) beat.1 ≡ (
        if storage_key (key trainer) == storage_key (key trainer)
        then ok e
        else get show clock (key trainer) no_endpoints))
heartbeat-put_example =
    heartbeat-put show clock clock trainer (some "ready") (key trainer) no_endpoints timed
      trainer-IsEndpoint
