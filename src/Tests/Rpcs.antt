-- ===== src/Tests/Rpcs.antt =====
-- A server in front of a mesh of the fake backends, and its clients.
use ganker.Base.{
  ◌^◌, String, ◌≡◌, refl, List, [], ◌∷◌, some, none, string_dec, arith, ltb, if◌then◌else◌, ◌⊎◌,
}
use ganker.Base.Int.{ℤ, pos, negsuc}
use ganker.Base.Result.{
  value_error, Result, ok, err, unauthenticated, internal, grpc_transport_error,
}
use ganker.Base.Dict.{lookup, insert}
use ganker.Base.File.{raw}
use ganker.Contracts.{
  lora, delta, payload, WeightArtifact, DownloadArtifactFileRequest, DownloadArtifactFileResponse,
}
use ganker.Backends.Fake.Training.{fake_training, new_run}
use ganker.Backends.Fake.Inference.{fake_inference}
use ganker.Actors.Calls.{Call, step_call}
use ganker.Transport.Proxies.{ProxyTransport, Served, monarch_proxy_transport, perform}
use ganker.Rpc.Protobuf.{Protobuf, FitsInt64}
use ganker.Rpc.Server.{Host, GankerProxyServicer}
use ganker.Rpc.Client.{connect_metadata}
use ganker.Rpc.Refinement.{ArrivesCall, Relays, connected, grpc_refines}
use ganker.Rpc.Refusal.{wrong_token_refused}
use ganker.Rpc.Downloads.{IsUnder, download_artifact_file_confined}
use ganker.Rpc.Errors.{map_wrapped_exception}
use ganker.Rpc.Wrapped.{Wrapped, Occurs, wrapped_status, wrapped_exception_status}
use ganker.Tests.Data.{whole, adam, context}

-- An int64 field that refuses what it cannot hold, and maps that keep their order.
abbrev int64 : ℤ → Result ℤ
int64 (pos n) = if ltb n (2 ^ 63) then ok (pos n) else err (value_error "Value out of range")
int64 (negsuc n) = if ltb n (2 ^ 63) then ok (negsuc n) else err (value_error "Value out of range")

int64_keeps : (n : ℤ) → FitsInt64 n → int64 n ≡ ok n
int64_keeps (pos n) h = ground arith
int64_keeps (negsuc n) h = ground arith

abbrev protobuf : Protobuf
protobuf = record {
  int64 = int64;
  items = λ V d. d;
  int64_keeps = int64_keeps;
  lookup-items = λ V k d. refl;
}

abbrev Live : Type 0
Live = Served (fake_training whole "/w") (fake_inference whole "/w")

abbrev live : Live
live = record {
  mesh = record {
    training = record {
      run_counter = 2;
      runs = ("run-000001", new_run "run-000001" "m" lora (pos 8)) ∷ [];
    };
    rollout = [];
    telemetry = [];
    files = ("/w/p", raw (1 ∷ 2 ∷ [])) ∷ ("/etc/p", raw []) ∷ [];
  };
  calls = 0;
}

abbrev transport : ProxyTransport ℤ Live
transport =
    monarch_proxy_transport (fake_training whole "/w") (fake_inference whole "/w")
      (λ n. record { of_call = "u"; of_record = "v" }) (λ e. e)

abbrev host : Host Live
host = record {
  invocation_metadata = λ m. m;
  authorization_kept = λ m. refl;
  files = λ s. s.mesh.files;
  resolve_strict = λ path fs. elim (lookup path fs) [ none ↦ none | some c ↦ some path ];
  resolve = λ path fs. path;
  fresh = λ s. "w";
  text = λ e. "";
}

abbrev server : GankerProxyServicer ℤ Live
server = record {
  transport = transport;
  artifact_root = "/w";
  bearer_token = some "secret";
  host = host;
}

abbrev step : Call ℤ
step = step_call (record { context = context; run_id = "run-000001"; optimizer = adam })

grpc_refines_example :
    (d : Call ℤ) × ArrivesCall protobuf whole step d
    × ((s : Live) → Relays protobuf whole server (connect_metadata (some "secret")) step d s)
grpc_refines_example = grpc_refines protobuf whole server step tt

abbrev artifact : WeightArtifact
artifact = record {
  run_id = "run-000001";
  checkpoint_version = pos 1;
  kind = delta;
  manifest_path = "/etc/p";
  payload_path = "/w/p";
}

abbrev download : DownloadArtifactFileRequest
download = record { context = context; artifact = artifact; file_kind = payload }

wrong_token_refused_example :
    let seen = connected protobuf whole server (connect_metadata (some "guess")) in
    let refusal = grpc_transport_error unauthenticated "invalid bearer token" in
    (perform seen step live ≡ (err refusal, live))
    × (seen.download_artifact_file download live ≡ (err refusal, live))
wrong_token_refused_example =
    wrong_token_refused protobuf whole server "secret" (some "guess") step download live refl
      (unfold string_dec in refl) (λ h. cc) tt ((tt, omega arith), tt)

abbrev downloaded : DownloadArtifactFileResponse
downloaded = record {
  request_id = "r-1";
  artifact = artifact;
  file_kind = payload;
  path = "/w/p";
  contents = raw (1 ∷ 2 ∷ []);
}

abbrev secret : List (String × String)
secret = ("authorization", "Bearer secret") ∷ []

downloads :
    ((connected protobuf whole server secret).download_artifact_file download live).0
    ≡ ok downloaded
unfolding ganker.Rpc.Client.grpc_proxy_transport ganker.Rpc.Client.call
    ganker.Rpc.Server.servicer_methods ganker.Rpc.Server.handle ganker.Rpc.Server.check_auth
    ganker.Rpc.Server.download_artifact_file ganker.Rpc.Server.is_relative_to
    ganker.Rpc.Errors.strip_prefix ganker.Telemetry.request_id_from ganker.Transport.file_path
    ganker.Rpc.Requests.download_artifact_file_request_to_proto
    ganker.Rpc.Requests.download_artifact_file_request_from_proto
    ganker.Rpc.Responses.download_artifact_file_response_to_proto
    ganker.Rpc.Responses.download_artifact_file_response_from_proto
    ganker.Rpc.Values.weight_artifact_to_proto ganker.Rpc.Values.weight_artifact_from_proto
    ganker.Rpc.Values.artifact_kind_to_proto ganker.Rpc.Values.artifact_kind_from_proto
    ganker.Rpc.Values.artifact_file_kind_to_proto ganker.Rpc.Values.artifact_file_kind_from_proto
    string_dec lookup insert
downloads = refl

download_artifact_file_confined_example :
    IsUnder "/w/p" "/w" × (lookup "/w/p" live.mesh.files ≡ some (raw (1 ∷ 2 ∷ [])))
download_artifact_file_confined_example =
    download_artifact_file_confined protobuf whole server secret download live downloaded downloads

abbrev actor_error : String
actor_error = "ActorError(InvalidRequestError('run_id is required'))"

wrapped_exception_status_example :
    ((k : Wrapped) × (message : String) × Occurs actor_error k message
      × (map_wrapped_exception actor_error ≡ (wrapped_status k, message)))
    ⊎ (((k : Wrapped) (message : String) → Occurs actor_error k message → ⊥)
        × (map_wrapped_exception actor_error ≡ (internal, "unexpected server error")))
wrapped_exception_status_example = wrapped_exception_status actor_error

-- A message with a single quote is lost, since `repr` then writes double quotes.
quote_lost :
    map_wrapped_exception "ActorError(NotFoundError(\"unknown run 'a'\"))"
    ≡ (internal, "unexpected server error")
unfolding map_wrapped_exception
quote_lost = refl

message_kept :
    map_wrapped_exception actor_error ≡ (wrapped_status Wrapped.invalid, "run_id is required")
unfolding map_wrapped_exception string_dec
message_kept = refl
