-- ===== src/Rpc/Client.antt =====
-- The client's transport over the stub of the service.
-- src/ganker/rpc/client.py
use ganker.Base.{String, ◌<>◌, Option, some, none, List, [], ◌∷◌, if◌then◌else◌, is_empty}
use ganker.Base.Result.{Result, ok, err, Exec, lift, ◌>>=◌}
use ganker.Base.Float.{Float}
use ganker.Transport.Proxies.{ProxyTransport}
use ganker.Rpc.Protobuf.{Protobuf}
use ganker.Rpc.Errors.{Outcome, replied, aborted, map_rpc_error}
use ganker.Rpc.Server.{Stub}
use ganker.Rpc.Requests.{
  create_training_run_request_to_proto, forward_backward_request_to_proto,
  optim_step_request_to_proto, save_weights_request_to_proto, refresh_weights_request_to_proto,
  sample_request_to_proto, get_telemetry_summary_request_to_proto,
  download_artifact_file_request_to_proto,
}
use ganker.Rpc.Responses.{
  create_training_run_response_from_proto, forward_backward_response_from_proto,
  optim_step_response_from_proto, save_weights_response_from_proto,
  refresh_weights_response_from_proto, sample_response_from_proto,
  get_telemetry_summary_response_from_proto, download_artifact_file_response_from_proto,
}

-- The metadata that `connect` gives the transport.
unfoldable pub connect_metadata : Option String → List (String × String)
connect_metadata none = []
connect_metadata (some token) =
    if is_empty token then [] else ("authorization", "Bearer " <> token) ∷ []

abbrev pub result_of : {A : Type 0} → Outcome A → Result A
result_of (replied a) = ok a
result_of (aborted c details) = err (map_rpc_error c details)

-- `_call`. The timeout of a call is a status that the stub may give.
unfoldable pub call :
    {S Q A : Type 0}
    → List (String × String)
    → (Q → List (String × String) → S → Outcome A × S)
    → Q
    → Exec S A
call metadata method request s =
    let (outcome, s') = method request metadata s in (result_of outcome, s')

module _ (P : Protobuf) (F : Float) {S : Type 0} (stub : Stub F.Real S)
    (metadata : List (String × String)) where
  unfoldable pub grpc_proxy_transport : ProxyTransport F.Real S
  grpc_proxy_transport = record {
    create_training_run = λ request. do
      message ← lift (create_training_run_request_to_proto P request)
      response ← call metadata stub.create_training_run message
      lift (create_training_run_response_from_proto response);
    forward_backward = λ request. do
      message ← lift (forward_backward_request_to_proto P F request)
      response ← call metadata stub.forward_backward message
      lift (ok (forward_backward_response_from_proto P F response));
    optim_step = λ request. do
      response ← call metadata stub.optim_step (optim_step_request_to_proto P F request)
      lift (ok (optim_step_response_from_proto response));
    save_weights = λ request. do
      message ← lift (save_weights_request_to_proto request)
      response ← call metadata stub.save_weights message
      lift (save_weights_response_from_proto response);
    refresh_weights = λ request. do
      message ← lift (refresh_weights_request_to_proto P request)
      response ← call metadata stub.refresh_weights message
      lift (refresh_weights_response_from_proto response);
    sample = λ request. do
      message ← lift (sample_request_to_proto P F request)
      response ← call metadata stub.sample message
      lift (sample_response_from_proto P F response);
    get_telemetry_summary = λ request. do
      response ←
          call metadata stub.get_telemetry_summary (get_telemetry_summary_request_to_proto request)
      lift (ok (get_telemetry_summary_response_from_proto response));
    download_artifact_file = λ request. do
      message ← lift (download_artifact_file_request_to_proto P request)
      response ← call metadata stub.download_artifact_file message
      lift (download_artifact_file_response_from_proto response);
  }
