-- ===== src/Rpc/Refusal.antt =====
-- A client with the wrong bearer token.
-- src/ganker/rpc/server.py
use ganker.Base.{◌≢◌, some, false, is_empty, String, ◌≡◌, Option, List}
use ganker.Base.Result.{grpc_transport_error, unauthenticated, ok, err}
use ganker.Base.Float.{Float}
use ganker.Actors.Calls.{
  Call, create_call, forward_call, step_call, save_call, refresh_call, sample_call, summary_call,
  create_reply, forward_reply, step_reply, save_reply, refresh_reply, sample_reply, summary_reply,
}
use ganker.Transport.Proxies.{perform}
use ganker.Rpc.Protobuf.{Protobuf}
use ganker.Contracts.{DownloadArtifactFileRequest}
use ganker.Rpc.Server
use ganker.Rpc.Server.{GankerProxyServicer, check_auth, servicer_methods}
use ganker.Rpc.Client.{connect_metadata, grpc_proxy_transport}
use ganker.Rpc.Auth.{check_auth-other}
use ganker.Rpc.Requests.{
  create_training_run_request_to_proto, create_training_run_request_from_proto,
  forward_backward_request_to_proto, forward_backward_request_from_proto,
  optim_step_request_to_proto, optim_step_request_from_proto, save_weights_request_to_proto,
  save_weights_request_from_proto, refresh_weights_request_to_proto,
  refresh_weights_request_from_proto, sample_request_to_proto, sample_request_from_proto,
  get_telemetry_summary_request_to_proto, get_telemetry_summary_request_from_proto,
  download_artifact_file_request_to_proto, download_artifact_file_request_from_proto,
}
use ganker.Rpc.Responses.{
  create_training_run_response_to_proto, create_training_run_response_from_proto,
  forward_backward_response_to_proto, forward_backward_response_from_proto,
  optim_step_response_to_proto, optim_step_response_from_proto, save_weights_response_to_proto,
  save_weights_response_from_proto, refresh_weights_response_to_proto,
  refresh_weights_response_from_proto, sample_response_to_proto, sample_response_from_proto,
  get_telemetry_summary_response_to_proto, get_telemetry_summary_response_from_proto,
  download_artifact_file_response_to_proto, download_artifact_file_response_from_proto,
}
use ganker.Rpc.Relay.{remote_refused, replied_refused}
use ganker.Rpc.RoundTrip.Values.{Same}
use ganker.Rpc.RoundTrip.Requests.{
  SameForward, sample_arrived, create_request_carried, forward_request_carried,
  step_request_carried, save_request_carried, refresh_request_carried, sample_request_carried,
  summary_request_carried, download_request_carried, FitsDownload,
}
use ganker.Rpc.Refinement.{FitsCall, connected}

module _ (P : Protobuf) (F : Float) {S : Type 0} (self : GankerProxyServicer F.Real S)
    (metadata : List (String × String)) where
  module _
      (refused : check_auth self.bearer_token (self.host.invocation_metadata metadata)
        ≡ false) where
    refuses :
        (c : Call F.Real) (s : S)
        → FitsCall P F c
        → perform (connected P F self metadata) c s
          ≡ (err (grpc_transport_error unauthenticated "invalid bearer token"), s)
    unfolding perform grpc_proxy_transport servicer_methods
    refuses (create_call q) s h =
        replied_refused self metadata (create_training_run_request_to_proto P)
          create_training_run_request_from_proto self.transport.create_training_run
          (create_training_run_response_to_proto P) create_training_run_response_from_proto
          create_reply q (Same q) s refused (create_request_carried P q h)
    refuses (forward_call q) s h =
        replied_refused self metadata (forward_backward_request_to_proto P F)
          (λ m. ok (forward_backward_request_from_proto P F m)) self.transport.forward_backward
          (forward_backward_response_to_proto P F)
          (λ m. ok (forward_backward_response_from_proto P F m)) forward_reply q (SameForward P F q)
          s refused (forward_request_carried P F q h)
    refuses (step_call q) s h =
        replied_refused self metadata (λ r. ok (optim_step_request_to_proto P F r))
          (λ m. ok (optim_step_request_from_proto P F m)) self.transport.optim_step
          (optim_step_response_to_proto P) (λ m. ok (optim_step_response_from_proto m)) step_reply q
          (Same q) s refused (step_request_carried P F q)
    refuses (save_call q) s h =
        replied_refused self metadata save_weights_request_to_proto save_weights_request_from_proto
          self.transport.save_weights (save_weights_response_to_proto P)
          save_weights_response_from_proto save_reply q (Same q) s refused
          (save_request_carried P q h)
    refuses (refresh_call q) s h =
        replied_refused self metadata (refresh_weights_request_to_proto P)
          refresh_weights_request_from_proto self.transport.refresh_weights
          (refresh_weights_response_to_proto P) refresh_weights_response_from_proto refresh_reply q
          (Same q) s refused (refresh_request_carried P q h)
    refuses (sample_call q) s h =
        replied_refused self metadata (sample_request_to_proto P F)
          (λ m. ok (sample_request_from_proto P F m)) self.transport.sample
          (sample_response_to_proto P F) (sample_response_from_proto P F) sample_reply q
          (λ r. r ≡ sample_arrived P F q) s refused (sample_request_carried P F q h)
    refuses (summary_call q) s h =
        replied_refused self metadata (λ r. ok (get_telemetry_summary_request_to_proto r))
          (λ m. ok (get_telemetry_summary_request_from_proto m))
          self.transport.get_telemetry_summary (get_telemetry_summary_response_to_proto P)
          (λ m. ok (get_telemetry_summary_response_from_proto m)) summary_reply q (Same q) s refused
          (summary_request_carried P q)

    refuses_download :
        (q : DownloadArtifactFileRequest) (s : S)
        → FitsDownload q
        → (connected P F self metadata).download_artifact_file q s
          ≡ (err (grpc_transport_error unauthenticated "invalid bearer token"), s)
    unfolding grpc_proxy_transport servicer_methods
    refuses_download q s h =
        remote_refused self metadata (download_artifact_file_request_to_proto P)
          download_artifact_file_request_from_proto (Server.download_artifact_file self)
          (download_artifact_file_response_to_proto P) download_artifact_file_response_from_proto q
          (Same q) s refused (download_request_carried P q h)

-- If the server has a bearer token, then each of the eight calls of a client with another token or
-- with none, which fits the wire, raises "invalid bearer token" and changes nothing behind the
-- server: the seven that the transport behind the server answers, and the download of a file.
pub wrong_token_refused :
    (P : Protobuf) (F : Float) {S : Type 0} (self : GankerProxyServicer F.Real S) (token : String)
    (client : Option String) (c : Call F.Real) (q : DownloadArtifactFileRequest) (s : S)
    → self.bearer_token ≡ some token
    → is_empty token ≡ false
    → client ≢ some token
    → FitsCall P F c
    → FitsDownload q
    → let seen = connected P F self (connect_metadata client) in
      let refusal = grpc_transport_error unauthenticated "invalid bearer token" in
      (perform seen c s ≡ (err refusal, s)) × (seen.download_artifact_file q s ≡ (err refusal, s))
wrong_token_refused P F self token client c q s e h other fits fits' =
    let seen = self.host.invocation_metadata (connect_metadata client) in
    let refused : check_auth self.bearer_token seen ≡ false =
      rw e (check_auth-other self.host token client h other) in
    (
      refuses P F self (connect_metadata client) refused c s fits,
      refuses_download P F self (connect_metadata client) refused q s fits',
    )
