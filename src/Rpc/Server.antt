-- ===== src/Rpc/Server.antt =====
-- The servicer in front of a transport.
-- src/ganker/rpc/server.py
use ganker.Base.{
  String, ◌<>◌, ◌≡◌, Option, some, none, Bool, true, false, ◌||◌, List, [], ◌∷◌, if◌then◌else◌,
  ◌==◌, is_empty, not,
}
use ganker.Base.Result.{
  unauthenticated, Error, invalid_request, not_found, other_error, Result, ok, err, Exec, lift,
  unless, bind, ◌>>=◌,
}
use ganker.Base.Dict.{Dict, lookup, insert, is_some}
use ganker.Base.File.{FileSystem}
use ganker.Base.Float.{Float}
use ganker.Contracts.{DownloadArtifactFileRequest, DownloadArtifactFileResponse}
use ganker.Transport.{file_path, contents_or}
use ganker.Transport.Proxies.{ProxyTransport}
use ganker.Telemetry.{request_id_from}
use ganker.Rpc.Wire
use ganker.Rpc.Protobuf.{Protobuf}
use ganker.Rpc.Errors.{Outcome, replied, aborted, strip_prefix, map_exception}
use ganker.Rpc.Requests.{
  create_training_run_request_from_proto, forward_backward_request_from_proto,
  optim_step_request_from_proto, save_weights_request_from_proto,
  refresh_weights_request_from_proto, sample_request_from_proto,
  get_telemetry_summary_request_from_proto, download_artifact_file_request_from_proto,
}
use ganker.Rpc.Responses.{
  create_training_run_response_to_proto, forward_backward_response_to_proto,
  optim_step_response_to_proto, save_weights_response_to_proto, refresh_weights_response_to_proto,
  sample_response_to_proto, get_telemetry_summary_response_to_proto,
  download_artifact_file_response_to_proto,
}

-- `dict(pairs)`: the last of two equal keys counts.
abbrev pub dict_of_from {ℓ} : {V : Type ℓ} → Dict V → List (String × V) → Dict V
dict_of_from d [] = d
dict_of_from d ((k, v) ∷ pairs) = dict_of_from (insert k v d) pairs

abbrev pub dict_of {ℓ} : {V : Type ℓ} → List (String × V) → Dict V
dict_of pairs = dict_of_from [] pairs

-- What the server's machine and gRPC provide: the files, the resolution of paths (`none` where
-- `resolve(strict=True)` finds no file), a fresh id, the text f"{exc!r}\n{exc}" of an exception, and
-- the metadata of a call, to which gRPC adds its own entries.
pub record Host (S : Type 0) : Type 0 where
  pub invocation_metadata : List (String × String) → List (String × String)
  pub authorization_kept :
      (metadata : List (String × String))
      → lookup "authorization" (dict_of (invocation_metadata metadata))
        ≡ lookup "authorization" (dict_of metadata)
  pub files : S → FileSystem
  pub resolve_strict : String → FileSystem → Option String
  pub resolve : String → FileSystem → String
  pub fresh : S → String
  pub text : Error → String

pub record GankerProxyServicer (R S : Type 0) : Type 0 where
  pub transport : ProxyTransport R S
  pub artifact_root : String
  pub bearer_token : Option String
  pub host : Host S

abbrev pub equals : String → Option String → Bool
equals s none = false
equals s (some t) = t == s

-- Whether `_check_auth` returns.
unfoldable pub check_auth : Option String → List (String × String) → Bool
check_auth none metadata = true
check_auth (some token) metadata =
    is_empty token || equals ("Bearer " <> token) (lookup "authorization" (dict_of metadata))

-- `path.is_relative_to(root)` for resolved paths
unfoldable pub is_relative_to : String → String → Bool
unfolding strip_prefix
is_relative_to path root =
    root == "/" || (path == root || is_some (strip_prefix (root <> "/") path))

abbrev pub status_of : {A : Type 0} → (Error → String) → Result A → Outcome A
status_of text (ok a) = replied a
status_of text (err e) = let (c, message) = map_exception text e in aborted c (some message)

abbrev pub or_missing : Option String → Error → Result String
or_missing none e = err e
or_missing (some path) e = ok path

module _ {R S : Type 0} (self : GankerProxyServicer R S) where
  -- An RPC: the metadata of the call, the state, and how it ends.
  unfoldable pub handle : {A : Type 0} → Exec S A → List (String × String) → S → Outcome A × S
  handle fn metadata s =
      let (r, s') = fn s in
      if check_auth self.bearer_token (self.host.invocation_metadata metadata)
      then (status_of self.host.text r, s')
      else (aborted unauthenticated (some "invalid bearer token"), s)

  unfoldable pub download_artifact_file :
      DownloadArtifactFileRequest → Exec S DownloadArtifactFileResponse
  unfolding file_path is_relative_to
  download_artifact_file request s =
      let fs = self.host.files s in
      let resolved_root = self.host.resolve self.artifact_root fs in
      let contents = λ (path : String). contents_or (lookup path fs) (other_error path) in
      let response = bind (file_path request.artifact request.file_kind) λ path.
        bind
          (or_missing (self.host.resolve_strict path fs)
            (not_found ("artifact file is missing: " <> path)))
          λ resolved_path.
            unless (not (is_relative_to resolved_path resolved_root))
              (invalid_request "artifact path is outside the configured artifact root")
              (bind (contents resolved_path) λ c. ok (record {
                request_id = request_id_from (self.host.fresh s) request.context.request_id;
                artifact = request.artifact;
                file_kind = request.file_kind;
                path = resolved_path;
                contents = c;
              })) in
      (response, s)

-- The methods of the service, as a client's stub calls them: with the metadata.
pub record Stub (R S : Type 0) : Type 0 where
  pub create_training_run :
      Wire.CreateTrainingRunRequest
      → List (String × String)
      → S
      → Outcome Wire.CreateTrainingRunResponse × S
  pub forward_backward :
      Wire.ForwardBackwardRequest R
      → List (String × String)
      → S
      → Outcome (Wire.ForwardBackwardResponse R) × S
  pub optim_step :
      Wire.OptimStepRequest R → List (String × String) → S → Outcome Wire.OptimStepResponse × S
  pub save_weights :
      Wire.SaveWeightsRequest → List (String × String) → S → Outcome Wire.SaveWeightsResponse × S
  pub refresh_weights :
      Wire.RefreshWeightsRequest
      → List (String × String)
      → S
      → Outcome Wire.RefreshWeightsResponse × S
  pub sample :
      Wire.SampleRequest R → List (String × String) → S → Outcome (Wire.SampleResponse R) × S
  pub get_telemetry_summary :
      Wire.GetTelemetrySummaryRequest
      → List (String × String)
      → S
      → Outcome Wire.GetTelemetrySummaryResponse × S
  pub download_artifact_file :
      Wire.DownloadArtifactFileRequest
      → List (String × String)
      → S
      → Outcome Wire.DownloadArtifactFileResponse × S

module _ (P : Protobuf) (F : Float) {S : Type 0} (self : GankerProxyServicer F.Real S) where
  unfoldable pub servicer_methods : Stub F.Real S
  servicer_methods = record {
    create_training_run = λ request. handle self do
      r ← lift (create_training_run_request_from_proto request)
      response ← self.transport.create_training_run r
      lift (create_training_run_response_to_proto P response);
    forward_backward = λ request. handle self do
      response ← self.transport.forward_backward (forward_backward_request_from_proto P F request)
      lift (forward_backward_response_to_proto P F response);
    optim_step = λ request. handle self do
      response ← self.transport.optim_step (optim_step_request_from_proto P F request)
      lift (optim_step_response_to_proto P response);
    save_weights = λ request. handle self do
      r ← lift (save_weights_request_from_proto request)
      response ← self.transport.save_weights r
      lift (save_weights_response_to_proto P response);
    refresh_weights = λ request. handle self do
      r ← lift (refresh_weights_request_from_proto request)
      response ← self.transport.refresh_weights r
      lift (refresh_weights_response_to_proto P response);
    sample = λ request. handle self do
      response ← self.transport.sample (sample_request_from_proto P F request)
      lift (sample_response_to_proto P F response);
    get_telemetry_summary = λ request. handle self do
      response ←
          self.transport.get_telemetry_summary (get_telemetry_summary_request_from_proto request)
      lift (get_telemetry_summary_response_to_proto P response);
    download_artifact_file = λ request. handle self do
      r ← lift (download_artifact_file_request_from_proto request)
      response ← download_artifact_file self r
      lift (download_artifact_file_response_to_proto P response);
  }
