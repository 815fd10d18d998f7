-- ===== src/Transport/Proxies.antt =====
-- The `ProxyTransport` protocol that clients call, and the transport in front of a local mesh.
-- src/ganker/transport.py
use ganker.Base.{ℕ, ◌+◌}
use ganker.Base.Result.{Error, Exec, map_error}
use ganker.Contracts.{
  CreateTrainingRunRequest, CreateTrainingRunResponse, ForwardBackwardRequest,
  ForwardBackwardResponse, OptimStepRequest, OptimStepResponse, SaveWeightsRequest,
  SaveWeightsResponse, RefreshWeightsRequest, RefreshWeightsResponse, SampleRequest, SampleResponse,
  GetTelemetrySummaryRequest, GetTelemetrySummaryResponse, DownloadArtifactFileRequest,
  DownloadArtifactFileResponse,
}
use ganker.Backends.{TrainingBackend, InferenceBackend}
use ganker.Actors.{Mesh, Uuids}
use ganker.Actors.Proxy
use ganker.Actors.Calls.{
  Call, create_call, forward_call, step_call, save_call, refresh_call, sample_call, summary_call,
  Reply, create_reply, forward_reply, step_reply, save_reply, refresh_reply, sample_reply,
  summary_reply, replied,
}
use ganker.Transport.{download_artifact_file}

-- `S` is the state of all that the calls reach.
pub record ProxyTransport (R S : Type 0) : Type 0 where
  pub create_training_run : CreateTrainingRunRequest → Exec S CreateTrainingRunResponse
  pub forward_backward : ForwardBackwardRequest R → Exec S (ForwardBackwardResponse R)
  pub optim_step : OptimStepRequest R → Exec S OptimStepResponse
  pub save_weights : SaveWeightsRequest → Exec S SaveWeightsResponse
  pub refresh_weights : RefreshWeightsRequest → Exec S RefreshWeightsResponse
  pub sample : SampleRequest R → Exec S (SampleResponse R)
  pub get_telemetry_summary : GetTelemetrySummaryRequest → Exec S GetTelemetrySummaryResponse
  pub download_artifact_file : DownloadArtifactFileRequest → Exec S DownloadArtifactFileResponse

-- A call of a transport by its method.
unfoldable pub perform : {R S : Type 0} → ProxyTransport R S → Call R → Exec S (Reply R)
perform T (create_call request) = replied create_reply (T.create_training_run request)
perform T (forward_call request) = replied forward_reply (T.forward_backward request)
perform T (step_call request) = replied step_reply (T.optim_step request)
perform T (save_call request) = replied save_reply (T.save_weights request)
perform T (refresh_call request) = replied refresh_reply (T.refresh_weights request)
perform T (sample_call request) = replied sample_reply (T.sample request)
perform T (summary_call request) = replied summary_reply (T.get_telemetry_summary request)

-- A mesh with the number of the calls that it has answered, which the fresh ids of a call go by.
pub record Served {R : Type 0} (T : TrainingBackend R) (I : InferenceBackend R) : Type 0 where
  pub mesh : Mesh T I
  pub calls : ℕ

module _ {R : Type 0} (T : TrainingBackend R) (I : InferenceBackend R) (fresh : ℕ → Uuids)
    (remote : Error → Error) where
  -- `remote` is what `Future.get` raises for an error of the endpoint.
  -- `self._proxy.….choose(request).get(timeout=self._timeout)`
  unfoldable pub ask_proxy : {A : Type 0} → (Uuids → Exec (Mesh T I) A) → Exec (Served T I) A
  ask_proxy endpoint s =
      let (r, mesh) = endpoint (fresh s.calls) s.mesh in
      (map_error remote r, record { mesh = mesh; calls = s.calls + 1 })

  unfoldable pub monarch_proxy_transport : ProxyTransport R (Served T I)
  unfolding ask_proxy
  monarch_proxy_transport = record {
    create_training_run = λ request. ask_proxy λ uuids. Proxy.create_training_run T I uuids request;
    forward_backward = λ request. ask_proxy λ uuids. Proxy.forward_backward T I uuids request;
    optim_step = λ request. ask_proxy λ uuids. Proxy.optim_step T I uuids request;
    save_weights = λ request. ask_proxy λ uuids. Proxy.save_weights T I uuids request;
    refresh_weights = λ request. ask_proxy λ uuids. Proxy.refresh_weights T I uuids request;
    sample = λ request. ask_proxy λ uuids. Proxy.sample T I uuids request;
    get_telemetry_summary =
        λ request. ask_proxy λ uuids. Proxy.get_telemetry_summary T I uuids request;
    download_artifact_file = λ request s. (download_artifact_file request s.mesh.files, s);
  }
