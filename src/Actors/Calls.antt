-- ===== src/Actors/Calls.antt =====
-- The calls of a client, answered by either route of a mesh.
use ganker.Base.Result.{Error, fmap, Exec}
use ganker.Contracts.{
  CreateTrainingRunRequest, CreateTrainingRunResponse, ForwardBackwardRequest,
  ForwardBackwardResponse, OptimStepRequest, OptimStepResponse, SaveWeightsRequest,
  SaveWeightsResponse, RefreshWeightsRequest, RefreshWeightsResponse, SampleRequest, SampleResponse,
  GetTelemetrySummaryRequest, GetTelemetrySummaryResponse,
}
use ganker.Backends.{TrainingBackend, InferenceBackend}
use ganker.Actors.{Mesh, Uuids}
use ganker.Actors.Proxy
use ganker.Actors.ControllerProxy

-- The requests that both client-facing actors have an endpoint for.
pub data Call (R : Type 0) : Type 0 where
  create_call : CreateTrainingRunRequest → Call R
  forward_call : ForwardBackwardRequest R → Call R
  step_call : OptimStepRequest R → Call R
  save_call : SaveWeightsRequest → Call R
  refresh_call : RefreshWeightsRequest → Call R
  sample_call : SampleRequest R → Call R
  summary_call : GetTelemetrySummaryRequest → Call R

pub data Reply (R : Type 0) : Type 0 where
  create_reply : CreateTrainingRunResponse → Reply R
  forward_reply : ForwardBackwardResponse R → Reply R
  step_reply : OptimStepResponse → Reply R
  save_reply : SaveWeightsResponse → Reply R
  refresh_reply : RefreshWeightsResponse → Reply R
  sample_reply : SampleResponse R → Reply R
  summary_reply : GetTelemetrySummaryResponse → Reply R

-- A method's result as a reply.
abbrev pub replied : {S A B : Type 0} → (A → B) → Exec S A → Exec S B
replied f m s = let (r, s') = m s in (fmap f r, s')

module _ {R : Type 0} (T : TrainingBackend R) (I : InferenceBackend R) where
  unfoldable pub serve_proxy : Uuids → Call R → Exec (Mesh T I) (Reply R)
  unfolding Proxy.create_training_run Proxy.forward_backward Proxy.optim_step Proxy.save_weights
      Proxy.refresh_weights Proxy.sample Proxy.get_telemetry_summary
  serve_proxy uuids (create_call request) =
      replied create_reply (Proxy.create_training_run T I uuids request)
  serve_proxy uuids (forward_call request) =
      replied forward_reply (Proxy.forward_backward T I uuids request)
  serve_proxy uuids (step_call request) = replied step_reply (Proxy.optim_step T I uuids request)
  serve_proxy uuids (save_call request) = replied save_reply (Proxy.save_weights T I uuids request)
  serve_proxy uuids (refresh_call request) =
      replied refresh_reply (Proxy.refresh_weights T I uuids request)
  serve_proxy uuids (sample_call request) = replied sample_reply (Proxy.sample T I uuids request)
  serve_proxy uuids (summary_call request) =
      replied summary_reply (Proxy.get_telemetry_summary T I uuids request)

  unfoldable pub serve_controller : (Error → Error) → Uuids → Call R → Exec (Mesh T I) (Reply R)
  unfolding ControllerProxy.create_training_run ControllerProxy.forward_backward
      ControllerProxy.optim_step ControllerProxy.save_weights ControllerProxy.refresh_weights
      ControllerProxy.sample ControllerProxy.get_telemetry_summary
  serve_controller remote uuids (create_call request) =
      replied create_reply (ControllerProxy.create_training_run T I remote uuids request)
  serve_controller remote uuids (forward_call request) =
      replied forward_reply (ControllerProxy.forward_backward T I remote uuids request)
  serve_controller remote uuids (step_call request) =
      replied step_reply (ControllerProxy.optim_step T I remote uuids request)
  serve_controller remote uuids (save_call request) =
      replied save_reply (ControllerProxy.save_weights T I remote uuids request)
  serve_controller remote uuids (refresh_call request) =
      replied refresh_reply (ControllerProxy.refresh_weights T I remote uuids request)
  serve_controller remote uuids (sample_call request) =
      replied sample_reply (ControllerProxy.sample T I remote uuids request)
  serve_controller remote uuids (summary_call request) =
      replied summary_reply (ControllerProxy.get_telemetry_summary T I remote uuids request)
