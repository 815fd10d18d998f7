-- ===== src/Actors/Controller.antt =====
-- `ControllerActor` of src/ganker/actors.py, which stands behind a `ControllerProxyActor`.
use ganker.Base.{String, not, if◌then◌else◌}
use ganker.Base.Result.{Exec, pure, ◌>>=◌, ◌>>◌}
use ganker.Contracts.{
  Usage, has_activity, CreateTrainingRunRequest, CreateTrainingRunResponse, ForwardBackwardRequest,
  ForwardBackwardResponse, OptimStepRequest, OptimStepResponse, SaveWeightsRequest,
  SaveWeightsResponse, RefreshWeightsRequest, RefreshWeightsResponse, SampleRequest, SampleResponse,
  GetTelemetrySummaryRequest, GetTelemetrySummaryResponse,
}
use ganker.Telemetry.{handle_record, handle_get_summary}
use ganker.Backends.{TrainingBackend, InferenceBackend}
use ganker.Components
use ganker.Actors.{Mesh, Uuids, on_training, on_rollout, on_telemetry}

module _ {R : Type 0} (T : TrainingBackend R) (I : InferenceBackend R) (uuids : Uuids) where
  unfoldable pub record_usage : String → String → String → Usage → Exec (Mesh T I) (Unit {0})
  record_usage request_id run_id event_source usage =
      if not (has_activity usage)
      then pure tt
      else on_telemetry (
          handle_record uuids.of_record (record {
            context = record { request_id = request_id };
            event = record {
              request_id = request_id;
              run_id = run_id;
              event_source = event_source;
              usage = usage;
            };
          }))
        >> pure tt

  unfoldable pub create_training_run :
      CreateTrainingRunRequest → Exec (Mesh T I) CreateTrainingRunResponse
  create_training_run request = on_training (Components.create_training_run T uuids.of_call request)

  unfoldable pub forward_backward :
      ForwardBackwardRequest R → Exec (Mesh T I) (ForwardBackwardResponse R)
  forward_backward request = do
    response ← on_training (Components.forward_backward T uuids.of_call request)
    record_usage response.request_id response.run_id "trainer" response.usage
    pure response

  unfoldable pub optim_step : OptimStepRequest R → Exec (Mesh T I) OptimStepResponse
  optim_step request = do
    response ← on_training (Components.optim_step T uuids.of_call request)
    record_usage response.request_id response.run_id "trainer" response.usage
    pure response

  unfoldable pub save_weights : SaveWeightsRequest → Exec (Mesh T I) SaveWeightsResponse
  save_weights request = on_training (Components.save_weights T uuids.of_call request)

  unfoldable pub refresh_weights : RefreshWeightsRequest → Exec (Mesh T I) RefreshWeightsResponse
  refresh_weights request = on_rollout (Components.refresh_weights I uuids.of_call request)

  unfoldable pub sample : SampleRequest R → Exec (Mesh T I) (SampleResponse R)
  sample request = do
    response ← on_rollout (Components.sample I uuids.of_call request)
    record_usage response.request_id response.run_id "rollout" response.usage
    pure response

  unfoldable pub get_telemetry_summary :
      GetTelemetrySummaryRequest → Exec (Mesh T I) GetTelemetrySummaryResponse
  get_telemetry_summary request =
      on_telemetry (λ events. (handle_get_summary uuids.of_call request events, events))
