-- ===== src/Actors/ControllerProxy.antt =====
-- `ControllerProxyActor` of src/ganker/actors.py, which hands every request to the controller.
use ganker.Base.Result.{Error, Exec, map_error}
use ganker.Contracts.{
  CreateTrainingRunRequest, CreateTrainingRunResponse, ForwardBackwardRequest,
  ForwardBackwardResponse, OptimStepRequest, OptimStepResponse, SaveWeightsRequest,
  SaveWeightsResponse, RefreshWeightsRequest, RefreshWeightsResponse, SampleRequest, SampleResponse,
  GetTelemetrySummaryRequest, GetTelemetrySummaryResponse,
}
use ganker.Backends.{TrainingBackend, InferenceBackend}
use ganker.Actors.{Mesh, Uuids}
use ganker.Actors.Controller

module _ {R : Type 0} (T : TrainingBackend R) (I : InferenceBackend R) (remote : Error → Error)
    (uuids : Uuids) where
  -- `await self._controller.….choose(request)`: an error of the controller's endpoint arrives as what
  -- Monarch raises for it.
  unfoldable pub ask_controller : {A : Type 0} → Exec (Mesh T I) A → Exec (Mesh T I) A
  ask_controller endpoint mesh = let (r, mesh') = endpoint mesh in (map_error remote r, mesh')

  unfoldable pub create_training_run :
      CreateTrainingRunRequest → Exec (Mesh T I) CreateTrainingRunResponse
  unfolding Controller.create_training_run ask_controller
  create_training_run request = ask_controller (Controller.create_training_run T I uuids request)

  unfoldable pub forward_backward :
      ForwardBackwardRequest R → Exec (Mesh T I) (ForwardBackwardResponse R)
  unfolding Controller.forward_backward ask_controller
  forward_backward request = ask_controller (Controller.forward_backward T I uuids request)

  unfoldable pub optim_step : OptimStepRequest R → Exec (Mesh T I) OptimStepResponse
  unfolding Controller.optim_step ask_controller
  optim_step request = ask_controller (Controller.optim_step T I uuids request)

  unfoldable pub save_weights : SaveWeightsRequest → Exec (Mesh T I) SaveWeightsResponse
  unfolding Controller.save_weights ask_controller
  save_weights request = ask_controller (Controller.save_weights T I uuids request)

  unfoldable pub refresh_weights : RefreshWeightsRequest → Exec (Mesh T I) RefreshWeightsResponse
  unfolding Controller.refresh_weights ask_controller
  refresh_weights request = ask_controller (Controller.refresh_weights T I uuids request)

  unfoldable pub sample : SampleRequest R → Exec (Mesh T I) (SampleResponse R)
  unfolding Controller.sample ask_controller
  sample request = ask_controller (Controller.sample T I uuids request)

  unfoldable pub get_telemetry_summary :
      GetTelemetrySummaryRequest → Exec (Mesh T I) GetTelemetrySummaryResponse
  unfolding Controller.get_telemetry_summary ask_controller
  get_telemetry_summary request =
      ask_controller (Controller.get_telemetry_summary T I uuids request)
