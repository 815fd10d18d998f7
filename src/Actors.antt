-- ===== src/Actors.antt =====
-- The actors of a mesh, and the two ways by which a client's call reaches them.
-- src/ganker/actors.py
pub mod Proxy
pub mod Controller
pub mod ControllerProxy
pub mod Calls
pub mod Ledger
pub mod Billing
pub mod Handoff
pub mod Routes
pub mod Returning
use ganker.Base.{String, Option, some, none, Bool, not}
use ganker.Base.Result.{Error, Result, ok, err, Exec, pure, ◌>>=◌, ◌>>◌}
use ganker.Base.File.{FileSystem}
use ganker.Contracts.{
  Usage, has_activity, UsageEvent, CreateTrainingRunRequest, CreateTrainingRunResponse,
  ForwardBackwardRequest, ForwardBackwardResponse, OptimStepRequest, OptimStepResponse,
  SaveWeightsRequest, SaveWeightsResponse, RefreshWeightsRequest, RefreshWeightsResponse,
  SampleRequest, SampleResponse, RecordTelemetryRequest, RecordTelemetryResponse,
  GetTelemetrySummaryRequest, GetTelemetrySummaryResponse,
}
use ganker.Telemetry.{TelemetryLedger, handle_record, handle_get_summary}
use ganker.Backends.{Hosted, TrainingBackend, InferenceBackend}
use ganker.Components

-- The state of the three actors that own one, and the files. A mesh has one actor of each kind, so
-- `choose` has no choice.
pub record Mesh {R : Type 0} (T : TrainingBackend R) (I : InferenceBackend R) : Type 0 where
  pub training : T.State
  pub rollout : I.State
  pub telemetry : TelemetryLedger
  pub files : FileSystem

module _ {R : Type 0} {T : TrainingBackend R} {I : InferenceBackend R} where
  -- `self._training.….choose(request)`: the actor's method on the actor's state.
  unfoldable pub on_training : {A : Type 0} → Exec (Hosted T.State) A → Exec (Mesh T I) A
  on_training m mesh =
      let (r, h) = m (record { own = mesh.training; files = mesh.files }) in
      (r, record mesh { training = h.own; files = h.files })

  unfoldable pub on_rollout : {A : Type 0} → Exec (Hosted I.State) A → Exec (Mesh T I) A
  on_rollout m mesh =
      let (r, h) = m (record { own = mesh.rollout; files = mesh.files }) in
      (r, record mesh { rollout = h.own; files = h.files })

  unfoldable pub on_telemetry : {A : Type 0} → Exec TelemetryLedger A → Exec (Mesh T I) A
  on_telemetry m mesh =
      let (r, ledger) = m mesh.telemetry in (r, record mesh { telemetry = ledger })

-- The two fresh ids of a call that also records usage.
pub record Uuids : Type 0 where
  pub of_call : String
  pub of_record : String
