-- ===== src/Rpc/Wire/Messages.antt =====
-- The requests and the responses of the service.
use ganker.Base.{String, Option, List}
use ganker.Base.Int.{ℤ}
use ganker.Base.Dict.{Dict}
use ganker.Base.File.{Content}
use ganker.Rpc.Wire.Values.{
  RequestContext, ModelInput, Datum, SamplingParams, SampledSequence, ForwardBackwardOutput,
  AdamParams, Usage, TelemetrySummary, WeightArtifact, TrainingRun,
}

pub record CreateTrainingRunRequest : Type 0 where
  pub context : RequestContext
  pub base_model : String
  pub tuning_mode : ℤ
  pub lora_rank : ℤ

pub record CreateTrainingRunResponse : Type 0 where
  pub request_id : String
  pub run : TrainingRun

pub record ForwardBackwardRequest (R : Type 0) : Type 0 where
  pub context : RequestContext
  pub run_id : String
  pub batch : List (Datum R)
  pub loss_fn : String
  pub loss_fn_config : Dict R

pub record ForwardBackwardResponse (R : Type 0) : Type 0 where
  pub request_id : String
  pub run_id : String
  pub output : ForwardBackwardOutput R
  pub gradient_version : ℤ
  pub usage : Usage

pub record OptimStepRequest (R : Type 0) : Type 0 where
  pub context : RequestContext
  pub run_id : String
  pub optimizer : AdamParams R

pub record OptimStepResponse : Type 0 where
  pub request_id : String
  pub run_id : String
  pub optimizer_step : ℤ
  pub checkpoint_version : ℤ
  pub usage : Usage

pub record SaveWeightsRequest : Type 0 where
  pub context : RequestContext
  pub run_id : String
  pub kind : ℤ

pub record SaveWeightsResponse : Type 0 where
  pub request_id : String
  pub artifact : WeightArtifact

pub record RefreshWeightsRequest : Type 0 where
  pub context : RequestContext
  pub run_id : String
  pub artifact : Option WeightArtifact

pub record RefreshWeightsResponse : Type 0 where
  pub request_id : String
  pub artifact : WeightArtifact

pub record SampleRequest (R : Type 0) : Type 0 where
  pub context : RequestContext
  pub run_id : String
  pub prompt : ModelInput
  pub sampling_params : SamplingParams R
  pub num_samples : ℤ

pub record SampleResponse (R : Type 0) : Type 0 where
  pub request_id : String
  pub run_id : String
  pub sequences : List (SampledSequence R)
  pub artifact : WeightArtifact
  pub usage : Usage

pub record GetTelemetrySummaryRequest : Type 0 where
  pub context : RequestContext
  pub run_id : String

pub record GetTelemetrySummaryResponse : Type 0 where
  pub request_id : String
  pub summary : TelemetrySummary

pub record DownloadArtifactFileRequest : Type 0 where
  pub context : RequestContext
  pub artifact : WeightArtifact
  pub file_kind : ℤ

-- `contents` is a field of bytes: what the file holds.
pub record DownloadArtifactFileResponse : Type 0 where
  pub request_id : String
  pub artifact : WeightArtifact
  pub file_kind : ℤ
  pub path : String
  pub contents : Content
