-- ===== src/Rpc/Wire/Values.antt =====
-- The messages inside the requests and the responses.
use ganker.Base.{String, List}
use ganker.Base.Int.{ℤ}
use ganker.Base.Dict.{Dict}

pub record RequestContext : Type 0 where
  pub request_id : String

pub record ModelInput : Type 0 where
  pub token_ids : List ℤ
  pub text : String

pub record TensorData (R : Type 0) : Type 0 where
  pub values : List R

pub record Datum (R : Type 0) : Type 0 where
  pub model_input : ModelInput
  pub loss_fn_inputs : Dict (TensorData R)

pub record SamplingParams (R : Type 0) : Type 0 where
  pub max_tokens : ℤ
  pub temperature : R
  pub stop : List String
  pub top_p : R

pub record SampledSequence (R : Type 0) : Type 0 where
  pub tokens : List ℤ
  pub logprobs : List R
  pub stop_reason : String
  pub text : String

pub record LossFnOutput (R : Type 0) : Type 0 where
  pub values : Dict (TensorData R)

pub record ForwardBackwardOutput (R : Type 0) : Type 0 where
  pub loss : R
  pub metrics : Dict R
  pub loss_fn_outputs : List (LossFnOutput R)

pub record AdamParams (R : Type 0) : Type 0 where
  pub learning_rate : R
  pub beta1 : R
  pub beta2 : R
  pub eps : R
  pub weight_decay : R

pub record Usage : Type 0 where
  pub input_tokens : ℤ
  pub output_tokens : ℤ
  pub training_steps : ℤ
  pub samples : ℤ

pub record UsageBySource : Type 0 where
  pub event_source : String
  pub usage : Usage
  pub event_count : ℤ

pub record TelemetrySummary : Type 0 where
  pub run_id : String
  pub total : Usage
  pub event_count : ℤ
  pub by_source : List UsageBySource

pub record WeightArtifact : Type 0 where
  pub run_id : String
  pub checkpoint_version : ℤ
  pub kind : ℤ
  pub manifest_path : String
  pub payload_path : String

pub record TrainingRun : Type 0 where
  pub run_id : String
  pub base_model : String
  pub tuning_mode : ℤ
  pub lora_rank : ℤ
  pub checkpoint_version : ℤ
