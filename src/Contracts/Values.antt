-- ===== src/Contracts/Values.antt =====
-- Model inputs, training data and sampling values of src/ganker/contracts.py.
use ganker.Base.{String, List, []}
use ganker.Base.Int.{ℤ}
use ganker.Base.Dict.{Dict}

-- An `IntEnum` is an int, and no constructor checks its field: `unknown_mode` stands for an int
-- that is no member, which the guards of the backends test for.
pub data TuningMode : Type 0 where
  lora full : TuningMode
  unknown_mode : ℤ → TuningMode

pub data ArtifactKind : Type 0 where
  full delta : ArtifactKind
  unknown_kind : ℤ → ArtifactKind

pub data ArtifactFileKind : Type 0 where
  manifest payload : ArtifactFileKind
  unknown_file_kind : ℤ → ArtifactFileKind

pub record RequestContext : Type 0 where
  pub request_id : String

pub record ModelInput : Type 0 where
  pub token_ids : List ℤ
  pub text : String

abbrev pub from_ints : List ℤ → ModelInput
from_ints tokens = record { token_ids = tokens; text = "" }

abbrev pub from_text : String → ModelInput
from_text text = record { token_ids = []; text = text }

-- An element of `list[int | float]`.
pub data Num (R : Type 0) : Type 0 where
  int : ℤ → Num R
  float : R → Num R

pub record TensorData (R : Type 0) : Type 0 where
  pub values : List (Num R)

pub record Datum (R : Type 0) : Type 0 where
  pub model_input : ModelInput
  pub loss_fn_inputs : Dict (TensorData R)

pub record SamplingParams (R : Type 0) : Type 0 where
  pub max_tokens : ℤ
  pub temperature : R
  pub top_p : R
  pub stop : List String

pub record SampledSequence (R : Type 0) : Type 0 where
  pub text : String
  pub tokens : List ℤ
  pub logprobs : List R
  pub stop_reason : String

pub record ForwardBackwardOutput (R : Type 0) : Type 0 where
  pub loss : R
  pub metrics : Dict R
  pub loss_fn_outputs : List (Dict (TensorData R))

pub record AdamParams (R : Type 0) : Type 0 where
  pub learning_rate : R
  pub beta1 : R
  pub beta2 : R
  pub eps : R
  pub weight_decay : R
