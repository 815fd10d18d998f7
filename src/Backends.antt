-- ===== src/Backends.antt =====
-- What the components ask of a training backend and of an inference backend.
-- src/ganker/backends/base.py
pub mod Fake
pub mod Megatron
pub mod Sglang
use ganker.Base.{String, Option, List}
use ganker.Base.Int.{ℤ}
use ganker.Base.Result.{Exec}
use ganker.Base.Dict.{Dict}
use ganker.Base.File.{FileSystem}
use ganker.Contracts.{
  TuningMode, ArtifactKind, ModelInput, Datum, SamplingParams, SampledSequence,
  ForwardBackwardOutput, AdamParams, Usage, WeightArtifact, TrainingRun,
}

pub record ForwardBackwardResult (R : Type 0) : Type 0 where
  pub run_id : String
  pub output : ForwardBackwardOutput R
  pub gradient_version : ℤ
  pub usage : Usage

pub record OptimStepResult : Type 0 where
  pub run_id : String
  pub optimizer_step : ℤ
  pub checkpoint_version : ℤ
  pub usage : Usage

pub record SampleResult (R : Type 0) : Type 0 where
  pub run_id : String
  pub sequences : List (SampledSequence R)
  pub artifact : WeightArtifact
  pub usage : Usage

-- The fields of a backend, and the files that it shares with the other processes.
pub record Hosted (S : Type 0) : Type 0 where
  pub own : S
  pub files : FileSystem

-- An action on the files alone.
abbrev pub on_files : {S A : Type 0} → Exec FileSystem A → Exec (Hosted S) A
on_files m h = let (r, fs) = m h.files in (r, record h { files = fs })

pub record TrainingBackend (R : Type 0) : Type 1 where
  pub State : Type 0
  pub create_training_run : String → TuningMode → ℤ → Exec (Hosted State) TrainingRun
  pub forward_backward :
      String → List (Datum R) → String → Dict R → Exec (Hosted State) (ForwardBackwardResult R)
  pub optim_step : String → AdamParams R → Exec (Hosted State) OptimStepResult
  pub save_weights : String → ArtifactKind → Exec (Hosted State) WeightArtifact

pub record InferenceBackend (R : Type 0) : Type 1 where
  pub State : Type 0
  pub refresh_weights : String → Option WeightArtifact → Exec (Hosted State) WeightArtifact
  pub sample : String → ModelInput → SamplingParams R → ℤ → Exec (Hosted State) (SampleResult R)
