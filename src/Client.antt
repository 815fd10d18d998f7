-- ===== src/Client.antt =====
-- The public client over a transport.
-- src/ganker/client.py
--
-- An argument that may have several types is a data type with a constructor for each; a parameter with
-- a default is an argument. The owned mesh of a ServiceClient, which `close` stops, is left out.
use ganker.Base.{String, Option, none, some, List, [], ◌∷◌, ◌==◌, if◌then◌else◌}
use ganker.Base.Int.{ℤ, pos}
use ganker.Base.Text.{show_ℤ}
use ganker.Base.Result.{value_error, key_error, Result, ok, err, Exec, pure, lift, ◌>>=◌}
use ganker.Base.Dict.{Dict}
use ganker.Base.Float.{Float}
use ganker.Contracts.{
  TuningMode, lora, unknown_mode, ArtifactKind, ArtifactFileKind, manifest, payload, ModelInput,
  from_ints, from_text, Datum, SamplingParams, AdamParams, TrainingRun, WeightArtifact,
  ForwardBackwardResponse, OptimStepResponse, SaveWeightsResponse, RefreshWeightsResponse,
  SampleResponse, GetTelemetrySummaryResponse, DownloadArtifactFileResponse,
}
use ganker.Transport.Proxies.{ProxyTransport}

-- `TuningMode | Literal["lora", "full"]`
pub data Tuning : Type 0 where
  member : TuningMode → Tuning
  named : String → Tuning

-- `ModelInput | Sequence[int] | str`
pub data Prompt : Type 0 where
  input : ModelInput → Prompt
  tokens : List ℤ → Prompt
  text : String → Prompt

-- `Datum | Sequence[Datum]`
pub data Batch (R : Type 0) : Type 0 where
  one : Datum R → Batch R
  many : List (Datum R) → Batch R

-- `ArtifactFileKind | Literal["manifest", "payload"]`
pub data FileKind : Type 0 where
  file_member : ArtifactFileKind → FileKind
  file_name : String → FileKind

-- An int that is no member is no `TuningMode`, and is looked up as a name.
unfoldable pub tuning_mode : Tuning → Result TuningMode
tuning_mode (member lora) = ok lora
tuning_mode (member TuningMode.full) = ok TuningMode.full
tuning_mode (member (unknown_mode n)) = err (key_error (show_ℤ n))
tuning_mode (named s) =
    if s == "lora" then ok lora else if s == "full" then ok TuningMode.full else err (key_error s)

unfoldable pub model_input : Prompt → ModelInput
model_input (input value) = value
model_input (tokens value) = from_ints value
model_input (text value) = from_text value

unfoldable pub datum_list : {R : Type 0} → Batch R → List (Datum R)
datum_list (one value) = value ∷ []
datum_list (many value) = value

unfoldable pub artifact_file_kind : FileKind → Result ArtifactFileKind
artifact_file_kind (file_member value) = ok value
artifact_file_kind (file_name s) =
    if s == "manifest"
    then ok manifest
    else if s == "payload"
    then ok payload
    else err (key_error s)

pub record ServiceClient (R S : Type 0) : Type 0 where
  pub transport : ProxyTransport R S

pub record TrainingClient (R S : Type 0) : Type 0 where
  pub service : ServiceClient R S
  pub run : TrainingRun

pub record SamplingClient (R S : Type 0) : Type 0 where
  pub service : ServiceClient R S
  pub run : TrainingRun
  pub artifact : WeightArtifact

-- `value or default` for an optional argument.
abbrev pub or_default {ℓ} : {A : Type ℓ} → Option A → A → A
or_default none a = a
or_default (some b) a = b

module _ (F : Float) where
  -- The defaults of `AdamParams` and of `SamplingParams`.
  abbrev pub adam_params : F.Real → AdamParams F.Real
  adam_params learning_rate = record {
    learning_rate = learning_rate;
    beta1 = F.literal (pos 9) 1;
    beta2 = F.literal (pos 95) 2;
    eps = F.literal (pos 1) 8;
    weight_decay = F.literal (pos 0) 1;
  }

  abbrev pub sampling_params : SamplingParams F.Real
  sampling_params = record {
    max_tokens = pos 16;
    temperature = F.literal (pos 10) 1;
    top_p = F.literal (pos 10) 1;
    stop = [];
  }

  -- `params`, or those with the learning rate.
  unfoldable pub choose_params :
      Option (AdamParams F.Real) → Option F.Real → Result (AdamParams F.Real)
  choose_params (some params) learning_rate = ok params
  choose_params none none = err (value_error "params or learning_rate is required")
  choose_params none (some learning_rate) = ok (adam_params learning_rate)

module _ (F : Float) {S : Type 0} where
  module _ (self : TrainingClient F.Real S) where
    unfoldable pub forward_backward :
        Batch F.Real
        → String
        → Option (Dict F.Real)
        → String
        → Exec S (ForwardBackwardResponse F.Real)
    unfolding datum_list
    forward_backward batch loss_fn loss_fn_config request_id =
        self.service.transport.forward_backward (record {
          context = record { request_id = request_id };
          run_id = self.run.run_id;
          batch = datum_list batch;
          loss_fn = loss_fn;
          loss_fn_config = or_default loss_fn_config [];
        })

    unfoldable pub optim_step :
        Option (AdamParams F.Real) → Option F.Real → String → Exec S OptimStepResponse
    unfolding choose_params
    optim_step params learning_rate request_id = do
      optimizer ← lift (choose_params F params learning_rate)
      self.service.transport.optim_step (record {
        context = record { request_id = request_id };
        run_id = self.run.run_id;
        optimizer = optimizer;
      })

    unfoldable pub save_weights : ArtifactKind → String → Exec S SaveWeightsResponse
    save_weights kind request_id = self.service.transport.save_weights (record {
      context = record { request_id = request_id };
      run_id = self.run.run_id;
      kind = kind;
    })

    unfoldable pub refresh_weights : Option WeightArtifact → String → Exec S RefreshWeightsResponse
    refresh_weights artifact request_id = self.service.transport.refresh_weights (record {
      context = record { request_id = request_id };
      run_id = self.run.run_id;
      artifact = artifact;
    })

    unfoldable pub save_weights_for_sampler : ArtifactKind → String → Exec S SaveWeightsResponse
    unfolding save_weights
    save_weights_for_sampler kind request_id = save_weights kind request_id

    unfoldable pub save_weights_and_get_sampling_client :
        ArtifactKind → String → Exec S (SamplingClient F.Real S)
    unfolding save_weights_for_sampler refresh_weights
    save_weights_and_get_sampling_client kind request_id = do
      saved ← save_weights_for_sampler kind request_id
      refreshed ← refresh_weights (some saved.artifact) request_id
      pure (record { service = self.service; run = self.run; artifact = refreshed.artifact })

  module _ (self : ServiceClient F.Real S) where
    unfoldable pub create_training_client :
        String → Tuning → ℤ → String → Exec S (TrainingClient F.Real S)
    unfolding tuning_mode
    create_training_client base_model tuning rank request_id = do
      chosen ← lift (tuning_mode tuning)
      response ← self.transport.create_training_run (record {
        context = record { request_id = request_id };
        base_model = base_model;
        tuning_mode = chosen;
        lora_rank = rank;
      })
      pure (record { service = self; run = response.run })

    unfoldable pub create_lora_training_client :
        String → ℤ → String → Exec S (TrainingClient F.Real S)
    unfolding create_training_client
    create_lora_training_client base_model rank request_id =
        create_training_client base_model (member lora) rank request_id

    unfoldable pub create_sampling_client : String → String → Exec S (SamplingClient F.Real S)
    unfolding create_training_client save_weights_and_get_sampling_client
    create_sampling_client base_model request_id = do
      training ← create_training_client base_model (member TuningMode.full) (pos 0) request_id
      save_weights_and_get_sampling_client training ArtifactKind.full request_id

    unfoldable pub get_telemetry_summary : String → String → Exec S GetTelemetrySummaryResponse
    get_telemetry_summary run_id request_id =
        self.transport.get_telemetry_summary
          (record { context = record { request_id = request_id }; run_id = run_id })

    unfoldable pub download_artifact_file :
        WeightArtifact → FileKind → String → Exec S DownloadArtifactFileResponse
    unfolding artifact_file_kind
    download_artifact_file artifact file_kind request_id = do
      chosen ← lift (artifact_file_kind file_kind)
      self.transport.download_artifact_file (record {
        context = record { request_id = request_id };
        artifact = artifact;
        file_kind = chosen;
      })

  module _ (self : SamplingClient F.Real S) where
    abbrev pub model_path : String
    model_path = self.artifact.manifest_path

    unfoldable pub sample :
        Prompt → Option (SamplingParams F.Real) → ℤ → String → Exec S (SampleResponse F.Real)
    unfolding model_input
    sample prompt params num_samples request_id = self.service.transport.sample (record {
      context = record { request_id = request_id };
      run_id = self.run.run_id;
      prompt = model_input prompt;
      sampling_params = or_default params (sampling_params F);
      num_samples = num_samples;
    })

    unfoldable pub sample_text :
        String → Option (SamplingParams F.Real) → ℤ → String → Exec S (SampleResponse F.Real)
    unfolding sample
    sample_text prompt params num_samples request_id =
        sample (input (from_text prompt)) params num_samples request_id
