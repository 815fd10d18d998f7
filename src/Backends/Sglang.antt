-- ===== src/Backends/Sglang.antt =====
-- `SGLangInferenceBackend` of src/ganker/backends/sglang.py, over any `SGLangRuntime`
pub mod Passing
pub mod Refinement
pub mod Http
pub mod Server
pub mod Refreshes
pub mod Waiting
pub mod Watched
pub mod Answering
pub mod Seen
pub mod Started
pub mod Posted
pub mod Keeping
pub mod Kept
pub mod Serving
use ganker.Base.{
  String, ◌<>◌, Bool, true, false, not, ◌&&◌, ◌||◌, Option, some, none, List, [], ◌∷◌, map, length,
  ◌==◌, is_empty, is_nil, if◌then◌else◌, ℕ,
}
use ganker.Base.Int.{ℤ, pos, ◌+ℤ◌, is_nonpos}
use ganker.Base.Float.{Float}
use ganker.Base.Result.{
  Error, invalid_request, value_error, Result, ok, err, unless, Exec, raise_if, pure, gets, lift,
  modify, ◌>>=◌, ◌>>◌,
}
use ganker.Base.Dict.{Dict, lookup, insert}
use ganker.Base.File.{JsonObject, Content, json, raw, FileSystem}
use ganker.Contracts.{ModelInput, SamplingParams, SampledSequence, Usage, no_usage, WeightArtifact}
use ganker.Artifacts
use ganker.Backends.{Hosted, SampleResult, InferenceBackend}

pub record SglangLoadedArtifact : Type 0 where
  pub artifact : WeightArtifact
  pub artifact_format : String
  pub model_path : String
  pub lora_name : String
  pub lora_path : String
  pub payload : JsonObject

pub record SglangGeneration (R : Type 0) : Type 0 where
  pub text : String
  pub token_ids : List ℤ
  pub logprobs : List R
  pub prompt_tokens : ℤ
  pub output_tokens : ℤ
  pub stop_reason : String

-- The protocol, over the state of the runtime and of what it calls.
pub record SglangRuntime (R : Type 0) : Type 1 where
  pub World : Type 0
  pub refresh_weights : String → WeightArtifact → JsonObject → Exec World SglangLoadedArtifact
  pub sample :
      ModelInput
      → SamplingParams R
      → ℤ
      → SglangLoadedArtifact
      → Exec World (List (SglangGeneration R))

-- What the bytes of a file are that holds no JSON object: no UTF-8 text, no JSON, or another value.
pub data NoObject : Type 0 where
  no_text no_json another_value : NoObject

unfoldable pub payload_error : String → NoObject → Error
payload_error path no_text = value_error "invalid UTF-8"
payload_error path no_json = invalid_request ("artifact payload is not valid JSON: " <> path)
payload_error path another_value = invalid_request "artifact payload must be a JSON object"

-- `classify` is what `read_text` and `json.loads` make of bytes that are no JSON object.
unfoldable pub read_artifact_payload :
    (List ℕ → NoObject) → WeightArtifact → FileSystem → Result JsonObject
unfolding payload_error
read_artifact_payload classify artifact fs = elim (lookup artifact.payload_path fs) [
  | none ↦ err (invalid_request ("artifact payload is missing: " <> artifact.payload_path))
  | some content ↦ elim content [
    | json payload ↦ ok payload
    | raw bytes ↦ err (payload_error artifact.payload_path (classify bytes))
  ]
]

-- `sum(values)` of ints
unfoldable pub sum_ints : List ℤ → ℤ
sum_ints [] = pos 0
sum_ints (n ∷ ns) = n +ℤ sum_ints ns

unfoldable pub validate_sampling_request :
    (F : Float) → ModelInput → SamplingParams F.Real → ℤ → Result (Unit {0})
validate_sampling_request F prompt params num_samples =
    unless (is_nil prompt.token_ids && is_empty prompt.text)
      (invalid_request "prompt must contain token_ids or text")
      (unless (not (is_nil prompt.token_ids) && not (is_empty prompt.text))
        (invalid_request "prompt cannot contain both token_ids and text")
        (unless (is_nonpos params.max_tokens)
          (invalid_request "sampling_params.max_tokens must be positive")
          (unless (F.lt params.temperature (F.of_int (pos 0)))
            (invalid_request "sampling_params.temperature cannot be negative")
            (unless (F.le params.top_p (F.of_int (pos 0)) || F.lt (F.of_int (pos 1)) params.top_p)
              (invalid_request "sampling_params.top_p must be in (0, 1]")
              (unless (is_nonpos num_samples) (invalid_request "num_samples must be positive")
                (ok tt))))))

module _ (F : Float) (runtime : SglangRuntime F.Real) (classify : List ℕ → NoObject)
    (root : String) where
  pub record SglangState : Type 0 where
    pub loaded_artifacts : Dict SglangLoadedArtifact
    pub world : runtime.World

  -- A call of `self._runtime`
  abbrev on_runtime : {A : Type 0} → Exec runtime.World A → Exec (Hosted SglangState) A
  on_runtime m h = let (r, w) = m h.own.world in (r, record h { own = record h.own { world = w } })

  -- `self._loaded_artifacts[run_id] = loaded`
  abbrev keep_loaded : String → SglangLoadedArtifact → Hosted SglangState → Hosted SglangState
  keep_loaded run_id loaded h = record h {
    own = record h.own { loaded_artifacts = insert run_id loaded h.own.loaded_artifacts };
  }

  abbrev latest : String → Exec (Hosted SglangState) WeightArtifact
  latest run_id h = (Artifacts.latest root run_id h.files, h)

  -- The artifact to load: the one that the request names, or the latest of the run.
  unfoldable pub select_artifact :
      String → Option WeightArtifact → Exec (Hosted SglangState) WeightArtifact
  select_artifact run_id (some artifact) = do
    raise_if (not (is_empty artifact.run_id) && not (artifact.run_id == run_id))
        (invalid_request "artifact.run_id must match request.run_id")
    pure artifact
  select_artifact run_id none = latest run_id

  -- The payload read, the runtime refreshed, and what it loaded kept.
  unfoldable pub load_artifact :
      String → WeightArtifact → Exec (Hosted SglangState) SglangLoadedArtifact
  unfolding read_artifact_payload
  load_artifact run_id artifact = do
    payload ← λ h. (read_artifact_payload classify artifact h.files, h)
    loaded ← on_runtime (runtime.refresh_weights run_id artifact payload)
    modify (keep_loaded run_id loaded)
    pure loaded

  unfoldable pub refresh_weights :
      String → Option WeightArtifact → Exec (Hosted SglangState) WeightArtifact
  unfolding select_artifact load_artifact
  refresh_weights run_id artifact = do
    raise_if (is_empty run_id) (invalid_request "run_id is required")
    selected ← select_artifact run_id artifact
    loaded ← load_artifact run_id selected
    pure loaded.artifact

  -- `if loaded is None`
  unfoldable pub ensure_loaded :
      String → Option SglangLoadedArtifact → Exec (Hosted SglangState) SglangLoadedArtifact
  unfolding select_artifact load_artifact
  ensure_loaded run_id (some loaded) = pure loaded
  ensure_loaded run_id none = select_artifact run_id none >>= load_artifact run_id

  unfoldable pub to_sequence : SglangGeneration F.Real → SampledSequence F.Real
  to_sequence item = record {
    text = item.text;
    tokens = item.token_ids;
    logprobs = item.logprobs;
    stop_reason = item.stop_reason;
  }

  unfoldable pub sample :
      String
      → ModelInput
      → SamplingParams F.Real
      → ℤ
      → Exec (Hosted SglangState) (SampleResult F.Real)
  unfolding ensure_loaded validate_sampling_request to_sequence sum_ints
  sample run_id prompt params num_samples = do
    raise_if (is_empty run_id) (invalid_request "run_id is required")
    lift (validate_sampling_request F prompt params num_samples)
    found ← gets (λ h. lookup run_id h.own.loaded_artifacts)
    loaded ← ensure_loaded run_id found
    generations ← on_runtime (runtime.sample prompt params num_samples loaded)
    pure (record {
      run_id = run_id;
      sequences = map to_sequence generations;
      artifact = loaded.artifact;
      usage = record no_usage {
        input_tokens = sum_ints (map (λ item. item.prompt_tokens) generations);
        output_tokens = sum_ints (map (λ item. item.output_tokens) generations);
        samples = pos (length generations);
      };
    })

  abbrev pub sglang_inference : InferenceBackend F.Real
  sglang_inference = record {
    State = SglangState;
    refresh_weights = refresh_weights;
    sample = sample;
  }
