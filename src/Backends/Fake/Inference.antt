-- ===== src/Backends/Fake/Inference.antt =====
-- `FakeInferenceBackend` of src/ganker/backends/fake.py
pub mod Tokens
pub mod Loaded
use ganker.Base.{
  ℕ, zero, suc, ◌+◌, ◌*◌, String, ◌<>◌, Bool, true, false, not, ◌&&◌, ◌||◌, Option, some, none,
  List, [], ◌∷◌, ◌++◌, map, ◌==◌, is_empty, if◌then◌else◌, length, is_nil, range,
}
use ganker.Base.Int.{ℤ, pos, negsuc, pos_part, ◌+ℤ◌, ◌*ℤ◌, is_nonpos}
use ganker.Base.Float.{Float}
use ganker.Base.Result.{
  Error, invalid_request, Result, ok, err, unless, Exec, raise_if, raise, pure, gets, lift, modify,
  ◌>>=◌, ◌>>◌,
}
use ganker.Base.Dict.{Dict, lookup, insert}
use ganker.Base.Text.{show, show_ℤ, word_count}
use ganker.Contracts.{ModelInput, SamplingParams, SampledSequence, Usage, no_usage, WeightArtifact}
use ganker.Artifacts
use ganker.Backends.{Hosted, SampleResult, InferenceBackend}

-- `self._loaded_artifacts`
abbrev pub State : Type 0
State = Dict WeightArtifact

-- `self._loaded_artifacts[run_id] = artifact`
abbrev pub load : String → WeightArtifact → Hosted State → Hosted State
load run_id a h = record h { own = insert run_id a h.own }

abbrev latest : String → String → Exec (Hosted State) WeightArtifact
latest root run_id h = (Artifacts.latest root run_id h.files, h)

-- The artifact to load: the one that the request names, or the latest of the run.
unfoldable pub selected :
    String → String → Option WeightArtifact → Exec (Hosted State) WeightArtifact
selected root run_id (some artifact) = do
  raise_if (not (is_empty artifact.run_id) && not (artifact.run_id == run_id))
      (invalid_request "artifact.run_id must match request.run_id")
  pure artifact
selected root run_id none = latest root run_id

unfoldable pub refresh_weights :
    String → String → Option WeightArtifact → Exec (Hosted State) WeightArtifact
unfolding selected
refresh_weights root run_id artifact = do
  raise_if (is_empty run_id) (invalid_request "run_id is required")
  loaded ← selected root run_id artifact
  modify (load run_id loaded)
  pure loaded

-- The loaded artifact of the run, loading the latest one if there is none.
unfoldable pub ensure_loaded :
    String → String → Option WeightArtifact → Exec (Hosted State) WeightArtifact
ensure_loaded root run_id (some artifact) = pure artifact
ensure_loaded root run_id none = do
  artifact ← latest root run_id
  modify (load run_id artifact)
  pure artifact

-- `prompt.token_ids[-1] if prompt.token_ids else 0`
unfoldable pub last_token : List ℤ → ℤ
last_token [] = pos 0
last_token (t ∷ []) = t
last_token (t ∷ u ∷ ts) = last_token (u ∷ ts)

-- The tokens of one sample, for offsets from `offset` on.
unfoldable pub sample_tokens : ℤ → ℤ → ℕ → ℕ → List ℤ
sample_tokens base version start max_tokens =
    map (λ offset. base +ℤ version +ℤ pos start +ℤ pos offset +ℤ pos 1) (range 0 max_tokens)

-- `n or 1`
abbrev at_least_one : ℕ → ℕ
at_least_one zero = 1
at_least_one (suc n) = suc n

unfoldable pub count_input : ModelInput → ℕ
count_input prompt =
    if not (is_empty prompt.text) && is_nil prompt.token_ids
    then at_least_one (word_count prompt.text)
    else length prompt.token_ids

module _ (F : Float) where
  unfoldable pub sample_sequence : ModelInput → WeightArtifact → ℕ → ℕ → SampledSequence F.Real
  sample_sequence prompt artifact max_tokens index =
      let tokens =
        sample_tokens (last_token prompt.token_ids) artifact.checkpoint_version (index * max_tokens)
          max_tokens in
      record {
        text =
            if is_empty prompt.text
            then ""
            else prompt.text
              <> ("<fake:" <> (show_ℤ artifact.checkpoint_version <> (":" <> (show index <> ">"))));
        tokens = tokens;
        logprobs = map (λ t. F.literal (negsuc 0) 1) tokens;
        stop_reason = "length";
      }

  -- The samples numbered from `index` on.
  unfoldable pub sample_sequences :
      ModelInput → WeightArtifact → ℕ → ℕ → ℕ → List (SampledSequence F.Real)
  sample_sequences prompt artifact max_tokens index zero = []
  sample_sequences prompt artifact max_tokens index (suc n) =
      sample_sequence prompt artifact max_tokens index
      ∷ sample_sequences prompt artifact max_tokens (index + 1) n

  unfoldable pub check_sampling : SamplingParams F.Real → ℤ → Result (Unit {0})
  check_sampling params num_samples =
      unless (is_nonpos params.max_tokens)
        (invalid_request "sampling_params.max_tokens must be positive")
        (unless (is_nonpos num_samples) (invalid_request "num_samples must be positive") (
          unless (F.le params.top_p (F.of_int (pos 0)) || F.lt (F.of_int (pos 1)) params.top_p)
            (invalid_request "sampling_params.top_p must be in (0, 1]") (ok tt)))

  unfoldable pub sample :
      String
      → String
      → ModelInput
      → SamplingParams F.Real
      → ℤ
      → Exec (Hosted State) (SampleResult F.Real)
  unfolding ensure_loaded
  sample root run_id prompt params num_samples = do
    raise_if (is_empty run_id) (invalid_request "run_id is required")
    lift (check_sampling params num_samples)
    found ← gets (λ h. lookup run_id h.own)
    artifact ← ensure_loaded root run_id found
    let sequences =
        sample_sequences prompt artifact (pos_part params.max_tokens) 0 (pos_part num_samples)
    pure (record {
      run_id = run_id;
      sequences = sequences;
      artifact = artifact;
      usage = record no_usage {
        input_tokens = pos (count_input prompt);
        output_tokens = params.max_tokens *ℤ num_samples;
        samples = num_samples;
      };
    })

abbrev pub fake_inference : (F : Float) → String → InferenceBackend F.Real
fake_inference F root = record {
  State = State;
  refresh_weights = refresh_weights root;
  sample = sample F root;
}
