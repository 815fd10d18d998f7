-- ===== src/Tests/Samplers.antt =====
-- A fake inference backend that loads one artifact and samples with it twice.
use ganker.Base.{◌≡◌, refl, List, [], ◌∷◌, some, none, string_dec, length, ◌*◌, map}
use ganker.Base.Int.{ℤ, pos, negsuc, ◌+ℤ◌, ◌*ℤ◌, pos_part}
use ganker.Base.Result.{ok, KeepsOnRaise}
use ganker.Base.Dict.{lookup, insert}
use ganker.Contracts.{delta, ModelInput, SampledSequence, WeightArtifact, no_usage}
use ganker.Backends.{Hosted, SampleResult}
use ganker.Backends.Fake.Inference.{State, refresh_weights, sample, last_token}
use ganker.Backends.Fake.Inference.Tokens.{all_tokens, following, sample_tokens_consecutive}
use ganker.Backends.Fake.Inference.Loaded.{refresh_weights-sample, raise_keeps_loaded}
use ganker.Tests.Data.{whole, sampling}

abbrev artifact : WeightArtifact
artifact = record {
  run_id = "r";
  checkpoint_version = pos 3;
  kind = delta;
  manifest_path = "m";
  payload_path = "p";
}

abbrev prompt : ModelInput
prompt = record { token_ids = pos 4 ∷ pos 10 ∷ []; text = "" }

abbrev empty : Hosted State
empty = record { own = []; files = [] }

abbrev loaded : Hosted State
loaded = record { own = ("r", artifact) ∷ []; files = [] }

abbrev sequence : List ℤ → SampledSequence ℤ
sequence tokens = record {
  text = "";
  tokens = tokens;
  logprobs = map (λ t. negsuc 0) tokens;
  stop_reason = "length";
}

abbrev sampled : SampleResult ℤ
sampled = record {
  run_id = "r";
  sequences =
      sequence (pos 14 ∷ pos 15 ∷ [])
      ∷ sequence (pos 16 ∷ pos 17 ∷ [])
      ∷ sequence (pos 18 ∷ pos 19 ∷ [])
      ∷ [];
  artifact = artifact;
  usage = record no_usage { input_tokens = pos 2; output_tokens = pos 6; samples = pos 3 };
}

samples : (sample whole "/w" "r" prompt sampling (pos 3) loaded).0 ≡ ok sampled
unfolding sample string_dec ganker.Backends.Fake.Inference.check_sampling lookup
    ganker.Backends.Fake.Inference.sample_sequences ganker.Backends.Fake.Inference.count_input ◌*ℤ◌
    ganker.Backends.Fake.Inference.sample_sequence ganker.Backends.Fake.Inference.sample_tokens ◌+ℤ◌
    last_token
samples = refl

refreshes : (refresh_weights "/w" "r" (some artifact) empty).0 ≡ ok artifact
unfolding refresh_weights string_dec
refreshes = refl

samples_refreshed :
    (sample whole "/w" "r" prompt sampling
      (pos 3)
      (refresh_weights "/w" "r" (some artifact) empty).1).0
    ≡ ok sampled
unfolding sample string_dec ganker.Backends.Fake.Inference.check_sampling lookup refresh_weights
    insert ganker.Backends.Fake.Inference.sample_sequences
    ganker.Backends.Fake.Inference.count_input ◌*ℤ◌ ganker.Backends.Fake.Inference.sample_sequence
    ganker.Backends.Fake.Inference.sample_tokens ◌+ℤ◌ last_token
samples_refreshed = refl

samples_again :
    (sample whole "/w" "r" prompt sampling
      (pos 3)
      (record (sample whole "/w" "r" prompt sampling (pos 3) loaded).1 { files = [] })).0
    ≡ ok sampled
unfolding sample string_dec ganker.Backends.Fake.Inference.check_sampling lookup
    ganker.Backends.Fake.Inference.sample_sequences ganker.Backends.Fake.Inference.count_input ◌*ℤ◌
    ganker.Backends.Fake.Inference.sample_sequence ganker.Backends.Fake.Inference.sample_tokens ◌+ℤ◌
    last_token
samples_again = refl

sample_tokens_consecutive_example :
    (pos (length sampled.sequences) ≡ pos 3)
    × (all_tokens sampled.sequences
        ≡ following
            (last_token prompt.token_ids +ℤ artifact.checkpoint_version)
            1
            (pos_part (pos 3) * pos_part sampling.max_tokens))
    × (sampled.usage.samples ≡ pos 3)
    × (sampled.usage.output_tokens ≡ pos (length (all_tokens sampled.sequences)))
sample_tokens_consecutive_example =
    sample_tokens_consecutive whole "/w" "r" prompt sampling (pos 3) loaded sampled samples

refresh_weights-sample_example : sampled.artifact ≡ artifact
refresh_weights-sample_example =
    refresh_weights-sample whole "/w" "r" (some artifact) prompt sampling (pos 3) empty artifact
      sampled refreshes samples_refreshed

raise_keeps_loaded_example :
    KeepsOnRaise (refresh_weights "/w" "r" none) empty
    × KeepsOnRaise (sample whole "/w" "r" prompt sampling (pos 3)) empty
raise_keeps_loaded_example = raise_keeps_loaded whole "/w" "r" empty none prompt sampling (pos 3)
