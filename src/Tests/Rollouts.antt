-- ===== src/Tests/Rollouts.antt =====
-- The SGLang backend over a small runtime.
use ganker.Base.{arith, suc, ℕ, ◌≡◌, refl, List, [], ◌∷◌, some, string_dec}
use ganker.Base.Int.{ℤ, pos}
use ganker.Base.Result.{ok}
use ganker.Base.Dict.{lookup, insert}
use ganker.Base.File.{FileSystem, json}
use ganker.Contracts.{delta, ModelInput, WeightArtifact}
use ganker.Backends.Sglang
use ganker.Backends.Sglang.{SglangRuntime, SglangGeneration, NoObject, no_json, sglang_inference}
use ganker.Backends.Fake.Inference.{fake_inference}
use ganker.Backends.Sglang.Passing.{
  InferenceCall, refresh_call, sample_call, answers, KeepsArtifact,
}
use ganker.Backends.Sglang.Refinement.{sglang-refines}
use ganker.Tests.Data.{whole, sampling}

-- It counts its calls.
abbrev counting : SglangRuntime ℤ
counting = record {
  World = ℕ;
  refresh_weights = λ run_id artifact payload w. (
    ok (record {
      artifact = artifact;
      artifact_format = "base-model";
      model_path = "m";
      lora_name = "";
      lora_path = "";
      payload = payload;
    }),
    suc w,
  );
  sample = λ prompt params n loaded w. (
    ok (
        record {
          text = "";
          token_ids = pos 7 ∷ [];
          logprobs = pos 0 ∷ [];
          prompt_tokens = pos 2;
          output_tokens = pos 1;
          stop_reason = "length";
        }
        ∷ []),
    suc w,
  );
}

counting-KeepsArtifact : KeepsArtifact counting
counting-KeepsArtifact = record { keeps = λ run_id artifact payload w loaded e. ground arith }

abbrev not_json : List ℕ → NoObject
not_json bytes = no_json

abbrev artifact : WeightArtifact
artifact = record {
  run_id = "r";
  checkpoint_version = pos 3;
  kind = delta;
  manifest_path = "m";
  payload_path = "p";
}

abbrev files : FileSystem
files = ("p", json []) ∷ []

abbrev prompt : ModelInput
prompt = record { token_ids = pos 4 ∷ pos 10 ∷ []; text = "" }

abbrev two_calls : List (FileSystem × InferenceCall ℤ)
two_calls =
    (files, refresh_call "r" (some artifact))
    ∷ (files, sample_call "r" prompt sampling (pos 1))
    ∷ []

answered :
    answers
      (sglang_inference whole counting not_json "/w")
      two_calls
      (record { loaded_artifacts = []; world = 0 })
    ≡ ok (artifact ∷ artifact ∷ [])
unfolding answers Sglang.refresh_weights string_dec lookup Sglang.sample insert
answered = refl

sglang-refines_example :
    answers (fake_inference whole "/w") two_calls [] ≡ ok (artifact ∷ artifact ∷ [])
sglang-refines_example =
    sglang-refines whole counting counting-KeepsArtifact not_json "/w" two_calls 0
      (artifact ∷ artifact ∷ []) answered
