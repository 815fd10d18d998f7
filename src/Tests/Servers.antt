-- ===== src/Tests/Servers.antt =====
-- The HTTP runtime on a machine whose clock is a number.
use native.Mathlib.Decide.{dec_lt}
use ganker.Base.{
  inl, inr, ℕ, suc, zero, ◌+◌, ◌-◌, ◌<◌, String, ◌≡◌, refl, List, [], ◌∷◌, some, none, true, false,
  string_dec, arith,
}
use ganker.Base.Int.{ℤ, pos}
use ganker.Base.Result.{ok}
use ganker.Base.Dict.{lookup, is_some}
use ganker.Base.File.{JsonObject, str}
use ganker.Contracts.{delta, WeightArtifact}
use ganker.Backends.Sglang.{SglangLoadedArtifact}
use ganker.Backends.Sglang.Http.{SglangBackendConfig, Host}
use ganker.Backends.Sglang.Refreshes
use ganker.Backends.Sglang.Server.{HttpState, wait_rounds}
use ganker.Backends.Sglang.Seen.{IsConsistent, Refreshed}
use ganker.Backends.Sglang.Serving.{refresh_weights-HasLoaded}
use ganker.Backends.Sglang.Watched.{watched}
use ganker.Backends.Sglang.Waiting.{Passes, wait_rounds_end}
use ganker.Tests.Data.{whole}

abbrev machine : Host ℤ
machine = record {
  World = ℕ;
  Process = List String;
  executable = "python";
  popen = λ cmd w. (ok cmd, w);
  poll = λ p w. (none, w);
  terminate = λ p w. (ok tt, w);
  wait = λ p w. (ok true, w);
  kill = λ p w. (ok tt, w);
  wait_ended = λ p w. (ok tt, w);
  monotonic = λ w. (pos w, w);
  sleep = λ w. suc w;
  get = λ url timeout w. (ok tt, w);
  post_json = λ url body timeout w. (ok tt, w);
  repr = λ s. s;
  show_float = λ x. "";
}

abbrev config : SglangBackendConfig ℤ
config = record {
  base_url = "";
  host = "localhost";
  port = pos 30000;
  model_path = "";
  served_model_name = "";
  tensor_parallel_size = none;
  data_parallel_size = none;
  return_logprobs = true;
  enable_lora = true;
  max_lora_rank = pos 8;
  launch_server = true;
  startup_timeout = pos 3;
  request_timeout = pos 60;
  extra_server_args = [];
}

abbrev ticking : Passes whole config machine (pos 3)
ticking = record {
  left = λ w. 3 - w;
  over = λ w h. ground arith;
  read = λ w. omega arith;
  polled = λ p w. omega arith;
  asked = λ url t w. omega arith;
  slept = λ w. elim (dec_lt w 3) [ yes l ↦ inl (omega arith) | no l ↦ inr (omega arith) ];
}

wait_rounds_end_example : is_some (wait_rounds whole config machine 4 (pos 3) [] 0) ≡ true
wait_rounds_end_example = wait_rounds_end whole config machine (pos 3) ticking [] 4 0 (omega arith)

abbrev artifact : WeightArtifact
artifact = record {
  run_id = "r";
  checkpoint_version = pos 3;
  kind = delta;
  manifest_path = "m";
  payload_path = "p";
}

abbrev payload : JsonObject
payload =
    ("artifact_format", str "hf-lora-adapter")
    ∷ ("base_model", str "base")
    ∷ ("hf_adapter_path", str "adapter")
    ∷ []

abbrev no_process : HttpState whole config (watched machine)
no_process = record {
  process = none;
  active_model_path = "";
  loaded_loras = [];
  world = record { inner = 0; launched = none; posts = []; polled = none };
}

nothing_noted : IsConsistent whole config machine 4 no_process
unfolding lookup
nothing_noted = (tt, λ name. tt)

abbrev loaded : SglangLoadedArtifact
loaded = record {
  artifact = artifact;
  artifact_format = "hf-lora-adapter";
  model_path = "base";
  lora_name = "r-ckpt-3";
  lora_path = "adapter";
  payload = payload;
}

refreshed :
    (Refreshes.refresh_weights whole config (watched machine) 4 "r" artifact payload no_process).0
    ≡ ok loaded
unfolding Refreshes.refresh_weights string_dec ganker.Backends.Sglang.Http.str_or_empty lookup
    ganker.Backends.Sglang.Http.required_str ganker.Base.Int.◌+ℤ◌
    ganker.Backends.Sglang.Http.adapter_name ganker.Base.Text.show_ℤ
refreshed = refl

refresh_weights-HasLoaded_example :
    Refreshed whole config machine 4 artifact "hf-lora-adapter"
      (Refreshes.refresh_weights whole config (watched machine) 4 "r" artifact payload no_process)
unfolding Refreshes.artifact_format_of string_dec ganker.Backends.Sglang.Http.str_or_empty
    Refreshes.refresh_weights lookup
refresh_weights-HasLoaded_example =
    refresh_weights-HasLoaded whole config machine 4 "r" artifact payload no_process refl
      nothing_noted
