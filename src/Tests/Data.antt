-- ===== src/Tests/Data.antt =====
-- Data that the tests share: a float type, events, runs and requests.
use ganker.Base.{String, not, List, [], ◌∷◌}
use ganker.Base.Int.{ℤ, pos, ◌+ℤ◌, ◌*ℤ◌, ltb_ℤ, leb_ℤ, eqb_ℤ}
use ganker.Base.Float.{Float}
use ganker.Base.Result.{ok}
use ganker.Contracts.{
  Datum, Num, int, float, TensorData, SamplingParams, AdamParams, Usage, no_usage, UsageEvent,
  RequestContext,
}

-- Floats that are whole numbers.
abbrev sum_up : List ℤ → ℤ
sum_up [] = pos 0
sum_up (x ∷ xs) = x +ℤ sum_up xs

abbrev pub whole : Float
whole = record {
  Real = ℤ;
  literal = λ m e. m;
  of_int = λ n. n;
  add = λ a b. a +ℤ b;
  mul = λ a b. a *ℤ b;
  div = λ a b. a;
  sum = sum_up;
  lt = ltb_ℤ;
  le = leb_ℤ;
  truthy = λ a. not (eqb_ℤ a (pos 0));
  to_int = λ a. ok a;
}

abbrev pub steps_usage : Usage
steps_usage = record no_usage { training_steps = pos 1 }

abbrev pub tokens_usage : Usage
tokens_usage = record no_usage { input_tokens = pos 7 }

abbrev pub event : String → String → Usage → UsageEvent
event run_id source usage = record {
  request_id = "r";
  run_id = run_id;
  event_source = source;
  usage = usage;
}

-- Two runs and two sources.
abbrev pub events : List UsageEvent
events =
    event "a" "trainer" tokens_usage
    ∷ event "b" "trainer" steps_usage
    ∷ event "a" "rollout" steps_usage
    ∷ []

abbrev pub tensor : List (Num ℤ) → TensorData ℤ
tensor values = record { values = values }

abbrev pub datum : Datum ℤ
datum = record {
  model_input = record { token_ids = pos 5 ∷ pos 6 ∷ []; text = "" };
  loss_fn_inputs =
      ("target_tokens", tensor (int (pos 6) ∷ int (pos 7) ∷ []))
      ∷ ("weights", tensor (float (pos 1) ∷ int (pos 0) ∷ []))
      ∷ [];
}

abbrev pub adam : AdamParams ℤ
adam = record {
  learning_rate = pos 1;
  beta1 = pos 0;
  beta2 = pos 0;
  eps = pos 0;
  weight_decay = pos 0;
}

abbrev pub sampling : SamplingParams ℤ
sampling = record { max_tokens = pos 2; temperature = pos 1; top_p = pos 1; stop = [] }

abbrev pub context : RequestContext
context = record { request_id = "r-1" }
