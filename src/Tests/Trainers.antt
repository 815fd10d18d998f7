-- ===== src/Tests/Trainers.antt =====
-- A run of the fake backend: one gradient, one optimizer step and one checkpoint.
use ganker.Base.{
  ℕ, String, ◌≡◌, ◌≢◌, refl, List, [], ◌∷◌, Option, some, none, Bool, true, false, string_dec,
  if◌then◌else◌, ◌==◌,
}
use ganker.Base.Int.{ℤ, pos, ◌+ℤ◌}
use ganker.Base.Result.{ok, KeepsOnRaise}
use ganker.Base.Dict.{lookup, insert}
use ganker.Contracts.{delta, lora, no_usage, TrainingRun}
use ganker.Backends.{Hosted, ForwardBackwardResult, OptimStepResult}
use ganker.Backends.Fake.Training.{
  State, RunState, init, new_run, run_name, put_run, create_training_run, forward_backward,
  optim_step, save_weights, run_message, fake_loss, fake_outputs,
}
use ganker.Backends.Fake.Training.Runs.{IsValid}
use ganker.Backends.Fake.Training.Calls.{
  Call, create, forward, step, save, calls, calls-IsValid, create_training_run_fresh, raise_keeps,
  token_total, forward_backward_counts, optim_step_counts,
}
use ganker.Tests.Data.{whole, datum, adam}

abbrev session : List (Call ℤ)
session =
    create "m" lora (pos 8)
    ∷ forward "run-000001" (datum ∷ []) "sft" []
    ∷ step "run-000001" adam
    ∷ save "run-000001" delta
    ∷ []

abbrev at_start : Hosted State
at_start = record { own = init; files = [] }

calls-IsValid_example : IsValid (calls whole "/w" session at_start).own
calls-IsValid_example = calls-IsValid whole "/w" session []

abbrev first_run : RunState
first_run = new_run "run-000001" "m" lora (pos 8)

abbrev with_run : Hosted State
with_run = record {
  own = record { run_counter = 2; runs = ("run-000001", first_run) ∷ [] };
  files = [];
}

raise_keeps_example :
    KeepsOnRaise (create_training_run "m" lora (pos 0)) with_run
    × KeepsOnRaise (forward_backward whole "run-000001" [] "sft" []) with_run
    × KeepsOnRaise (optim_step whole "run-000001" adam) with_run
    × KeepsOnRaise (save_weights "/w" "run-000001" delta) with_run
raise_keeps_example =
    raise_keeps whole "/w" "m" "run-000001" "sft" lora (pos 0) [] [] adam delta with_run

with_run-IsValid : IsValid with_run.own
unfolding calls ganker.Backends.Fake.Training.Calls.call create_training_run
    ganker.Backends.Fake.Training.check_run string_dec insert run_name ganker.Base.Text.show_padded
with_run-IsValid = calls-IsValid whole "/w" (create "m" lora (pos 8) ∷ []) []

abbrev second : TrainingRun
second = run_message (new_run "run-000002" "m" lora (pos 4))

create_training_run_fresh_example :
    (lookup "run-000002" with_run.own.runs ≡ none)
    × (lookup "run-000001" (create_training_run "m" lora (pos 4) with_run).1.own.runs ≡ (
        if "run-000002" == "run-000001"
        then some (new_run "run-000002" "m" lora (pos 4))
        else lookup "run-000001" with_run.own.runs))
unfolding create_training_run ganker.Backends.Fake.Training.check_run string_dec run_name
    ganker.Base.Text.show_padded
create_training_run_fresh_example =
    create_training_run_fresh "m" lora (pos 4) with_run second "run-000001" with_run-IsValid refl

abbrev gradient : ForwardBackwardResult ℤ
gradient = record {
  run_id = "run-000001";
  output = record {
    loss = fake_loss whole 2 "sft" [];
    metrics = ("loss", fake_loss whole 2 "sft" []) ∷ [];
    loss_fn_outputs = fake_outputs whole (datum ∷ []);
  };
  gradient_version = pos 1;
  usage = record no_usage { input_tokens = pos 2 };
}

found : lookup "run-000001" with_run.own.runs ≡ some first_run
unfolding lookup string_dec
found = refl

forwarded : (forward_backward whole "run-000001" (datum ∷ []) "sft" [] with_run).0 ≡ ok gradient
unfolding forward_backward string_dec lookup ganker.Backends.Fake.Training.count_tokens ◌+ℤ◌
forwarded = refl

abbrev stepped : OptimStepResult
stepped = record {
  run_id = "run-000001";
  optimizer_step = pos 1;
  checkpoint_version = pos 1;
  usage = record no_usage { training_steps = pos 1 };
}

optimized : (optim_step whole "run-000001" adam with_run).0 ≡ ok stepped
unfolding optim_step string_dec lookup ◌+ℤ◌
optimized = refl
