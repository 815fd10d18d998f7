-- ===== src/Tests/Coordinators.antt =====
-- The Megatron backend over a runtime that counts its calls.
use ganker.Base.{
  arith, ℕ, zero, suc, ◌+◌, ◌*◌, ◌<◌, String, ◌≡◌, refl, List, [], ◌∷◌, some, none, true, false,
  string_dec, length, map, replicate, All,
}
use ganker.Base.Int.{ℤ, pos}
use ganker.Base.Result.{other_error, ok, err, is_ok}
use ganker.Base.Dict.{Dict, lookup}
use ganker.Contracts.{lora, delta, Datum, AdamParams, ArtifactKind}
use ganker.Backends.{Hosted}
use ganker.Backends.Fake.Training.{check_run}
use ganker.Backends.Megatron.{
  MegatronRuntime, State, RunState, RunStatus, ready, failed, is_active, PayloadConfig, run_message,
  new_run, run_name,
}
use ganker.Backends.Megatron.Methods.{
  create_training_run, forward_backward, optim_step, save_weights, close, with_status,
}
use ganker.Backends.Megatron.Batch.{
  TensorBatch, Torch, token_count, datums_to_tensor_batch, split_tensor_batch,
}
use ganker.Backends.Megatron.Batch.Shapes.{datums_to_tensor_batch_shape}
use ganker.Backends.Megatron.Batch.Pieces.{joined, split_tensor_batch_pieces}
use ganker.Backends.Megatron.Outcomes.{save_weights_keeps_runs, methods_step}
use ganker.Backends.Megatron.Steps.{Change}
use ganker.Backends.Megatron.Runs.{IsValid}
use ganker.Backends.Megatron.Calls.{
  Call, create, forward, step, save, close_all, calls, init, reachable-IsValid,
}
use ganker.Backends.Megatron.Ends.{close-create_training_run, ended_refuses}
use ganker.Tests.Data.{whole, datum, adam}

abbrev torch : Torch ℤ
torch = record { is_installed = true; long = λ rows. ok rows; float32 = λ rows. ok rows }

-- A runtime that refuses the optimizer step of its second run.
abbrev counting : MegatronRuntime ℤ
counting = record {
  State = ℕ;
  Handle = ℕ;
  create_run = λ base_model mode rank h. (ok h.own, record h { own = h.own + 1 });
  forward_backward = λ handle batch loss_fn config h.
      (ok (record { loss = pos 2; metrics = []; loss_fn_outputs = [] }), h);
  optim_step = λ handle params h. elim handle [
    | zero ↦ (ok tt, h)
    | suc n ↦ (err (other_error "CUDA error"), h)
  ];
  save_weights = λ handle run_id version kind h. (ok none, h);
  shutdown = λ handle h. (ok tt, h);
}

abbrev config : PayloadConfig
config = record {
  global_batch_size = pos 1;
  micro_batch_size = pos 1;
  pipeline_model_parallel_size = pos 1;
  sequence_length = pos 2;
  tensor_model_parallel_size = pos 1;
}

abbrev session : List (Call ℤ)
session =
    create "m" lora (pos 8)
    ∷ forward "meg-run-000001" (datum ∷ []) "cross_entropy" []
    ∷ step "meg-run-000001" adam
    ∷ save "meg-run-000001" delta
    ∷ close_all
    ∷ create "m" lora (pos 8)
    ∷ forward "meg-run-000002" (datum ∷ []) "cross_entropy" []
    ∷ step "meg-run-000002" adam
    ∷ []

abbrev at_end : Hosted (State counting)
at_end = calls whole torch {M = counting} "/w" config session (init counting 0 [])

reachable-IsValid_example : IsValid at_end.own.run_counter at_end.own.runs
reachable-IsValid_example = reachable-IsValid whole torch counting "/w" config session 0 []

abbrev batch : TensorBatch ℤ
batch = record {
  input_ids = (pos 5 ∷ pos 6 ∷ []) ∷ (pos 5 ∷ pos 6 ∷ []) ∷ [];
  target_tokens = (pos 6 ∷ pos 7 ∷ []) ∷ (pos 6 ∷ pos 7 ∷ []) ∷ [];
  weights = (pos 1 ∷ pos 0 ∷ []) ∷ (pos 1 ∷ pos 0 ∷ []) ∷ [];
}

abbrev piece : TensorBatch ℤ
piece = record {
  input_ids = (pos 5 ∷ pos 6 ∷ []) ∷ [];
  target_tokens = (pos 6 ∷ pos 7 ∷ []) ∷ [];
  weights = (pos 1 ∷ pos 0 ∷ []) ∷ [];
}

converts : datums_to_tensor_batch whole torch (datum ∷ datum ∷ []) "cross_entropy" ≡ ok batch
unfolding datums_to_tensor_batch string_dec ganker.Backends.Megatron.Batch.tensor_rows
    ganker.Backends.Megatron.Batch.tensor_row ganker.Backends.Megatron.Batch.required_tensor_values
    lookup ganker.Backends.Megatron.Batch.to_ints
converts = refl

keeps : (rows rows' : List (List ℤ)) → ok rows ≡ ok rows' → map length rows' ≡ map length rows
keeps rows rows' e = ground arith

datums_to_tensor_batch_shape_example :
    (n : ℕ) × (0 < n)
    × (map length batch.input_ids ≡ replicate 2 n)
    × (map length batch.target_tokens ≡ replicate 2 n)
    × (map length batch.weights ≡ replicate 2 n)
    × (token_count batch ≡ 2 * n)
datums_to_tensor_batch_shape_example =
    datums_to_tensor_batch_shape whole torch (datum ∷ datum ∷ []) "cross_entropy" batch keeps keeps
      converts

splits : split_tensor_batch batch (pos 1) ≡ ok (piece ∷ piece ∷ [])
unfolding split_tensor_batch ganker.Backends.Megatron.Batch.slices
splits = refl

split_tensor_batch_pieces_example :
    All (λ (x : TensorBatch ℤ). pos (length x.input_ids) ≡ pos 1) (piece ∷ piece ∷ [])
    × (joined (λ x. x.input_ids) (piece ∷ piece ∷ []) ≡ batch.input_ids)
    × (joined (λ x. x.target_tokens) (piece ∷ piece ∷ []) ≡ batch.target_tokens)
    × (joined (λ x. x.weights) (piece ∷ piece ∷ []) ≡ batch.weights)
split_tensor_batch_pieces_example =
    split_tensor_batch_pieces batch (pos 1) (piece ∷ piece ∷ []) refl refl splits

abbrev failed_run : RunState ℕ
failed_run =
    with_status failed
      (record (new_run "meg-run-000002" "m" lora (pos 8) 1) { gradient_version = pos 1 })

-- The backend after one run that failed at its optimizer step.
abbrev ended : Hosted (State counting)
ended = record {
  own = record { run_counter = 3; runs = ("meg-run-000002", failed_run) ∷ []; runtime = 2 };
  files = [];
}

abbrev handle : ℕ
handle = 2

save_weights_keeps_runs_example :
    lookup "meg-run-000002"
      (save_weights {M = counting} "/w" config "meg-run-000002" delta ended).1.own.runs
    ≡ lookup "meg-run-000002" ended.own.runs
save_weights_keeps_runs_example =
    save_weights_keeps_runs {M = counting} "/w" config "meg-run-000002" delta ended "meg-run-000002"

guarded : check_run "m" lora (pos 8) ≡ ok tt
unfolding check_run string_dec
guarded = refl

created :
    (counting.create_run "m" lora
      (pos 8)
      (record { own = (close ended).own.runtime; files = (close ended).files })).0
    ≡ ok handle
unfolding close ganker.Backends.Megatron.Methods.close_runs
    ganker.Backends.Megatron.Methods.close_run
created = refl

close-create_training_run_example :
    (create_training_run {M = counting} "m" lora (pos 8) (close ended)).0
    ≡ ok (run_message (new_run (run_name ended.own.run_counter) "m" lora (pos 8) handle))
close-create_training_run_example =
    close-create_training_run counting ended "m" lora (pos 8) handle guarded created

found : lookup "meg-run-000002" ended.own.runs ≡ some failed_run
unfolding lookup string_dec
found = refl

ended_refuses_example :
    ((data' : List (Datum ℤ)) (loss_fn : String) (loss_fn_config : Dict ℤ)
      → (is_ok
            (forward_backward whole torch {M = counting} "meg-run-000002" data' loss_fn
              loss_fn_config ended).0
          ≡ false)
        × ((forward_backward whole torch {M = counting} "meg-run-000002" data' loss_fn
              loss_fn_config ended).1
            ≡ ended))
    × ((params : AdamParams ℤ)
        → (is_ok (optim_step whole {M = counting} "meg-run-000002" params ended).0 ≡ false)
          × ((optim_step whole {M = counting} "meg-run-000002" params ended).1 ≡ ended))
    × ((kind : ArtifactKind)
        → (is_ok (save_weights {M = counting} "/w" config "meg-run-000002" kind ended).0 ≡ false)
          × ((save_weights {M = counting} "/w" config "meg-run-000002" kind ended).1 ≡ ended))
ended_refuses_example =
    ended_refuses whole torch counting "/w" "meg-run-000002" config ended failed_run found refl

methods_step_example :
    Change ended.own (create_training_run {M = counting} "m" lora (pos 8) ended).1.own
    × Change ended.own
        (forward_backward whole torch {M = counting} "meg-run-000002"
          (datum ∷ [])
          "cross_entropy"
          []
          ended).1.own
    × Change ended.own (optim_step whole {M = counting} "meg-run-000002" adam ended).1.own
    × Change ended.own (save_weights {M = counting} "/w" config "meg-run-000002" delta ended).1.own
methods_step_example =
    methods_step whole torch counting "/w" config ended "m" "meg-run-000002" "cross_entropy" lora
      (pos 8) (datum ∷ []) [] adam delta
