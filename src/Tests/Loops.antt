-- ===== src/Tests/Loops.antt =====
-- The training loop over a mesh of the fake backends.
use ganker.Base.{◌<◌, arith, ℕ, ◌≡◌, refl, List, [], ◌∷◌, false, true, string_dec, is_empty}
use ganker.Base.Int.{ℤ, pos}
use ganker.Base.Result.{Error, ok, is_ok}
use ganker.Base.Returns.{Returns}
use ganker.Contracts.{lora, Datum}
use ganker.Backends.Fake.Training.{init, check_run, fake_training}
use ganker.Backends.Fake.Inference.{fake_inference}
use ganker.Actors.{Uuids}
use ganker.Transport.Proxies.{Served, monarch_proxy_transport}
use ganker.Client.{ServiceClient, named, tuning_mode}
use ganker.Sft.Loop.{run_sft}
use ganker.Sft.Loop.Counting.{AllFit}
use ganker.Sft.Loop.Report.{Reports, run_sft-Reports}
use ganker.Sft.Loop.Local.{local_counts}
use ganker.Tests.Data.{whole, datum}

abbrev new_ids : ℕ → Uuids
new_ids n = record { of_call = "u"; of_record = "v" }

abbrev same_error : Error → Error
same_error e = e

abbrev Local : Type 0
Local = Served (fake_training whole "/w") (fake_inference whole "/w")

abbrev new_mesh : Local
new_mesh = record {
  mesh = record { training = init; rollout = []; telemetry = []; files = [] };
  calls = 0;
}

abbrev client : ServiceClient ℤ Local
client = record {
  transport =
      monarch_proxy_transport (fake_training whole "/w") (fake_inference whole "/w") new_ids
        same_error;
}

id-nonempty : (n : ℕ) → is_empty (new_ids n).of_call ≡ false
unfolding string_dec
id-nonempty n = refl

abbrev dataset : List (List (Datum ℤ))
dataset = (datum ∷ []) ∷ (datum ∷ datum ∷ []) ∷ (datum ∷ []) ∷ []

known_tuning : tuning_mode (named "lora") ≡ ok lora
unfolding tuning_mode string_dec
known_tuning = refl

fitting_run : is_ok (check_run "m" lora (pos 8)) ≡ true
unfolding check_run string_dec
fitting_run = refl

fitting_data : AllFit (local_counts whole "/w" new_ids same_error id-nonempty) dataset
fitting_data =
    let one : 0 < 1 = omega arith in
    let two : 0 < 2 = omega arith in
    ((one, (two, tt)), ((two, (two, (two, tt))), ((one, (two, tt)), tt)))

-- Three batches with a save after each two steps.
run_sft-Reports_example :
    Returns
      (Reports whole client
        (local_counts whole "/w" new_ids same_error id-nonempty)
        2
        (named "lora")
        3)
      (run_sft whole client "m" dataset (named "lora") (pos 8) (pos 1) (pos 5) (pos 2))
      new_mesh
run_sft-Reports_example =
    run_sft-Reports whole client (local_counts whole "/w" new_ids same_error id-nonempty) 2
      (named "lora") "m" dataset lora (pos 8) (pos 1) 5 new_mesh (omega arith) (omega arith) refl
      known_tuning fitting_run fitting_data refl
