-- ===== src/Tests/Meshes.antt =====
-- A mesh of the fake backends.
use ganker.Base.{
  ℕ, String, ◌≡◌, refl, List, [], ◌∷◌, ◌++◌, Option, some, none, Bool, true, false, string_dec,
  is_empty, ◌⊎◌,
}
use ganker.Base.Int.{ℤ, pos, ◌+ℤ◌}
use ganker.Base.Result.{Result, ok, is_ok, fmap, Error, err, other_error}
use ganker.Base.Dict.{lookup, insert}
use ganker.Base.Order.{sorted}
use ganker.Contracts.{
  lora, delta, from_text, RefreshWeightsResponse, add, TelemetrySummary, UsageBySource, no_usage,
  CreateTrainingRunRequest, ForwardBackwardRequest, ForwardBackwardResponse, OptimStepRequest,
  OptimStepResponse, SaveWeightsRequest, SaveWeightsResponse, SampleResponse,
  GetTelemetrySummaryRequest,
}
use ganker.Telemetry.{summary, tally_events, tally_event, at_names}
use ganker.Backends.Fake.Training.{init, fake_training, new_run}
use ganker.Backends.Fake.Training.Runs.{IsValid}
use ganker.Backends.Fake.Training.Calls.{calls-IsValid, create}
use ganker.Backends.Fake.Inference.{fake_inference}
use ganker.Actors.{Mesh, Uuids}
use ganker.Actors.Proxy
use ganker.Actors.Calls.{Call, Reply, step_call, step_reply, serve_proxy, serve_controller}
use ganker.Actors.Routes.{serve_controller_ledger}
use ganker.Actors.Ledger.{posted, serve_proxy_ledger}
use ganker.Actors.Billing.{charge, serve_proxy_charges}
use ganker.Actors.Handoff.{save_refresh_sample}
use ganker.Tests.Data.{whole, adam, context, sampling, steps_usage}

abbrev uuids : Uuids
uuids = record { of_call = "u"; of_record = "v" }

abbrev FakeMesh : Type 0
FakeMesh = Mesh (fake_training whole "/w") (fake_inference whole "/w")

abbrev mesh : FakeMesh
mesh = record {
  training = record {
    run_counter = 2;
    runs = ("run-000001", new_run "run-000001" "m" lora (pos 8)) ∷ [];
  };
  rollout = [];
  telemetry = [];
  files = [];
}

abbrev step_request : Call ℤ
step_request = step_call (record { context = context; run_id = "run-000001"; optimizer = adam })

named : is_empty uuids.of_call ≡ false
unfolding string_dec
named = refl

-- An error of an endpoint as the caller's side sees it
abbrev monarch_error : Error → Error
monarch_error error = other_error "remote actor call failed"

serve_controller_ledger_example :
    let (r, after) =
      serve_controller
        (fake_training whole "/w")
        (fake_inference whole "/w")
        monarch_error
        uuids
        step_request
        mesh in
    ((reply : Reply ℤ) × (r ≡ ok reply) × (after.telemetry ≡ mesh.telemetry ++ posted reply))
    ⊎ ((error : Error) × (r ≡ err (monarch_error error)) × (after.telemetry ≡ mesh.telemetry))
serve_controller_ledger_example =
    serve_controller_ledger (fake_training whole "/w") (fake_inference whole "/w") monarch_error
      uuids step_request mesh named

serve_proxy_ledger_example :
    ((reply : Reply ℤ) × ((serve_proxy
          (fake_training whole "/w")
          (fake_inference whole "/w")
          uuids
          step_request
          mesh).0
        ≡ ok reply)
      × ((serve_proxy
            (fake_training whole "/w")
            (fake_inference whole "/w")
            uuids
            step_request
            mesh).1.telemetry
          ≡ [] ++ posted reply))
    ⊎ ((is_ok
            (serve_proxy
              (fake_training whole "/w")
              (fake_inference whole "/w")
              uuids
              step_request
              mesh).0
          ≡ false)
        × ((serve_proxy
              (fake_training whole "/w")
              (fake_inference whole "/w")
              uuids
              step_request
              mesh).1.telemetry
            ≡ []))
serve_proxy_ledger_example =
    serve_proxy_ledger (fake_training whole "/w") (fake_inference whole "/w") uuids step_request
      mesh named

abbrev stepped : Reply ℤ
stepped = step_reply (record {
  request_id = "r-1";
  run_id = "run-000001";
  optimizer_step = pos 1;
  checkpoint_version = pos 1;
  usage = steps_usage;
})

abbrev before : TelemetrySummary
before = record { run_id = "run-000001"; total = no_usage; event_count = pos 0; by_source = [] }

abbrev after : TelemetrySummary
after = record {
  run_id = "run-000001";
  total = steps_usage;
  event_count = pos 1;
  by_source = (record { event_source = "trainer"; usage = steps_usage; event_count = pos 1 }) ∷ [];
}

serves :
    (serve_proxy (fake_training whole "/w") (fake_inference whole "/w") uuids step_request mesh).0
    ≡ ok stepped
unfolding serve_proxy ganker.Actors.on_training ganker.Components.optim_step
    ganker.Backends.Fake.Training.optim_step string_dec lookup Proxy.record_usage
    ganker.Contracts.has_activity ganker.Actors.on_telemetry ganker.Telemetry.handle_record ◌+ℤ◌
serves = refl

summary_before : summary mesh.telemetry "run-000001" ≡ ok before
unfolding summary string_dec sorted
summary_before = refl

summary_after :
    summary
      (serve_proxy
        (fake_training whole "/w")
        (fake_inference whole "/w")
        uuids
        step_request
        mesh).1.telemetry
      "run-000001"
    ≡ ok after
unfolding summary string_dec serve_proxy sorted ganker.Actors.on_training
    ganker.Components.optim_step ganker.Backends.Fake.Training.optim_step lookup Proxy.record_usage
    ganker.Contracts.has_activity ganker.Actors.on_telemetry ganker.Telemetry.handle_record add
    insert ◌+ℤ◌
summary_after = refl

serve_proxy_charges_example : after.total ≡ add before.total (charge "run-000001" stepped)
serve_proxy_charges_example =
    serve_proxy_charges (fake_training whole "/w") (fake_inference whole "/w") uuids step_request
      mesh stepped "run-000001" before after named serves summary_before summary_after

training-IsValid : IsValid mesh.training
unfolding ganker.Backends.Fake.Training.Calls.calls ganker.Backends.Fake.Training.Calls.call
    ganker.Backends.Fake.Training.create_training_run ganker.Backends.Fake.Training.check_run
    string_dec insert ganker.Backends.Fake.Training.run_name ganker.Base.Text.show_padded
training-IsValid = calls-IsValid whole "/w" (create "m" lora (pos 8) ∷ []) []

abbrev save_request : SaveWeightsRequest
save_request = record { context = context; run_id = "run-000001"; kind = delta }

abbrev saved : SaveWeightsResponse
saved = record {
  request_id = "r-1";
  artifact = record {
    run_id = "run-000001";
    checkpoint_version = pos 0;
    kind = delta;
    manifest_path = "/w/weights/run-000001/checkpoint-0.manifest.json";
    payload_path = "/w/weights/run-000001/checkpoint-0.payload.json";
  };
}

saves :
    (Proxy.save_weights
      (fake_training whole "/w")
      (fake_inference whole "/w")
      uuids
      save_request
      mesh).0
    ≡ ok saved
unfolding Proxy.save_weights ganker.Actors.on_training ganker.Components.save_weights
    ganker.Backends.Fake.Training.save_weights string_dec lookup ganker.Artifacts.write
    ganker.Telemetry.request_id_from ganker.Artifacts.artifact_of ganker.Base.File.◌//◌
    ganker.Artifacts.manifest_name ganker.Artifacts.payload_name ganker.Base.Text.show_ℤ
    ganker.Artifacts.run_dir
saves = refl

abbrev mesh_saved : FakeMesh
mesh_saved =
    (Proxy.save_weights (fake_training whole "/w") (fake_inference whole "/w") uuids save_request
      mesh).1

abbrev refreshed : Result RefreshWeightsResponse × FakeMesh
refreshed =
    Proxy.refresh_weights (fake_training whole "/w") (fake_inference whole "/w") uuids
      (record { context = context; run_id = "run-000001"; artifact = none }) mesh_saved

abbrev sampled : Result (SampleResponse ℤ) × FakeMesh
sampled =
    Proxy.sample (fake_training whole "/w") (fake_inference whole "/w") uuids
      (record {
        context = context;
        run_id = "run-000001";
        prompt = from_text "a b";
        sampling_params = sampling;
        num_samples = pos 1;
      })
      refreshed.1

save_refresh_sample_example :
    (fmap (λ r. r.artifact) refreshed.0 ≡ ok saved.artifact)
    × ((is_ok sampled.0 ≡ false)
        ⊎ ((response : SampleResponse ℤ) × (sampled.0 ≡ ok response)
            × (response.artifact ≡ saved.artifact)))
save_refresh_sample_example =
    save_refresh_sample whole "/w" uuids uuids uuids mesh save_request saved context context
      (from_text "a b") sampling (pos 1) training-IsValid saves
