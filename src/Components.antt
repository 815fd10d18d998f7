-- ===== src/Components.antt =====
-- `TrainingComponent` and `RolloutComponent` of src/ganker/components.py, over any backend.
use ganker.Base.{String}
use ganker.Base.Result.{Exec, pure, ◌>>=◌}
use ganker.Contracts.{
  CreateTrainingRunRequest, CreateTrainingRunResponse, ForwardBackwardRequest,
  ForwardBackwardResponse, OptimStepRequest, OptimStepResponse, SaveWeightsRequest,
  SaveWeightsResponse, RefreshWeightsRequest, RefreshWeightsResponse, SampleRequest, SampleResponse,
}
use ganker.Telemetry.{request_id_from}
use ganker.Backends.{Hosted, TrainingBackend, InferenceBackend}

-- `uuid` is what `uuid.uuid4().hex` gives in the call.
module _ {R : Type 0} (B : TrainingBackend R) (uuid : String) where
  unfoldable pub create_training_run :
      CreateTrainingRunRequest → Exec (Hosted B.State) CreateTrainingRunResponse
  create_training_run request = do
    let request_id = request_id_from uuid request.context.request_id
    run ← B.create_training_run request.base_model request.tuning_mode request.lora_rank
    pure (record { request_id = request_id; run = run })

  unfoldable pub forward_backward :
      ForwardBackwardRequest R → Exec (Hosted B.State) (ForwardBackwardResponse R)
  forward_backward request = do
    let request_id = request_id_from uuid request.context.request_id
    result ← B.forward_backward request.run_id request.batch request.loss_fn request.loss_fn_config
    pure (record {
      request_id = request_id;
      run_id = result.run_id;
      output = result.output;
      gradient_version = result.gradient_version;
      usage = result.usage;
    })

  unfoldable pub optim_step : OptimStepRequest R → Exec (Hosted B.State) OptimStepResponse
  optim_step request = do
    let request_id = request_id_from uuid request.context.request_id
    result ← B.optim_step request.run_id request.optimizer
    pure (record {
      request_id = request_id;
      run_id = result.run_id;
      optimizer_step = result.optimizer_step;
      checkpoint_version = result.checkpoint_version;
      usage = result.usage;
    })

  unfoldable pub save_weights : SaveWeightsRequest → Exec (Hosted B.State) SaveWeightsResponse
  save_weights request = do
    let request_id = request_id_from uuid request.context.request_id
    artifact ← B.save_weights request.run_id request.kind
    pure (record { request_id = request_id; artifact = artifact })

module _ {R : Type 0} (B : InferenceBackend R) (uuid : String) where
  unfoldable pub refresh_weights :
      RefreshWeightsRequest → Exec (Hosted B.State) RefreshWeightsResponse
  refresh_weights request = do
    let request_id = request_id_from uuid request.context.request_id
    artifact ← B.refresh_weights request.run_id request.artifact
    pure (record { request_id = request_id; artifact = artifact })

  unfoldable pub sample : SampleRequest R → Exec (Hosted B.State) (SampleResponse R)
  sample request = do
    let request_id = request_id_from uuid request.context.request_id
    result ← B.sample request.run_id request.prompt request.sampling_params request.num_samples
    pure (record {
      request_id = request_id;
      run_id = result.run_id;
      sequences = result.sequences;
      artifact = result.artifact;
      usage = result.usage;
    })
