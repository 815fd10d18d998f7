-- ===== src/Torchrun.antt =====
-- Distributed jobs: the sizes of the parallel groups, the ranks, and the data that a rank selects.
-- src/ganker/distributed/torchrun.py
pub mod Ranks
pub mod Selection
use ganker.Base.{
  ℕ, zero, suc, ◌+◌, ◌*◌, ◌%◌, String, ◌<>◌, Bool, true, false, not, ◌&&◌, ◌||◌, Option, some, none,
  List, [], ◌∷◌, ◌++◌, is_empty, if◌then◌else◌, length, is_nil, get_elem?,
}
use ganker.Base.Int.{
  ℤ, pos, negsuc, ◌+ℤ◌, ◌*ℤ◌, floor_div, modulo, pos_part, is_nonpos, is_neg, ltb_ℤ, leb_ℤ, eqb_ℤ,
}
use ganker.Base.Text.{show_ℤ}
use ganker.Base.Result.{Error, value_error, index_error, Result, ok, err, bind, fmap, unless}

pub record MegatronRankInfo : Type 0 where
  pub global_rank : ℤ
  pub world_size : ℤ
  pub data_parallel_rank : ℤ
  pub data_parallel_size : ℤ
  pub tensor_model_parallel_rank : ℤ
  pub tensor_model_parallel_size : ℤ
  pub pipeline_model_parallel_rank : ℤ
  pub pipeline_model_parallel_size : ℤ

unfoldable pub is_artifact_writer : MegatronRankInfo → Bool
is_artifact_writer r =
    eqb_ℤ r.data_parallel_rank (pos 0)
    && (eqb_ℤ r.tensor_model_parallel_rank (pos 0) && eqb_ℤ r.pipeline_model_parallel_rank (pos 0))

unfoldable pub is_loss_reporter : MegatronRankInfo → Bool
is_loss_reporter r =
    eqb_ℤ r.tensor_model_parallel_rank (pos 0)
    && eqb_ℤ r.pipeline_model_parallel_rank (r.pipeline_model_parallel_size +ℤ negsuc 0)

pub record DistributedTrainingConfig : Type 0 where
  pub n_nodes : ℤ
  pub gpus_per_node : ℤ
  pub tensor_model_parallel_size : ℤ
  pub pipeline_model_parallel_size : ℤ
  pub micro_batch_size : ℤ
  pub global_batch_size : Option ℤ

abbrev pub or_else : Option ℤ → ℤ → ℤ
or_else none d = d
or_else (some n) d = n

abbrev pub some_nonpos : Option ℤ → Bool
some_nonpos none = false
some_nonpos (some n) = is_nonpos n

abbrev pub is_nonzero : ℤ → Bool
is_nonzero n = not (eqb_ℤ n (pos 0))

unfoldable pub world_size : DistributedTrainingConfig → ℤ
world_size c = c.n_nodes *ℤ c.gpus_per_node

unfoldable pub model_parallel_size : DistributedTrainingConfig → ℤ
model_parallel_size c = c.tensor_model_parallel_size *ℤ c.pipeline_model_parallel_size

unfoldable pub data_parallel_size : DistributedTrainingConfig → ℤ
data_parallel_size c = floor_div (world_size c) (model_parallel_size c)

unfoldable pub effective_global_batch_size : DistributedTrainingConfig → ℤ
effective_global_batch_size c =
    or_else c.global_batch_size (c.micro_batch_size *ℤ data_parallel_size c)

unfoldable pub grad_accum_steps : DistributedTrainingConfig → ℤ
grad_accum_steps c =
    floor_div (effective_global_batch_size c) (c.micro_batch_size *ℤ data_parallel_size c)

-- `__post_init__`, which a config must pass to exist. Once the world size divides, the data
-- parallel size is positive, so no guard divides by zero.
unfoldable pub check_config : DistributedTrainingConfig → Result (Unit {0})
check_config c = unless (is_nonpos c.n_nodes) (value_error "n_nodes must be positive") (
    unless (is_nonpos c.gpus_per_node) (value_error "gpus_per_node must be positive") (
      unless (is_nonpos c.tensor_model_parallel_size)
        (value_error "tensor_model_parallel_size must be positive")
        (unless (is_nonpos c.pipeline_model_parallel_size)
          (value_error "pipeline_model_parallel_size must be positive")
          (unless (is_nonpos c.micro_batch_size) (value_error "micro_batch_size must be positive") (
            unless (some_nonpos c.global_batch_size)
              (value_error "global_batch_size must be positive")
              (unless (is_nonzero (modulo (world_size c) (model_parallel_size c)))
                (value_error
                  "world_size must be divisible by tensor_model_parallel_size * pipeline_model_parallel_size")
                (unless
                  (is_nonzero (
                    modulo (effective_global_batch_size c)
                      (c.micro_batch_size *ℤ data_parallel_size c)))
                  (value_error
                    "global_batch_size must be divisible by micro_batch_size * data_parallel_size")
                  (ok tt))))))))

unfoldable pub require_dp_only : DistributedTrainingConfig → Result (Unit {0})
require_dp_only c =
    unless
      (not (eqb_ℤ c.tensor_model_parallel_size (pos 1))
        || not (eqb_ℤ c.pipeline_model_parallel_size (pos 1)))
      (value_error "the first multinode SFT implementation supports DP-only: tp=1, pp=1")
      (unless (not (eqb_ℤ (grad_accum_steps c) (pos 1)))
        (value_error "the first multinode SFT implementation requires grad_accum_steps=1") (ok tt))

unfoldable pub require_supported_model_parallel :
    DistributedTrainingConfig → Bool → Result (Unit {0})
require_supported_model_parallel c allow_pipeline_parallel =
    unless (not (eqb_ℤ c.pipeline_model_parallel_size (pos 1)) && not allow_pipeline_parallel)
      (value_error
        "pipeline_model_parallel_size > 1 is not supported by the current Qwen SFT entrypoint; TP-only model parallelism is supported first")
      (unless
        (ltb_ℤ (pos 1) c.pipeline_model_parallel_size
          && ltb_ℤ (grad_accum_steps c) c.pipeline_model_parallel_size)
        (value_error
          "pipeline parallel SFT requires grad_accum_steps >= pipeline_model_parallel_size")
        (ok tt))

unfoldable pub rank_info_from_global_rank : DistributedTrainingConfig → ℤ → Result MegatronRankInfo
rank_info_from_global_rank c global_rank =
    let model_parallel_rank = modulo global_rank (model_parallel_size c) in
    unless (is_neg global_rank || leb_ℤ (world_size c) global_rank)
      (value_error "global_rank must be in [0, world_size)")
      (ok (record {
        global_rank = global_rank;
        world_size = world_size c;
        data_parallel_rank = floor_div global_rank (model_parallel_size c);
        data_parallel_size = data_parallel_size c;
        tensor_model_parallel_rank = modulo model_parallel_rank c.tensor_model_parallel_size;
        tensor_model_parallel_size = c.tensor_model_parallel_size;
        pipeline_model_parallel_rank = floor_div model_parallel_rank c.tensor_model_parallel_size;
        pipeline_model_parallel_size = c.pipeline_model_parallel_size;
      }))

module _ {A : Type 0} where
  -- `items[index]` for an index that is not negative
  abbrev pub item_at : List A → ℕ → Result A
  item_at items index = elim (get_elem? items index) [
    | none ↦ err (index_error "list index out of range")
    | some x ↦ ok x
  ]

  unfoldable pub select_data_parallel_item : List A → ℤ → ℤ → ℤ → Result A
  select_data_parallel_item items step data_parallel_rank data_parallel_size =
      unless (is_nil items) (value_error "items cannot be empty") (
        unless (is_neg step) (value_error "step cannot be negative") (
          unless (is_nonpos data_parallel_size) (value_error "data_parallel_size must be positive")
            (unless (is_neg data_parallel_rank || leb_ℤ data_parallel_size data_parallel_rank)
              (value_error "data_parallel_rank must be in [0, data_parallel_size)")
              (item_at items (
                pos_part (
                  modulo (step *ℤ data_parallel_size +ℤ data_parallel_rank)
                    (pos (length items))))))))

  -- The items of the microsteps from `microstep` on.
  unfoldable pub select_from : List A → ℤ → ℤ → ℤ → ℤ → ℕ → ℕ → Result (List A)
  select_from items step rank size accum microstep zero = ok []
  select_from items step rank size accum microstep (suc n) =
      bind (select_data_parallel_item items (step *ℤ accum +ℤ pos microstep) rank size)
        λ x. fmap (λ xs. x ∷ xs) (select_from items step rank size accum (microstep + 1) n)

  unfoldable pub select_data_parallel_items : List A → ℤ → ℤ → ℤ → ℤ → Result (List A)
  select_data_parallel_items items step rank size accum =
      unless (is_nonpos accum) (value_error "grad_accum_steps must be positive")
        (select_from items step rank size accum 0 (pos_part accum))

pub record TorchrunLaunchConfig : Type 0 where
  pub nnodes : ℤ
  pub nproc_per_node : ℤ
  pub node_rank : ℤ
  pub master_addr : String
  pub master_port : ℤ

unfoldable pub check_launch : TorchrunLaunchConfig → Result (Unit {0})
check_launch c = unless (is_nonpos c.nnodes) (value_error "nnodes must be positive") (
    unless (is_nonpos c.nproc_per_node) (value_error "nproc_per_node must be positive") (
      unless (is_neg c.node_rank) (value_error "node_rank cannot be negative") (
        unless (leb_ℤ c.nnodes c.node_rank) (value_error "node_rank must be less than nnodes") (
          unless (is_empty c.master_addr) (value_error "master_addr is required") (
            unless (not (ltb_ℤ (pos 0) c.master_port && ltb_ℤ c.master_port (pos 65536)))
              (value_error "master_port must be a TCP port") (ok tt))))))

unfoldable pub distributed_run_args :
    TorchrunLaunchConfig → String → List String → Result (List String)
distributed_run_args c entrypoint entrypoint_args =
    unless (is_empty entrypoint) (value_error "entrypoint is required") (
      ok (
        ("--nnodes=" <> show_ℤ c.nnodes)
        ∷ ("--nproc-per-node=" <> show_ℤ c.nproc_per_node)
        ∷ ("--node-rank=" <> show_ℤ c.node_rank)
        ∷ ("--master-addr=" <> c.master_addr)
        ∷ ("--master-port=" <> show_ℤ c.master_port)
        ∷ entrypoint
        ∷ entrypoint_args))

unfoldable pub torchrun_argv : TorchrunLaunchConfig → String → List String → Result (List String)
unfolding distributed_run_args
torchrun_argv c entrypoint entrypoint_args =
    fmap (λ args. "torchrun" ∷ args) (distributed_run_args c entrypoint entrypoint_args)
