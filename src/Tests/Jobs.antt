-- ===== src/Tests/Jobs.antt =====
-- A job on two nodes of four devices, with groups of two by two.
use ganker.Base.{◌+◌, ◌*◌, ◌<◌, String, ◌≡◌, refl, List, [], ◌∷◌, some, length, get_elem?, arith}
use ganker.Base.Int.{pos, ◌*ℤ◌, floor_div, modulo}
use ganker.Base.Result.{ok}
use ganker.Torchrun.{
  DistributedTrainingConfig, MegatronRankInfo, check_config, rank_info_from_global_rank,
  select_data_parallel_items, world_size, model_parallel_size, data_parallel_size,
  effective_global_batch_size,
}
use ganker.Torchrun.Ranks.{IsPlaced, rank_info_from_global_rank_place}
use ganker.Torchrun.Selection.{position, select_data_parallel_items_total}

abbrev job : DistributedTrainingConfig
job = record {
  n_nodes = pos 2;
  gpus_per_node = pos 4;
  tensor_model_parallel_size = pos 2;
  pipeline_model_parallel_size = pos 2;
  micro_batch_size = pos 1;
  global_batch_size = some (pos 4);
}

abbrev rank_seven : MegatronRankInfo
rank_seven = record {
  global_rank = pos 7;
  world_size = pos 8;
  data_parallel_rank = pos 1;
  data_parallel_size = pos 2;
  tensor_model_parallel_rank = pos 1;
  tensor_model_parallel_size = pos 2;
  pipeline_model_parallel_rank = pos 1;
  pipeline_model_parallel_size = pos 2;
}

accepted : check_config job ≡ ok tt
unfolding check_config modulo world_size ◌*ℤ◌ model_parallel_size effective_global_batch_size
    data_parallel_size floor_div
accepted = refl

ranked : rank_info_from_global_rank job (pos 7) ≡ ok rank_seven
unfolding rank_info_from_global_rank world_size ◌*ℤ◌ floor_div data_parallel_size modulo
    model_parallel_size
ranked = refl

rank_info_from_global_rank_place_example : IsPlaced job (pos 7) rank_seven
rank_info_from_global_rank_place_example =
    rank_info_from_global_rank_place job (pos 7) rank_seven accepted ranked

abbrev letters : List String
letters = "a" ∷ "b" ∷ "c" ∷ []

filled : 0 < length letters
filled = omega arith

below : 1 < 2
below = omega arith

select_data_parallel_items_total_example :
    (xs : List String) × (select_data_parallel_items letters (pos 3) (pos 1) (pos 2) (pos 2)
      ≡ ok xs)
    × (length xs ≡ 2)
    × (get_elem? xs 1 ≡ get_elem? letters (position letters (3 * 2 + 1) 1 2))
select_data_parallel_items_total_example =
    select_data_parallel_items_total letters 3 1 2 2 1 filled below below
