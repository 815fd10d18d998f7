-- ===== src/Torchrun/Ranks.antt =====
-- The ranks of a distributed job.
use ganker.Base.{
  ℕ, zero, suc, ◌+◌, ◌*◌, ◌/◌, ◌%◌, ◌<◌, ◌≡◌, refl, ap, ◌∙◌, false, ◌&&◌, arith, Option,
}
use native.Mathlib.Nat.{div-add-mod', mod-lt, div-lt_iff_lt-mul}
use mathlib.Core.Path.{subst, subst₂, ap₂}
use ganker.Base.Int.{
  ℤ, pos, negsuc, ◌+ℤ◌, ◌*ℤ◌, ◌≤ℤ◌, ◌<ℤ◌, floor_div, modulo, is_nonpos, is_neg, eqb_ℤ,
}
use ganker.Base.Result.{ok}
use ganker.Torchrun.{
  MegatronRankInfo, DistributedTrainingConfig, is_artifact_writer, check_config, world_size,
  model_parallel_size, data_parallel_size, rank_info_from_global_rank, is_nonzero,
}

-- Where a rank stands: the three coordinates are within their sizes and give the rank back.
abbrev pub IsPlaced : DistributedTrainingConfig → ℤ → MegatronRankInfo → Type 0
IsPlaced c g r =
    (g
      ≡ r.data_parallel_rank *ℤ model_parallel_size c
        +ℤ (r.pipeline_model_parallel_rank *ℤ c.tensor_model_parallel_size
            +ℤ r.tensor_model_parallel_rank))
    × (pos 0 ≤ℤ r.data_parallel_rank)
    × (r.data_parallel_rank <ℤ data_parallel_size c)
    × (pos 0 ≤ℤ r.pipeline_model_parallel_rank)
    × (r.pipeline_model_parallel_rank <ℤ c.pipeline_model_parallel_size)
    × (pos 0 ≤ℤ r.tensor_model_parallel_rank)
    × (r.tensor_model_parallel_rank <ℤ c.tensor_model_parallel_size)
    × (is_artifact_writer r ≡ eqb_ℤ g (pos 0))

div-bound : (x a b : ℕ) → 0 < a → x < b * a → x / a < b
div-bound x a b p h = (div-lt_iff_lt-mul {k = a} {x = x} {y = b} p).1 h

abbrev placed : ℕ → ℕ → ℕ → ℕ → ℕ → ℕ → ℕ → ℕ → MegatronRankInfo
placed w d t p x dr pr tr = record {
  global_rank = pos x;
  world_size = pos w;
  data_parallel_rank = pos dr;
  data_parallel_size = pos d;
  tensor_model_parallel_rank = pos tr;
  tensor_model_parallel_size = pos t;
  pipeline_model_parallel_rank = pos pr;
  pipeline_model_parallel_size = pos p;
}

-- The positive sizes of an accepted config.
abbrev config : ℕ → ℕ → ℕ → ℕ → ℤ → Option ℤ → DistributedTrainingConfig
config n g t p m gb = record {
  n_nodes = pos (suc n);
  gpus_per_node = pos (suc g);
  tensor_model_parallel_size = pos (suc t);
  pipeline_model_parallel_size = pos (suc p);
  micro_batch_size = m;
  global_batch_size = gb;
}

writer :
    (x a s b t c : ℕ)
    → x ≡ a * s + (b * t + c)
    → 0 < s
    → 0 < t
    → (eqb_ℤ (pos a) (pos 0) && (eqb_ℤ (pos c) (pos 0) && eqb_ℤ (pos b) (pos 0)))
      ≡ eqb_ℤ (pos x) (pos 0)
writer x zero s zero t zero e hs ht = let z : x ≡ 0 = omega (arith, e) in ground arith
writer x zero s zero t (suc c) e hs ht = let z : 0 < x = omega (arith, e) in ground arith
writer x zero s (suc b) t c e hs ht = let z : 0 < x = omega (arith, e, ht) in ground arith
writer x (suc a) s b t c e hs ht = let z : 0 < x = omega (arith, e, hs) in ground arith

positive_place :
    (n g t p : ℕ) (m : ℤ) (gb : Option ℤ) (x : ℕ) (r : MegatronRankInfo)
    → (suc n * suc g) % (suc t * suc p) ≡ 0
    → rank_info_from_global_rank (config n g t p m gb) (pos x) ≡ ok r
    → IsPlaced (config n g t p m gb) (pos x) r
unfolding rank_info_from_global_rank world_size model_parallel_size data_parallel_size ◌*ℤ◌ ◌+ℤ◌
    floor_div modulo is_artifact_writer
positive_place n g t p m gb x r d e =
    let w = suc n * suc g in
    let s = suc t * suc p in
    let y = x % s in
    let s_positive : 0 < s = omega arith in
    let below : x < w = ground arith in
    let whole : w / s * s + w % s ≡ w = div-add-mod' w s in
    let exact : x < w / s * s = omega (arith, whole, d, below) in
    let split : x / s * s + y ≡ x = div-add-mod' x s in
    let split' : y / suc t * suc t + y % suc t ≡ y = div-add-mod' y (suc t) in
    let y_below : y < s = mod-lt x s_positive in
    let swapped : suc t * suc p ≡ suc p * suc t = omega arith in
    let y_below' : y < suc p * suc t = omega (arith, y_below, swapped) in
    let t_positive : 0 < suc t = omega arith in
    let b1 : x / s < w / s = div-bound x s (w / s) s_positive exact in
    let b2 : y / suc t < suc p = div-bound y (suc t) (suc p) t_positive y_below' in
    let b3 : y % suc t < suc t = mod-lt y t_positive in
    let back : x ≡ x / s * s + (y / suc t * suc t + y % suc t) = omega (arith, split, split') in
    let same : placed w (w / s) (suc t) (suc p) x (x / s) (y / suc t) (y % suc t) ≡ r =
      ground arith in
    subst (IsPlaced (config n g t p m gb) (pos x)) same (
      ap pos back,
      omega arith,
      omega (arith, b1),
      omega arith,
      omega (arith, b2),
      omega arith,
      omega (arith, b3),
      writer x (x / s) s (y / suc t) (suc t) (y % suc t) back s_positive t_positive,
    )

positive : (z : ℤ) → is_nonpos z ≡ false → (k : ℕ) × (pos (suc k) ≡ z)
positive (pos zero) h = cc
positive (pos (suc k)) h = (k, refl)
positive (negsuc k) h = cc

natural : (z : ℤ) → is_neg z ≡ false → (k : ℕ) × (pos k ≡ z)
natural (pos k) h = (k, refl)
natural (negsuc k) h = cc

not_negative :
    (c : DistributedTrainingConfig) (g : ℤ) (r : MegatronRankInfo)
    → rank_info_from_global_rank c g ≡ ok r
    → is_neg g ≡ false
unfolding rank_info_from_global_rank
not_negative c g r e = ground arith

exact_sizes :
    (n g t p : ℕ) (m : ℤ) (gb : Option ℤ)
    → is_nonzero
        (modulo (world_size (config n g t p m gb)) (model_parallel_size (config n g t p m gb)))
      ≡ false
    → (suc n * suc g) % (suc t * suc p) ≡ 0
unfolding world_size model_parallel_size ◌*ℤ◌ modulo
exact_sizes n g t p m gb h = ground arith

-- In an accepted config, a rank that has a place stands at a data parallel, a pipeline parallel and
-- a tensor parallel rank that are at least zero and less than the size of their group, and these
-- give the global rank back, so that no two ranks share a place; and the rank writes the artifact
-- exactly if it is rank 0.
pub rank_info_from_global_rank_place :
    (c : DistributedTrainingConfig) (g : ℤ) (r : MegatronRankInfo)
    → check_config c ≡ ok tt
    → rank_info_from_global_rank c g ≡ ok r
    → IsPlaced c g r
unfolding check_config
rank_info_from_global_rank_place c g r h e =
    let (n, en) = positive c.n_nodes (ground arith) in
    let (k, ek) = positive c.gpus_per_node (ground arith) in
    let (t, et) = positive c.tensor_model_parallel_size (ground arith) in
    let (p, ep) = positive c.pipeline_model_parallel_size (ground arith) in
    let (x, ex) = natural g (not_negative c g r e) in
    let path : config n k t p c.micro_batch_size c.global_batch_size ≡ c = λ i. record {
      n_nodes = en i;
      gpus_per_node = ek i;
      tensor_model_parallel_size = et i;
      pipeline_model_parallel_size = ep i;
      micro_batch_size = c.micro_batch_size;
      global_batch_size = c.global_batch_size;
    } in
    let divides : is_nonzero (modulo (world_size c) (model_parallel_size c)) ≡ false =
      ground arith in
    subst₂ (λ c' g'. IsPlaced c' g' r) path ex
      (positive_place n k t p c.micro_batch_size c.global_batch_size x r
        (exact_sizes n k t p c.micro_batch_size c.global_batch_size (
          ap
            (λ (c' : DistributedTrainingConfig).
              is_nonzero (modulo (world_size c') (model_parallel_size c')))
            path
          ∙ divides))
        (ap₂ rank_info_from_global_rank path ex ∙ e))
