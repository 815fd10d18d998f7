-- ===== src/Sft/Loop/Counting.antt =====
-- What the training loop of examples/sft/loop.py asks of a transport, and when it saves.
use native.Mathlib.Decide.{dec_lt}
use native.Mathlib.Nat.{mod_self, add-mod_right}
use ganker.Base.{
  ℕ, suc, ◌+◌, ◌%◌, ◌<◌, ◌≤◌, String, ◌≡◌, ◌≢◌, ap, ◌∙◌, List, [], ◌∷◌, arith, ◌⊎◌, false, true,
  is_empty, leb, if◌then◌else◌,
}
use ganker.Base.Int.{pos}
use ganker.Base.Returns.{Returns}
use ganker.Contracts.{
  ArtifactKind, Datum, AdamParams, WeightArtifact, CreateTrainingRunRequest, ForwardBackwardRequest,
  OptimStepRequest, SaveWeightsRequest,
}
use ganker.Artifacts.{is_known}
use ganker.Transport.Proxies.{ProxyTransport}

-- The transport answers the calls whose arguments fit, its runs count their optimizer steps, a
-- checkpoint has the number of the steps before it, and the artifact of a checkpoint depends on the
-- run, this number and the kind. `At run k` holds of a state in which the run has made `k` steps.
pub record CountsSteps {R S : Type 0} (T : ProxyTransport R S) : Type 1 where
  pub At : String → ℕ → S → Type 0
  pub artifact_at : String → ℕ → ArtifactKind → WeightArtifact
  pub RunFits : CreateTrainingRunRequest → Type 0
  pub BatchFits : List (Datum R) → Type 0
  pub OptimizerFits : AdamParams R → Type 0
  pub creates :
      (q : CreateTrainingRunRequest) (s : S)
      → RunFits q
      → Returns
          (λ a t. (a.run.checkpoint_version ≡ pos 0) × At a.run.run_id 0 t)
          (T.create_training_run q)
          s
  pub accumulates :
      (q : ForwardBackwardRequest R) (k : ℕ) (s : S)
      → BatchFits q.batch
      → is_empty q.loss_fn ≡ false
      → At q.run_id k s
      → Returns (λ a t. At q.run_id k t) (T.forward_backward q) s
  pub steps :
      (q : OptimStepRequest R) (k : ℕ) (s : S)
      → OptimizerFits q.optimizer
      → At q.run_id k s
      → Returns
          (λ a t.
            (a.optimizer_step ≡ pos (suc k))
            × (a.checkpoint_version ≡ pos (suc k))
            × (a.usage.training_steps ≡ pos 1)
            × At q.run_id (suc k) t)
          (T.optim_step q)
          s
  pub saves :
      (q : SaveWeightsRequest) (k : ℕ) (s : S)
      → is_known q.kind ≡ true
      → At q.run_id k s
      → Returns
          (λ a t. (a.artifact ≡ artifact_at q.run_id k q.kind) × At q.run_id k t)
          (T.save_weights q)
          s

-- After `k` steps `m` is the last one after which a loop that saves after each `n` steps has saved.
abbrev pub IsLastSave : ℕ → ℕ → ℕ → Type 0
IsLastSave n k m = (0 < n) × (0 < m) × (m % n ≡ 0) × (m ≤ k) × (k < m + n)

-- Or it has not saved.
abbrev pub NoSave : ℕ → ℕ → Type 0
NoSave n k = (n ≡ 0) ⊎ (k < n)

pub due_first : (n k : ℕ) → 0 < n → suc k % n ≢ 0 → k < n → suc k < n
due_first n k p h l = elim (dec_lt (suc k) n) [
  | yes less ↦ less
  | no more ↦
      let same : suc k ≡ n = omega arith in absurd (h (ap (λ (x : ℕ). x % n) same ∙ mod_self n))
]

pub due_next : (n k m : ℕ) → suc k % n ≢ 0 → m % n ≡ 0 → k < m + n → suc k < m + n
due_next n k m h z l = elim (dec_lt (suc k) (m + n)) [
  | yes less ↦ less
  | no more ↦
      let same : suc k ≡ m + n = omega arith in
      absurd (h (ap (λ (x : ℕ). x % n) same ∙ add-mod_right m n ∙ z))
]

-- `min(max_steps, batches)`
abbrev pub reached : ℕ → ℕ → ℕ
reached max batches = if leb batches max then batches else max

abbrev pub AllFit :
    {R S : Type 0} {T : ProxyTransport R S} → CountsSteps T → List (List (Datum R)) → Type 0
AllFit C [] = Unit
AllFit C (batch ∷ dataset) = C.BatchFits batch × AllFit C dataset
