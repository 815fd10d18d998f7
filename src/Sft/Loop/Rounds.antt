-- ===== src/Sft/Loop/Rounds.antt =====
-- The rounds of the training loop of examples/sft/loop.py, over a transport that counts steps.
use mathlib.Core.Path.{subst}
use native.Mathlib.Decide.{dec_lt}
use ganker.Base.{
  ℕ, suc, ◌+◌, ◌≤◌, ◌≡◌, refl, sym, Bool, true, false, Option, some, none, List, [], ◌∷◌, ◌++◌,
  length, length-append, arith, inl, inr, Bool-cases, ◌&&◌, string_dec,
}
use ganker.Base.Int.{ℤ, pos, ◌+ℤ◌, leb_ℤ, eqb_ℤ, modulo}
use ganker.Base.Float.{Float}
use ganker.Base.Result.{Exec, pure, ◌>>=◌}
use ganker.Base.Returns.{Returns, Returns-pure, Returns-bind}
use ganker.Contracts.{
  ArtifactKind, Datum, ForwardBackwardResponse, OptimStepResponse, SaveWeightsResponse, TrainingRun,
  is_nonzero,
}
use ganker.Artifacts.{is_known}
use ganker.Client
use ganker.Client.{ServiceClient, TrainingClient, many, adam_params}
use ganker.Sft.Loop.{Progress, save_if_due, sft_step, sft_steps}
use ganker.Sft.Loop.Counting.{CountsSteps, IsLastSave, NoSave, due_first, due_next, reached, AllFit}

module _ (F : Float) {S : Type 0} (client : ServiceClient F.Real S)
    (C : CountsSteps client.transport) (run : TrainingRun) (n : ℕ) (kind : ArtifactKind)
    (known : is_known kind ≡ true) where
  abbrev pub training : TrainingClient F.Real S
  training = record { service = client; run = run }

  -- What the loop has saved after `k` steps.
  abbrev pub Saved : ℕ → Option SaveWeightsResponse → Type 0
  Saved k none = NoSave n k
  Saved k (some response) =
      (m : ℕ) × IsLastSave n k m × (response.artifact ≡ C.artifact_at run.run_id m kind)

  abbrev due : ℕ → Bool
  due k = is_nonzero (pos n) && eqb_ℤ (modulo (pos k) (pos n)) (pos 0)

  Saved-later :
      (k : ℕ) (saved : Option SaveWeightsResponse)
      → due (suc k) ≡ false
      → Saved k saved
      → Saved (suc k) saved
  unfolding modulo
  Saved-later k none h (inl e) = inl e
  Saved-later k none h (inr l) = elim (dec_lt 0 n) [
    | yes p ↦ inr (due_first n k p (λ e. ground arith) l)
    | no p ↦ inl (omega arith)
  ]
  Saved-later k (some response) h (m, (p, q, z, below, l), same) =
      (m, (p, q, z, omega arith, due_next n k m (λ e. ground arith) z l), same)

  Saved-now :
      (k : ℕ) (response : SaveWeightsResponse)
      → due (suc k) ≡ true
      → response.artifact ≡ C.artifact_at run.run_id (suc k) kind
      → Saved (suc k) (some response)
  unfolding modulo
  Saved-now k response h same =
      (suc k, (ground arith, omega arith, ground arith, omega arith, ground arith), same)

  abbrev IsCheckpoint : ℕ → SaveWeightsResponse → S → Type 0
  IsCheckpoint k response t =
      (response.artifact ≡ C.artifact_at run.run_id k kind) × C.At run.run_id k t

  abbrev SavedThen : ℕ → Option SaveWeightsResponse → S → Type 0
  SavedThen k saved t = Saved k saved × C.At run.run_id k t

  save_if_due-Saved :
      (k : ℕ) (saved : Option SaveWeightsResponse) (s : S)
      → Saved k saved
      → C.At run.run_id (suc k) s
      → Returns (SavedThen (suc k)) (save_if_due F training (pos n) kind (pos (suc k)) saved) s
  unfolding save_if_due Client.save_weights
  save_if_due-Saved k saved s h at = elim (Bool-cases (due (suc k))) [
    | inl now ↦ rw now (
        Returns-bind (IsCheckpoint (suc k)) (SavedThen (suc k))
          (Client.save_weights F training kind "") (λ response. pure (some response)) s
          (C.saves _ (suc k) s known at)
          λ response t h'.
            Returns-pure (SavedThen (suc k)) (some response) t
              (Saved-now k response now h'.0, h'.1))
    | inr later ↦
        rw later (Returns-pure (SavedThen (suc k)) saved s (Saved-later k saved later h, at))
  ]

  -- What holds of the loop's variables and of the state after `k` rounds.
  abbrev pub Holds : ℕ → Progress F.Real → S → Type 0
  Holds k p t =
      (length p.losses ≡ k)
      × (p.optimizer_step ≡ pos k)
      × (p.checkpoint_version ≡ pos k)
      × (p.training_steps ≡ pos k)
      × Saved k p.saved
      × C.At run.run_id k t

  pos-add_one : (k : ℕ) → pos k +ℤ pos 1 ≡ pos (suc k)
  unfolding ◌+ℤ◌
  pos-add_one k = ground arith

  -- The variables after a round.
  abbrev next :
      Progress F.Real
      → ForwardBackwardResponse F.Real
      → OptimStepResponse
      → Option SaveWeightsResponse
      → Progress F.Real
  next p fb step saved = record {
    losses = p.losses ++ fb.output.loss ∷ [];
    input_tokens = p.input_tokens +ℤ fb.usage.input_tokens;
    training_steps = p.training_steps +ℤ step.usage.training_steps;
    optimizer_step = step.optimizer_step;
    checkpoint_version = step.checkpoint_version;
    saved = saved;
  }

  abbrev Accumulated : ℕ → ForwardBackwardResponse F.Real → S → Type 0
  Accumulated k a t = C.At run.run_id k t

  abbrev Stepped : ℕ → OptimStepResponse → S → Type 0
  Stepped k a t =
      (a.optimizer_step ≡ pos (suc k))
      × (a.checkpoint_version ≡ pos (suc k))
      × (a.usage.training_steps ≡ pos 1)
      × C.At run.run_id (suc k) t

  forward_backward-Accumulated :
      (batch : List (Datum F.Real)) (k : ℕ) (s : S)
      → C.BatchFits batch
      → C.At run.run_id k s
      → Returns
          (Accumulated k)
          (Client.forward_backward F training (many batch) "cross_entropy" none "")
          s
  unfolding Client.forward_backward string_dec
  forward_backward-Accumulated batch k s fits at =
      C.accumulates
        (record {
          context = record { request_id = "" };
          run_id = run.run_id;
          batch = batch;
          loss_fn = "cross_entropy";
          loss_fn_config = [];
        })
        k s fits refl at

  optim_step-Stepped :
      (learning_rate : F.Real) (k : ℕ) (s : S)
      → C.OptimizerFits (adam_params F learning_rate)
      → C.At run.run_id k s
      → Returns (Stepped k) (Client.optim_step F training none (some learning_rate) "") s
  unfolding Client.optim_step
  optim_step-Stepped learning_rate k s fits at = C.steps _ k s fits at

  -- The rest of a round after its save, after its optimizer step and after its forward pass.
  abbrev saved_then :
      Progress F.Real
      → ForwardBackwardResponse F.Real
      → OptimStepResponse
      → Option SaveWeightsResponse
      → Exec S (Progress F.Real)
  saved_then p fb step saved = pure (next p fb step saved)

  abbrev stepped_then :
      Progress F.Real
      → ForwardBackwardResponse F.Real
      → OptimStepResponse
      → Exec S (Progress F.Real)
  stepped_then p fb step =
      save_if_due F training (pos n) kind step.optimizer_step p.saved >>= saved_then p fb step

  abbrev accumulated_then :
      F.Real → Progress F.Real → ForwardBackwardResponse F.Real → Exec S (Progress F.Real)
  accumulated_then learning_rate p fb =
      Client.optim_step F training none (some learning_rate) "" >>= stepped_then p fb

  stepped_then-Holds :
      (k : ℕ) (p : Progress F.Real) (fb : ForwardBackwardResponse F.Real) (step : OptimStepResponse)
      (s t : S)
      → Holds k p s
      → Stepped k step t
      → Returns (Holds (suc k)) (stepped_then p fb step) t
  stepped_then-Holds k p fb step s t (count, _, _, total, saved, _) (same, version, one, at) =
      Returns-bind (SavedThen (suc k)) (Holds (suc k))
        (save_if_due F training (pos n) kind step.optimizer_step p.saved) (saved_then p fb step) t
        (subst
          (λ (i : ℤ). Returns (SavedThen (suc k)) (save_if_due F training (pos n) kind i p.saved) t)
          (sym same) (save_if_due-Saved k p.saved t saved at))
        λ response u (kept, at'). Returns-pure (Holds (suc k)) (next p fb step response) u (
          omega (arith, count, length-append {0} p.losses (fb.output.loss ∷ [])),
          same,
          version,
          rw (total, one) (pos-add_one k),
          kept,
          at',
        )

  sft_step-Holds :
      (learning_rate : F.Real) (batch : List (Datum F.Real)) (k : ℕ) (p : Progress F.Real) (s : S)
      → C.BatchFits batch
      → C.OptimizerFits (adam_params F learning_rate)
      → Holds k p s
      → Returns (Holds (suc k)) (sft_step F training learning_rate (pos n) kind batch p) s
  unfolding sft_step
  sft_step-Holds learning_rate batch k p s fits fits' h =
      Returns-bind (Accumulated k) (Holds (suc k))
        (Client.forward_backward F training (many batch) "cross_entropy" none "")
        (accumulated_then learning_rate p) s (forward_backward-Accumulated batch k s fits h.5)
        λ fb t at.
          Returns-bind (Stepped k) (Holds (suc k))
            (Client.optim_step F training none (some learning_rate) "") (stepped_then p fb) t
            (optim_step-Stepped learning_rate k t fits' at)
            λ step u h'. stepped_then-Holds k p fb step s u h h'

  pub sft_steps-Holds :
      (learning_rate : F.Real) (dataset : List (List (Datum F.Real))) (max k : ℕ)
      (p : Progress F.Real) (s : S)
      → AllFit C dataset
      → C.OptimizerFits (adam_params F learning_rate)
      → k ≤ max
      → Holds k p s
      → Returns
          (Holds (reached max (k + length dataset)))
          (sft_steps F training (pos max) learning_rate (pos n) kind dataset p)
          s
  unfolding sft_steps
  sft_steps-Holds learning_rate [] max k p s all fits l h =
      let same : reached max (k + 0) ≡ k = ground arith in rw same (Returns-pure (Holds k) p s h)
  sft_steps-Holds learning_rate (batch ∷ dataset) max k p s (first, rest) fits l h =
      let total = reached max (k + suc (length dataset)) in
      elim (Bool-cases (leb_ℤ (pos max) (pos (length p.losses)))) [
        | inl full ↦
            let same : k ≡ total = ground (arith, h.0) in
            rw full (Returns-pure (Holds total) p s (subst (λ (i : ℕ). Holds i p s) same h))
        | inr more ↦
            let same : reached max (suc k + length dataset) ≡ total = ground arith in
            rw more (
              Returns-bind (Holds (suc k)) (Holds total)
                (sft_step F training learning_rate (pos n) kind batch p) _ s
                (sft_step-Holds learning_rate batch k p s first fits h)
                λ q t h'.
                  subst
                    (λ (i : ℕ).
                      Returns (Holds i)
                        (sft_steps F training (pos max) learning_rate (pos n) kind dataset q) t)
                    same
                    (sft_steps-Holds learning_rate dataset max (suc k) q t rest fits
                      (ground (arith, h.0)) h'))
      ]
