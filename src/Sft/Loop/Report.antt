-- ===== src/Sft/Loop/Report.antt =====
-- What `run_sft` of examples/sft/loop.py reports at its end, over a transport that counts steps.
use mathlib.Core.Path.{subst}
use native.Mathlib.Nat.{zero-add}
use ganker.Base.{
  ℕ, ◌+◌, ◌<◌, String, ◌≡◌, refl, sym, ap, true, false, Option, some, none, List, [], ◌∷◌, length,
  arith, ◌⊎◌, inl, inr, is_nil, ◌==◌, Bool-cases,
}
use ganker.Base.Int.{ℤ, pos, is_nonpos, is_neg}
use ganker.Base.Float.{Float}
use ganker.Base.Result.{ok, Exec, pure, raise_if, ◌>>=◌, ◌>>◌, value_error}
use ganker.Base.Returns.{Returns, Returns-pure, Returns-bind, Returns-raise_if}
use ganker.Contracts.{
  TuningMode, ArtifactKind, Datum, SaveWeightsResponse, TrainingRun, CreateTrainingRunRequest,
}
use ganker.Artifacts.{is_known}
use ganker.Client
use ganker.Client.{Tuning, tuning_mode, ServiceClient, TrainingClient, adam_params}
use ganker.Sft.Loop.{
  SftRunSummary, tuning_name, Progress, sft_steps, save_if_none, last?, new_progress, kind_of,
  run_sft,
}
use ganker.Sft.Loop.Counting.{CountsSteps, IsLastSave, NoSave, reached, AllFit}
use ganker.Sft.Loop.Rounds.{Saved, Holds, sft_steps-Holds}

kind_of-known : (tuning : Tuning) → is_known (kind_of tuning) ≡ true
unfolding kind_of
kind_of-known tuning = elim (Bool-cases (tuning_name tuning == "lora")) [
  | inl e ↦ rw e refl
  | inr e ↦ rw e refl
]

-- The number of the steps before the checkpoint that a run of `k` steps reports.
abbrev pub IsReported : ℕ → ℕ → ℕ → Type 0
IsReported n k m = (NoSave n k × (m ≡ k)) ⊎ IsLastSave n k m

some_losses : {R : Type 0} (losses : List R) → 0 < length losses → is_nil losses ≡ false
some_losses [] h = ground arith
some_losses (x ∷ losses) h = refl

module _ (F : Float) {S : Type 0} (client : ServiceClient F.Real S)
    (C : CountsSteps client.transport) (n : ℕ) (tuning : Tuning) where
  abbrev kind : ArtifactKind
  kind = kind_of tuning

  abbrev Reported : TrainingRun → ℕ → SaveWeightsResponse → S → Type 0
  Reported run k response t =
      (m : ℕ) × IsReported n k m × (response.artifact ≡ C.artifact_at run.run_id m kind)

  save_if_none-Reported :
      (run : TrainingRun) (k : ℕ) (saved : Option SaveWeightsResponse) (s : S)
      → Saved F client C run n kind (kind_of-known tuning) k saved
      → C.At run.run_id k s
      → Returns
          (Reported run k)
          (save_if_none F (record { service = client; run = run }) kind saved)
          s
  unfolding save_if_none Client.save_weights
  save_if_none-Reported run k none s h at =
      let (a, e, (same, _)) =
        C.saves (record { context = record { request_id = "" }; run_id = run.run_id; kind = kind })
          k s (kind_of-known tuning) at in
      (a, e, (k, inl (h, refl), same))
  save_if_none-Reported run k (some response) s (m, last, same) at =
      Returns-pure (Reported run k) response s (m, inr last, same)

  -- The request of `create_training_client`.
  abbrev pub run_request : String → TuningMode → ℤ → CreateTrainingRunRequest
  run_request base_model mode rank = record {
    context = record { request_id = "" };
    base_model = base_model;
    tuning_mode = mode;
    lora_rank = rank;
  }

  abbrev trained : TrainingRun → TrainingClient F.Real S
  trained run = record { service = client; run = run }

  abbrev Started : TrainingClient F.Real S → S → Type 0
  Started begun t =
      (begun ≡ trained begun.run)
      × (begun.run.checkpoint_version ≡ pos 0)
      × C.At begun.run.run_id 0 t

  create_training_client-Started :
      (base_model : String) (mode : TuningMode) (rank : ℤ) (s : S)
      → tuning_mode tuning ≡ ok mode
      → C.RunFits (run_request base_model mode rank)
      → Returns Started (Client.create_training_client F client base_model tuning rank "") s
  unfolding Client.create_training_client
  create_training_client-Started base_model mode rank s chosen fits =
      let (a, e, h) = C.creates (run_request base_model mode rank) s fits in
      rw chosen (
        Returns-bind
          (λ response t. (response.run.checkpoint_version ≡ pos 0) × C.At response.run.run_id 0 t)
          Started (client.transport.create_training_run (run_request base_model mode rank))
          (λ response. pure (trained response.run)) s (a, e, h)
          λ response t (new, at). Returns-pure Started (trained response.run) t (refl, new, at))

  -- The report of a run of `k` steps.
  abbrev pub Reports : ℕ → SftRunSummary F.Real → S → Type 0
  Reports k summary t =
      (summary.steps ≡ k)
      × (length summary.losses ≡ k)
      × (summary.optimizer_step ≡ pos k)
      × (summary.checkpoint_version ≡ pos k)
      × (summary.training_steps ≡ pos k)
      × (m : ℕ) × IsReported n k m
      × (summary.artifact_path ≡ (C.artifact_at summary.run_id m kind).payload_path)
      × (summary.manifest_path ≡ (C.artifact_at summary.run_id m kind).manifest_path)

  module _ (base_model : String) where
    -- The rest of `run_sft` after its last save, after its rounds and after its first call.
    abbrev summary_of :
        TrainingRun → Progress F.Real → SaveWeightsResponse → Exec S (SftRunSummary F.Real)
    summary_of run p saved = pure (record {
      succeeded = true;
      run_id = run.run_id;
      base_model = base_model;
      tuning = tuning_name tuning;
      steps = length p.losses;
      losses = p.losses;
      final_loss = last? p.losses;
      optimizer_step = p.optimizer_step;
      checkpoint_version = p.checkpoint_version;
      artifact_path = saved.artifact.payload_path;
      manifest_path = saved.artifact.manifest_path;
      input_tokens = p.input_tokens;
      training_steps = p.training_steps;
    })

    abbrev rounds_then : TrainingClient F.Real S → Progress F.Real → Exec S (SftRunSummary F.Real)
    rounds_then begun p =
        raise_if (is_nil p.losses) (value_error "dataset produced no SFT steps")
        >> (save_if_none F begun kind p.saved >>= summary_of begun.run p)

    rounds_then-Reports :
        (run : TrainingRun) (k : ℕ) (p : Progress F.Real) (s : S)
        → 0 < k
        → Holds F client C run n kind (kind_of-known tuning) k p s
        → Returns (Reports k) (rounds_then (trained run) p) s
    rounds_then-Reports run k p s more (count, step, version, total, saved, at) =
        Returns-raise_if (Reports k) (is_nil p.losses) (value_error "dataset produced no SFT steps")
          (save_if_none F (trained run) kind p.saved >>= summary_of run p) s
          (some_losses p.losses (omega (arith, count)))
          (Returns-bind (Reported run k) (Reports k) (save_if_none F (trained run) kind p.saved)
            (summary_of run p) s (save_if_none-Reported run k p.saved s saved at)
            λ response t (m, reported, same). (
              _,
              refl,
              (
                count,
                count,
                step,
                version,
                total,
                m,
                reported,
                ap (λ a. a.payload_path) same,
                ap (λ a. a.manifest_path) same,
              ),
            ))

    abbrev created_then :
        List (List (Datum F.Real))
        → F.Real
        → ℤ
        → TrainingClient F.Real S
        → Exec S (SftRunSummary F.Real)
    created_then dataset learning_rate max_steps begun =
        sft_steps F begun max_steps learning_rate (pos n) kind dataset
          (new_progress begun.run.checkpoint_version)
        >>= rounds_then begun

    created_then-Reports :
        (dataset : List (List (Datum F.Real))) (learning_rate : F.Real) (max : ℕ)
        (run : TrainingRun) (s : S)
        → 0 < max
        → 0 < length dataset
        → AllFit C dataset
        → C.OptimizerFits (adam_params F learning_rate)
        → run.checkpoint_version ≡ pos 0
        → C.At run.run_id 0 s
        → Returns
            (Reports (reached max (length dataset)))
            (created_then dataset learning_rate (pos max) (trained run))
            s
    created_then-Reports dataset learning_rate max run s more batches all fits new at =
        let k = reached max (0 + length dataset) in
        subst
          (λ i.
            Returns (Reports (reached max i))
              (created_then dataset learning_rate (pos max) (trained run)) s)
          (zero-add (length dataset))
          (Returns-bind (Holds F client C run n kind (kind_of-known tuning) k) (Reports k)
            (sft_steps F (trained run) (pos max) learning_rate (pos n) kind dataset
              (new_progress run.checkpoint_version))
            (rounds_then (trained run)) s
            (sft_steps-Holds F client C run n kind (kind_of-known tuning) learning_rate dataset max
              0 (new_progress run.checkpoint_version) s all fits (omega arith)
              (refl, refl, new, refl, ground arith, at))
            λ p t h. rounds_then-Reports run k p t (ground arith) h)

  -- Over a transport that counts steps, let `max_steps` and `learning_rate` be positive, let the
  -- dataset have a batch, and let the transport accept the run, the batches and the optimizer. Then
  -- `run_sft` returns. It reports min(`max_steps`, the number of batches) as the number of the steps, of
  -- the losses, of the optimizer steps, as the checkpoint version and as the training steps, and the
  -- paths of the artifact of the last step that was saved: with `save_every` at 0 or above the number
  -- of the steps it is the last step, and otherwise the last one that `save_every` divides.
  pub run_sft-Reports :
      (base_model : String) (dataset : List (List (Datum F.Real))) (mode : TuningMode) (rank : ℤ)
      (learning_rate : F.Real) (max : ℕ) (s : S)
      → 0 < max
      → 0 < length dataset
      → F.le learning_rate (F.of_int (pos 0)) ≡ false
      → tuning_mode tuning ≡ ok mode
      → C.RunFits (run_request base_model mode rank)
      → AllFit C dataset
      → C.OptimizerFits (adam_params F learning_rate)
      → Returns
          (Reports (reached max (length dataset)))
          (run_sft F client base_model dataset tuning rank learning_rate (pos max) (pos n))
          s
  unfolding run_sft
  run_sft-Reports base_model dataset mode rank learning_rate max s more batches positive chosen fits
        all fits' =
      let k = reached max (length dataset) in
      let begin = Client.create_training_client F client base_model tuning rank "" in
      let continue = created_then base_model dataset learning_rate (pos max) in
      let signed =
        raise_if (is_neg (pos n)) (value_error "save_every cannot be negative")
        >> (begin >>= continue) in
      let rated =
        raise_if (F.le learning_rate (F.of_int (pos 0)))
          (value_error "learning_rate must be positive")
        >> signed in
      Returns-raise_if (Reports k) (is_nonpos (pos max)) (value_error "max_steps must be positive")
        rated s (ground arith)
        (Returns-raise_if (Reports k) (F.le learning_rate (F.of_int (pos 0)))
          (value_error "learning_rate must be positive") signed s positive
          (Returns-raise_if (Reports k) (is_neg (pos n))
            (value_error "save_every cannot be negative") (begin >>= continue) s refl
            (Returns-bind Started (Reports k) begin continue s
              (create_training_client-Started base_model mode rank s chosen fits)
              λ begun t (same, new, at).
                subst (λ b. Returns (Reports k) (continue b) t) (sym same)
                  (created_then-Reports base_model dataset learning_rate max begun.run t more
                    batches all fits' new at))))
