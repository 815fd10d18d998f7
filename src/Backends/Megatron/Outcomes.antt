-- ===== src/Backends/Megatron/Outcomes.antt =====
-- Every method other than `close` makes at most one step, whether it returns or raises.
use ganker.Base.{
  String, ◌<>◌, ◌≡◌, sym, ap, ◌∙◌, true, some, List, arith, is_empty, Option-cases, Bool-cases, inl,
  inr, ◌⊎◌,
}
use ganker.Base.Int.{ℤ, pos}
use ganker.Base.Float.{Float}
use ganker.Base.Result.{Error, invalid_request, not_found, ok, err, Result-cases}
use ganker.Base.Dict.{Dict, lookup, insert, values, insert-insert, lookup-insert_again}
use ganker.Contracts.{TuningMode, ArtifactKind, Datum, AdamParams}
use ganker.Backends.{Hosted}
use ganker.Backends.Fake.Training.{check_run}
use ganker.Backends.Megatron.{
  MegatronRuntime, RunStatus, ready, gradients_pending, checkpointing, same_status, RunState, State,
  PayloadConfig, first_active, get_run, ensure_no_active_run, require_status, put_run, mode_name,
}
use ganker.Backends.Megatron.Batch.{Torch, datums_to_tensor_batch}
use ganker.Backends.Megatron.Methods.{
  create_training_run, forward_backward, optim_step, save_weights, checkpoint, with_status,
}
use ganker.Backends.Megatron.Steps.{accumulate, apply, fail, keep, Change, stay, start, move}

pub same_status-true : (s t : RunStatus) → same_status s t ≡ true → s ≡ t
same_status-true s t h = ground arith

module _ {R : Type 0} {M : MegatronRuntime R} (h : Hosted (State M)) where
  pub create_training_run-Change :
      (base_model : String) (mode : TuningMode) (rank : ℤ)
      → Change h.own (create_training_run base_model mode rank h).1.own
  unfolding create_training_run ensure_no_active_run
  create_training_run-Change base_model mode rank =
      elim (Result-cases (check_run base_model mode rank)) [
        | inr (x, e) ↦ stay _ _ (ground arith) (ground arith)
        | inl (u, e) ↦ elim (Option-cases (first_active (values h.own.runs))) [
          | inr (k, f) ↦ stay _ _ (ground arith) (ground arith)
          | inl f ↦
              elim (Result-cases
                (M.create_run base_model mode rank
                  (record { own = h.own.runtime; files = h.files })).0) [
                    | inr (x, g) ↦ stay _ _ (ground arith) (ground arith)
                    | inl (handle, g) ↦
                        start _ _ base_model mode rank handle f (ground arith) (ground arith)
                  ]
        ]
      ]

  pub get_run-cases :
      (run_id : String)
      → ((e : Error) × (get_run run_id h ≡ (err e, h)))
        ⊎ ((r : RunState M.Handle) × (lookup run_id h.own.runs ≡ some r)
            × (get_run run_id h ≡ (ok r, h)))
  unfolding get_run
  get_run-cases run_id = elim (Bool-cases (is_empty run_id)) [
    | inl e ↦ inl (invalid_request "run_id is required", ground arith)
    | inr e ↦ elim (Option-cases (lookup run_id h.own.runs)) [
      | inl f ↦ inl (not_found ("unknown run_id=" <> run_id), ground arith)
      | inr (r, f) ↦ inr (r, f, ground arith)
    ]
  ]

module _ (F : Float) (torch : Torch F.Real) {M : MegatronRuntime F.Real}
    (h : Hosted (State M)) where
  pub forward_backward-Change :
      (run_id : String) (batch : List (Datum F.Real)) (loss_fn : String) (config : Dict F.Real)
      → Change h.own (forward_backward F torch run_id batch loss_fn config h).1.own
  unfolding forward_backward require_status
  forward_backward-Change run_id batch loss_fn config = elim (get_run-cases h run_id) [
    | inl (x, e) ↦ stay _ _ (ground arith) (ground arith)
    | inr (r, found, e) ↦ elim (Bool-cases (same_status r.status ready)) [
      | inr f ↦ stay _ _ (ground arith) (ground arith)
      | inl f ↦ elim (Result-cases (datums_to_tensor_batch F torch batch loss_fn)) [
        | inr (x, g) ↦ stay _ _ (ground arith) (ground arith)
        | inl (tensors, g) ↦
            elim (Result-cases
              (M.forward_backward r.handle tensors loss_fn config
                (record { own = h.own.runtime; files = h.files })).0) [
                  | inr (x, k) ↦
                      move _ _ run_id r _ found (fail r (ground arith)) (ground arith)
                        (ground arith)
                  | inl (output, k) ↦
                      move _ _ run_id r _ found (accumulate r (same_status-true r.status ready f))
                        (ground arith) (ground arith)
                ]
      ]
    ]
  ]

module _ (F : Float) {M : MegatronRuntime F.Real} (h : Hosted (State M)) where
  pub optim_step-Change :
      (run_id : String) (params : AdamParams F.Real)
      → Change h.own (optim_step F run_id params h).1.own
  unfolding optim_step require_status
  optim_step-Change run_id params = elim (get_run-cases h run_id) [
    | inl (x, e) ↦ stay _ _ (ground arith) (ground arith)
    | inr (r, found, e) ↦ elim (Bool-cases (F.le params.learning_rate (F.of_int (pos 0)))) [
      | inl f ↦ stay _ _ (ground arith) (ground arith)
      | inr f ↦ elim (Bool-cases (same_status r.status gradients_pending)) [
        | inr g ↦ stay _ _ (ground arith) (ground arith)
        | inl g ↦
            elim (Result-cases
              (M.optim_step r.handle params (record { own = h.own.runtime; files = h.files })).0) [
                | inr (x, k) ↦
                    move _ _ run_id r _ found (fail r (ground arith)) (ground arith) (ground arith)
                | inl (u, k) ↦
                    move _ _ run_id r _ found
                      (apply r (same_status-true r.status gradients_pending g)) (ground arith)
                      (ground arith)
              ]
      ]
    ]
  ]

module _ {R : Type 0} {M : MegatronRuntime R} (root : String) (config : PayloadConfig) where
  checkpoint-own :
      (run_id : String) (r : RunState M.Handle) (kind : ArtifactKind) (h : Hosted (State M))
      → ((checkpoint root config run_id r kind h).1.own.runs ≡ h.own.runs)
        × ((checkpoint root config run_id r kind h).1.own.run_counter ≡ h.own.run_counter)
  unfolding checkpoint
  checkpoint-own run_id r kind h =
      elim (Result-cases
        (M.save_weights r.handle run_id r.checkpoint_version kind
          (record { own = h.own.runtime; files = h.files })).0) [
            | inr (x, e) ↦ (ground arith, ground arith)
            | inl (p, e) ↦ elim (Result-cases (mode_name r.tuning_mode)) [
              | inr (x, f) ↦ (ground arith, ground arith)
              | inl (m, f) ↦ (ground arith, ground arith)
            ]
          ]

  -- The runs after a `save_weights` of a ready run.
  saved-runs :
      (run_id : String) (kind : ArtifactKind) (h : Hosted (State M)) (r : RunState M.Handle)
      → get_run run_id h ≡ (ok r, h)
      → same_status r.status ready ≡ true
      → ((save_weights root config run_id kind h).1.own.runs
          ≡ insert run_id (with_status ready r) h.own.runs)
        × ((save_weights root config run_id kind h).1.own.run_counter ≡ h.own.run_counter)
  unfolding save_weights require_status
  saved-runs run_id kind h r e f =
      let h' = put_run run_id (with_status checkpointing r) h in
      let (runs, counter) = checkpoint-own run_id r kind h' in
      (
        ground (
          arith,
          insert-insert run_id (with_status ready r) (with_status ready r) (h'.own.runs),
          insert-insert run_id (with_status ready r) (with_status checkpointing r) h.own.runs,
          Result-cases (checkpoint root config run_id r kind h').0,
        ),
        ground (arith, Result-cases (checkpoint root config run_id r kind h').0),
      )

  pub save_weights-Change :
      (run_id : String) (kind : ArtifactKind) (h : Hosted (State M))
      → Change h.own (save_weights root config run_id kind h).1.own
  unfolding save_weights require_status
  save_weights-Change run_id kind h = elim (get_run-cases h run_id) [
    | inl (x, e) ↦ stay _ _ (ground arith) (ground arith)
    | inr (r, found, e) ↦ elim (Bool-cases (same_status r.status ready)) [
      | inr f ↦ stay _ _ (ground arith) (ground arith)
      | inl f ↦
          let (runs, counter) = saved-runs run_id kind h r e f in
          move _ _ run_id r (with_status ready r) found (keep r (same_status-true r.status ready f))
            runs counter
    ]
  ]

  -- A `save_weights`, whether it returns or raises, leaves every run as it found it: a run whose
  -- checkpoint failed is ready again, with its version numbers unchanged.
  pub save_weights_keeps_runs :
      (run_id : String) (kind : ArtifactKind) (h : Hosted (State M)) (k : String)
      → lookup k (save_weights root config run_id kind h).1.own.runs ≡ lookup k h.own.runs
  unfolding save_weights require_status
  save_weights_keeps_runs run_id kind h k = elim (get_run-cases h run_id) [
    | inl (x, e) ↦ ground arith
    | inr (r, found, e) ↦ elim (Bool-cases (same_status r.status ready)) [
      | inr f ↦ ground arith
      | inl f ↦
          let (runs, _) = saved-runs run_id kind h r e f in
          let same =
            ap (λ (s : RunStatus). with_status s r) (sym (same_status-true r.status ready f)) in
          ap (λ (d : Dict (RunState M.Handle)). lookup k d)
            (runs ∙ ap (λ (t : RunState M.Handle). insert run_id t h.own.runs) same)
          ∙ lookup-insert_again k run_id r h.own.runs found
    ]
  ]

-- Whatever state a method other than `close` finds and whether it returns or raises, it makes at
-- most one step: a new run starts, which needs that no run is active; or one run moves along an
-- edge of its life cycle (ready to gradients pending, back to ready with one optimizer step and
-- one checkpoint version more, or to failed); or no run changes.
pub methods_step :
    (F : Float) (torch : Torch F.Real) (M : MegatronRuntime F.Real) (root : String)
    (config : PayloadConfig) (h : Hosted (State M)) (base_model run_id loss_fn : String)
    (mode : TuningMode) (rank : ℤ) (batch : List (Datum F.Real)) (loss_fn_config : Dict F.Real)
    (params : AdamParams F.Real) (kind : ArtifactKind)
    → Change h.own (create_training_run base_model mode rank h).1.own
      × Change h.own (forward_backward F torch run_id batch loss_fn loss_fn_config h).1.own
      × Change h.own (optim_step F run_id params h).1.own
      × Change h.own (save_weights root config run_id kind h).1.own
methods_step F torch M root config h base_model run_id loss_fn mode rank batch loss_fn_config params
      kind =
    (
      create_training_run-Change h base_model mode rank,
      forward_backward-Change F torch h run_id batch loss_fn loss_fn_config,
      optim_step-Change F h run_id params,
      save_weights-Change root config run_id kind h,
    )
