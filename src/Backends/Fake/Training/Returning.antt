-- ===== src/Backends/Fake/Training/Returning.antt =====
-- The calls that the fake training backend answers, and the count of the steps after them.
use mathlib.Core.Path.{subst}
use ganker.Base.{
  ℕ, suc, ◌+◌, String, ◌<>◌, ◌<◌, ◌≡◌, refl, sym, ap, ◌∙◌, true, false, some, List, [], ◌∷◌, arith,
  inl, inr, is_empty, length, Bool-cases,
}
use Prim.Native.Char.{code}
use ganker.Base.Text.{show_padded}
use text.Mathlib.TextLemmas.{cons-append}
use ganker.Base.Int.{ℤ, pos, ◌+ℤ◌}
use ganker.Base.Float.{Float}
use ganker.Base.Result.{ok, is_ok, Exec, Result-cases}
use ganker.Base.Returns.{Returns}
use ganker.Base.Dict.{Dict, lookup, lookup-insert_self}
use ganker.Contracts.{TuningMode, Datum, AdamParams, ArtifactKind, TrainingRun}
use ganker.Artifacts
use ganker.Artifacts.{artifact_of, is_known}
use ganker.Backends.{Hosted, ForwardBackwardResult, OptimStepResult}
use ganker.Backends.Fake.Training.{
  RunState, State, run_name, new_run, check_run, count_tokens, create_training_run,
  forward_backward, optim_step, save_weights,
}
use ganker.Backends.Fake.Training.Runs.{save_weights-own}
use ganker.Backends.Fake.Training.Calls.{created, forward_backward_counts, optim_step_counts}

-- The run has made `k` steps.
abbrev pub AtStep : String → ℕ → State → Type 0
AtStep run_id k s =
    (is_empty run_id ≡ false)
    × (r : RunState) × (lookup run_id s.runs ≡ some r)
    × (r.run_id ≡ run_id)
    × (r.optimizer_step ≡ pos k)
    × (r.checkpoint_version ≡ pos k)

-- The data have tokens.
abbrev pub HaveTokens : {R : Type 0} → List (Datum R) → Type 0
HaveTokens [] = Unit
HaveTokens (d ∷ ds) = (0 < length d.model_input.token_ids) × HaveTokens ds

count_tokens-is_ok :
    {R : Type 0} (ds : List (Datum R)) (n : ℕ) → HaveTokens ds → is_ok (count_tokens ds n) ≡ true
unfolding count_tokens
count_tokens-is_ok [] n h = refl
count_tokens-is_ok (d ∷ ds) n (some_tokens, rest) =
    ground (arith, count_tokens-is_ok ds (n + length d.model_input.token_ids) rest)

-- The value of a method that does not raise.
returned : {S A : Type 0} (m : Exec S A) (s : S) → is_ok (m s).0 ≡ true → (a : A) × ((m s).0 ≡ ok a)
returned m s h = elim (Result-cases (m s).0) [ inl (a, e) ↦ (a, e) | inr (x, e) ↦ absurd {0} cc ]

abbrev first_code : String → ℕ
first_code String.[] = 0
first_code (String.◌∷◌ c s) = code c

run_name-nonempty : (n : ℕ) → is_empty (run_name n) ≡ false
unfolding run_name
run_name-nonempty n =
    let named : "run-" <> show_padded 6 n ≡ String.◌∷◌ "r" ("un-" <> show_padded 6 n) =
      cons-append "r" "un-" (show_padded 6 n) in
    elim (Bool-cases (is_empty ("run-" <> show_padded 6 n))) [
      | inr e ↦ e
      | inl e ↦
          let empty : "run-" <> show_padded 6 n ≡ "" = ground arith in
          absurd (omega (arith, ap first_code (sym named ∙ empty)))
    ]

create_training_run-is_ok :
    (base_model : String) (mode : TuningMode) (rank : ℤ) (h : Hosted State)
    → is_ok (check_run base_model mode rank) ≡ true
    → is_ok (create_training_run base_model mode rank h).0 ≡ true
unfolding create_training_run
create_training_run-is_ok base_model mode rank h ready = ground arith

new_version :
    (base_model : String) (mode : TuningMode) (rank : ℤ) (h : Hosted State) (run : TrainingRun)
    → (create_training_run base_model mode rank h).0 ≡ ok run
    → run.checkpoint_version ≡ pos 0
unfolding create_training_run
new_version base_model mode rank h run e = ground arith

pub create_training_run-AtStep :
    (base_model : String) (mode : TuningMode) (rank : ℤ) (h : Hosted State)
    → is_ok (check_run base_model mode rank) ≡ true
    → Returns
        (λ run h'. (run.checkpoint_version ≡ pos 0) × AtStep run.run_id 0 h'.own)
        (create_training_run base_model mode rank)
        h
create_training_run-AtStep base_model mode rank h ready =
    let (run, e) =
      returned (create_training_run base_model mode rank) h
        (create_training_run-is_ok base_model mode rank h ready) in
    let (named, stored) = created base_model mode rank h run e in
    (
      run,
      e,
      (
        new_version base_model mode rank h run e,
        (
          rw named (run_name-nonempty h.own.run_counter),
          new_run run.run_id base_model mode rank,
          rw stored
              (lookup-insert_self run.run_id (new_run run.run_id base_model mode rank) h.own.runs),
          refl,
          refl,
          refl,
        ),
      ),
    )

forward_backward-is_ok :
    (F : Float) (run_id : String) (batch : List (Datum F.Real)) (loss_fn : String)
    (config : Dict F.Real) (h : Hosted State) (r : RunState)
    → 0 < length batch
    → HaveTokens batch
    → is_empty loss_fn ≡ false
    → is_empty run_id ≡ false
    → lookup run_id h.own.runs ≡ some r
    → is_ok (forward_backward F run_id batch loss_fn config h).0 ≡ true
unfolding forward_backward
forward_backward-is_ok F run_id batch loss_fn config h r some_data tokens named given found =
    let counted = count_tokens-is_ok batch 0 tokens in ground arith

forward_backward-run_id :
    (F : Float) (run_id : String) (batch : List (Datum F.Real)) (loss_fn : String)
    (config : Dict F.Real) (h : Hosted State) (r : RunState) (res : ForwardBackwardResult F.Real)
    → lookup run_id h.own.runs ≡ some r
    → (forward_backward F run_id batch loss_fn config h).0 ≡ ok res
    → res.run_id ≡ run_id
unfolding forward_backward
forward_backward-run_id F run_id batch loss_fn config h r res found e = ground arith

pub forward_backward-AtStep :
    (F : Float) (run_id : String) (batch : List (Datum F.Real)) (loss_fn : String)
    (config : Dict F.Real) (k : ℕ) (h : Hosted State)
    → 0 < length batch
    → HaveTokens batch
    → is_empty loss_fn ≡ false
    → AtStep run_id k h.own
    → Returns
        (λ res h'. (res.run_id ≡ run_id) × AtStep run_id k h'.own)
        (forward_backward F run_id batch loss_fn config)
        h
forward_backward-AtStep F run_id batch loss_fn config k h some_data tokens named
      (given, r, found, own, step, version) =
    let (res, e) = returned (forward_backward F run_id batch loss_fn config) h (
      forward_backward-is_ok F run_id batch loss_fn config h r some_data tokens named given
        found) in
    let named_so = forward_backward-run_id F run_id batch loss_fn config h r res found e in
    let (_, _, stored) = forward_backward_counts F run_id batch loss_fn config h r res found e in
    let r' = record r { gradient_version = res.gradient_version } in
    (
      res,
      e,
      (
        named_so,
        (
          given,
          r',
          ap (λ (x : Hosted State). lookup run_id x.own.runs) stored
              ∙ lookup-insert_self run_id r' h.own.runs,
          own,
          step,
          version,
        ),
      ),
    )

optim_step-is_ok :
    (F : Float) (run_id : String) (params : AdamParams F.Real) (h : Hosted State) (r : RunState)
    → F.le params.learning_rate (F.of_int (pos 0)) ≡ false
    → is_empty run_id ≡ false
    → lookup run_id h.own.runs ≡ some r
    → is_ok (optim_step F run_id params h).0 ≡ true
unfolding optim_step
optim_step-is_ok F run_id params h r positive given found = ground arith

optim_step-fields :
    (F : Float) (run_id : String) (params : AdamParams F.Real) (h : Hosted State) (r : RunState)
    (res : OptimStepResult)
    → lookup run_id h.own.runs ≡ some r
    → (optim_step F run_id params h).0 ≡ ok res
    → (res.run_id ≡ run_id) × (res.usage.training_steps ≡ pos 1)
unfolding optim_step
optim_step-fields F run_id params h r res found e = (ground arith, ground arith)

pos-add_one : (k : ℕ) → pos k +ℤ pos 1 ≡ pos (suc k)
unfolding ◌+ℤ◌
pos-add_one k = ground arith

pub optim_step-AtStep :
    (F : Float) (run_id : String) (params : AdamParams F.Real) (k : ℕ) (h : Hosted State)
    → F.le params.learning_rate (F.of_int (pos 0)) ≡ false
    → AtStep run_id k h.own
    → Returns
        (λ res h'.
          (res.run_id ≡ run_id)
          × (res.usage.training_steps ≡ pos 1)
          × (res.optimizer_step ≡ pos (suc k))
          × (res.checkpoint_version ≡ pos (suc k))
          × AtStep run_id (suc k) h'.own)
        (optim_step F run_id params)
        h
optim_step-AtStep F run_id params k h positive (given, r, found, own, step, version) =
    let (res, e) =
      returned (optim_step F run_id params) h
        (optim_step-is_ok F run_id params h r positive given found) in
    let (named_so, one) = optim_step-fields F run_id params h r res found e in
    let (step', version', stored) = optim_step_counts F run_id params h r res found e in
    let r' = record r {
      optimizer_step = res.optimizer_step;
      checkpoint_version = res.checkpoint_version;
    } in
    let later = pos-add_one k in
    let step_later = step' ∙ ap (λ i. i +ℤ pos 1) step ∙ later in
    let version_later = version' ∙ ap (λ i. i +ℤ pos 1) version ∙ later in
    (
      res,
      e,
      (
        named_so,
        one,
        step_later,
        version_later,
        (
          given,
          r',
          ap (λ (x : Hosted State). lookup run_id x.own.runs) stored
              ∙ lookup-insert_self run_id r' h.own.runs,
          own,
          step_later,
          version_later,
        ),
      ),
    )

save_weights-artifact :
    (root run_id : String) (kind : ArtifactKind) (h : Hosted State) (r : RunState)
    → is_known kind ≡ true
    → is_empty run_id ≡ false
    → lookup run_id h.own.runs ≡ some r
    → r.run_id ≡ run_id
    → (k : ℕ) → r.checkpoint_version ≡ pos k
    → (save_weights root run_id kind h).0 ≡ ok (artifact_of root run_id (pos k) kind)
unfolding save_weights Artifacts.write
save_weights-artifact root run_id kind h r known given found own k version = ground arith

pub save_weights-AtStep :
    (root run_id : String) (kind : ArtifactKind) (k : ℕ) (h : Hosted State)
    → is_known kind ≡ true
    → AtStep run_id k h.own
    → Returns
        (λ artifact h'. (artifact ≡ artifact_of root run_id (pos k) kind) × AtStep run_id k h'.own)
        (save_weights root run_id kind)
        h
save_weights-AtStep root run_id kind k h known (given, r, found, own, step, version) = (
  artifact_of root run_id (pos k) kind,
  save_weights-artifact root run_id kind h r known given found own k version,
  (
    refl,
    subst (AtStep run_id k) (sym (save_weights-own root run_id kind h))
        (given, r, found, own, step, version),
  ),
)
