-- ===== src/Backends/Fake/Training/Runs.antt =====
-- The runs of the fake backend: a well-formedness invariant that every method keeps, and how the
-- version counters move.
use ganker.Base.{
  ℕ, ◌+◌, ◌<◌, ◌≤◌, String, ◌≡◌, refl, sym, ap, ◌∙◌, some, none, List, arith, Option-cases, inl,
  inr, ◌⊎◌,
}
use mathlib.Core.Path.{subst, subst₂}
use text.Mathlib.TextLemmas.{append_cancel_left}
use ganker.Base.Int.{ℤ, pos, ◌+ℤ◌}
use ganker.Base.Float.{Float}
use ganker.Base.Result.{ok}
use ganker.Base.Dict.{Dict, lookup, insert, lookup-insert_cases}
use ganker.Base.Text.Decimal.{show_padded-injective}
use ganker.Contracts.{TuningMode, Datum, AdamParams, ArtifactKind}
use ganker.Backends.{Hosted}
use ganker.Backends.Fake.Training.{
  RunState, State, run_name, new_run, get_run, create_training_run, forward_backward, optim_step,
  save_weights,
}

pub run_name-injective : (m n : ℕ) → run_name m ≡ run_name n → m ≡ n
unfolding run_name
run_name-injective m n h = show_padded-injective 5 m n (append_cancel_left "run-" _ _ h)

-- A run stands under its own name, its name comes from a number that the counter has passed, and
-- every optimizer step made one checkpoint version.
pub record IsRun (counter : ℕ) (key : String) (r : RunState) : Type 0 where
  pub number : ℕ
  pub passed : number < counter
  pub named : r.run_id ≡ key
  pub numbered : key ≡ run_name number
  pub versioned : r.checkpoint_version ≡ r.optimizer_step

pub record IsValid (s : State) : Type 0 where
  pub at_key : (k : String) (r : RunState) → lookup k s.runs ≡ some r → IsRun s.run_counter k r

-- A new run gets a name that no run has.
pub fresh_name : (s : State) → IsValid s → lookup (run_name s.run_counter) s.runs ≡ none
fresh_name s v = elim (Option-cases (lookup (run_name s.run_counter) s.runs)) [
  | inl e ↦ e
  | inr (r, e) ↦
      let run = v.at_key (run_name s.run_counter) r e in
      absurd (omega (arith, run.passed, run_name-injective s.run_counter run.number run.numbered))
]

later-IsRun : {m n : ℕ} {k : String} {r : RunState} → m ≤ n → IsRun m k r → IsRun n k r
later-IsRun h v = record {
  number = v.number;
  passed = omega (arith, v.passed);
  named = v.named;
  numbered = v.numbered;
  versioned = v.versioned;
}

-- Storing a run under its name keeps a valid state valid.
create-cases :
    (base_model : String) (mode : TuningMode) (rank : ℤ) (h : Hosted State)
    → ((create_training_run base_model mode rank h).1.own ≡ h.own)
      ⊎ ((create_training_run base_model mode rank h).1.own ≡ record {
        run_counter = h.own.run_counter + 1;
        runs =
            insert
              (run_name h.own.run_counter)
              (new_run (run_name h.own.run_counter) base_model mode rank)
              h.own.runs;
      })
unfolding create_training_run
create-cases base_model mode rank h = ground arith

put_run-IsValid :
    (s : State) (n : ℕ) (k : String) (r : RunState)
    → s.run_counter ≤ n
    → IsRun n k r
    → IsValid s
    → IsValid (record { run_counter = n; runs = insert k r s.runs })
put_run-IsValid s n k r le new v = record { at_key = at }
  where
    at : (j : String) (x : RunState) → lookup j (insert k r s.runs) ≡ some x → IsRun n j x
    at j x e = elim (lookup-insert_cases j k r x s.runs e) [
      | inl (p, q) ↦ subst₂ (IsRun n) p q new
      | inr (_, old) ↦ later-IsRun le (v.at_key j x old)
    ]

get_run-found :
    (run_id : String) (h h' : Hosted State) (r : RunState)
    → get_run run_id h ≡ (ok r, h')
    → lookup run_id h.own.runs ≡ some r
unfolding get_run
get_run-found run_id h h' r e = ground arith

pub create_training_run-IsValid :
    (base_model : String) (mode : TuningMode) (rank : ℤ) (h : Hosted State)
    → IsValid h.own
    → IsValid (create_training_run base_model mode rank h).1.own
create_training_run-IsValid base_model mode rank h v = elim (create-cases base_model mode rank h) [
  | inl same ↦ subst IsValid (sym same) v
  | inr new ↦ subst IsValid (sym new) (
      put_run-IsValid h.own (h.own.run_counter + 1) (run_name h.own.run_counter)
        (new_run (run_name h.own.run_counter) base_model mode rank) (omega arith)
        (record {
          number = h.own.run_counter;
          passed = omega arith;
          named = refl;
          numbered = refl;
          versioned = refl;
        })
        v)
]

abbrev next_gradient : RunState → RunState
next_gradient r = record r { gradient_version = r.gradient_version +ℤ pos 1 }

abbrev next_step : RunState → RunState
next_step r = record r {
  optimizer_step = r.optimizer_step +ℤ pos 1;
  checkpoint_version = r.checkpoint_version +ℤ pos 1;
}

-- A run that is stored again with its name and its number keeps the state valid.
update-IsValid :
    (s : State) (k : String) (r r' : RunState)
    → lookup k s.runs ≡ some r
    → r'.run_id ≡ r.run_id
    → r'.checkpoint_version ≡ r'.optimizer_step
    → IsValid s
    → IsValid (record s { runs = insert k r' s.runs })
update-IsValid s k r r' e named versioned v =
    let old = v.at_key k r e in
    put_run-IsValid s s.run_counter k r' (omega arith)
      (record {
        number = old.number;
        passed = old.passed;
        named = named ∙ old.named;
        numbered = old.numbered;
        versioned = versioned;
      })
      v

module _ (F : Float) where
  module _ (run_id : String) (batch : List (Datum F.Real)) (loss_fn : String)
      (config : Dict F.Real) where
    forward-cases :
        (h : Hosted State) (r : RunState)
        → lookup run_id h.own.runs ≡ some r
        → ((forward_backward F run_id batch loss_fn config h).1.own ≡ h.own)
          ⊎ ((forward_backward F run_id batch loss_fn config h).1.own
              ≡ record h.own { runs = insert run_id (next_gradient r) h.own.runs })
    unfolding forward_backward
    forward-cases h r e = ground arith

    forward_unknown :
        (h : Hosted State)
        → lookup run_id h.own.runs ≡ none
        → (forward_backward F run_id batch loss_fn config h).1.own ≡ h.own
    unfolding forward_backward
    forward_unknown h e = ground arith

    pub forward_backward-IsValid :
        (h : Hosted State)
        → IsValid h.own
        → IsValid (forward_backward F run_id batch loss_fn config h).1.own
    forward_backward-IsValid h v = elim (Option-cases (lookup run_id h.own.runs)) [
      | inl e ↦ subst IsValid (sym (forward_unknown h e)) v
      | inr (r, e) ↦ elim (forward-cases h r e) [
        | inl same ↦ subst IsValid (sym same) v
        | inr new ↦ subst IsValid (sym new) (
            update-IsValid h.own run_id r (next_gradient r) e refl (v.at_key run_id r e).versioned
              v)
      ]
    ]

  module _ (run_id : String) (params : AdamParams F.Real) where
    optim-cases :
        (h : Hosted State) (r : RunState)
        → lookup run_id h.own.runs ≡ some r
        → ((optim_step F run_id params h).1.own ≡ h.own)
          ⊎ ((optim_step F run_id params h).1.own
              ≡ record h.own { runs = insert run_id (next_step r) h.own.runs })
    unfolding optim_step
    optim-cases h r e = ground arith

    optim_unknown :
        (h : Hosted State)
        → lookup run_id h.own.runs ≡ none
        → (optim_step F run_id params h).1.own ≡ h.own
    unfolding optim_step
    optim_unknown h e = ground arith

    pub optim_step-IsValid :
        (h : Hosted State) → IsValid h.own → IsValid (optim_step F run_id params h).1.own
    optim_step-IsValid h v = elim (Option-cases (lookup run_id h.own.runs)) [
      | inl e ↦ subst IsValid (sym (optim_unknown h e)) v
      | inr (r, e) ↦ elim (optim-cases h r e) [
        | inl same ↦ subst IsValid (sym same) v
        | inr new ↦ subst IsValid (sym new) (
            update-IsValid h.own run_id r (next_step r) e refl
              (ap (λ x. x +ℤ pos 1) (v.at_key run_id r e).versioned) v)
      ]
    ]

pub save_weights-own :
    (root run_id : String) (kind : ArtifactKind) (h : Hosted State)
    → (save_weights root run_id kind h).1.own ≡ h.own
unfolding save_weights
save_weights-own root run_id kind h = ground arith
