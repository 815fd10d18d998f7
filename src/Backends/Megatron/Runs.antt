-- ===== src/Backends/Megatron/Runs.antt =====
-- The runs of the Megatron backend: a well-formedness invariant that every step keeps.
use ganker.Base.{
  ℕ, ◌+◌, ◌<◌, ◌≤◌, String, ◌≡◌, refl, sym, ap, ◌∙◌, true, false, some, none, [], ◌∷◌, arith, inl,
  inr, ◌⊎◌,
}
use mathlib.Core.Path.{subst, subst₂}
use ganker.Base.Int.{ℤ, pos, ◌+ℤ◌}
use ganker.Base.Dict.{Dict, lookup, insert, values, lookup-insert_cases}
use ganker.Backends.Megatron.{
  MegatronRuntime, RunStatus, ready, gradients_pending, checkpointing, failed, closed, is_active,
  RunState, State, run_name, new_run, first_active,
}
use ganker.Backends.Megatron.Steps.{Step, accumulate, apply, fail, keep, Change, stay, start, move}

-- How the numbers of gradients and of optimizer steps compare. No run is left in a checkpoint.
abbrev pub Counted : RunStatus → ℤ → ℤ → Type 0
Counted ready g o = g ≡ o
Counted gradients_pending g o = g ≡ o +ℤ pos 1
Counted checkpointing g o = true ≡ false
Counted failed g o = (g ≡ o) ⊎ (g ≡ o +ℤ pos 1)
Counted closed g o = (g ≡ o) ⊎ (g ≡ o +ℤ pos 1)

pub record IsRun {H : Type 0} (counter : ℕ) (key : String) (r : RunState H) : Type 0 where
  pub number : ℕ
  pub passed : number < counter
  pub named : r.run_id ≡ key
  pub numbered : key ≡ run_name number
  pub versioned : r.checkpoint_version ≡ r.optimizer_step
  pub counted : Counted r.status r.gradient_version r.optimizer_step

pub record IsValid {H : Type 0} (counter : ℕ) (runs : Dict (RunState H)) : Type 0 where
  pub at_key : (k : String) (r : RunState H) → lookup k runs ≡ some r → IsRun counter k r
  pub one_active :
      (j k : String) (r t : RunState H)
      → lookup j runs ≡ some r
      → lookup k runs ≡ some t
      → is_active r.status ≡ true
      → is_active t.status ≡ true
      → j ≡ k

pub either : (s : RunStatus) (g o : ℤ) → Counted s g o → (g ≡ o) ⊎ (g ≡ o +ℤ pos 1)
either ready g o c = inl c
either gradients_pending g o c = inr c
either checkpointing g o c = cc
either failed g o c = c
either closed g o c = c

module _ {H : Type 0} where
  later-IsRun : (m n : ℕ) (k : String) (r : RunState H) → m ≤ n → IsRun m k r → IsRun n k r
  later-IsRun m n k r le v = record {
    number = v.number;
    passed = omega (arith, v.passed);
    named = v.named;
    numbered = v.numbered;
    versioned = v.versioned;
    counted = v.counted;
  }

  none_active :
      (d : Dict (RunState H)) (k : String) (r : RunState H)
      → first_active (values d) ≡ none
      → lookup k d ≡ some r
      → is_active r.status ≡ false
  unfolding first_active lookup
  none_active [] k r h e = cc
  none_active ((j, t) ∷ d) k r h e = ground (arith, none_active d k r)

  -- Every step of an active run starts from an active run.
  Step-active :
      (r r' : RunState H) → Step r r' → is_active r'.status ≡ true → is_active r.status ≡ true
  Step-active _ _ (accumulate r e) h = ground arith
  Step-active _ _ (apply r e) h = ground arith
  Step-active _ _ (fail r e) h = e
  Step-active _ _ (keep r e) h = ground arith

  Step-IsRun : (n : ℕ) (k : String) (r r' : RunState H) → Step r r' → IsRun n k r → IsRun n k r'
  Step-IsRun n k _ _ (accumulate r e) v = record {
    number = v.number;
    passed = v.passed;
    named = v.named;
    numbered = v.numbered;
    versioned = v.versioned;
    counted =
        ap (λ (g : ℤ). g +ℤ pos 1)
          (subst (λ s. Counted s r.gradient_version r.optimizer_step) e v.counted);
  }
  Step-IsRun n k _ _ (apply r e) v = record {
    number = v.number;
    passed = v.passed;
    named = v.named;
    numbered = v.numbered;
    versioned = ap (λ (o : ℤ). o +ℤ pos 1) v.versioned;
    counted = subst (λ s. Counted s r.gradient_version r.optimizer_step) e v.counted;
  }
  Step-IsRun n k _ _ (fail r e) v = record {
    number = v.number;
    passed = v.passed;
    named = v.named;
    numbered = v.numbered;
    versioned = v.versioned;
    counted = either r.status r.gradient_version r.optimizer_step v.counted;
  }
  Step-IsRun n k _ _ (keep r e) v = record {
    number = v.number;
    passed = v.passed;
    named = v.named;
    numbered = v.numbered;
    versioned = v.versioned;
    counted = subst (λ s. Counted s r.gradient_version r.optimizer_step) e v.counted;
  }

  -- One run is stored; if it is active, no other run is.
  insert-IsValid :
      (m n : ℕ) (k : String) (r : RunState H) (d : Dict (RunState H))
      → m ≤ n
      → IsRun n k r
      → ((j : String) (t : RunState H)
          → is_active r.status ≡ true
          → lookup j d ≡ some t
          → is_active t.status ≡ true
          → j ≡ k)
      → IsValid m d
      → IsValid n (insert k r d)
  insert-IsValid m n k r d le new alone v = record { at_key = at; one_active = one }
    where
      at : (j : String) (x : RunState H) → lookup j (insert k r d) ≡ some x → IsRun n j x
      at j x e = elim (lookup-insert_cases j k r x d e) [
        | inl (p, q) ↦ subst₂ (IsRun n) p q new
        | inr (_, old) ↦ later-IsRun m n j x le (v.at_key j x old)
      ]

      one :
          (i j : String) (x y : RunState H)
          → lookup i (insert k r d) ≡ some x
          → lookup j (insert k r d) ≡ some y
          → is_active x.status ≡ true
          → is_active y.status ≡ true
          → i ≡ j
      one i j x y e f a b = elim (lookup-insert_cases i k r x d e) [
        | inl (p, q) ↦ elim (lookup-insert_cases j k r y d f) [
          | inl (p', q') ↦ sym p ∙ p'
          | inr (_, old') ↦
              sym p ∙ sym (alone j y (ap (λ (t : RunState H). is_active t.status) q ∙ a) old' b)
        ]
        | inr (_, old) ↦ elim (lookup-insert_cases j k r y d f) [
          | inl (p', q') ↦ alone i x (ap (λ (t : RunState H). is_active t.status) q' ∙ b) old a ∙ p'
          | inr (_, old') ↦ v.one_active i j x y old old' a b
        ]
      ]

module _ {R : Type 0} {M : MegatronRuntime R} where
  pub Change-IsValid :
      (s s' : State M) → Change s s' → IsValid s.run_counter s.runs → IsValid s'.run_counter s'.runs
  Change-IsValid _ _ (stay s s' e f) v = subst₂ IsValid (sym f) (sym e) v
  Change-IsValid _ _ (start s s' base_model mode rank handle idle e f) v =
      let new = new_run (run_name s.run_counter) base_model mode rank handle in
      subst₂ IsValid (sym f) (sym e) (
        insert-IsValid s.run_counter (s.run_counter + 1) (run_name s.run_counter) new s.runs
          (omega arith)
          (record {
            number = s.run_counter;
            passed = omega arith;
            named = refl;
            numbered = refl;
            versioned = refl;
            counted = refl;
          })
          (λ j t a found b. cc (b, none_active s.runs j t idle found)) v)
  Change-IsValid _ _ (move s s' k r r' found step e f) v = subst₂ IsValid (sym f) (sym e) (
      insert-IsValid s.run_counter s.run_counter k r' s.runs (omega arith)
        (Step-IsRun s.run_counter k r r' step (v.at_key k r found))
        (λ j t a old b. v.one_active j k t r old found b (Step-active r r' step a)) v)
