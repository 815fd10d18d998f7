-- ===== src/Backends/Sglang/Keeping.antt =====
-- The methods of `SGLangHTTPRuntime` keep what it has noted in step with its machine, also if they
-- raise. src/ganker/backends/sglang.py
use mathlib.Core.Path.{subst}
use ganker.Base.{
  ◌&&◌, [], ℕ, String, ◌≡◌, refl, sym, true, false, Option, some, none, arith, inl, inr,
  Option-cases, ◌==◌, if◌then◌else◌, Bool,
}
use ganker.Base.Float.{Float}
use ganker.Base.Result.{Result, err, Exec, Result-cases, ◌>>=◌, ◌>>◌, modify, pure, gets}
use ganker.Base.Dict.{is_some}
use ganker.Backends.Sglang.Http.{SglangBackendConfig, Host}
use ganker.Backends.Sglang.Watched.{Watched, after_popen, watched}
use ganker.Backends.Sglang.Answering.{wait_rounds-keeps}
use ganker.Backends.Sglang.Server
use ganker.Backends.Sglang.Server.{
  HttpState, has_ended, stop_process, wait_rounds, wait_for_health, start_server, ensure_server,
  forget_ended, started, on_world,
}
use ganker.Backends.Sglang.Seen.{State, cmd_of, ArePosted, IsLatest, IsConsistent, no_loras}
use ganker.Backends.Sglang.Started.{launched_popen, forget_ended-IsConsistent}

module _ (F : Float) (config : SglangBackendConfig F.Real) (host : Host F.Real) (rounds : ℕ) where
  abbrev pub Keeps : {A : Type 0} → Exec (State F config host rounds) A → Type 0
  Keeps m =
      (s : State F config host rounds)
      → IsConsistent F config host rounds s
      → IsConsistent F config host rounds (m s).1

  abbrev pub M : Type 0 → Type 0
  M A = Exec (State F config host rounds) A

  pub moved :
      {A : Type 0} (p q : Result A × State F config host rounds)
      → p ≡ q
      → IsConsistent F config host rounds q.1
      → IsConsistent F config host rounds p.1
  moved {A} p q e c =
      subst (λ (x : Result A × State F config host rounds). IsConsistent F config host rounds x.1)
        (sym e) c

  pub >>=-Keeps :
      {A B : Type 0} (m : M A) (f : A → M B) → Keeps m → ((a : A) → Keeps (f a)) → Keeps (m >>= f)
  >>=-Keeps m f first next s c = elim (Result-cases (m s).0) [
    | inl (a, e) ↦ moved ((m >>= f) s) (f a (m s).1) (ground arith) (next a (m s).1 (first s c))
    | inr (x, e) ↦ moved ((m >>= f) s) (err x, (m s).1) (ground arith) (first s c)
  ]

  pub if-Keeps :
      {A : Type 0} (b : Bool) (m n : M A) → Keeps m → Keeps n → Keeps (if b then m else n)
  if-Keeps true m n h k = h
  if-Keeps false m n h k = k

  has_ended-Keeps : (p : Option host.Process) → Keeps (has_ended F config (watched host) p)
  unfolding has_ended
  has_ended-Keeps none s c = c
  has_ended-Keeps (some p) s c = c

  stop_process-Keeps : (p : Option host.Process) → Keeps (stop_process F config (watched host) p)
  unfolding stop_process
  stop_process-Keeps none = λ s c. c
  stop_process-Keeps (some p) =
      let kill : M (Unit {0}) =
        on_world F config (watched host) ((watched host).kill p)
        >> on_world F config (watched host) ((watched host).wait_ended p) in
      let wait : M Bool = on_world F config (watched host) ((watched host).wait p) in
      let ask : M (Unit {0}) = on_world F config (watched host) ((watched host).terminate p) in
      let rest : Bool → M (Unit {0}) = λ ended. if ended then pure tt else kill in
      let kill_keeps : Keeps kill =
        >>=-Keeps (on_world F config (watched host) ((watched host).kill p))
          (λ _. on_world F config (watched host) ((watched host).wait_ended p)) (λ s c. c)
          (λ done s c. c) in
      >>=-Keeps ask (λ _. wait >>= rest) (λ s c. c)
        (λ done.
          >>=-Keeps wait rest (λ s c. c)
            (λ ended. if-Keeps ended (pure tt) kill (λ s c. c) kill_keeps))

  close-Keeps : Keeps (Server.close F config (watched host))
  unfolding Server.close
  close-Keeps =
      let ended_of : Option host.Process → M Bool = has_ended F config (watched host) in
      let stop : Option host.Process → Bool → M (Unit {0}) =
        λ p ended. if ended then pure tt else stop_process F config (watched host) p in
      >>=-Keeps (gets (λ s. s.process)) (λ p. ended_of p >>= stop p) (λ s c. c)
        (λ p. >>=-Keeps (ended_of p) (stop p) (has_ended-Keeps p) (λ ended.
          if-Keeps ended (pure tt) (stop_process F config (watched host) p) (λ s c. c)
            (stop_process-Keeps p)))

  wait_for_health-Keeps :
      (p : Option host.Process) → Keeps (wait_for_health F config (watched host) rounds p)
  unfolding wait_for_health
  wait_for_health-Keeps none s c = c
  wait_for_health-Keeps (some p) s (latest, posted) =
      let (now, w) = host.monotonic s.world.inner in
      let deadline = F.add now config.startup_timeout in
      let begun : Watched host.World host.Process = record s.world { inner = w } in
      elim (Option-cases (wait_rounds F config (watched host) rounds deadline p begun)) [
        | inl none_left ↦ rw none_left (latest, posted)
        | inr ((r, w'), same) ↦
            let (launched, posts) =
              wait_rounds-keeps F config host deadline p rounds r begun w' same in
            rw same (
              subst (IsLatest F config host rounds s.process s.active_model_path) (sym launched)
                  latest,
              subst (ArePosted F config host rounds s.loaded_loras) (sym posts) posted,
            )
      ]

  launching : String → host.Process → M (Unit {0})
  launching model_path p =
      modify (started F config (watched host) rounds p model_path)
      >> wait_for_health F config (watched host) rounds (some p)

  -- A server that is started is the latest, and has no adapters yet.
  launch-IsConsistent :
      (model_path : String) (s : State F config host rounds)
      → s.loaded_loras ≡ []
      → IsConsistent F config host rounds s
      → IsConsistent F config host rounds
          ((on_world F config
                (watched host)
                ((watched host).popen (cmd_of F config host rounds model_path))
              >>= launching model_path)
            s).1
  unfolding launching
  launch-IsConsistent model_path s fresh c =
      let cmd = cmd_of F config host rounds model_path in
      let popen : M host.Process = on_world F config (watched host) ((watched host).popen cmd) in
      elim (Result-cases (popen s).0) [
        | inr (x, e) ↦
            moved ((popen >>= launching model_path) s) (err x, (popen s).1) (ground arith)
              (subst
                (λ (r : Result host.Process).
                  IsConsistent F config host rounds (record s {
                    world = after_popen cmd r (host.popen cmd s.world.inner).1 s.world;
                  }))
                (sym e) c)
        | inl (p, e) ↦
            let begun = started F config (watched host) rounds p model_path (popen s).1 in
            moved ((popen >>= launching model_path) s) (launching model_path p (popen s).1)
              (ground arith)
              (wait_for_health-Keeps (some p) begun (
                launched_popen cmd p _ _ s.world e,
                subst (λ l. ArePosted F config host rounds l begun.world.posts) (sym fresh)
                    (no_loras F config host rounds begun.world.posts),
              ))
      ]

  start_server-Keeps :
      (model_path : String) → Keeps (start_server F config (watched host) rounds model_path)
  unfolding start_server launching
  start_server-Keeps model_path s c =
      let launch : M (Unit {0}) =
        on_world F config (watched host)
          ((watched host).popen (cmd_of F config host rounds model_path))
        >>= launching model_path in
      let forget : M (Unit {0}) = modify (λ x. record x { loaded_loras = [] }) in
      let close : M (Unit {0}) = Server.close F config (watched host) in
      elim (Result-cases (close s).0) [
        | inr (x, e) ↦
            moved ((close >>= λ _. forget >> launch) s) (err x, (close s).1) (ground arith)
              (close-Keeps s c)
        | inl (done, e) ↦
            let s2 : State F config host rounds = record (close s).1 { loaded_loras = [] } in
            moved ((close >>= λ _. forget >> launch) s) (launch s2) (ground arith) (
              launch-IsConsistent model_path s2 refl
                ((close-Keeps s c).0, no_loras F config host rounds s2.world.posts))
      ]

  pub ensure_server-Keeps :
      (model_path : String)
      → config.launch_server ≡ true
      → Keeps (ensure_server F config (watched host) rounds model_path)
  unfolding ensure_server
  ensure_server-Keeps model_path launches s c =
      let first : M (Unit {0}) =
        gets (λ x. x.process) >>= forget_ended F config (watched host) rounds in
      let served : State F config host rounds → Bool =
        λ x. is_some x.process && x.active_model_path == model_path in
      let start : Bool → M (Unit {0}) =
        λ b. if b then pure tt else start_server F config (watched host) rounds model_path in
      rw launches (
        >>=-Keeps first (λ _. gets served >>= start)
          (λ x d. (forget_ended-IsConsistent F config host rounds x.process x refl d).0)
          (λ done.
            >>=-Keeps (gets served) start (λ x d. d)
              (λ b.
                if-Keeps b (pure tt) (start_server F config (watched host) rounds model_path)
                  (λ x d. d) (start_server-Keeps model_path)))
          s c)
