-- ===== src/Backends/Sglang/Started.antt =====
-- What is seen of the server of `SGLangHTTPRuntime` after its start.
-- src/ganker/backends/sglang.py
use mathlib.Core.Path.{subst}
use ganker.Base.{
  ◌&&◌, List, [], ℕ, String, ◌≡◌, refl, sym, ap, ◌∙◌, true, Option, some, none, arith, inl, inr,
  ◌⊎◌, Option-cases, Bool-cases, ◌==◌,
}
use ganker.Base.Float.{Float}
use ganker.Base.Result.{Result, ok, err, Exec, Result-cases, ◌>>=◌, ◌>>◌, modify}
use ganker.Base.Dict.{is_some}
use ganker.Backends.Sglang.Http.{SglangBackendConfig, Host}
use ganker.Backends.Sglang.Watched.{Watched, after_popen, watched}
use ganker.Backends.Sglang.Answering.{wait_for_health-Answered}
use ganker.Backends.Sglang.Server
use ganker.Backends.Sglang.Server.{
  HttpState, has_ended, wait_for_health, start_server, ensure_server, forget_ended, started,
  on_world, server_cmd, base_url,
}
use ganker.Backends.Sglang.Seen.{State, cmd_of, IsLatest, IsConsistent, Ready, no_loras}

-- The result and the state of a method whose first part returned.
>>=-returned :
    {S A B : Type 0} (m : Exec S A) (f : A → Exec S B) (s : S) (b : B)
    → ((m >>= f) s).0 ≡ ok b
    → (a : A) × ((m s).0 ≡ ok a) × ((m >>= f) s ≡ f a (m s).1)
>>=-returned m f s b e = elim (Result-cases (m s).0) [
  | inl (a, p) ↦ (a, p, ground arith)
  | inr (x, p) ↦ absurd {0} (ground arith)
]

pub launched_popen :
    {W P : Type 0} (cmd : List String) (p : P) (r : Result P) (w : W) (seen : Watched W P)
    → r ≡ ok p
    → (after_popen cmd r w seen).launched ≡ some (p, cmd)
launched_popen cmd p (ok q) w seen e = ground arith
launched_popen cmd p (err x) w seen e = absurd {0} (ground arith)

module _ (F : Float) (config : SglangBackendConfig F.Real) (host : Host F.Real) where
  module _ (rounds : ℕ) where
    pub start_server-Ready :
        (model_path : String) (s : State F config host rounds)
        → (start_server F config (watched host) rounds model_path s).0 ≡ ok tt
        → Ready F config host rounds model_path
            (start_server F config (watched host) rounds model_path s).1
    unfolding start_server
    start_server-Ready model_path s e =
        let popen =
          on_world F config (watched host)
            ((watched host).popen (cmd_of F config host rounds model_path)) in
        let rest : host.Process → Exec (State F config host rounds) (Unit {0}) = λ p.
          modify (started F config (watched host) rounds p model_path)
          >> wait_for_health F config (watched host) rounds (some p) in
        let launch : Exec (State F config host rounds) (Unit {0}) = popen >>= rest in
        let forget : Exec (State F config host rounds) (Unit {0}) =
          modify (λ x. record x { loaded_loras = [] }) in
        let (_, e1, same1) =
          >>=-returned (Server.close F config (watched host)) (λ _. forget >> launch) s tt e in
        let s1 = (Server.close F config (watched host) s).1 in
        let s2 : State F config host rounds = record s1 { loaded_loras = [] } in
        let e2 : (launch s2).0 ≡ ok tt =
          sym (ap (λ (q : Result (Unit {0}) × State F config host rounds). q.0) same1) ∙ e in
        let (p, new, same2) = >>=-returned popen rest s2 tt e2 in
        let s4 : State F config host rounds =
          started F config (watched host) rounds p model_path (popen s2).1 in
        let e4 : (wait_for_health F config (watched host) rounds (some p) s4).0 ≡ ok tt =
          sym (ap (λ (q : Result (Unit {0}) × State F config host rounds). q.0) same2) ∙ e2 in
        let (w, same4, (polled, launched, posts)) =
          wait_for_health-Answered F config host rounds p s4 e4 in
        subst
          (λ (q : Result (Unit {0}) × State F config host rounds).
            Ready F config host rounds model_path q.1)
          (sym (same1 ∙ same2 ∙ same4))
          (
            (
              p,
              refl,
              refl,
              launched ∙ launched_popen (cmd_of F config host rounds model_path) p _ _ s2.world new,
              polled,
            ),
            no_loras F config host rounds w.posts,
          )

    abbrev IsRunning : State F config host rounds → Type 0
    IsRunning s = (p : host.Process) × (s.process ≡ some p) × (s.world.polled ≡ some (p, none))

    pub forget_ended-IsConsistent :
        (process : Option host.Process) (s : State F config host rounds)
        → s.process ≡ process
        → IsConsistent F config host rounds s
        → let t = (forget_ended F config (watched host) rounds process s).1 in
          IsConsistent F config host rounds t × ((t.process ≡ none) ⊎ IsRunning t)
    unfolding forget_ended has_ended
    forget_ended-IsConsistent none s e c = (c, inl e)
    forget_ended-IsConsistent (some p) s e c = elim (Option-cases (host.poll p s.world.inner).0) [
      | inl alive ↦ rw alive (c, inr (p, e, refl))
      | inr (code, ended) ↦ rw ended ((tt, no_loras F config host rounds _), inl refl)
    ]

    served_by :
        (model_path : String) (s : State F config host rounds)
        → is_some s.process ≡ true
        → s.active_model_path ≡ model_path
        → IsConsistent F config host rounds s
        → (s.process ≡ none) ⊎ IsRunning s
        → Ready F config host rounds model_path s
    served_by model_path s there same c (inl gone) = absurd {0} (ground arith)
    served_by model_path s there same (latest, posted) (inr (p, e, polled)) = (
      (
        p,
        e,
        same,
        subst (λ m. s.world.launched ≡ some (p, cmd_of F config host rounds m)) same
            (subst (λ r. IsLatest F config host rounds r s.active_model_path s.world.launched) e
              latest),
        polled,
      ),
      posted,
    )

    pub ensure_server-Ready :
        (model_path : String) (s : State F config host rounds)
        → config.launch_server ≡ true
        → IsConsistent F config host rounds s
        → (ensure_server F config (watched host) rounds model_path s).0 ≡ ok tt
        → Ready F config host rounds model_path
            (ensure_server F config (watched host) rounds model_path s).1
    unfolding ensure_server
    ensure_server-Ready model_path s launches c e =
        let forgotten = forget_ended F config (watched host) rounds s.process s in
        let t = forgotten.1 in
        let (c', seen) = forget_ended-IsConsistent s.process s refl c in
        elim (Result-cases forgotten.0) [
          | inr (x, p) ↦ absurd {0} (ground arith)
          | inl (done, p) ↦
              elim (Bool-cases (is_some t.process && t.active_model_path == model_path)) [
                | inl served ↦
                    let same : ensure_server F config (watched host) rounds model_path s
                        ≡ (ok tt, t) =
                      ground arith in
                    subst
                      (λ (q : Result (Unit {0}) × State F config host rounds).
                        Ready F config host rounds model_path q.1)
                      (sym same) (served_by model_path t (ground arith) (ground arith) c' seen)
                | inr other ↦
                    let e' : (start_server F config (watched host) rounds model_path t).0 ≡ ok tt =
                      ground arith in
                    let same : ensure_server F config (watched host) rounds model_path s
                        ≡ start_server F config (watched host) rounds model_path t =
                      ground arith in
                    subst
                      (λ (q : Result (Unit {0}) × State F config host rounds).
                        Ready F config host rounds model_path q.1)
                      (sym same) (start_server-Ready model_path t e')
              ]
        ]
