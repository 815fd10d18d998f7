-- ===== src/Backends/Sglang/Answering.antt =====
-- What was seen on a machine under watch when the wait for the server of `SGLangHTTPRuntime` returns.
-- src/ganker/backends/sglang.py
use ganker.Base.{
  ℕ, zero, suc, ◌<>◌, ◌≡◌, refl, sym, ap, ◌∙◌, Option, some, none, arith, inl, inr, ◌⊎◌,
  Option-cases, Bool-cases,
}
use ganker.Base.Int.{ℤ}
use ganker.Base.Float.{Float}
use ganker.Base.Result.{
  Result, ok, err, backend_unavailable, invalid_request, not_found, grpc_transport_error,
  value_error, key_error, type_error, index_error, timeout_error, other_error,
}
use ganker.Backends.Sglang.Http.{SglangBackendConfig, Host}
use ganker.Backends.Sglang.Watched.{Watched, watched}
use ganker.Backends.Sglang.Server.{
  HttpState, wait_rounds, after_poll, after_get, wait_for_health, health_timeout, base_url,
}

module _ (F : Float) (config : SglangBackendConfig F.Real) (host : Host F.Real) where
  abbrev World : Type 0
  World = Watched host.World host.Process

  -- The latest `poll` was of the process, which was running, and no server was started and nothing
  -- was posted since.
  abbrev pub Answered : host.Process → World → World → Type 0
  Answered p w w' = (w'.polled ≡ some (p, none)) × (w'.launched ≡ w.launched) × (w'.posts ≡ w.posts)

  after_get-cases :
      (again : World → Option (Result (Unit {0}) × World)) (got r : Result (Unit {0}))
      (w w' : World)
      → after_get F config (watched host) again got w ≡ some (r, w')
      → (w ≡ w') ⊎ (again (record w { inner = host.sleep w.inner }) ≡ some (r, w'))
  unfolding after_get
  after_get-cases again (ok tt) r w w' e = inl (ground arith)
  after_get-cases again (err (backend_unavailable m)) r w w' e = inr e
  after_get-cases again (err (invalid_request m)) r w w' e = inl (ground arith)
  after_get-cases again (err (not_found m)) r w w' e = inl (ground arith)
  after_get-cases again (err (grpc_transport_error c m)) r w w' e = inl (ground arith)
  after_get-cases again (err (value_error m)) r w w' e = inl (ground arith)
  after_get-cases again (err (key_error m)) r w w' e = inl (ground arith)
  after_get-cases again (err (type_error m)) r w w' e = inl (ground arith)
  after_get-cases again (err (index_error m)) r w w' e = inl (ground arith)
  after_get-cases again (err (timeout_error m)) r w w' e = inl (ground arith)
  after_get-cases again (err (other_error m)) r w w' e = inl (ground arith)

  wait_rounds-Answered :
      (deadline : F.Real) (p : host.Process) (rounds : ℕ) (w w' : World)
      → wait_rounds F config (watched host) rounds deadline p w ≡ some (ok tt, w')
      → Answered p w w'
  unfolding wait_rounds after_poll
  wait_rounds-Answered deadline p zero w w' e = absurd {0} (ground arith)
  wait_rounds-Answered deadline p (suc rounds) w w' e =
      elim (Bool-cases (F.lt (host.monotonic w.inner).0 deadline)) [
        | inr late ↦ absurd {0} (ground arith)
        | inl early ↦
            let w1 = (host.monotonic w.inner).1 in
            elim (Option-cases (host.poll p w1).0) [
              | inr (code, ended) ↦ absurd {0} (ground arith)
              | inl alive ↦
                  let w2 : World = record w {
                    inner = (host.poll p w1).1;
                    polled = some (p, (host.poll p w1).0);
                  } in
                  let asked =
                    host.get (base_url F config (watched host) <> "/health")
                      (health_timeout F config (watched host)) w2.inner in
                  let w3 : World = record w2 { inner = asked.1 } in
                  elim (after_get-cases (wait_rounds F config (watched host) rounds deadline p)
                    asked.0 (ok tt) w3 w' (ground arith)) [
                      | inl same ↦ (
                        ap (λ (x : World). x.polled) (sym same)
                            ∙ ap (λ (r : Option ℤ). some (p, r)) alive,
                        ap (λ (x : World). x.launched) (sym same),
                        ap (λ (x : World). x.posts) (sym same),
                      )
                      | inr again ↦
                          wait_rounds-Answered deadline p rounds
                            (record w3 { inner = host.sleep w3.inner }) w' again
                    ]
            ]
      ]

  -- The wait starts no server and posts nothing.
  pub wait_rounds-keeps :
      (deadline : F.Real) (p : host.Process) (rounds : ℕ) (r : Result (Unit {0})) (w w' : World)
      → wait_rounds F config (watched host) rounds deadline p w ≡ some (r, w')
      → (w'.launched ≡ w.launched) × (w'.posts ≡ w.posts)
  unfolding wait_rounds after_poll
  wait_rounds-keeps deadline p zero r w w' e = absurd {0} (ground arith)
  wait_rounds-keeps deadline p (suc rounds) r w w' e =
      let w1 = (host.monotonic w.inner).1 in
      let w2 : World = record w {
        inner = (host.poll p w1).1;
        polled = some (p, (host.poll p w1).0);
      } in
      elim (Bool-cases (F.lt (host.monotonic w.inner).0 deadline)) [
        | inr late ↦ kept w (record w { inner = w1 }) w' refl refl (ground arith)
        | inl early ↦ elim (Option-cases (host.poll p w1).0) [
          | inr (code, ended) ↦ kept w w2 w' refl refl (ground arith)
          | inl alive ↦
              let asked =
                host.get (base_url F config (watched host) <> "/health")
                  (health_timeout F config (watched host)) w2.inner in
              let w3 : World = record w2 { inner = asked.1 } in
              elim (after_get-cases (wait_rounds F config (watched host) rounds deadline p) asked.0
                r w3 w' (ground arith)) [
                  | inl same ↦ kept w w3 w' refl refl same
                  | inr again ↦
                      wait_rounds-keeps deadline p rounds r
                        (record w3 { inner = host.sleep w3.inner }) w' again
                ]
        ]
      ]
    where
      kept :
          (w u w' : World)
          → u.launched ≡ w.launched
          → u.posts ≡ w.posts
          → u ≡ w'
          → (w'.launched ≡ w.launched) × (w'.posts ≡ w.posts)
      kept w u w' a b e =
          (sym (ap (λ (x : World). x.launched) e) ∙ a, sym (ap (λ (x : World). x.posts) e) ∙ b)

  module _ (rounds : ℕ) where
    abbrev State : Type 0
    State = HttpState F config (watched host)

    pub wait_for_health-Answered :
        (p : host.Process) (s : State)
        → (wait_for_health F config (watched host) rounds (some p) s).0 ≡ ok tt
        → (w : World) × (wait_for_health F config (watched host) rounds (some p) s
            ≡ (ok tt, record s { world = w }))
          × Answered p s.world w
    unfolding wait_for_health
    wait_for_health-Answered p s e =
        let (now, w) = host.monotonic s.world.inner in
        let deadline = F.add now config.startup_timeout in
        let begun : World = record s.world { inner = w } in
        elim (Option-cases (wait_rounds F config (watched host) rounds deadline p begun)) [
          | inl none_left ↦ absurd {0} (ground arith)
          | inr ((r, w'), same) ↦
              let returned : r ≡ ok tt = ground arith in
              (
                w',
                ground arith,
                wait_rounds-Answered deadline p rounds begun w'
                    (same ∙ ap (λ (x : Result (Unit {0})). some (x, w')) returned),
              )
        ]
