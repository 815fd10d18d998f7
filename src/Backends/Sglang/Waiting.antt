-- ===== src/Backends/Sglang/Waiting.antt =====
-- How long the start of a server of `SGLangHTTPRuntime` waits.
-- src/ganker/backends/sglang.py
use ganker.Base.{
  ℕ, zero, suc, ◌<◌, ◌≤◌, String, ◌<>◌, ◌≡◌, ◌≢◌, refl, true, false, Option, arith, inl, inr, ◌⊎◌,
  Option-cases, Bool-cases,
}
use ganker.Base.Float.{Float}
use ganker.Base.Result.{Result, ok, err}
use ganker.Base.Dict.{is_some}
use ganker.Backends.Sglang.Http.{SglangBackendConfig, Host}
use ganker.Backends.Sglang.Server.{wait_rounds, after_poll, after_get, base_url, health_timeout}

module _ (F : Float) (config : SglangBackendConfig F.Real) (host : Host F.Real) where
  -- A clock that passes the deadline: `left` bounds the sleeps that are left, and no other call
  -- raises it.
  pub record Passes (deadline : F.Real) : Type 0 where
    pub left : host.World → ℕ
    pub over : (w : host.World) → left w ≡ 0 → F.lt (host.monotonic w).0 deadline ≡ false
    pub read : (w : host.World) → left (host.monotonic w).1 ≤ left w
    pub polled : (p : host.Process) (w : host.World) → left (host.poll p w).1 ≤ left w
    pub asked : (url : String) (t : F.Real) (w : host.World) → left (host.get url t w).1 ≤ left w
    pub slept : (w : host.World) → (left (host.sleep w) < left w) ⊎ (left (host.sleep w) ≡ 0)

  after_get-ends :
      (again : host.World → Option (Result (Unit {0}) × host.World)) (got : Result (Unit {0}))
      (w : host.World)
      → is_some (again (host.sleep w)) ≡ true
      → is_some (after_get F config host again got w) ≡ true
  unfolding after_get
  after_get-ends again (ok done) w h = refl
  after_get-ends again (err e) w h = ground arith

  -- With more rounds than sleeps that are left before the deadline, the wait for the server ends:
  -- `rounds` is enough for it to return or to raise.
  pub wait_rounds_end :
      (deadline : F.Real) (clock : Passes deadline) (p : host.Process) (rounds : ℕ) (w : host.World)
      → clock.left w < rounds
      → is_some (wait_rounds F config host rounds deadline p w) ≡ true
  unfolding wait_rounds after_poll
  wait_rounds_end deadline clock p zero w l = absurd {0} (omega (arith, l))
  wait_rounds_end deadline clock p (suc rounds) w l =
      elim (Bool-cases (F.lt (host.monotonic w).0 deadline)) [
        | inr late ↦ rw late refl
        | inl early ↦
            let more : clock.left w ≢ 0 = λ z. cc (early, clock.over w z) in
            let w1 = (host.monotonic w).1 in
            let (polled, w2) = host.poll p w1 in
            elim (Option-cases (host.poll p w1).0) [
              | inr (code, ended) ↦ rw (early, ended) refl
              | inl alive ↦
                  let url = base_url F config host <> "/health" in
                  let (got, w3) = host.get url (health_timeout F config host) w2 in
                  let fewer : clock.left (host.sleep w3) < rounds = omega (
                    arith,
                    l,
                    more,
                    clock.read w,
                    clock.polled p w1,
                    clock.asked url (health_timeout F config host) w2,
                    clock.slept w3,
                  ) in
                  rw (early, alive)
                    (after_get-ends (wait_rounds F config host rounds deadline p) got w3
                      (wait_rounds_end deadline clock p rounds (host.sleep w3) fewer))
            ]
      ]
