-- ===== src/Backends/Sglang/Server.antt =====
-- `SGLangHTTPRuntime` of src/ganker/backends/sglang.py: its server process.
use Prim.Native.Char.{code}
use ganker.Base.{
  eqb, ℕ, zero, suc, String, ◌<>◌, Bool, true, false, ◌&&◌, Option, some, none, List, [], ◌∷◌, ◌++◌,
  ◌==◌, is_empty, if◌then◌else◌,
}
use ganker.Base.Int.{ℤ, pos}
use ganker.Base.Float.{Float}
use ganker.Base.Result.{
  backend_unavailable, other_error, Result, ok, err, Exec, pure, gets, modify, ◌>>=◌, ◌>>◌,
}
use ganker.Base.Dict.{is_some, Dict}
use ganker.Base.Text.{show_ℤ}
use ganker.Base.File.{Json, null, bool, int, str, other}
use ganker.Backends.Sglang.Http.{SglangBackendConfig, Host, rstrip_char}

-- `if value is False or value is None: continue`, and what is appended else
unfoldable pub server_arg : String → Json → List String
server_arg arg null = []
server_arg arg (bool false) = []
server_arg arg (bool true) = arg ∷ []
server_arg arg (str s) = if is_empty s then arg ∷ [] else arg ∷ s ∷ []
server_arg arg (int n) = arg ∷ show_ℤ n ∷ []
server_arg arg (other s n) = arg ∷ s ∷ []

-- `key if str(key).startswith("--") else f"--{key}"`
abbrev is_option : String → Bool
is_option (String.◌∷◌ c (String.◌∷◌ d s)) = eqb (code c) 45 && eqb (code d) 45
is_option (String.◌∷◌ c String.[]) = false
is_option String.[] = false

unfoldable pub extra_args : Dict Json → List String
unfolding server_arg
extra_args [] = []
extra_args ((key, value) ∷ rest) =
    server_arg (if is_option key then key else "--" <> key) value ++ extra_args rest

abbrev or_no_args {ℓ} : {A : Type ℓ} → (A → List String) → Option A → List String
or_no_args f none = []
or_no_args f (some a) = f a

module _ (F : Float) (config : SglangBackendConfig F.Real) (host : Host F.Real) where
  unfoldable pub base_url : String
  base_url =
      let configured = rstrip_char 47 config.base_url in
      if is_empty configured
      then "http://" <> (config.host <> (":" <> show_ℤ config.port))
      else configured

  unfoldable pub server_cmd : String → List String
  unfolding extra_args
  server_cmd model_path =
      (host.executable
        ∷ "-m"
        ∷ "sglang.launch_server"
        ∷ "--host"
        ∷ config.host
        ∷ "--port"
        ∷ show_ℤ config.port
        ∷ "--model-path"
        ∷ model_path
        ∷ [])
      ++ (if is_empty config.served_model_name
          then []
          else "--served-model-name" ∷ config.served_model_name ∷ [])
      ++ or_no_args (λ n. "--tp" ∷ show_ℤ n ∷ []) config.tensor_parallel_size
      ++ or_no_args (λ n. "--dp" ∷ show_ℤ n ∷ "--enable-dp-attention" ∷ [])
          config.data_parallel_size
      ++ (if config.enable_lora
          then "--enable-lora"
            ∷ "--max-lora-rank"
            ∷ show_ℤ config.max_lora_rank
            ∷ "--lora-target-modules"
            ∷ "all"
            ∷ []
          else [])
      ++ extra_args config.extra_server_args

  pub record HttpState : Type 0 where
    pub process : Option host.Process
    pub active_model_path : String
    pub loaded_loras : Dict String
    pub world : host.World

  -- A call of the machine
  abbrev pub on_world : {A : Type 0} → Exec host.World A → Exec HttpState A
  on_world m s = let (r, w) = m s.world in (r, record s { world = w })

  -- `self._process.poll() is not None`
  unfoldable pub has_ended : Option host.Process → Exec HttpState Bool
  has_ended none s = (ok true, s)
  has_ended (some p) s =
      let (returncode, w) = host.poll p s.world in (ok (is_some returncode), record s { world = w })

  abbrev kill_process : host.Process → Exec HttpState (Unit {0})
  kill_process p = on_world (host.kill p) >> on_world (host.wait_ended p)

  unfoldable pub stop_process : Option host.Process → Exec HttpState (Unit {0})
  stop_process none = pure tt
  stop_process (some p) = do
    on_world (host.terminate p)
    ended ← on_world (host.wait p)
    if ended then pure tt else kill_process p

  unfoldable pub close : Exec HttpState (Unit {0})
  unfolding has_ended stop_process
  close = do
    process ← gets (λ s. s.process)
    ended ← has_ended process
    if ended then pure tt else stop_process process

  -- `min(5.0, self._config.request_timeout)`
  abbrev pub health_timeout : F.Real
  health_timeout =
      if F.lt config.request_timeout (F.literal (pos 50) 1)
      then config.request_timeout
      else F.literal (pos 50) 1

  abbrev Waited : Type 0
  Waited = Option (Result (Unit {0}) × host.World)

  -- What follows the request to the server, and what follows `poll`.
  unfoldable pub after_get : (host.World → Waited) → Result (Unit {0}) → host.World → Waited
  after_get again (ok done) w = some (ok tt, w)
  after_get again (err (backend_unavailable message)) w = again (host.sleep w)
  after_get again (err e) w = some (err e, w)

  unfoldable pub after_poll : (host.World → Waited) → Option ℤ → host.World → Waited
  unfolding after_get base_url
  after_poll again (some returncode) w = some (
    err (
        backend_unavailable
          ("SGLang server exited during startup with return code " <> show_ℤ returncode)),
    w,
  )
  after_poll again none w =
      let (got, w') = host.get (base_url <> "/health") health_timeout w in after_get again got w'

  -- The rounds of `while time.monotonic() < deadline`, or none if `rounds` are not enough.
  unfoldable pub wait_rounds : ℕ → F.Real → host.Process → host.World → Waited
  unfolding after_poll
  wait_rounds zero deadline p w = none
  wait_rounds (suc rounds) deadline p w =
      let (now, w1) = host.monotonic w in
      let (polled, w2) = host.poll p w1 in
      let next = after_poll (wait_rounds rounds deadline p) polled w2 in
      if F.lt now deadline
      then next
      else some (
        err (
            backend_unavailable (
              "SGLang health check timed out after "
              <> (host.show_float config.startup_timeout <> "s"))),
        w1,
      )

  module _ (rounds : ℕ) where
    abbrev waited : HttpState → Waited → Result (Unit {0}) × HttpState
    waited s none = (err (other_error "rounds"), s)
    waited s (some (r, w)) = (r, record s { world = w })

    unfoldable pub wait_for_health : Option host.Process → Exec HttpState (Unit {0})
    unfolding wait_rounds
    wait_for_health none s = (ok tt, s)
    wait_for_health (some p) s =
        let (now, w) = host.monotonic s.world in
        waited s (wait_rounds rounds (F.add now config.startup_timeout) p w)

    abbrev pub no_server : HttpState → HttpState
    no_server s = record s { process = none; active_model_path = ""; loaded_loras = [] }

    abbrev pub started : host.Process → String → HttpState → HttpState
    started p model_path s = record s { process = some p; active_model_path = model_path }

    -- From `self.close()` to the end of `_ensure_server`
    unfoldable pub start_server : String → Exec HttpState (Unit {0})
    unfolding close server_cmd wait_for_health
    start_server model_path = do
      close
      modify (λ s. record s { loaded_loras = [] })
      p ← on_world (host.popen (server_cmd model_path))
      modify (started p model_path)
      wait_for_health (some p)

    -- The test of the process at the start of `_ensure_server`
    unfoldable pub forget_ended : Option host.Process → Exec HttpState (Unit {0})
    unfolding has_ended
    forget_ended none = pure tt
    forget_ended (some p) =
        has_ended (some p) >>= λ ended. if ended then modify no_server else pure tt

    unfoldable pub ensure_server : String → Exec HttpState (Unit {0})
    unfolding forget_ended start_server
    ensure_server model_path s =
        let launched =
          (gets (λ x. x.process) >>= forget_ended)
          >> (gets (λ x. is_some x.process && x.active_model_path == model_path) >>= λ served.
              if served then pure tt else start_server model_path) in
        if config.launch_server then launched s else (ok tt, s)
