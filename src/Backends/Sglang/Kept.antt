-- ===== src/Backends/Sglang/Kept.antt =====
-- The refreshes of `SGLangHTTPRuntime` keep what it has noted in step with its machine, also if they
-- raise. src/ganker/backends/sglang.py
use ganker.Base.{◌||◌, ℕ, String, ◌≡◌, true, arith, inl, inr, Bool-cases, ◌==◌}
use ganker.Base.Float.{Float}
use ganker.Base.Result.{Result, ok, err, Result-cases, ◌>>=◌, ◌>>◌, pure, lift}
use ganker.Base.File.{JsonObject}
use ganker.Contracts.{WeightArtifact}
use ganker.Backends.Sglang.{SglangLoadedArtifact}
use ganker.Backends.Sglang.Http.{SglangBackendConfig, Host, required_str, adapter_name}
use ganker.Backends.Sglang.Watched.{watched, adapter_body}
use ganker.Backends.Sglang.Refreshes
use ganker.Backends.Sglang.Refreshes.{
  load_lora_adapter, refresh_full, refresh_lora, full_model_path, lora_base_model_path,
  artifact_format_of,
}
use ganker.Backends.Sglang.Server.{ensure_server}
use ganker.Backends.Sglang.Seen.{lora_url}
use ganker.Backends.Sglang.Posted.{with_adapter, load_lora_adapter-cases, ArePosted-insert}
use ganker.Backends.Sglang.Keeping.{M, Keeps, moved, >>=-Keeps, if-Keeps, ensure_server-Keeps}

module _ (F : Float) (config : SglangBackendConfig F.Real) (host : Host F.Real) (rounds : ℕ) where
  load_lora_adapter-Keeps :
      (name path : String)
      → Keeps F config host rounds (load_lora_adapter F config (watched host) rounds name path)
  unfolding load_lora_adapter
  load_lora_adapter-Keeps name path s c =
      let load : M F config host rounds (Unit {0}) =
        load_lora_adapter F config (watched host) rounds name path in
      let (asked, w) =
        host.post_json (lora_url F config host rounds) (adapter_body name path)
          config.request_timeout s.world.inner in
      elim (Result-cases (load s).0) [
        | inl (done, e) ↦ elim (load_lora_adapter-cases F config host rounds name path s e) [
          | inl (same, there) ↦ moved F config host rounds (load s) (ok tt, s) same c
          | inr (v, same) ↦
              moved F config host rounds (load s)
                (ok tt, with_adapter F config host rounds name path v s) same
                (
                  c.0,
                  ArePosted-insert F config host rounds name path s.loaded_loras s.world.posts c.1,
                )
        ]
        | inr (x, e) ↦ elim (Bool-cases config.enable_lora) [
          | inr disabled ↦ moved F config host rounds (load s) (err x, s) (ground arith) c
          | inl enabled ↦
              moved F config host rounds (load s)
                (err x, record s { world = record s.world { inner = w } }) (ground arith) c
        ]
      ]

  lift-Keeps :
      {A B : Type 0} (r : Result A) (f : A → M F config host rounds B)
      → ((a : A) → Keeps F config host rounds (f a))
      → Keeps F config host rounds (lift r >>= f)
  lift-Keeps r f next = >>=-Keeps F config host rounds (lift r) f (λ s c. c) next

  module _ (artifact : WeightArtifact) (payload : JsonObject) (format : String) where
    full_of : String → M F config host rounds SglangLoadedArtifact
    full_of model_path = do
      ensure_server F config (watched host) rounds model_path
      pure (record {
        artifact = artifact;
        artifact_format = format;
        model_path = model_path;
        lora_name = "";
        lora_path = "";
        payload = payload;
      })

    refresh_full-Keeps :
        config.launch_server ≡ true
        → Keeps F config host rounds
            (refresh_full F config (watched host) rounds artifact payload format)
    unfolding refresh_full full_of
    refresh_full-Keeps launches =
        lift-Keeps (full_model_path F config (watched host) rounds payload) full_of (λ model_path.
          >>=-Keeps F config host rounds (ensure_server F config (watched host) rounds model_path)
            (λ done. pure (record {
              artifact = artifact;
              artifact_format = format;
              model_path = model_path;
              lora_name = "";
              lora_path = "";
              payload = payload;
            }))
            (ensure_server-Keeps F config host rounds model_path launches) (λ done s c. c))

    refresh_lora-Keeps :
        (run_id : String)
        → config.launch_server ≡ true
        → Keeps F config host rounds
            (refresh_lora F config (watched host) rounds run_id artifact payload format)
    unfolding refresh_lora
    refresh_lora-Keeps run_id launches =
        let name = adapter_name run_id artifact.checkpoint_version in
        let found : String → String → M F config host rounds SglangLoadedArtifact =
          λ model_path lora_path. pure (record {
            artifact = artifact;
            artifact_format = format;
            model_path = model_path;
            lora_name = name;
            lora_path = lora_path;
            payload = payload;
          }) in
        let load : String → M F config host rounds (Unit {0}) =
          λ path. load_lora_adapter F config (watched host) rounds name path in
        let ensure : String → M F config host rounds (Unit {0}) =
          λ model_path. ensure_server F config (watched host) rounds model_path in
        lift-Keeps (lora_base_model_path F config (watched host) rounds payload)
          (λ model_path. lift (required_str payload "hf_adapter_path") >>= λ lora_path.
            ensure model_path >> (load lora_path >> found model_path lora_path))
          (λ model_path.
            lift-Keeps (required_str payload "hf_adapter_path")
              (λ lora_path. ensure model_path >> (load lora_path >> found model_path lora_path))
              (λ lora_path.
                >>=-Keeps F config host rounds (ensure model_path)
                  (λ done. load lora_path >> found model_path lora_path)
                  (ensure_server-Keeps F config host rounds model_path launches)
                  (λ done.
                    >>=-Keeps F config host rounds (load lora_path)
                      (λ d. found model_path lora_path) (load_lora_adapter-Keeps name lora_path)
                      (λ d s c. c))))

  pub refresh_weights-Keeps :
      (run_id : String) (artifact : WeightArtifact) (payload : JsonObject)
      → config.launch_server ≡ true
      → Keeps F config host rounds
          (Refreshes.refresh_weights F config (watched host) rounds run_id artifact payload)
  unfolding Refreshes.refresh_weights
  refresh_weights-Keeps run_id artifact payload launches =
      let format = artifact_format_of F config (watched host) rounds payload in
      if-Keeps F config host rounds (format == "base-model" || format == "hf-full-safetensors") _ _
        (refresh_full-Keeps artifact payload format launches)
        (if-Keeps F config host rounds (format == "hf-lora-adapter") _ _
          (refresh_lora-Keeps artifact payload format run_id launches) (λ s c. c))
