-- ===== src/Backends/Sglang/Serving.antt =====
-- What is seen of the server of `SGLangHTTPRuntime` when a refresh returns.
-- src/ganker/backends/sglang.py
use mathlib.Core.Path.{subst}
use ganker.Base.{
  ◌||◌, ℕ, String, ◌≡◌, refl, sym, ap, ◌∙◌, true, arith, inl, inr, Bool-cases, ◌==◌, string_dec,
}
use ganker.Base.Float.{Float}
use ganker.Base.Result.{Result, ok, is_ok, Result-cases}
use ganker.Base.File.{JsonObject}
use ganker.Contracts.{WeightArtifact}
use ganker.Backends.Sglang.{SglangLoadedArtifact}
use ganker.Backends.Sglang.Http.{SglangBackendConfig, Host, required_str, adapter_name}
use ganker.Backends.Sglang.Watched.{watched}
use ganker.Backends.Sglang.Refreshes
use ganker.Backends.Sglang.Refreshes.{
  load_lora_adapter, refresh_full, refresh_lora, full_model_path, lora_base_model_path,
  artifact_format_of,
}
use ganker.Backends.Sglang.Server.{ensure_server}
use ganker.Backends.Sglang.Seen.{State, IsConsistent, IsFull, HasLoaded, Refreshed}
use ganker.Backends.Sglang.Started.{ensure_server-Ready}
use ganker.Backends.Sglang.Posted.{load_lora_adapter-Ready}
use ganker.Backends.Sglang.Kept.{refresh_weights-Keeps}

module _ (F : Float) (config : SglangBackendConfig F.Real) (host : Host F.Real) where
  module _ (rounds : ℕ) where
    refresh_full-HasLoaded :
        (artifact : WeightArtifact) (payload : JsonObject) (format : String)
        (s : State F config host rounds) (loaded : SglangLoadedArtifact)
        → config.launch_server ≡ true
        → IsConsistent F config host rounds s
        → IsFull F config host rounds format
        → (refresh_full F config (watched host) rounds artifact payload format s).0 ≡ ok loaded
        → HasLoaded F config host rounds artifact format loaded
            (refresh_full F config (watched host) rounds artifact payload format s).1
    unfolding refresh_full
    refresh_full-HasLoaded artifact payload format s loaded launches c full e =
        elim (Result-cases (full_model_path F config (watched host) rounds payload)) [
          | inr (x, p) ↦ absurd {0} (ground arith)
          | inl (model_path, p) ↦
              elim (Result-cases (ensure_server F config (watched host) rounds model_path s).0) [
                | inr (x, q) ↦ absurd {0} (ground arith)
                | inl (done, q) ↦
                    let t = (ensure_server F config (watched host) rounds model_path s).1 in
                    let is_loaded : loaded ≡ record {
                      artifact = artifact;
                      artifact_format = format;
                      model_path = model_path;
                      lora_name = "";
                      lora_path = "";
                      payload = payload;
                    } =
                      ground arith in
                    let same : (refresh_full F config (watched host) rounds artifact payload format
                          s).1
                        ≡ t =
                      ground arith in
                    let ready =
                      ensure_server-Ready F config host rounds model_path s launches c q in
                    subst
                      (λ (x : SglangLoadedArtifact × State F config host rounds).
                        HasLoaded F config host rounds artifact format x.0 x.1)
                      (λ i. (sym is_loaded i, sym same i)) (refl, ready.0, inl (full, refl))
              ]
        ]

    refresh_lora-HasLoaded :
        (run_id : String) (artifact : WeightArtifact) (payload : JsonObject)
        (s : State F config host rounds) (loaded : SglangLoadedArtifact)
        → config.launch_server ≡ true
        → IsConsistent F config host rounds s
        → (refresh_lora F config
            (watched host)
            rounds
            run_id
            artifact
            payload
            "hf-lora-adapter"
            s).0
          ≡ ok loaded
        → HasLoaded F config host rounds artifact "hf-lora-adapter" loaded
            (refresh_lora F config
              (watched host)
              rounds
              run_id
              artifact
              payload
              "hf-lora-adapter"
              s).1
    unfolding refresh_lora
    refresh_lora-HasLoaded run_id artifact payload s loaded launches c e =
        let result =
          refresh_lora F config (watched host) rounds run_id artifact payload "hf-lora-adapter" s in
        elim (Result-cases (lora_base_model_path F config (watched host) rounds payload)) [
          | inr (x, p) ↦ absurd {0} (ground arith)
          | inl (model_path, p) ↦ elim (Result-cases (required_str payload "hf_adapter_path")) [
            | inr (x, q) ↦ absurd {0} (ground arith)
            | inl (lora_path, q) ↦
                let name = adapter_name run_id artifact.checkpoint_version in
                elim (Result-cases (ensure_server F config (watched host) rounds model_path s).0) [
                  | inr (x, r) ↦ absurd {0} (ground arith)
                  | inl (done, r) ↦
                      let t = (ensure_server F config (watched host) rounds model_path s).1 in
                      let posted =
                        load_lora_adapter F config (watched host) rounds name lora_path t in
                      elim (Result-cases posted.0) [
                        | inr (x, l) ↦ absurd {0} (ground arith)
                        | inl (done', l) ↦
                            let is_loaded : loaded ≡ record {
                              artifact = artifact;
                              artifact_format = "hf-lora-adapter";
                              model_path = model_path;
                              lora_name = name;
                              lora_path = lora_path;
                              payload = payload;
                            } =
                              ground arith in
                            let same : result.1 ≡ posted.1 = ground arith in
                            let (ready, adapter) =
                              load_lora_adapter-Ready F config host rounds name lora_path model_path
                                t
                                (ensure_server-Ready F config host rounds model_path s launches c r)
                                l in
                            subst
                              (λ (x : SglangLoadedArtifact × State F config host rounds).
                                HasLoaded F config host rounds artifact "hf-lora-adapter" x.0 x.1)
                              (λ i. (sym is_loaded i, sym same i))
                              (refl, ready.0, inr (refl, adapter))
                      ]
                ]
          ]
        ]

    refresh_weights-returned :
        (run_id : String) (artifact : WeightArtifact) (payload : JsonObject)
        (s : State F config host rounds) (loaded : SglangLoadedArtifact)
        → config.launch_server ≡ true
        → IsConsistent F config host rounds s
        → (Refreshes.refresh_weights F config (watched host) rounds run_id artifact payload s).0
          ≡ ok loaded
        → HasLoaded F config host rounds artifact
            (artifact_format_of F config (watched host) rounds payload)
            loaded
            (Refreshes.refresh_weights F config (watched host) rounds run_id artifact payload s).1
    unfolding Refreshes.refresh_weights
    refresh_weights-returned run_id artifact payload s loaded launches c e =
        let format = artifact_format_of F config (watched host) rounds payload in
        elim (Bool-cases (format == "base-model" || format == "hf-full-safetensors")) [
          | inl full ↦
              let e' : (refresh_full F config (watched host) rounds artifact payload format s).0
                  ≡ ok loaded =
                ground arith in
              rw full (
                refresh_full-HasLoaded artifact payload format s loaded launches c (ground arith)
                  e')
          | inr rest ↦ elim (string_dec format "hf-lora-adapter") [
            | yes lora ↦
                let same : Refreshes.refresh_weights F config (watched host) rounds run_id artifact
                      payload s
                    ≡ refresh_lora F config (watched host) rounds run_id artifact payload format s =
                  ground arith in
                let same' =
                  same
                  ∙ ap
                      (λ x. refresh_lora F config (watched host) rounds run_id artifact payload x s)
                      lora in
                subst
                  (λ (x : String × State F config host rounds).
                    HasLoaded F config host rounds artifact x.0 loaded x.1)
                  (λ i. (sym lora i, (sym same' i).1))
                  (refresh_lora-HasLoaded run_id artifact payload s loaded launches c (
                    sym (
                      ap (λ (x : Result SglangLoadedArtifact × State F config host rounds). x.0)
                        same')
                    ∙ e))
            | no neither ↦ absurd {0} (ground arith)
          ]
        ]

    -- In a runtime that launches its server, on a machine whose calls are watched, refresh from a state
    -- in which what the runtime has noted is what was seen: its process is the latest that was
    -- started, with the command for its model, and each adapter that it has was posted to that server
    -- with its path, and is the latest of its name. Then this holds again, also if the refresh raises.
    -- If it returns, it returns the artifact that it was given; the process of the runtime was started
    -- with the command for the model path of what was loaded, and the latest `poll` was of this process
    -- and found it running; and an artifact of a whole model has no adapter, while the adapter of an
    -- artifact of the format "hf-lora-adapter" was posted to /load_lora_adapter of this server with its
    -- path, and is the latest of its name.
    pub refresh_weights-HasLoaded :
        (run_id : String) (artifact : WeightArtifact) (payload : JsonObject)
        (s : State F config host rounds)
        → config.launch_server ≡ true
        → IsConsistent F config host rounds s
        → Refreshed F config host rounds artifact
            (artifact_format_of F config (watched host) rounds payload)
            (Refreshes.refresh_weights F config (watched host) rounds run_id artifact payload s)
    refresh_weights-HasLoaded run_id artifact payload s launches c =
        let refreshed =
          Refreshes.refresh_weights F config (watched host) rounds run_id artifact payload s in
        (
          refresh_weights-Keeps F config host rounds run_id artifact payload launches s c,
          elim (Result-cases refreshed.0) [
            | inr (x, e) ↦ inl (ap is_ok e)
            | inl (loaded, e) ↦
                inr (
                  loaded,
                  e,
                  refresh_weights-returned run_id artifact payload s loaded launches c e,
                )
          ],
        )
