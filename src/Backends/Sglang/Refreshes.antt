-- ===== src/Backends/Sglang/Refreshes.antt =====
-- `SGLangHTTPRuntime` of src/ganker/backends/sglang.py: its refreshes.
use ganker.Base.{
  ℕ, String, ◌<>◌, Bool, false, not, ◌&&◌, ◌||◌, Option, some, none, [], ◌∷◌, ◌==◌, is_empty,
  if◌then◌else◌,
}
use ganker.Base.Float.{Float}
use ganker.Base.Result.{
  invalid_request, Result, ok, Exec, raise_if, raise, pure, gets, lift, modify, ◌>>=◌, ◌>>◌,
}
use ganker.Base.Dict.{lookup, insert}
use ganker.Base.File.{str, JsonObject}
use ganker.Contracts.{WeightArtifact}
use ganker.Backends.Sglang.{SglangLoadedArtifact}
use ganker.Backends.Sglang.Http.{
  SglangBackendConfig, Host, optional_str, required_str, str_or_empty, is_set, adapter_name,
}
use ganker.Backends.Sglang.Server.{HttpState, on_world, base_url, ensure_server}

-- `loaded == text` for an optional text
abbrev is_same : String → Option String → Bool
is_same text none = false
is_same text (some loaded) = loaded == text

module _ (F : Float) (config : SglangBackendConfig F.Real) (host : Host F.Real) (rounds : ℕ) where
  abbrev State : Type 0
  State = HttpState F config host

  unfoldable pub load_lora_adapter : String → String → Exec State (Unit {0})
  unfolding base_url
  load_lora_adapter lora_name lora_path = do
    raise_if (not config.enable_lora)
        (invalid_request "SGLang LoRA artifact requires enable_lora=True")
    loaded ← gets (λ s. lookup lora_name s.loaded_loras)
    let post =
        on_world F config host (
          host.post_json (base_url F config host <> "/load_lora_adapter")
            (("lora_name", str lora_name) ∷ ("lora_path", str lora_path) ∷ [])
            config.request_timeout)
        >> modify (λ s. record s { loaded_loras = insert lora_name lora_path s.loaded_loras })
    if is_same lora_path loaded then pure tt else post

  -- `self._config.model_path or _required_str(payload, "base_model")`
  unfoldable pub lora_base_model_path : JsonObject → Result String
  lora_base_model_path payload =
      if is_empty config.model_path then required_str payload "base_model" else ok config.model_path

  unfoldable pub full_model_path : JsonObject → Result String
  unfolding lora_base_model_path
  full_model_path payload =
      let hf_checkpoint_path = optional_str payload "hf_checkpoint_path" in
      let checkpoint_path = optional_str payload "checkpoint_path" in
      if not (is_empty hf_checkpoint_path)
      then ok hf_checkpoint_path
      else if not (is_empty checkpoint_path)
      then ok checkpoint_path
      else lora_base_model_path payload

  unfoldable pub artifact_format_of : JsonObject → String
  artifact_format_of payload =
      let artifact_format = str_or_empty payload "artifact_format" in
      if is_empty artifact_format && is_set payload "base_model"
      then "base-model"
      else artifact_format

  unfoldable pub refresh_full :
      WeightArtifact → JsonObject → String → Exec State SglangLoadedArtifact
  unfolding full_model_path ensure_server
  refresh_full artifact payload artifact_format = do
    model_path ← lift (full_model_path payload)
    ensure_server F config host rounds model_path
    pure (record {
      artifact = artifact;
      artifact_format = artifact_format;
      model_path = model_path;
      lora_name = "";
      lora_path = "";
      payload = payload;
    })

  unfoldable pub refresh_lora :
      String → WeightArtifact → JsonObject → String → Exec State SglangLoadedArtifact
  unfolding lora_base_model_path ensure_server load_lora_adapter
  refresh_lora run_id artifact payload artifact_format = do
    model_path ← lift (lora_base_model_path payload)
    lora_path ← lift (required_str payload "hf_adapter_path")
    let lora_name = adapter_name run_id artifact.checkpoint_version
    ensure_server F config host rounds model_path
    load_lora_adapter lora_name lora_path
    pure (record {
      artifact = artifact;
      artifact_format = artifact_format;
      model_path = model_path;
      lora_name = lora_name;
      lora_path = lora_path;
      payload = payload;
    })

  unfoldable pub refresh_weights :
      String → WeightArtifact → JsonObject → Exec State SglangLoadedArtifact
  unfolding artifact_format_of refresh_full refresh_lora
  refresh_weights run_id artifact payload =
      let artifact_format = artifact_format_of payload in
      if artifact_format == "base-model" || artifact_format == "hf-full-safetensors"
      then refresh_full artifact payload artifact_format
      else if artifact_format == "hf-lora-adapter"
      then refresh_lora run_id artifact payload artifact_format
      else raise (
          invalid_request (
            "SGLang requires artifact_format 'hf-full-safetensors', 'hf-lora-adapter', or a base_model payload; got "
            <> host.repr artifact_format))
