-- ===== src/Backends/Sglang/Seen.antt =====
-- What is seen of the server of `SGLangHTTPRuntime` on a machine under watch.
-- src/ganker/backends/sglang.py
use ganker.Base.{List, [], ℕ, String, ◌<>◌, ◌≡◌, false, Option, some, none, ◌⊎◌}
use ganker.Base.Float.{Float}
use ganker.Base.Result.{Result, ok, is_ok}
use ganker.Base.Dict.{Dict, lookup}
use ganker.Base.File.{JsonObject}
use ganker.Contracts.{WeightArtifact}
use ganker.Backends.Sglang.{SglangLoadedArtifact}
use ganker.Backends.Sglang.Http.{SglangBackendConfig, Host}
use ganker.Backends.Sglang.Watched.{watched, adapter_of, adapter_body}
use ganker.Backends.Sglang.Server.{HttpState, server_cmd, base_url}

module _ (F : Float) (config : SglangBackendConfig F.Real) (host : Host F.Real) where
  module _ (rounds : ℕ) where
    abbrev pub State : Type 0
    State = HttpState F config (watched host)

    abbrev pub cmd_of : String → List String
    cmd_of model_path = server_cmd F config (watched host) model_path

    abbrev pub lora_url : String
    lora_url = base_url F config (watched host) <> "/load_lora_adapter"

    -- An adapter that the runtime has under a name was posted to the latest server that was started,
    -- with its path, and nothing else was posted under the name since.
    abbrev pub IsPosted : String → Option String → List (String × JsonObject) → Type 0
    IsPosted name none posts = Unit {0}
    IsPosted name (some path) posts = adapter_of lora_url name posts ≡ some (adapter_body name path)

    abbrev pub ArePosted : Dict String → List (String × JsonObject) → Type 0
    ArePosted loras posts = (name : String) → IsPosted name (lookup name loras) posts

    -- A process of the runtime is the latest that was started, with the command for its model.
    abbrev pub IsLatest :
        Option host.Process → String → Option (host.Process × List String) → Type 0
    IsLatest none model_path launched = Unit {0}
    IsLatest (some p) model_path launched = launched ≡ some (p, cmd_of model_path)

    -- What the runtime has noted is what was seen on its machine.
    abbrev pub IsConsistent : State → Type 0
    IsConsistent s =
        IsLatest s.process s.active_model_path s.world.launched
        × ArePosted s.loaded_loras s.world.posts

    -- The process of the runtime is the latest that was started, with the command for the model, and
    -- the latest `poll` found it running.
    abbrev pub Serves : String → State → Type 0
    Serves model_path s =
        (p : host.Process) × (s.process ≡ some p)
        × (s.active_model_path ≡ model_path)
        × (s.world.launched ≡ some (p, cmd_of model_path))
        × (s.world.polled ≡ some (p, none))

    abbrev pub Ready : String → State → Type 0
    Ready model_path s = Serves model_path s × ArePosted s.loaded_loras s.world.posts

    pub no_loras : (posts : List (String × JsonObject)) → ArePosted [] posts
    unfolding lookup
    no_loras posts name = tt

    abbrev pub IsFull : String → Type 0
    IsFull format = (format ≡ "base-model") ⊎ (format ≡ "hf-full-safetensors")

    -- The adapter of a loaded artifact, of which an artifact of a whole model has none.
    abbrev pub HasAdapter : String → SglangLoadedArtifact → State → Type 0
    HasAdapter format loaded t =
        (IsFull format × (loaded.lora_name ≡ ""))
        ⊎ ((format ≡ "hf-lora-adapter")
            × (adapter_of lora_url loaded.lora_name t.world.posts
                ≡ some (adapter_body loaded.lora_name loaded.lora_path)))

    -- What the server was seen to have of a loaded artifact.
    abbrev pub HasLoaded : WeightArtifact → String → SglangLoadedArtifact → State → Type 0
    HasLoaded artifact format loaded t =
        (loaded.artifact ≡ artifact) × Serves loaded.model_path t × HasAdapter format loaded t

    -- What a refresh leaves behind.
    abbrev pub Refreshed : WeightArtifact → String → Result SglangLoadedArtifact × State → Type 0
    Refreshed artifact format (r, t) =
        IsConsistent t
        × ((is_ok r ≡ false)
            ⊎ ((loaded : SglangLoadedArtifact) × (r ≡ ok loaded)
                × HasLoaded artifact format loaded t))
