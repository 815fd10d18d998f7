-- ===== src/Backends/Sglang/Posted.antt =====
-- What is seen of the adapters that `SGLangHTTPRuntime` loads.
-- src/ganker/backends/sglang.py
use mathlib.Core.Path.{subst}
use ganker.Base.{
  List, ◌∷◌, ℕ, String, ◌≡◌, ◌≢◌, sym, ◌∙◌, Option, some, none, arith, inl, inr, ◌⊎◌, Option-cases,
  Bool-cases, string_dec,
}
use ganker.Base.Float.{Float}
use ganker.Base.Result.{Result, ok, Result-cases}
use ganker.Base.Dict.{Dict, lookup, lookup-insert_self, lookup-insert_ne, insert}
use ganker.Base.File.{JsonObject}
use ganker.Backends.Sglang.Http.{SglangBackendConfig, Host}
use ganker.Backends.Sglang.Watched.{watched, adapter_of, adapter_body}
use ganker.Backends.Sglang.Refreshes.{load_lora_adapter}
use ganker.Backends.Sglang.Seen.{State, lora_url, IsPosted, ArePosted, Ready}

module _ (F : Float) (config : SglangBackendConfig F.Real) (host : Host F.Real) where
  module _ (rounds : ℕ) where
    adapter_of-new :
        (name path : String) (posts : List (String × JsonObject))
        → adapter_of
            (lora_url F config host rounds)
            name
            (((lora_url F config host rounds), adapter_body name path) ∷ posts)
          ≡ some (adapter_body name path)
    unfolding lookup
    adapter_of-new name path posts = ground arith

    adapter_of-other :
        (other name path : String) (posts : List (String × JsonObject))
        → name ≢ other
        → adapter_of
            (lora_url F config host rounds)
            other
            (((lora_url F config host rounds), adapter_body name path) ∷ posts)
          ≡ adapter_of (lora_url F config host rounds) other posts
    unfolding lookup
    adapter_of-other other name path posts differ = ground arith

    IsPosted-more :
        (other : String) (loaded : Option String) (name path : String)
        (posts : List (String × JsonObject))
        → name ≢ other
        → IsPosted F config host rounds other loaded posts
        → IsPosted F config host rounds other loaded
            (((lora_url F config host rounds), adapter_body name path) ∷ posts)
    IsPosted-more other none name path posts differ h = tt
    IsPosted-more other (some path') name path posts differ h =
        adapter_of-other other name path posts differ ∙ h

    pub ArePosted-insert :
        (name path : String) (loras : Dict String) (posts : List (String × JsonObject))
        → ArePosted F config host rounds loras posts
        → ArePosted F config host rounds
            (insert name path loras)
            (((lora_url F config host rounds), adapter_body name path) ∷ posts)
    ArePosted-insert name path loras posts h other = elim (string_dec name other) [
      | yes same ↦
          subst
            (λ n.
              IsPosted F config host rounds n (lookup n (insert name path loras))
                (((lora_url F config host rounds), adapter_body name path) ∷ posts))
            same
            (subst
              (λ (x : Option String).
                IsPosted F config host rounds name x
                  (((lora_url F config host rounds), adapter_body name path) ∷ posts))
              (sym (lookup-insert_self name path loras)) (adapter_of-new name path posts))
      | no differ ↦
          subst
            (λ (x : Option String).
              IsPosted F config host rounds other x
                (((lora_url F config host rounds), adapter_body name path) ∷ posts))
            (sym (lookup-insert_ne other name path loras differ))
            (IsPosted-more other (lookup other loras) name path posts differ (h other))
    ]

    -- The state after a POST of an adapter
    abbrev pub with_adapter :
        String → String → host.World → State F config host rounds → State F config host rounds
    with_adapter name path w s = record s {
      loaded_loras = insert name path s.loaded_loras;
      world = record s.world {
        inner = w;
        posts = ((lora_url F config host rounds), adapter_body name path) ∷ s.world.posts;
      };
    }

    pub load_lora_adapter-cases :
        (name path : String) (s : State F config host rounds)
        → (load_lora_adapter F config (watched host) rounds name path s).0 ≡ ok tt
        → ((load_lora_adapter F config (watched host) rounds name path s ≡ (ok tt, s))
            × (lookup name s.loaded_loras ≡ some path))
          ⊎ ((w : host.World) × (load_lora_adapter F config (watched host) rounds name path s
                ≡ (ok tt, with_adapter name path w s)))
    unfolding load_lora_adapter
    load_lora_adapter-cases name path s e =
        let asked =
          host.post_json (lora_url F config host rounds) (adapter_body name path)
            config.request_timeout s.world.inner in
        elim (Bool-cases config.enable_lora) [
          | inr none_enabled ↦ absurd {0} (ground arith)
          | inl enabled ↦ elim (Option-cases (lookup name s.loaded_loras)) [
            | inl new ↦ elim (Result-cases asked.0) [
              | inr (x, p) ↦ absurd {0} (ground arith)
              | inl (done, p) ↦ inr (asked.1, ground arith)
            ]
            | inr (loaded, there) ↦ elim (string_dec path loaded) [
              | yes same ↦ inl (ground arith, ground arith)
              | no differ ↦ elim (Result-cases asked.0) [
                | inr (x, p) ↦ absurd {0} (ground arith)
                | inl (done, p) ↦ inr (asked.1, ground arith)
              ]
            ]
          ]
        ]

    pub load_lora_adapter-Ready :
        (name path model_path : String) (s : State F config host rounds)
        → Ready F config host rounds model_path s
        → (load_lora_adapter F config (watched host) rounds name path s).0 ≡ ok tt
        → let t = (load_lora_adapter F config (watched host) rounds name path s).1 in
          Ready F config host rounds model_path t
          × (adapter_of (lora_url F config host rounds) name t.world.posts
              ≡ some (adapter_body name path))
    load_lora_adapter-Ready name path model_path s (serves, posted) e =
        elim (load_lora_adapter-cases name path s e) [
          | inl (same, there) ↦
              subst
                (λ (q : Result (Unit {0}) × State F config host rounds).
                  Ready F config host rounds model_path q.1
                  × (adapter_of (lora_url F config host rounds) name q.1.world.posts
                      ≡ some (adapter_body name path)))
                (sym same)
                (
                  (serves, posted),
                  subst (λ (x : Option String). IsPosted F config host rounds name x s.world.posts)
                      there (posted name),
                )
          | inr (w, same) ↦
              subst
                (λ (q : Result (Unit {0}) × State F config host rounds).
                  Ready F config host rounds model_path q.1
                  × (adapter_of (lora_url F config host rounds) name q.1.world.posts
                      ≡ some (adapter_body name path)))
                (sym same)
                (
                  (serves, ArePosted-insert name path s.loaded_loras s.world.posts posted),
                  adapter_of-new name path s.world.posts,
                )
        ]
