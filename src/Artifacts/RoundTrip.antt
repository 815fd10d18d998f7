-- ===== src/Artifacts/RoundTrip.antt =====
-- What `write` stores is what `latest` and the readers of payloads find.
use ganker.Base.{
  Bool-cases, inl, inr, ◌⊎◌, String, ◌≡◌, ◌≢◌, refl, sym, ◌∙◌, Bool, true, false, not, ◌||◌, ◌⊎◌,
  inl, inr, some, arith, is_empty, string_dec, [], ◌∷◌,
}
use ganker.Base.Int.{ℤ, is_neg}
use ganker.Base.Result.{ok, is_ok}
use ganker.Base.Dict.{lookup, insert, lookup-insert_self, lookup-insert_ne}
use ganker.Base.File.{str, JsonObject, json, FileSystem, read_json, get_item}
use ganker.Contracts.{ArtifactKind, full, delta, unknown_kind, WeightArtifact}
use ganker.Artifacts.{
  kind_name, kind_of_name, is_known, run_dir, latest_path, artifact_to_dict, artifact_from_dict,
  artifact_of, write, latest,
}
use ganker.Artifacts.Paths.{
  //-injective, payload_relative, manifest_relative, payload-ne-latest, manifest-ne-latest,
  payload-ne-manifest, payload_name-injective,
}

-- The guards of `write`.
abbrev pub accepts : String → ℤ → ArtifactKind → Bool
accepts run_id version kind = not (is_empty run_id || (is_neg version || not (is_known kind)))

-- The files after a `write` that the guards let through.
abbrev written : String → String → ℤ → ArtifactKind → JsonObject → FileSystem → FileSystem
written root run_id version kind payload fs =
    let a = artifact_of root run_id version kind in
    insert (latest_path root run_id) (json (("manifest_path", str a.manifest_path) ∷ []))
      (insert a.manifest_path (json (artifact_to_dict a)) (insert a.payload_path (json payload) fs))

-- A `write` is accepted exactly if the run id is not empty, the version is not negative and the
-- kind is a member; it then returns the artifact of the run, version and kind. A `write` that
-- raises leaves every file as it was.
pub write_guards :
    (root run_id : String) (version : ℤ) (kind : ArtifactKind) (payload : JsonObject)
    (fs : FileSystem)
    → (accepts run_id version kind ≡ true)
        × ((write root run_id version kind payload fs).0
            ≡ ok (artifact_of root run_id version kind))
      ⊎ (accepts run_id version kind ≡ false)
        × (is_ok (write root run_id version kind payload fs).0 ≡ false)
        × ((write root run_id version kind payload fs).1 ≡ fs)
unfolding write
write_guards root run_id version kind payload fs = elim (Bool-cases (accepts run_id version kind)) [
  | inl h ↦ inl (h, ground arith)
  | inr h ↦ inr (h, ground arith, ground arith)
]

pub write_failed :
    (root run_id : String) (version : ℤ) (kind : ArtifactKind) (payload : JsonObject)
    (fs : FileSystem)
    → is_ok (write root run_id version kind payload fs).0 ≡ false
    → (write root run_id version kind payload fs).1 ≡ fs
unfolding write
write_failed root run_id version kind payload fs h = ground arith

write-written :
    (root run_id : String) (version : ℤ) (kind : ArtifactKind) (payload : JsonObject)
    (fs : FileSystem) (a : WeightArtifact)
    → (write root run_id version kind payload fs).0 ≡ ok a
    → (a ≡ artifact_of root run_id version kind)
      × ((write root run_id version kind payload fs).1
          ≡ written root run_id version kind payload fs)
      × (is_empty run_id ≡ false)
      × (is_known kind ≡ true)
unfolding write
write-written root run_id version kind payload fs a h = ground arith

kind_of_name-kind_name :
    (kind : ArtifactKind) → is_known kind ≡ true → kind_of_name (kind_name kind) ≡ ok kind
unfolding string_dec
kind_of_name-kind_name full h = refl
kind_of_name-kind_name delta h = refl
kind_of_name-kind_name (unknown_kind n) h = cc

-- A manifest reads back as the artifact that it was written for.
pub artifact_from_dict-to_dict :
    (a : WeightArtifact) → is_known a.kind ≡ true → artifact_from_dict (artifact_to_dict a) ≡ ok a
unfolding artifact_from_dict artifact_to_dict get_item lookup string_dec
artifact_from_dict-to_dict a h = rw (kind_of_name-kind_name a.kind h)

read_json-found :
    (path : String) (d : JsonObject) (fs : FileSystem)
    → lookup path fs ≡ some (json d)
    → read_json path fs ≡ ok d
unfolding read_json
read_json-found path d fs h = rw (h, read_json)

pointer_path : (m : String) → get_item (("manifest_path", str m) ∷ []) "manifest_path" ≡ ok (str m)
unfolding get_item lookup string_dec
pointer_path m = refl

latest-found :
    (root run_id m : String) (d : JsonObject) (fs : FileSystem)
    → is_empty run_id ≡ false
    → lookup (latest_path root run_id) fs ≡ some (json (("manifest_path", str m) ∷ []))
    → lookup m fs ≡ some (json d)
    → latest root run_id fs ≡ artifact_from_dict d
unfolding latest
latest-found root run_id m d fs h p q = ground (
  arith,
  read_json-found (latest_path root run_id) (("manifest_path", str m) ∷ []) fs p,
  read_json-found m d fs q,
  pointer_path m,
)

module _ (root run_id : String) (version : ℤ) (kind : ArtifactKind) (payload : JsonObject)
    (fs : FileSystem) where
  abbrev it : WeightArtifact
  it = artifact_of root run_id version kind

  abbrev files : FileSystem
  files = written root run_id version kind payload fs

  manifest-ne : it.manifest_path ≢ latest_path root run_id
  unfolding artifact_of latest_path
  manifest-ne e =
      manifest-ne-latest version
        (//-injective (run_dir root run_id) _ "latest.json" (manifest_relative version) refl e)

  payload-ne : it.payload_path ≢ latest_path root run_id
  unfolding artifact_of latest_path
  payload-ne e =
      payload-ne-latest version
        (//-injective (run_dir root run_id) _ "latest.json" (payload_relative version) refl e)

  payload-ne_manifest : it.payload_path ≢ it.manifest_path
  unfolding artifact_of
  payload-ne_manifest e = payload-ne-manifest version version (
      //-injective (run_dir root run_id) _ _ (payload_relative version) (manifest_relative version)
        e)

  latest_file :
      lookup (latest_path root run_id) files
      ≡ some (json (("manifest_path", str it.manifest_path) ∷ []))
  latest_file = lookup-insert_self (latest_path root run_id) _ _

  manifest_file : lookup it.manifest_path files ≡ some (json (artifact_to_dict it))
  manifest_file =
      lookup-insert_ne it.manifest_path (latest_path root run_id) _ _ (λ e. manifest-ne (sym e))
      ∙ lookup-insert_self it.manifest_path _ _

  payload_file : lookup it.payload_path files ≡ some (json payload)
  payload_file =
      lookup-insert_ne it.payload_path (latest_path root run_id) _ _ (λ e. payload-ne (sym e))
      ∙ lookup-insert_ne it.payload_path it.manifest_path _ _ (λ e. payload-ne_manifest (sym e))
      ∙ lookup-insert_self it.payload_path _ _

  latest-written : is_empty run_id ≡ false → is_known kind ≡ true → latest root run_id files ≡ ok it
  latest-written h k =
      latest-found root run_id it.manifest_path (artifact_to_dict it) files h latest_file
        manifest_file
      ∙ artifact_from_dict-to_dict it (unfold artifact_of in k)

  older_payload :
      (older : ℤ)
      → older ≢ version
      → lookup (artifact_of root run_id older kind).payload_path files
        ≡ lookup (artifact_of root run_id older kind).payload_path fs
  unfolding artifact_of latest_path
  older_payload older ne =
      lookup-insert_ne older_path (latest_path root run_id) _ _ (λ e. not_latest (sym e))
      ∙ lookup-insert_ne older_path it.manifest_path _ _ (λ e. not_manifest (sym e))
      ∙ lookup-insert_ne older_path it.payload_path _ _ (λ e. not_payload (sym e))
    where
      older_path : String
      older_path = (artifact_of root run_id older kind).payload_path

      not_latest : older_path ≢ latest_path root run_id
      not_latest e =
          payload-ne-latest older
            (//-injective (run_dir root run_id) _ "latest.json" (payload_relative older) refl e)

      not_manifest : older_path ≢ it.manifest_path
      not_manifest e = payload-ne-manifest older version (
          //-injective (run_dir root run_id) _ _ (payload_relative older)
            (manifest_relative version) e)

      not_payload : older_path ≢ it.payload_path
      not_payload e = ne (
          payload_name-injective older version (
            //-injective (run_dir root run_id) _ _ (payload_relative older)
              (payload_relative version) e))

-- `latest` after a `write` returns the artifact that the `write` returned, whatever was stored
-- before.
pub latest-write :
    (root run_id : String) (version : ℤ) (kind : ArtifactKind) (payload : JsonObject)
    (fs : FileSystem) (a : WeightArtifact)
    → (write root run_id version kind payload fs).0 ≡ ok a
    → latest root run_id (write root run_id version kind payload fs).1 ≡ ok a
latest-write root run_id version kind payload fs a h =
    let (e, w, named, known) = write-written root run_id version kind payload fs a h in
    rw (w, e) (latest-written root run_id version kind payload fs named known)

-- The payload file of a written artifact holds the payload that was given.
pub read_json-write :
    (root run_id : String) (version : ℤ) (kind : ArtifactKind) (payload : JsonObject)
    (fs : FileSystem) (a : WeightArtifact)
    → (write root run_id version kind payload fs).0 ≡ ok a
    → read_json a.payload_path (write root run_id version kind payload fs).1 ≡ ok payload
read_json-write root run_id version kind payload fs a h =
    let (e, w, _, _) = write-written root run_id version kind payload fs a h in
    rw (w, e) (read_json-found _ payload _ (payload_file root run_id version kind payload fs))

write-cases :
    (root run_id : String) (version : ℤ) (kind : ArtifactKind) (payload : JsonObject)
    (fs : FileSystem)
    → ((write root run_id version kind payload fs).1 ≡ written root run_id version kind payload fs)
      ⊎ ((write root run_id version kind payload fs).1 ≡ fs)
unfolding write
write-cases root run_id version kind payload fs = ground arith

-- A `write` of one version, accepted or not, leaves the payload file of every other version of the
-- run as it was.
pub read_json-write_older :
    (root run_id : String) (version older : ℤ) (kind : ArtifactKind) (payload : JsonObject)
    (fs : FileSystem)
    → older ≢ version
    → read_json
        (artifact_of root run_id older kind).payload_path
        (write root run_id version kind payload fs).1
      ≡ read_json (artifact_of root run_id older kind).payload_path fs
unfolding read_json
read_json-write_older root run_id version older kind payload fs ne =
    elim (write-cases root run_id version kind payload fs) [
      | inl stored ↦
          rw (stored, read_json)
            (ground (arith, older_payload root run_id version kind payload fs older ne))
      | inr same ↦ rw same
    ]

-- The two files of a written artifact.
pub write-files :
    (root run_id : String) (version : ℤ) (kind : ArtifactKind) (payload : JsonObject)
    (fs : FileSystem) (a : WeightArtifact)
    → (write root run_id version kind payload fs).0 ≡ ok a
    → (lookup a.payload_path (write root run_id version kind payload fs).1 ≡ some (json payload))
      × (lookup a.manifest_path (write root run_id version kind payload fs).1
          ≡ some (json (artifact_to_dict a)))
write-files root run_id version kind payload fs a h =
    let (e, w, _, _) = write-written root run_id version kind payload fs a h in
    (
      rw (w, e) (payload_file root run_id version kind payload fs),
      rw (w, e) (manifest_file root run_id version kind payload fs),
    )
