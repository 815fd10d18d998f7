-- ===== src/Artifacts.antt =====
-- `FilesystemArtifactStore`: versioned checkpoint manifests under a local directory.
-- src/ganker/artifacts.py
pub mod Paths
pub mod RoundTrip
use ganker.Base.{String, ◌<>◌, Bool, true, false, not, List, [], ◌∷◌, ◌==◌, is_empty, if◌then◌else◌}
use ganker.Base.Int.{ℤ, is_neg}
use ganker.Base.Result.{
  Error, invalid_request, not_found, key_error, Result, ok, err, Exec, bind, unless, raise_if, pure,
  ◌>>=◌, ◌>>◌,
}
use ganker.Base.Text.{show_ℤ}
use ganker.Base.File.{
  Json, int, str, JsonObject, FileSystem, ◌//◌, exists, write_json, read_json, get_item, to_str,
  to_int,
}
use ganker.Contracts.{ArtifactKind, full, delta, unknown_kind, WeightArtifact}

-- `kind.name`. Only members reach it, since `write` rejects every other int.
abbrev pub kind_name : ArtifactKind → String
kind_name full = "FULL"
kind_name delta = "DELTA"
kind_name (unknown_kind n) = ""

-- `ArtifactKind[name]`
abbrev pub kind_of_name : String → Result ArtifactKind
kind_of_name name =
    if name == "FULL" then ok full else if name == "DELTA" then ok delta else err (key_error name)

abbrev pub is_known : ArtifactKind → Bool
is_known full = true
is_known delta = true
is_known (unknown_kind n) = false

-- `str(kind)` of an `IntEnum` is its number.
unfoldable pub show_kind : ArtifactKind → String
show_kind full = "1"
show_kind delta = "2"
show_kind (unknown_kind n) = show_ℤ n

unfoldable pub run_dir : String → String → String
run_dir root run_id = root // "weights" // run_id

unfoldable pub payload_name : ℤ → String
payload_name version = "checkpoint-" <> (show_ℤ version <> ".payload.json")

unfoldable pub manifest_name : ℤ → String
manifest_name version = "checkpoint-" <> (show_ℤ version <> ".manifest.json")

unfoldable pub latest_path : String → String → String
latest_path root run_id = run_dir root run_id // "latest.json"

unfoldable pub artifact_to_dict : WeightArtifact → JsonObject
artifact_to_dict a =
    ("run_id", str a.run_id)
    ∷ ("checkpoint_version", int a.checkpoint_version)
    ∷ ("kind", str (kind_name a.kind))
    ∷ ("manifest_path", str a.manifest_path)
    ∷ ("payload_path", str a.payload_path)
    ∷ []

unfoldable pub artifact_from_dict : JsonObject → Result WeightArtifact
artifact_from_dict d = bind (get_item d "run_id") λ run_id.
    bind (get_item d "checkpoint_version") λ version. bind (to_int version) λ checkpoint_version.
      bind (get_item d "kind") λ name. bind (kind_of_name (to_str name)) λ kind.
        bind (get_item d "manifest_path") λ manifest_path.
          bind (get_item d "payload_path") λ payload_path. ok (record {
            run_id = to_str run_id;
            checkpoint_version = checkpoint_version;
            kind = kind;
            manifest_path = to_str manifest_path;
            payload_path = to_str payload_path;
          })

unfoldable pub artifact_of : String → String → ℤ → ArtifactKind → WeightArtifact
artifact_of root run_id version kind = record {
  run_id = run_id;
  checkpoint_version = version;
  kind = kind;
  manifest_path = run_dir root run_id // manifest_name version;
  payload_path = run_dir root run_id // payload_name version;
}

-- The three files in the order in which they are written.
unfoldable pub write :
    String → String → ℤ → ArtifactKind → JsonObject → Exec FileSystem WeightArtifact
write root run_id version kind payload = do
  raise_if (is_empty run_id) (invalid_request "run_id is required")
  raise_if (is_neg version) (invalid_request "checkpoint_version must be non-negative")
  raise_if (not (is_known kind)) (invalid_request ("unsupported artifact kind: " <> show_kind kind))
  let artifact = artifact_of root run_id version kind
  write_json artifact.payload_path payload
  write_json artifact.manifest_path (artifact_to_dict artifact)
  write_json (latest_path root run_id) (("manifest_path", str artifact.manifest_path) ∷ [])
  pure artifact

-- `latest` reads the files and leaves them alone.
unfoldable pub latest : String → String → FileSystem → Result WeightArtifact
latest root run_id fs = unless (is_empty run_id) (invalid_request "run_id is required") (
    unless (not (exists (latest_path root run_id) fs))
      (not_found ("no artifact exists for run_id=" <> run_id))
      (bind (read_json (latest_path root run_id) fs) λ pointer.
        bind (get_item pointer "manifest_path") λ path.
          unless (not (exists (to_str path) fs))
            (not_found ("artifact manifest is missing: " <> to_str path))
            (bind (read_json (to_str path) fs) artifact_from_dict)))
