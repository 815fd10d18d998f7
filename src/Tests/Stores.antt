-- ===== src/Tests/Stores.antt =====
-- Two checkpoints of one run in an empty directory.
use ganker.Base.{◌≡◌, refl, [], ◌∷◌, true, false, string_dec, arith, ◌⊎◌}
use ganker.Base.Int.{pos}
use ganker.Base.Result.{ok, is_ok}
use ganker.Base.File.{JsonObject, int, FileSystem, ◌//◌, read_json}
use ganker.Base.Text.{show_ℤ}
use ganker.Contracts.{WeightArtifact, delta}
use ganker.Artifacts.{
  write, latest, artifact_to_dict, artifact_of, run_dir, payload_name, manifest_name,
}
use ganker.Base.Result.{fmap}
use ganker.Base.File.{json}
use ganker.Contracts.{payload, manifest}
use ganker.Transport.{download_artifact_file}
use ganker.Transport.Downloads.{download_artifact_file-write}
use ganker.Tests.Data.{context}
use ganker.Artifacts.RoundTrip.{
  accepts, write_guards, latest-write, read_json-write, read_json-write_older,
}

abbrev weights : JsonObject
weights = ("step", int (pos 4)) ∷ []

abbrev no_files : FileSystem
no_files = []

abbrev first : WeightArtifact
first = record {
  run_id = "r";
  checkpoint_version = pos 0;
  kind = delta;
  manifest_path = "/w/weights/r/checkpoint-0.manifest.json";
  payload_path = "/w/weights/r/checkpoint-0.payload.json";
}

written : (write "/w" "r" (pos 0) delta weights no_files).0 ≡ ok first
unfolding write string_dec artifact_of ◌//◌ manifest_name payload_name show_ℤ run_dir
written = refl

write_guards_example :
    (accepts "r" (pos 0) delta ≡ true)
      × ((write "/w" "r" (pos 0) delta weights no_files).0
          ≡ ok (artifact_of "/w" "r" (pos 0) delta))
    ⊎ (accepts "r" (pos 0) delta ≡ false)
      × (is_ok (write "/w" "r" (pos 0) delta weights no_files).0 ≡ false)
      × ((write "/w" "r" (pos 0) delta weights no_files).1 ≡ no_files)
write_guards_example = write_guards "/w" "r" (pos 0) delta weights no_files

latest-write_example : latest "/w" "r" (write "/w" "r" (pos 0) delta weights no_files).1 ≡ ok first
latest-write_example = latest-write "/w" "r" (pos 0) delta weights no_files first written

read_json-write_example :
    read_json first.payload_path (write "/w" "r" (pos 0) delta weights no_files).1 ≡ ok weights
read_json-write_example = read_json-write "/w" "r" (pos 0) delta weights no_files first written

read_json-write_older_example :
    read_json
      (artifact_of "/w" "r" (pos 0) delta).payload_path
      (write "/w" "r" (pos 1) delta weights no_files).1
    ≡ read_json (artifact_of "/w" "r" (pos 0) delta).payload_path no_files
read_json-write_older_example =
    read_json-write_older "/w" "r" (pos 1) (pos 0) delta weights no_files (λ e. ground arith)

download_artifact_file-write_example :
    (fmap
        (λ r. r.contents)
        (download_artifact_file
          (record { context = context; artifact = first; file_kind = payload })
          (write "/w" "r" (pos 0) delta weights no_files).1)
      ≡ ok (json weights))
    × (fmap
          (λ r. r.contents)
          (download_artifact_file
            (record { context = context; artifact = first; file_kind = manifest })
            (write "/w" "r" (pos 0) delta weights no_files).1)
        ≡ ok (json (artifact_to_dict first)))
download_artifact_file-write_example =
    download_artifact_file-write "/w" "r" (pos 0) delta weights no_files first context written
