-- ===== src/Transport/Downloads.antt =====
-- What is downloaded is what was written.
use ganker.Base.{String, ◌≡◌, arith}
use ganker.Base.Int.{ℤ}
use ganker.Base.Result.{ok, fmap}
use ganker.Base.File.{FileSystem, json, JsonObject}
use ganker.Contracts.{ArtifactKind, WeightArtifact, RequestContext, manifest, payload}
use ganker.Artifacts.{write, artifact_to_dict}
use ganker.Artifacts.RoundTrip.{write-files}
use ganker.Transport.{download_artifact_file, file_path}

-- For an artifact that `write` returned, a download of the payload gives the payload that was
-- written, and a download of the manifest gives the entries that describe the artifact.
pub download_artifact_file-write :
    (root run_id : String) (version : ℤ) (kind : ArtifactKind) (value : JsonObject)
    (fs : FileSystem) (a : WeightArtifact) (context : RequestContext)
    → (write root run_id version kind value fs).0 ≡ ok a
    → let files = (write root run_id version kind value fs).1 in
      (fmap
          (λ r. r.contents)
          (download_artifact_file
            (record { context = context; artifact = a; file_kind = payload })
            files)
        ≡ ok (json value))
      × (fmap
            (λ r. r.contents)
            (download_artifact_file
              (record { context = context; artifact = a; file_kind = manifest })
              files)
          ≡ ok (json (artifact_to_dict a)))
unfolding download_artifact_file file_path
download_artifact_file-write root run_id version kind value fs a context h =
    let (p, m) = write-files root run_id version kind value fs a h in (ground arith, ground arith)
