-- ===== src/Transport.antt =====
-- The download of an artifact's files by `MonarchProxyTransport`. Its other methods hand the request
-- to an actor and wait.
-- src/ganker/transport.py
pub mod Downloads
pub mod Proxies
use ganker.Base.{String, ◌<>◌, Option, some, none}
use ganker.Base.Int.{ℤ}
use ganker.Base.Text.{show_ℤ}
use ganker.Base.Result.{Error, invalid_request, not_found, Result, ok, err, bind}
use ganker.Base.Dict.{lookup}
use ganker.Base.File.{FileSystem, Content}
use ganker.Contracts.{
  ArtifactFileKind, manifest, payload, unknown_file_kind, WeightArtifact,
  DownloadArtifactFileRequest, DownloadArtifactFileResponse,
}

-- The path of the file of a kind.
unfoldable pub file_path : WeightArtifact → ArtifactFileKind → Result String
file_path artifact manifest = ok artifact.manifest_path
file_path artifact payload = ok artifact.payload_path
file_path artifact (unknown_file_kind n) =
    err (invalid_request ("unsupported artifact file kind: " <> show_ℤ n))

abbrev pub contents_or : Option Content → Error → Result Content
contents_or none e = err e
contents_or (some c) e = ok c

unfoldable pub download_artifact_file :
    DownloadArtifactFileRequest → FileSystem → Result DownloadArtifactFileResponse
unfolding file_path
download_artifact_file request fs = bind (file_path request.artifact request.file_kind) λ path.
    bind (contents_or (lookup path fs) (not_found ("artifact file is missing: " <> path)))
      λ contents. ok (record {
        request_id = request.context.request_id;
        artifact = request.artifact;
        file_kind = request.file_kind;
        path = path;
        contents = contents;
      })
