-- ===== src/Rpc/Downloads.antt =====
-- The files that the server gives out.
use mathlib.Core.Path.{subst}
use ganker.Base.{
  String, ◌<>◌, ◌≡◌, sym, some, true, List, arith, ◌⊎◌, inl, inr, ◌==◌, Bool-cases, Option-cases,
}
use ganker.Base.Result.{ok, Result-cases}
use ganker.Base.Dict.{lookup}
use ganker.Base.File.{FileSystem}
use ganker.Base.Float.{Float}
use ganker.Contracts.{DownloadArtifactFileRequest, DownloadArtifactFileResponse}
use ganker.Transport.{file_path}
use ganker.Rpc.Errors.{strip_prefix}
use ganker.Rpc.Prefixes.{strip_prefix-eq_some}
use ganker.Rpc.Wire
use ganker.Rpc.Protobuf.{Protobuf}
use ganker.Rpc.Values.{
  artifact_file_kind_to_proto, artifact_file_kind_from_proto, weight_artifact_to_proto,
  weight_artifact_from_proto,
}
use ganker.Rpc.Requests.{
  download_artifact_file_request_to_proto, download_artifact_file_request_from_proto,
}
use ganker.Rpc.Responses.{
  download_artifact_file_response_to_proto, download_artifact_file_response_from_proto,
}
use ganker.Rpc.Client.{grpc_proxy_transport}
use ganker.Rpc.Relay.{remote-eq-ok}
use ganker.Rpc.Refinement.{connected}
use ganker.Rpc.Server.{
  servicer_methods, GankerProxyServicer, is_relative_to, download_artifact_file,
}

-- A path at or below a directory.
abbrev pub IsUnder : String → String → Type 0
IsUnder path root =
    (root ≡ "/") ⊎ (path ≡ root) ⊎ ((rest : String) × (path ≡ (root <> "/") <> rest))

is_relative_to-IsUnder : (path root : String) → is_relative_to path root ≡ true → IsUnder path root
unfolding is_relative_to
is_relative_to-IsUnder path root h = elim (Bool-cases (root == "/")) [
  | inl e ↦ inl (ground arith)
  | inr e ↦ elim (Bool-cases (path == root)) [
    | inl f ↦ inr (inl (ground arith))
    | inr f ↦ elim (Option-cases (strip_prefix (root <> "/") path)) [
      | inl none_left ↦ absurd {0} (ground arith)
      | inr (rest, g) ↦ inr (inr (rest, strip_prefix-eq_some (root <> "/") path rest g))
    ]
  ]
]

module _ {R S : Type 0} (self : GankerProxyServicer R S) (q : DownloadArtifactFileRequest)
    (s : S) where
  -- What the server has checked of a file that it gives out.
  abbrev pub IsServed : DownloadArtifactFileResponse → Type 0
  IsServed r =
      (path : String) × (file_path q.artifact q.file_kind ≡ ok path)
      × (self.host.resolve_strict path (self.host.files s) ≡ some r.path)
      × IsUnder r.path (self.host.resolve self.artifact_root (self.host.files s))
      × (lookup r.path (self.host.files s) ≡ some r.contents)

  abbrev fs : FileSystem
  fs = self.host.files s

  abbrev root : String
  root = self.host.resolve self.artifact_root fs

  served :
      (r : DownloadArtifactFileResponse) → (download_artifact_file self q s).0 ≡ ok r → IsServed r
  unfolding download_artifact_file
  served r h = elim (Result-cases (file_path q.artifact q.file_kind)) [
    | inr (e, failed) ↦ absurd {0} (ground arith)
    | inl (path, found) ↦ elim (Option-cases (self.host.resolve_strict path fs)) [
      | inl missing ↦ absurd {0} (ground arith)
      | inr (resolved, there) ↦ elim (Bool-cases (is_relative_to resolved root)) [
        | inr outside ↦ absurd {0} (ground arith)
        | inl inside ↦ elim (Option-cases (lookup resolved fs)) [
          | inl empty ↦ absurd {0} (ground arith)
          | inr (c, held) ↦
              let under = is_relative_to-IsUnder resolved root inside in
              let response : resolved ≡ r.path = ground arith in
              (path, found, ground arith, subst (λ p. IsUnder p root) response under, ground arith)
        ]
      ]
    ]
  ]

-- A file that a response carries arrives with its path.
carried_file :
    (P : Protobuf) (a b : DownloadArtifactFileResponse) (w : Wire.DownloadArtifactFileResponse)
    → download_artifact_file_response_to_proto P a ≡ ok w
    → download_artifact_file_response_from_proto w ≡ ok b
    → (b.path ≡ a.path) × (b.contents ≡ a.contents)
unfolding download_artifact_file_response_to_proto download_artifact_file_response_from_proto
carried_file P a b w h k = ground (
  arith,
  Result-cases (weight_artifact_to_proto P a.artifact),
  Result-cases (artifact_file_kind_to_proto a.file_kind),
  Result-cases (weight_artifact_from_proto w.artifact),
  Result-cases (artifact_file_kind_from_proto w.file_kind),
)

-- Whatever request and metadata a client sends, a download through gRPC that returns gives the
-- contents of the file at the path that it returns, and this path lies at or below the resolved
-- artifact root of the server, where every path lies below a root "/".
pub download_artifact_file_confined :
    (P : Protobuf) (F : Float) {S : Type 0} (self : GankerProxyServicer F.Real S)
    (metadata : List (String × String)) (q : DownloadArtifactFileRequest) (s : S)
    (r : DownloadArtifactFileResponse)
    → ((connected P F self metadata).download_artifact_file q s).0 ≡ ok r
    → IsUnder r.path (self.host.resolve self.artifact_root (self.host.files s))
      × (lookup r.path (self.host.files s) ≡ some r.contents)
unfolding grpc_proxy_transport servicer_methods
download_artifact_file_confined P F self metadata q s r h =
    let (arrived, a, w, answered, sent, back) =
      remote-eq-ok self metadata (download_artifact_file_request_to_proto P)
        download_artifact_file_request_from_proto (download_artifact_file self)
        (download_artifact_file_response_to_proto P) download_artifact_file_response_from_proto q s
        r h in
    let (path, found, there, under, held) = served self arrived s a answered in
    let (same_path, same_contents) = carried_file P a r w sent back in
    (subst (λ p. IsUnder p (root self arrived s)) (sym same_path) under, ground arith)
