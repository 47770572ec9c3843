-- ===== src/Release/World.antt =====
-- What the release checks (crates/spike-release/src) ask of libraries: semantic versions, URLs,
-- dates, SHA-256, minisign and JSON. None of them is part of the repository: they are the fields
-- of `Libraries`, and a parsed URL is the record of what its accessors return.
use ovayra.Prelude.{ℕ, Bool, true, false, Option, List, Result, Text}

-- `UpdateFormat` of manifest.rs, with its `PartialEq`
pub data UpdateFormat : Type 0 where
  app wix appimage : UpdateFormat

unfoldable pub same_format : UpdateFormat → UpdateFormat → Bool
same_format app app = true
same_format wix wix = true
same_format appimage appimage = true
same_format _ _ = false

pub record Url : Type 0 where
  pub as_str : Text
  pub scheme : Text
  pub host_str : Option Text
  pub port_or_known_default : Option ℕ
  pub port : Option ℕ
  pub username : Text
  pub password : Option Text
  pub query : Option Text
  pub fragment : Option Text
  pub path : Text
  pub path_segments : Option (List Text)

-- `PlatformRelease` of manifest.rs
pub record PlatformRelease : Type 0 where
  pub url : Url
  pub signature : Text
  pub format : UpdateFormat
  pub sha256 : Text

-- `ReleaseManifest` of manifest.rs; the map is the list of its entries.
pub record ReleaseManifest (V : Type 0) : Type 0 where
  pub version : V
  pub pub_date : Text
  pub notes : Text
  pub platforms : List (Text × PlatformRelease)

-- `DownloadArtifact` and `Downloads` of package.rs
pub record DownloadArtifact : Type 0 where
  pub url : Text
  pub sha256 : Text
  pub length : ℕ
  pub signature : Text

pub record Downloads : Type 0 where
  pub version : Text
  pub artifacts : List (Text × DownloadArtifact)

-- A key or a signature is the document that it is decoded from.
pub record Libraries (V : Type 0) : Type 0 where
  pub pre_is_empty : V → Bool
  pub version_leb : V → V → Bool
  pub parse_version : Text → Option V
  pub version_text : V → Text
  pub is_rfc3339 : Text → Bool
  pub parse_url : Text → Option Url
  pub join_url : Url → Text → Option Url
  pub sha256_hex : Text → Text
  pub is_key : Text → Bool
  pub is_signature : Text → Bool
  pub minisign_verify : (key payload signature : Text) → Bool
  pub decode_base64 : Text → Option Text
  pub parse_manifest : Text → Option (ReleaseManifest V)
  pub parse_downloads : Text → Option Downloads

-- the failure of a `Policy` is its message
pub data ReleaseManifestError : Type 0 where
  too_large json minisign : ReleaseManifestError
  policy : Text → ReleaseManifestError

abbrev pub Checked : Type 0 → Type 0
Checked A = Result ReleaseManifestError A
