-- ===== src/Release/Package.antt =====
-- crates/spike-release/src/package.rs: reading packages and their signatures, and the verification
-- of a release. A directory is what its files answer when they are looked at by name; a file that
-- another process changes between two looks is one whose second length differs.
pub mod Verified
use ovayra.Prelude.{
  ℕ, ◌*◌, Bool, true, false, not, ◌&&◌, ◌||◌, Option, none, some, List, [], ◌∷◌, ◌++◌, leb, ◌==◌,
  if◌then◌else◌, Result, ok, err, ◌>>=◌, ◌>>◌, guard, ok_or, map_err, length, any, is_utf8, trim,
  lines, Text, bytes, text_eq, is_empty,
}
use ovayra.Release.World.{
  Url, PlatformRelease, DownloadArtifact, Libraries, ReleaseManifestError, json,
}
use ovayra.Release.Manifest.{parse_for_installed, new_verifier, verify, verify_expected}

abbrev pub max_package_bytes : ℕ
max_package_bytes = 4 * 1024 * 1024 * 1024

abbrev pub max_signature_file_bytes : ℕ
max_signature_file_bytes = 8 * 1024

pub data PackageError : Type 0 where
  io : PackageError
  manifest_error : ReleaseManifestError → PackageError
  package_policy : Text → PackageError

abbrev pub Packaged : Type 0 → Type 0
Packaged A = Result PackageError A

-- `content` is absent where the file cannot be read, and `length_after` where its second look fails.
pub record File : Type 0 where
  pub is_symlink : Bool
  pub is_file : Bool
  pub len : ℕ
  pub content : Option Text
  pub length_after : Option ℕ

pub record Directory : Type 0 where
  pub file : Text → Option File
  pub exists : Text → Bool

-- `?` on a manifest's error
unfoldable pub of_manifest : {A : Type 0} → Result ReleaseManifestError A → Packaged A
of_manifest r = map_err manifest_error r

unfoldable pub read_regular_bounded : Option File → ℕ → Packaged Text
read_regular_bounded entry max = do
  file ← ok_or io entry
  guard (not file.is_symlink && file.is_file && leb file.len max)
      (package_policy (bytes "package file is unsafe or too large"))
  content ← ok_or io file.content
  after ← ok_or io file.length_after
  guard ((after == file.len) && (length content == file.len))
      (package_policy (bytes "package file changed while being read"))
  ok content

unfoldable pub read_signature : Option File → Packaged Text
unfolding read_regular_bounded
read_signature entry = do
  signature ← read_regular_bounded entry max_signature_file_bytes
  guard (is_utf8 signature) (package_policy (bytes "signature is not UTF-8"))
  guard (not (is_empty signature)) (package_policy (bytes "signature is empty"))
  ok signature

unfoldable pub read_text_bounded : Option File → ℕ → Packaged Text
unfolding read_regular_bounded
read_text_bounded entry max = do
  content ← read_regular_bounded entry max
  guard (is_utf8 content) (package_policy (bytes "text file is not UTF-8"))
  ok content

abbrev is_slash : ℕ → Bool
is_slash c = (c == 47) || (c == 92)

last_of : List Text → Option Text
last_of [] = none
last_of (s ∷ []) = some s
last_of (s ∷ t ∷ ss) = last_of (t ∷ ss)

last_segment : Option (List Text) → Option Text
unfolding last_of
last_segment none = none
last_segment (some segments) = last_of segments

unfoldable pub local_name : Url → Packaged Text
unfolding last_segment
local_name url = do
  name ←
      ok_or (package_policy (bytes "update URL lacks a package name"))
        (last_segment url.path_segments)
  guard (not (is_empty name)) (package_policy (bytes "update URL lacks a package name"))
  guard
      (not (any is_slash name) && not (text_eq name (bytes ".")) && not (text_eq name (bytes "..")))
      (package_policy (bytes "unsafe update package name"))
  ok name

module _ {V : Type 0} (libs : Libraries V) where
  -- the envelope that cargo-packager puts around a signature
  unfoldable pub decode_envelope : Text → Packaged Text
  unfolding lines trim
  decode_envelope signature = do
    raw ←
        ok_or (package_policy (bytes "cargo-packager signature is not a single base64 envelope"))
          (libs.decode_base64 (trim signature))
    guard (is_utf8 raw) (package_policy (bytes "cargo-packager signature is not UTF-8"))
    guard
        ((length (lines raw) == 4)
          && not (any is_empty (lines raw))
          && elim (libs.decode_base64 (trim raw)) [ none ↦ true | some _ ↦ false ])
        (package_policy (bytes "cargo-packager signature is malformed or double encoded"))
    ok raw

  module _ (packages : Directory) where
    -- exactly one of `{name}.minisig` and `{name}.sig` is there
    unfoldable pub read_signature_for : Text → Packaged Text
    unfolding read_signature decode_envelope
    read_signature_for name =
        let plain = name ++ bytes ".minisig" in
        let wrapped = name ++ bytes ".sig" in
        if packages.exists plain
        then (if packages.exists wrapped
            then err
                (package_policy (bytes "package must have exactly one detached signature sidecar"))
            else read_signature (packages.file plain))
        else if packages.exists wrapped
        then (read_signature (packages.file wrapped) >>= decode_envelope)
        else err (package_policy (bytes "package must have exactly one detached signature sidecar"))

    -- `PackageRelease::verify_artifact`, of a package in the directory
    unfoldable pub verify_artifact : Text → Text → Packaged (Unit {0})
    unfolding read_signature_for of_manifest verify
    verify_artifact name public_key = do
      payload ← read_regular_bounded (packages.file name) max_package_bytes
      signature ← read_signature_for name
      verifier ← of_manifest (new_verifier libs public_key)
      of_manifest (verify libs verifier payload signature)

    -- the body of `for platform in parsed.platforms().values()`
    unfoldable pub verify_platform : Text → PlatformRelease → Packaged (Unit {0})
    unfolding local_name read_signature_for of_manifest verify_expected
    verify_platform verifier platform = do
      name ← local_name platform.url
      payload ← read_regular_bounded (packages.file name) max_package_bytes
      signature ← read_signature_for name
      guard (text_eq signature platform.signature)
          (package_policy (bytes "detached signature does not match manifest"))
      of_manifest (verify_expected libs verifier payload signature (length payload) platform.sha256)

    unfoldable pub verify_platforms : Text → List (Text × PlatformRelease) → Packaged (Unit {0})
    unfolding verify_platform
    verify_platforms verifier [] = ok tt
    verify_platforms verifier ((target, platform) ∷ platforms) = do
      verify_platform verifier platform
      verify_platforms verifier platforms

    -- the body of `for download in downloads.artifacts.values()`
    unfoldable pub verify_download : Text → DownloadArtifact → Packaged (Unit {0})
    unfolding local_name read_signature_for of_manifest verify_expected
    verify_download verifier download = do
      url ← ok_or (package_policy (bytes "invalid download URL")) (libs.parse_url download.url)
      name ← local_name url
      payload ← read_regular_bounded (packages.file name) max_package_bytes
      signature ← read_signature_for name
      guard (text_eq signature download.signature)
          (package_policy (bytes "download signature does not match metadata"))
      of_manifest (verify_expected libs verifier payload signature download.length download.sha256)

    unfoldable pub verify_downloads : Text → List (Text × DownloadArtifact) → Packaged (Unit {0})
    unfolding verify_download
    verify_downloads verifier [] = ok tt
    verify_downloads verifier ((name, download) ∷ downloads) = do
      verify_download verifier download
      verify_downloads verifier downloads

    -- `PackageRelease::verify_manifest`, over the manifest and the `downloads.json` beside it
    unfoldable pub verify_manifest :
        (manifest downloads : Option File) → Text → V → Packaged (Unit {0})
    unfolding read_text_bounded verify_platforms verify_downloads of_manifest
    verify_manifest manifest downloads public_key installed = do
      text ← read_text_bounded manifest (64 * 1024)
      parsed ← of_manifest (parse_for_installed libs text installed)
      verifier ← of_manifest (new_verifier libs public_key)
      verify_platforms verifier parsed.platforms
      metadata ← read_text_bounded downloads (64 * 1024)
      found ← of_manifest (ok_or json (libs.parse_downloads metadata))
      verify_downloads verifier found.artifacts
