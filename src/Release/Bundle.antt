-- ===== src/Release/Bundle.antt =====
-- crates/spike-release/src/ffmpeg_policy.rs: the files of an FFmpeg bundle, their checksums, the
-- source beside the lock, and the software bill of materials. What the file system and the libraries
-- say of a bundle is the record `Bundle`, by the path within it.
pub mod Checksums
use ovayra.Prelude.{
  ℕ, Bool, true, false, not, ◌&&◌, ◌||◌, Option, none, some, List, [], ◌∷◌, ◌++◌, map, ◌==◌,
  if◌then◌else◌, ok, err, ◌>>=◌, ◌>>◌, guard, ok_or, length, any, all, trim, lines, split_at,
  split_once, Text, bytes, text_eq, contains, is_empty, starts_with, to_ascii_lowercase,
  is_ascii_hexdigit,
}
use ovayra.Release.Manifest.{get}
use ovayra.Release.Generate.{insert_key}
use ovayra.Release.Buildconf.{
  Policed, missing_artifact, unsafe_path, invalid_checksum_manifest, checksum_mismatch, io,
}
use ovayra.Release.Lock.{LockFile, SignatureAttestation}

-- `Component`, with its hashes and the ids of its licenses
pub record Component : Type 0 where
  pub name : Text
  pub version : Text
  pub hashes : Option (List (Text × Text))
  pub licenses : Option (List (Option Text))

-- `regular` is the outcome of `require_regular` on the path's own metadata: absent, a link or no
-- file, a file elsewhere, or a file within the bundle.
pub data Regular : Type 0 where
  absent not_regular outside regular : Regular

pub record Bundle : Type 0 where
  pub is_directory : Bool
  pub look : Text → Regular
  pub read_to_string : Text → Option Text
  pub sha256_file : Text → Option Text
  pub size : Text → Option ℕ
  pub files : Policed (List Text)
  pub lock : Text → Option LockFile
  pub tarball : Policed (Unit {0})
  pub attestation : Text → Option SignatureAttestation
  pub bill : Option (List Component)

abbrev pub sums_path : Text
sums_path = bytes "provenance/SHA256SUMS"

abbrev pub archive_path : Text
archive_path = bytes "provenance/ffmpeg-8.1.2.tar.xz"

abbrev pub target_path : Text
target_path = bytes ".ovayra-target"

abbrev pub required_artifact_list : List Text
required_artifact_list =
    target_path
    ∷ bytes "bin/ffmpeg"
    ∷ bytes "bin/ffprobe"
    ∷ archive_path
    ∷ bytes "provenance/ffmpeg-8.1.2.tar.xz.asc"
    ∷ bytes "provenance/libvpx-source.tar.zst"
    ∷ bytes "provenance/opus-source.tar.zst"
    ∷ bytes "provenance/buildconf.txt"
    ∷ bytes "provenance/changes.diff"
    ∷ bytes "provenance/ffmpeg.lock"
    ∷ bytes "provenance/ffmpeg-signature-attestation.json"
    ∷ bytes "LICENSES/FFmpeg-LGPL-2.1-or-later.txt"
    ∷ bytes "LICENSES/libvpx-BSD-3-Clause.txt"
    ∷ bytes "LICENSES/Opus-BSD-3-Clause.txt"
    ∷ bytes "NOTICE.txt"
    ∷ bytes "sbom/ffmpeg.cdx.json"
    ∷ sums_path
    ∷ []

abbrev pub nv_codec_artifacts : List Text
nv_codec_artifacts =
    bytes "provenance/nv-codec-headers-source.tar.zst"
    ∷ bytes "LICENSES/nv-codec-headers-MIT.txt"
    ∷ []

abbrev pub other_targets : List Text
other_targets =
    bytes "windows-x64-mf"
    ∷ bytes "windows-x64-nvidia"
    ∷ bytes "linux-x64-vaapi-wayland"
    ∷ bytes "linux-x64-vaapi-x11"
    ∷ bytes "linux-x64-nvidia"
    ∷ []

-- the list for a target, trimmed
artifacts_for : Text → Policed (List Text)
unfolding text_eq contains
artifacts_for target =
    if text_eq target (bytes "macos-arm64-vt")
    then ok required_artifact_list
    else if contains other_targets target
    then ok (required_artifact_list ++ nv_codec_artifacts)
    else err (unsafe_path (bytes "unsupported target marker " ++ target))

-- On Windows the two programs end in `.exe`.
with_exe : Text → Text
unfolding text_eq
with_exe artifact =
    if text_eq artifact (bytes "bin/ffmpeg") || text_eq artifact (bytes "bin/ffprobe")
    then artifact ++ bytes ".exe"
    else artifact

unfoldable pub required_artifacts : Bundle → Policed (List Text)
unfolding artifacts_for with_exe trim starts_with
required_artifacts b = do
  target ← ok_or (missing_artifact target_path) (b.read_to_string target_path)
  artifacts ← artifacts_for (trim target)
  ok (if starts_with (trim target) (bytes "windows-") then map with_exe artifacts else artifacts)

-- `require_regular`
unfoldable pub require_regular : Bundle → Text → Policed (Unit {0})
require_regular b path = elim (b.look path) [
  | absent ↦ err (missing_artifact path)
  | not_regular ↦ err (unsafe_path path)
  | outside ↦ err (unsafe_path path)
  | regular ↦ ok tt
]

unfoldable pub require_each : Bundle → List Text → Policed (Unit {0})
unfolding require_regular
require_each b [] = ok tt
require_each b (path ∷ paths) = do require_regular b path; require_each b paths

-- an entry of SHA256SUMS
unfoldable pub is_entry : Text → Text → Bool
unfolding is_ascii_hexdigit is_empty starts_with split_at text_eq
is_entry hex relative =
    (length hex == 64)
    && all is_ascii_hexdigit hex
    && not (is_empty relative)
    && not (starts_with relative (bytes "/"))
    && not (any (λ c. c == 92) relative)
    && not (any (λ part. text_eq part (bytes "..") || is_empty part) (split_at 47 relative))

present {ℓ} : {A : Type ℓ} → Option A → Bool
present none = false
present (some _) = true

unfoldable pub parse_sums : List Text → List (Text × Text) → Policed (List (Text × Text))
unfolding is_entry present split_once to_ascii_lowercase
parse_sums [] sums = ok sums
parse_sums (line ∷ rest) sums = do
  (hex, relative) ←
      ok_or (invalid_checksum_manifest (bytes "entries require exactly two-space separator"))
        (split_once (bytes "  ") line)
  guard (is_entry hex relative) (invalid_checksum_manifest line)
  guard (not (text_eq relative sums_path) && not (present (get sums relative)))
      (invalid_checksum_manifest relative)
  parse_sums rest (insert_key relative (to_ascii_lowercase hex) sums)

-- The required paths other than the sums' own are listed.
unfoldable pub require_listed : List Text → List (Text × Text) → Policed (Unit {0})
unfolding present
require_listed [] sums = ok tt
require_listed (path ∷ paths) sums = do
  guard (text_eq path sums_path || present (get sums path))
      (invalid_checksum_manifest (bytes "missing " ++ path))
  require_listed paths sums

-- `BTreeMap::remove`
unfoldable pub without : Text → List (Text × Text) → List (Text × Text)
without key [] = []
without key ((k, v) ∷ entries) =
    let rest = without key entries in if text_eq k key then rest else (k, v) ∷ rest

-- The digest of a file against its entry, which is taken out.
check_sum : Bundle → Text → List (Text × Text) → Policed (List (Text × Text))
unfolding without get
check_sum b file sums = do
  expected ← ok_or (invalid_checksum_manifest (bytes "missing " ++ file)) (get sums file)
  actual ← ok_or io (b.sha256_file file)
  guard (text_eq actual expected) (checksum_mismatch file)
  ok (without file sums)

-- `for file in files`: what is left of the sums
unfoldable pub check_files : Bundle → List Text → List (Text × Text) → Policed (List (Text × Text))
unfolding check_sum
check_files b [] sums = ok sums
check_files b (file ∷ files) sums = do
  rest ← if text_eq file sums_path then ok sums else check_sum b file sums
  check_files b files rest

none_left : List (Text × Text) → Policed (Unit {0})
none_left [] = ok tt
none_left ((path, _) ∷ _) = err (invalid_checksum_manifest (bytes "unexpected " ++ path))

unfoldable pub validate_checksums : Bundle → List Text → List Text → Policed (Unit {0})
unfolding parse_sums require_listed check_files none_left lines
validate_checksums b required files = do
  manifest ← ok_or io (b.read_to_string sums_path)
  sums ← parse_sums (lines manifest) []
  require_listed required sums
  rest ← check_files b files sums
  none_left rest
