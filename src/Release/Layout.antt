-- ===== src/Release/Layout.antt =====
-- crates/spike-release/src/ffmpeg_policy.rs: the locked source of a bundle, its bill of materials,
-- and the whole check of a bundle's layout.
pub mod Targets
pub mod Locked
use ovayra.Prelude.{
  Bool, false, not, ◌&&◌, ◌||◌, Option, none, some, List, [], ◌∷◌, ◌++◌, ◌==◌, if◌then◌else◌, ok,
  ◌>>=◌, ◌>>◌, guard, ok_or, find, any, trim, trim_start, ends_with, strip_prefix, lines, Text,
  bytes, text_eq, option_eq, is_empty, starts_with, to_ascii_lowercase,
}
use ovayra.Release.World.{Url}
use ovayra.Release.Buildconf.{
  Policed, unsafe_path, checksum_mismatch, invalid_buildconf, invalid_sbom, io, executable_check,
  validate_buildconf,
}
use ovayra.Release.Lock.{
  LockFile, LockedTarget, SignatureAttestation, ffmpeg_version, invalid_lock, parse_lock,
}
use ovayra.Release.Bundle.{
  Bundle, Component, archive_path, target_path, required_artifacts, require_regular, require_each,
  validate_checksums,
}

unfoldable pub attested : SignatureAttestation → LockFile → Text → Bool
unfolding text_eq
attested a lock actual =
    (a.schema_version == 1)
    && a.verified
    && text_eq a.signer_fingerprint lock.ffmpeg.release_key_fingerprint
    && text_eq a.primary_fingerprint lock.ffmpeg.release_key_fingerprint
    && text_eq a.sha256 actual

unfoldable pub is_locked_target : LockFile → Text → Bool
unfolding text_eq
is_locked_target lock target = any (λ (t : LockedTarget). text_eq t.id target) lock.targets

unfoldable pub is_locked_source : LockFile → Text → Bool
unfolding text_eq
is_locked_source lock actual =
    text_eq lock.ffmpeg.version ffmpeg_version && text_eq lock.ffmpeg.sha256 actual

-- `trim_start_matches('v')`
without_v : Text → Text
without_v [] = []
without_v (c ∷ s) = if c == 118 then without_v s else c ∷ s

has_hash : Text → Option (List (Text × Text)) → Bool
unfolding text_eq to_ascii_lowercase
has_hash digest none = false
has_hash digest (some hashes) =
    any
      (λ (h : Text × Text).
        text_eq (to_ascii_lowercase h.0) (bytes "sha-256") && text_eq h.1 digest)
      hashes

has_license : Text → Option (List (Option Text)) → Bool
unfolding option_eq
has_license license none = false
has_license license (some ids) = any (λ id. option_eq id (some license)) ids

module _ (parse_url : Text → Option Url) (b : Bundle) where
  -- `validate_locked_source`
  unfoldable pub validate_locked_source : Text → Policed LockFile
  unfolding is_locked_target is_locked_source attested trim text_eq
  validate_locked_source trusted_lock = do
    bundled ← ok_or io (b.read_to_string (bytes "provenance/ffmpeg.lock"))
    guard (text_eq bundled trusted_lock)
        (invalid_buildconf (bytes "bundle lock differs from authenticated project lock"))
    lock ← parse_lock parse_url (b.lock bundled)
    target ← ok_or io (b.read_to_string target_path)
    guard (is_locked_target lock (trim target))
        (invalid_lock (bytes "bundle target marker is not in immutable target matrix"))
    actual ← ok_or io (b.sha256_file archive_path)
    guard (is_locked_source lock actual) (checksum_mismatch archive_path)
    size ← ok_or io (b.size (bytes "provenance/ffmpeg-8.1.2.tar.xz.asc"))
    guard (not (size == 0)) (invalid_buildconf (bytes "empty FFmpeg detached signature"))
    b.tarball
    text ← ok_or io (b.read_to_string (bytes "provenance/ffmpeg-signature-attestation.json"))
    attestation ←
        ok_or (invalid_buildconf (bytes "invalid signature attestation")) (b.attestation text)
    guard (attested attestation lock actual)
        (invalid_buildconf (bytes "signature attestation does not match lock"))
    ok lock

  -- one round of `validate_sbom`
  check_component : List Component → (name version license archive : Text) → Policed (Unit {0})
  unfolding has_hash has_license text_eq
  check_component components name version license archive = do
    component ←
        ok_or (invalid_sbom (bytes "missing " ++ (name ++ (64 ∷ version))))
          (find (λ (c : Component). text_eq c.name name && text_eq c.version version) components)
    digest ← ok_or io (b.sha256_file archive)
    guard (has_hash digest component.hashes && has_license license component.licenses)
        (invalid_sbom (name ++ bytes " lacks required hash or license evidence"))

  unfoldable pub validate_sbom : LockFile → Policed (Unit {0})
  unfolding check_component without_v
  validate_sbom lock = do
    components ← ok_or (invalid_sbom (bytes "unreadable")) b.bill
    check_component components (bytes "FFmpeg") ffmpeg_version (bytes "LGPL-2.1-or-later")
        archive_path
    check_component components (bytes "libvpx") (without_v lock.libvpx.tag) lock.libvpx.license
        (bytes "provenance/libvpx-source.tar.zst")
    check_component components (bytes "opus") (without_v lock.opus.tag) lock.opus.license
        (bytes "provenance/opus-source.tar.zst")

  -- `validate_layout_with_lock`
  unfoldable pub validate_layout : Text → Policed (Unit {0})
  unfolding required_artifacts require_each validate_checksums validate_locked_source validate_sbom
  validate_layout trusted_lock = do
    guard b.is_directory (unsafe_path (bytes "."))
    artifacts ← required_artifacts b
    require_each b artifacts
    files ← b.files
    validate_checksums b artifacts files
    lock ← validate_locked_source trusted_lock
    buildconf ← ok_or io (b.read_to_string (bytes "provenance/buildconf.txt"))
    validate_buildconf buildconf
    validate_sbom lock

  -- the file of a program, with `.exe` on Windows
  program_file : Text → Text
  unfolding trim starts_with
  program_file program = elim (b.read_to_string target_path) [
    | none ↦ program
    | some target ↦
        if starts_with (trim target) (bytes "windows-") then program ++ bytes ".exe" else program
  ]

  -- the first line of a version's output, in the words of an exact release
  unfoldable pub is_exact_version : Text → Text → Bool
  unfolding lines trim_start strip_prefix starts_with ends_with is_empty
  is_exact_version program output = elim (lines output) [
    | [] ↦ false
    | line ∷ _ ↦
        elim (strip_prefix (trim_start line) (program ++ (bytes " version " ++ ffmpeg_version))) [
          | none ↦ false
          | some suffix ↦
              is_empty suffix
              || (starts_with suffix (bytes " Copyright (c) ")
                  && ends_with suffix (bytes " the FFmpeg developers"))
        ]
  ]

  module _ (run_checked : (file argument : Text) → Policed Text) where
    check_program : Text → Policed (Unit {0})
    unfolding program_file is_exact_version require_regular
    check_program program = do
      require_regular b (bytes "bin/" ++ program_file program)
      output ← run_checked (bytes "bin/" ++ program_file program) (bytes "-version")
      guard (is_exact_version program output) (
          executable_check
            (program ++ (bytes " did not report exact source version " ++ ffmpeg_version)))

    -- `validate_executables`; `run_checked` stands for running a program of the bundle
    unfoldable pub validate_executables : Policed (Unit {0})
    unfolding check_program
    validate_executables = do
      check_program (bytes "ffmpeg")
      check_program (bytes "ffprobe")
      require_regular b (bytes "bin/" ++ program_file (bytes "ffmpeg"))
      output ← run_checked (bytes "bin/" ++ program_file (bytes "ffmpeg")) (bytes "-buildconf")
      validate_buildconf output

    -- `validate_with_lock`
    unfoldable pub validate_bundle : Text → Policed (Unit {0})
    unfolding validate_layout validate_executables
    validate_bundle trusted_lock = do validate_layout trusted_lock; validate_executables
