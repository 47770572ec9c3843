-- ===== src/Release/Layout/Locked.antt =====
-- A bundle whose layout is accepted is one of the locked targets, built from the locked source.
use ovayra.Prelude.{
  ◌≡◌, sym, ap, ◌∙◌, subst, true, false, not, Option, some, List, [], arith, ◌==◌, ok, ok_or,
  >>=-eq-ok, ok_or-eq-ok, guarded, All, trim, lines, Text, bytes, text_eq, text_eq_sound, contains,
}
use ovayra.Release.World.{Url}
use ovayra.Release.Buildconf.{validate_buildconf, configuration, parse_tokens}
use ovayra.Release.Buildconf.Flags.{AreLicensed, validate_buildconf_sound}
use ovayra.Release.Lock.{
  check_upstream, check_dependency, LockFile, ffmpeg_syntax, has_targets, parse_lock,
}
use ovayra.Release.Bundle.{
  sums_path, parse_sums, Bundle, archive_path, target_path, required_artifacts, require_each,
  validate_checksums,
}
use ovayra.Release.Bundle.Checksums.{IsSummed, validate_checksums_sound}
use ovayra.Release.Layout.Targets.{target_ids, three_targets}
use ovayra.Release.Layout.{
  attested, is_locked_target, is_locked_source, validate_locked_source, validate_layout,
}

-- The bundle's lock is the trusted one, its target is in the lock and one of three, and its archive
-- has the digest that the lock states.
pub record IsLocked (b : Bundle) (trusted_lock : Text) (lock : LockFile) : Type 0 where
  pub same_lock : b.read_to_string (bytes "provenance/ffmpeg.lock") ≡ some trusted_lock
  pub parsed : b.lock trusted_lock ≡ some lock
  pub target : Text
  pub marker : b.read_to_string target_path ≡ some target
  pub known_target : is_locked_target lock (trim target) ≡ true
  pub source : b.sha256_file archive_path ≡ some lock.ffmpeg.sha256
  pub one_of_three : contains target_ids (trim target) ≡ true

module _ (parse_url : Text → Option Url) (b : Bundle) where
  parse_lock_sound :
      (parsed : Option LockFile) (lock : LockFile)
      → parse_lock parse_url parsed ≡ ok lock
      → (parsed ≡ some lock) × (has_targets lock.targets ≡ true)
  unfolding parse_lock
  parse_lock_sound parsed lock h =
      let (lock', there, h1) = >>=-eq-ok (ok_or _ parsed) _ h in
      let (syntax, h2) = guarded (ffmpeg_syntax lock'.ffmpeg) _ _ h1 in
      let (u, source, h3) = >>=-eq-ok (check_upstream parse_url lock'.ffmpeg.source_url _) _ h2 in
      let (u, signature, h4) =
        >>=-eq-ok (check_upstream parse_url lock'.ffmpeg.signature_url _) _ h3 in
      let (u, libvpx, h5) = >>=-eq-ok (check_dependency parse_url lock'.libvpx _) _ h4 in
      let (u, opus, h6) = >>=-eq-ok (check_dependency parse_url lock'.opus _) _ h5 in
      let (u, headers, h7) = >>=-eq-ok (check_dependency parse_url lock'.nv_codec_headers _) _ h6 in
      let (targets, h8) = guarded (has_targets lock'.targets) _ _ h7 in
      let same : lock' ≡ lock = cc h8 in
      (
        ok_or-eq-ok _ parsed there ∙ ap some same,
        subst (λ (l : LockFile). has_targets l.targets ≡ true) same targets,
      )

  validate_locked_source_sound :
      (trusted_lock : Text) (lock : LockFile)
      → validate_locked_source parse_url b trusted_lock ≡ ok lock
      → IsLocked b trusted_lock lock
  unfolding validate_locked_source is_locked_source is_locked_target
  validate_locked_source_sound trusted_lock lock h =
      let (bundled, read, h1) =
        >>=-eq-ok (ok_or _ (b.read_to_string (bytes "provenance/ffmpeg.lock"))) _ h in
      let (trusted, h2) = guarded (text_eq bundled trusted_lock) _ _ h1 in
      let (lock', parsed, h3) = >>=-eq-ok (parse_lock parse_url (b.lock bundled)) _ h2 in
      let (target, marker, h4) = >>=-eq-ok (ok_or _ (b.read_to_string target_path)) _ h3 in
      let (known, h5) = guarded (is_locked_target lock' (trim target)) _ _ h4 in
      let (actual, digest, h6) = >>=-eq-ok (ok_or _ (b.sha256_file archive_path)) _ h5 in
      let (source, h7) = guarded (is_locked_source lock' actual) _ _ h6 in
      let (size, sized, h8) =
        >>=-eq-ok (ok_or _ (b.size (bytes "provenance/ffmpeg-8.1.2.tar.xz.asc"))) _ h7 in
      let (not_empty, h9) = guarded (not (size == 0)) _ _ h8 in
      let (u, tarball, h10) = >>=-eq-ok b.tarball _ h9 in
      let (text, told, h11) =
        >>=-eq-ok
          (ok_or _ (b.read_to_string (bytes "provenance/ffmpeg-signature-attestation.json"))) _
          h10 in
      let (a, attestation, h12) = >>=-eq-ok (ok_or _ (b.attestation text)) _ h11 in
      let (agrees, h13) = guarded (attested a lock' actual) _ _ h12 in
      let same : lock' ≡ lock = cc h13 in
      let same_text : bundled ≡ trusted_lock = text_eq_sound bundled trusted_lock trusted in
      let (there, targets) = parse_lock_sound (b.lock bundled) lock' parsed in
      let archive : lock'.ffmpeg.sha256 ≡ actual =
        text_eq_sound lock'.ffmpeg.sha256 actual (ground arith) in
      subst (IsLocked b trusted_lock) same (record {
        same_lock =
            ok_or-eq-ok _ (b.read_to_string (bytes "provenance/ffmpeg.lock")) read
            ∙ ap some same_text;
        parsed = subst (λ t. b.lock t ≡ some lock') same_text there;
        target = target;
        marker = ok_or-eq-ok _ (b.read_to_string target_path) marker;
        known_target = known;
        source = ok_or-eq-ok _ (b.sha256_file archive_path) digest ∙ ap some (sym archive);
        one_of_three = three_targets lock'.targets (trim target) targets known;
      })

  -- What is said of a bundle that is accepted. `sums` are the entries of its file of sums, `lock` is
  -- its lock, and `tokens` are those of its build configuration.
  pub record IsAcceptedLayout (trusted_lock : Text) : Type 0 where
    pub artifacts : List Text
    pub required : required_artifacts b ≡ ok artifacts
    pub files : List Text
    pub collected : b.files ≡ ok files
    pub manifest : Text
    pub manifest_read : b.read_to_string sums_path ≡ some manifest
    pub sums : List (Text × Text)
    pub sums_parsed : parse_sums (lines manifest) [] ≡ ok sums
    pub summed : All (IsSummed b sums) files
    pub present_files :
        All (λ path. text_eq path sums_path ≡ false → contains files path ≡ true) artifacts
    pub lock : LockFile
    pub locked_source : IsLocked b trusted_lock lock
    pub buildconf : Text
    pub buildconf_read : b.read_to_string (bytes "provenance/buildconf.txt") ≡ some buildconf
    pub found : Text
    pub configured : configuration buildconf ≡ some found
    pub tokens : List Text
    pub tokens_parsed : parse_tokens found ≡ ok tokens
    pub licensed : AreLicensed tokens

  -- A bundle whose layout is accepted under a trusted lock has that lock, one of whose three targets is
  -- its own, and a source archive with the digest that the lock states. Its files other than the sums
  -- have the digests that the sums list, every required file is among them, and the options that its
  -- build configuration records are licensed.
  pub validate_layout_sound :
      (trusted_lock : Text)
      → validate_layout parse_url b trusted_lock ≡ ok tt
      → IsAcceptedLayout trusted_lock
  unfolding validate_layout
  validate_layout_sound trusted_lock h =
      let (directory, h1) = guarded b.is_directory _ _ h in
      let (artifacts, required, h2) = >>=-eq-ok (required_artifacts b) _ h1 in
      let (u, regular, h3) = >>=-eq-ok (require_each b artifacts) _ h2 in
      let (files, collected, h4) = >>=-eq-ok b.files _ h3 in
      let (u, sums, h5) = >>=-eq-ok (validate_checksums b artifacts files) _ h4 in
      let (lock, source, h6) = >>=-eq-ok (validate_locked_source parse_url b trusted_lock) _ h5 in
      let (buildconf, read, h7) =
        >>=-eq-ok (ok_or _ (b.read_to_string (bytes "provenance/buildconf.txt"))) _ h6 in
      let (u, flags, h8) = >>=-eq-ok (validate_buildconf buildconf) _ h7 in
      let ((manifest, listed, manifest_read, sums_parsed, summed), present_files) =
        validate_checksums_sound b artifacts files sums in
      let (found, tokens, configured, tokens_parsed, licensed) =
        validate_buildconf_sound buildconf flags in
      record {
        artifacts = artifacts;
        required = required;
        files = files;
        collected = collected;
        manifest = manifest;
        manifest_read = manifest_read;
        sums = listed;
        sums_parsed = sums_parsed;
        summed = summed;
        present_files = present_files;
        lock = lock;
        locked_source = validate_locked_source_sound trusted_lock lock source;
        buildconf = buildconf;
        buildconf_read = ok_or-eq-ok _ (b.read_to_string (bytes "provenance/buildconf.txt")) read;
        found = found;
        configured = configured;
        tokens = tokens;
        tokens_parsed = tokens_parsed;
        licensed = licensed;
      }
