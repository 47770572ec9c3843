-- ===== src/Release/Generate/Tampered.antt =====
-- What becomes of a package that was tampered with after the manifest was verified.
use ovayra.Prelude.{
  ℕ, ◌*◌, ◌≡◌, ap, subst, ◌≢◌, true, false, Option, some, Memᴰ, if◌then◌else◌, ok, length, All,
  All-mem, Text, text_eq, text_eq_refl,
}
use ovayra.Release.World.{PlatformRelease, ReleaseManifest, Libraries}
use ovayra.Release.Manifest.{parse_for_installed}
use ovayra.Release.Package.{
  Directory, File, max_package_bytes, read_regular_bounded, read_text_bounded, local_name,
  verify_manifest,
}
use ovayra.Release.Package.Verified.{
  IsRead, verify_manifest_sound, IsVerifiedPlatform, read_regular_bounded_sound,
}
use ovayra.Release.Generate.{with_content}

IsRead-unique :
    (entry : Option File) (max : ℕ) (s t : Text) → IsRead entry max s → IsRead entry max t → s ≡ t
IsRead-unique entry max s t a b =
    let same : a.file ≡ b.file = cc (a.present, b.present) in cc (same, a.whole, b.whole)

-- What is read of a file after it was written.
with_content_read :
    (packages : Directory) (name content found : Text)
    → IsRead ((with_content packages name content).file name) max_package_bytes found
    → found ≡ content
unfolding with_content
with_content_read packages name content found h =
    let written : File = record {
      is_symlink = false;
      is_file = true;
      len = length content;
      content = some content;
      length_after = some (length content);
    } in
    let there : ◌≡◌ {A = Option File}
        (if text_eq name name then some written else packages.file name) (some h.file) =
      h.present in
    let there' : some written ≡ some h.file = rw (text_eq_refl name) at there in
    let same : written ≡ h.file = cc there' in
    let held : some content ≡ h.file.content = ap (λ (f : File). f.content) same in
    cc (held, h.whole)

module _ {V : Type 0} (libs : Libraries V) (packages : Directory) where
  -- The digest that a verified manifest states of a target's file is the digest of the file.
  verified_digest :
      (directory : Directory) (manifest downloads : Option File)
      (public_key text name target : Text) (installed : V) (m : ReleaseManifest V)
      (p : PlatformRelease)
      → read_text_bounded manifest (64 * 1024) ≡ ok text
      → parse_for_installed libs text installed ≡ ok m
      → Memᴰ (target, p) m.platforms
      → local_name p.url ≡ ok name
      → verify_manifest libs directory manifest downloads public_key installed ≡ ok tt
      → (payload : Text) × IsRead (directory.file name) max_package_bytes payload
        × (libs.sha256_hex payload ≡ p.sha256)
  verified_digest directory manifest downloads public_key text name target installed m p read parsed
        member local h =
      let (_, (text', m', read', parsed', _, platforms), _) =
        verify_manifest_sound libs directory manifest downloads public_key installed h in
      let same_text : text' ≡ text = cc (read, read') in
      let same_m : m' ≡ m = cc (same_text, parsed, parsed') in
      let (name', local', verified) =
        All-mem (IsVerifiedPlatform libs directory) m.platforms
          (subst (λ (x : ReleaseManifest V). All (IsVerifiedPlatform libs directory) x.platforms)
            same_m platforms)
          member in
      let same_name : name' ≡ name = cc (local, local') in
      (
        verified.payload,
        subst (λ n. IsRead (directory.file n) max_package_bytes verified.payload) same_name
            verified.read,
        verified.digest,
      )

  -- When a directory is verified, it is no longer verified once the file of one of the manifest's
  -- targets is replaced by a content of another digest.
  pub tampered_rejected :
      (manifest downloads : Option File) (public_key text name payload altered target : Text)
      (installed : V) (m : ReleaseManifest V) (p : PlatformRelease)
      → verify_manifest libs packages manifest downloads public_key installed ≡ ok tt
      → read_text_bounded manifest (64 * 1024) ≡ ok text
      → parse_for_installed libs text installed ≡ ok m
      → Memᴰ (target, p) m.platforms
      → local_name p.url ≡ ok name
      → read_regular_bounded (packages.file name) max_package_bytes ≡ ok payload
      → libs.sha256_hex altered ≢ libs.sha256_hex payload
      → ¬ (
          verify_manifest libs
            (with_content packages name altered)
            manifest
            downloads
            public_key
            installed
          ≡ ok tt)
  tampered_rejected manifest downloads public_key text name payload altered target installed m p
        verified read parsed member local held other h =
      let (original, whole, digest) =
        verified_digest packages manifest downloads public_key text name target installed m p read
          parsed member local verified in
      let (found, whole', digest') =
        verified_digest (with_content packages name altered) manifest downloads public_key text name
          target installed m p read parsed member local h in
      let same : original ≡ payload =
        IsRead-unique (packages.file name) max_package_bytes original payload whole
          (read_regular_bounded_sound (packages.file name) max_package_bytes payload held) in
      let there : found ≡ altered = with_content_read packages name altered found whole' in
      other (cc (same, there, digest, digest'))
