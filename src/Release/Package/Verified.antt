-- ===== src/Release/Package/Verified.antt =====
-- What `verify_manifest` has verified when it succeeds.
use ovayra.Prelude.{
  ℕ, ◌*◌, ◌≤◌, ◌≡◌, sym, ap, ◌∙◌, subst, true, false, not, ◌&&◌, Option, some, List, [], ◌∷◌, arith,
  leb, ◌==◌, ==_iff, Result, ok, err, ok_or, >>=-eq-ok, guard-eq-ok, ok_or-eq-ok, guarded, length,
  All, Text, text_eq, text_eq_sound,
}
use ovayra.Release.World.{
  json, PlatformRelease, ReleaseManifest, DownloadArtifact, Downloads, Libraries,
}
use ovayra.Release.Manifest.{
  is_trust_anchor, pinned_update_public_key, new_verifier, verify, verify_expected,
  parse_for_installed,
}
use ovayra.Release.Manifest.Structure.{IsRelease, parse_for_installed_sound}
use ovayra.Release.Package.{
  PackageError, File, Directory, of_manifest, read_regular_bounded, read_text_bounded, local_name,
  read_signature_for, max_package_bytes, verify_platform, verify_platforms, verify_download,
  verify_downloads, verify_manifest, ReleaseManifestError, Url,
}

pub of_manifest-eq-ok :
    {A : Type 0} {a : A} (r : Result ReleaseManifestError A) → of_manifest r ≡ ok a → r ≡ ok a
unfolding of_manifest
of_manifest-eq-ok (ok b) h = cc
of_manifest-eq-ok (err e) h = cc

-- A regular file that was read whole, within a limit.
pub record IsRead (entry : Option File) (max : ℕ) (content : Text) : Type 0 where
  pub file : File
  pub present : entry ≡ some file
  pub regular : file.is_file ≡ true
  pub not_link : file.is_symlink ≡ false
  pub fits : length content ≤ max
  pub whole : file.content ≡ some content

pub read_regular_bounded_sound :
    (entry : Option File) (max : ℕ) (content : Text)
    → read_regular_bounded entry max ≡ ok content
    → IsRead entry max content
unfolding read_regular_bounded
read_regular_bounded_sound entry max content h =
    let (file, present, h1) = >>=-eq-ok (ok_or PackageError.io entry) _ h in
    let (safe, h2) = guarded (not file.is_symlink && file.is_file && leb file.len max) _ _ h1 in
    let (content', read, h3) = >>=-eq-ok (ok_or PackageError.io file.content) _ h2 in
    let (after, again, h4) = >>=-eq-ok (ok_or PackageError.io file.length_after) _ h3 in
    let (same, h5) = guarded ((after == file.len) && (length content' == file.len)) _ _ h4 in
    let e : content' ≡ content = cc h5 in
    record {
      file = file;
      present = ok_or-eq-ok _ entry present;
      regular = ground arith;
      not_link = ground arith;
      fits = subst (λ t. length t ≤ max) e (ground arith);
      whole = ok_or-eq-ok _ file.content read ∙ ap some e;
    }

module _ {V : Type 0} (libs : Libraries V) (packages : Directory) where
  -- A payload in the directory whose digest is as stated, and which the key signs by the signature
  -- of the sidecar, the one that is stated.
  pub record IsVerified (name signature sha256 : Text) : Type 0 where
    pub payload : Text
    pub read : IsRead (packages.file name) max_package_bytes payload
    pub sidecar : read_signature_for libs packages name ≡ ok signature
    pub digest : libs.sha256_hex payload ≡ sha256
    pub signed : libs.minisign_verify pinned_update_public_key payload signature ≡ true

  abbrev pub IsVerifiedPlatform : Text × PlatformRelease → Type 0
  IsVerifiedPlatform (target, p) =
      (name : Text) × (local_name p.url ≡ ok name) × IsVerified name p.signature p.sha256

  abbrev pub IsVerifiedDownload : Text × DownloadArtifact → Type 0
  IsVerifiedDownload (key, d) =
      (url : Url) × (name : Text) × (libs.parse_url d.url ≡ some url)
      × (local_name url ≡ ok name)
      × ((v : IsVerified name d.signature d.sha256) × (length v.payload ≡ d.length))

  verify_expected_sound :
      (verifier payload signature : Text) (n : ℕ) (sha256 : Text)
      → verify_expected libs verifier payload signature n sha256 ≡ ok tt
      → (length payload ≡ n)
        × (libs.sha256_hex payload ≡ sha256)
        × (libs.minisign_verify verifier payload signature ≡ true)
  unfolding verify_expected verify
  verify_expected_sound verifier payload signature n sha256 h =
      let (size, h1) = guarded (length payload == n) _ _ h in
      let (digest, h2) = guarded (text_eq (libs.sha256_hex payload) sha256) _ _ h1 in
      let (decoded, h3) = guarded (libs.is_signature signature) _ _ h2 in
      (
        (==_iff (length payload) n).0 size,
        text_eq_sound (libs.sha256_hex payload) sha256 digest,
        guard-eq-ok (libs.minisign_verify verifier payload signature) _ h3,
      )

  read-IsVerified :
      (name signature sha256 payload signature' : Text) (n : ℕ)
      → read_regular_bounded (packages.file name) max_package_bytes ≡ ok payload
      → read_signature_for libs packages name ≡ ok signature'
      → text_eq signature' signature ≡ true
      → of_manifest (verify_expected libs pinned_update_public_key payload signature' n sha256)
        ≡ ok tt
      → (v : IsVerified name signature sha256) × (length v.payload ≡ n)
  read-IsVerified name signature sha256 payload signature' n read sidecar same h =
      let e : signature' ≡ signature = text_eq_sound signature' signature same in
      let (size, digest, signed) =
        verify_expected_sound pinned_update_public_key payload signature' n sha256 (
          of_manifest-eq-ok
            (verify_expected libs pinned_update_public_key payload signature' n sha256) h) in
      (
        record {
          payload = payload;
          read = read_regular_bounded_sound (packages.file name) max_package_bytes payload read;
          sidecar = sidecar ∙ ap ok e;
          digest = digest;
          signed =
              subst (λ s. libs.minisign_verify pinned_update_public_key payload s ≡ true) e signed;
        },
        size,
      )

  verify_platform_sound :
      (target : Text) (p : PlatformRelease)
      → verify_platform libs packages pinned_update_public_key p ≡ ok tt
      → IsVerifiedPlatform (target, p)
  unfolding verify_platform
  verify_platform_sound target p h =
      let (name, local, h1) = >>=-eq-ok (local_name p.url) _ h in
      let (payload, read, h2) =
        >>=-eq-ok (read_regular_bounded (packages.file name) max_package_bytes) _ h1 in
      let (signature, sidecar, h3) = >>=-eq-ok (read_signature_for libs packages name) _ h2 in
      let (same, h4) = guarded (text_eq signature p.signature) _ _ h3 in
      (
        name,
        local,
        (read-IsVerified name p.signature p.sha256 payload signature (length payload) read sidecar
            same h4).0,
      )

  verify_platforms_sound :
      (platforms : List (Text × PlatformRelease))
      → verify_platforms libs packages pinned_update_public_key platforms ≡ ok tt
      → All IsVerifiedPlatform platforms
  unfolding verify_platforms
  verify_platforms_sound [] h = tt
  verify_platforms_sound ((target, p) ∷ platforms) h =
      let (u, first, rest) =
        >>=-eq-ok (verify_platform libs packages pinned_update_public_key p) _ h in
      (verify_platform_sound target p first, verify_platforms_sound platforms rest)

  verify_download_sound :
      (key : Text) (d : DownloadArtifact)
      → verify_download libs packages pinned_update_public_key d ≡ ok tt
      → IsVerifiedDownload (key, d)
  unfolding verify_download
  verify_download_sound key d h =
      let (url, parsed, h0) = >>=-eq-ok (ok_or _ (libs.parse_url d.url)) _ h in
      let (name, local, h1) = >>=-eq-ok (local_name url) _ h0 in
      let (payload, read, h2) =
        >>=-eq-ok (read_regular_bounded (packages.file name) max_package_bytes) _ h1 in
      let (signature, sidecar, h3) = >>=-eq-ok (read_signature_for libs packages name) _ h2 in
      let (same, h4) = guarded (text_eq signature d.signature) _ _ h3 in
      (
        url,
        name,
        ok_or-eq-ok _ (libs.parse_url d.url) parsed,
        local,
        read-IsVerified name d.signature d.sha256 payload signature d.length read sidecar same h4,
      )

  verify_downloads_sound :
      (downloads : List (Text × DownloadArtifact))
      → verify_downloads libs packages pinned_update_public_key downloads ≡ ok tt
      → All IsVerifiedDownload downloads
  unfolding verify_downloads
  verify_downloads_sound [] h = tt
  verify_downloads_sound ((key, d) ∷ downloads) h =
      let (u, first, rest) =
        >>=-eq-ok (verify_download libs packages pinned_update_public_key d) _ h in
      (verify_download_sound key d first, verify_downloads_sound downloads rest)

  new_verifier_sound :
      (public_key verifier : Text)
      → new_verifier libs public_key ≡ ok verifier
      → (public_key ≡ pinned_update_public_key) × (verifier ≡ pinned_update_public_key)
  unfolding new_verifier is_trust_anchor
  new_verifier_sound public_key verifier h =
      let (anchor, h1) = guarded (is_trust_anchor libs public_key) _ _ h in
      let (key, h2) = guarded (libs.is_key public_key) _ _ h1 in
      let same : public_key ≡ verifier = cc h2 in
      let pinned : public_key ≡ pinned_update_public_key =
        text_eq_sound public_key pinned_update_public_key (ground arith) in
      (pinned, sym same ∙ pinned)

  pub verify_manifest_sound :
      (manifest downloads : Option File) (public_key : Text) (installed : V)
      → verify_manifest libs packages manifest downloads public_key installed ≡ ok tt
      → (public_key ≡ pinned_update_public_key)
        × ((text : Text) × (m : ReleaseManifest V) × (read_text_bounded manifest (64 * 1024)
              ≡ ok text)
            × (parse_for_installed libs text installed ≡ ok m)
            × IsRelease libs m
            × All IsVerifiedPlatform m.platforms)
        × ((metadata : Text) × (d : Downloads) × (read_text_bounded downloads (64 * 1024)
              ≡ ok metadata)
            × (libs.parse_downloads metadata ≡ some d)
            × All IsVerifiedDownload d.artifacts)
  unfolding verify_manifest
  verify_manifest_sound manifest downloads public_key installed h =
      let (text, read, h1) = >>=-eq-ok (read_text_bounded manifest (64 * 1024)) _ h in
      let (m, parsed, h2) =
        >>=-eq-ok (of_manifest (parse_for_installed libs text installed)) _ h1 in
      let (verifier, made, h3) = >>=-eq-ok (of_manifest (new_verifier libs public_key)) _ h2 in
      let (u, platforms, h4) =
        >>=-eq-ok (verify_platforms libs packages verifier m.platforms) _ h3 in
      let (metadata, read', h5) = >>=-eq-ok (read_text_bounded downloads (64 * 1024)) _ h4 in
      let (d, found, artifacts) =
        >>=-eq-ok (of_manifest (ok_or json (libs.parse_downloads metadata))) _ h5 in
      let (pinned, key) =
        new_verifier_sound public_key verifier
          (of_manifest-eq-ok (new_verifier libs public_key) made) in
      let accepted = of_manifest-eq-ok (parse_for_installed libs text installed) parsed in
      (
        pinned,
        (
          text,
          m,
          read,
          accepted,
          (parse_for_installed_sound libs text installed m accepted).2,
          verify_platforms_sound m.platforms
              (subst (λ k. verify_platforms libs packages k m.platforms ≡ ok tt) key platforms),
        ),
        (
          metadata,
          d,
          read',
          ok_or-eq-ok json (libs.parse_downloads metadata)
              (of_manifest-eq-ok (ok_or json (libs.parse_downloads metadata)) found),
          verify_downloads_sound d.artifacts
              (subst (λ k. verify_downloads libs packages k d.artifacts ≡ ok tt) key artifacts),
        ),
      )
