-- ===== src/Release/Examples.antt =====
-- The theorems of the release checks at concrete inputs: a release of three targets and a download,
-- and the quoting of two flags.
use ovayra.Prelude.{
  ℕ, ◌*◌, ◌≤◌, ◌≡◌, refl, ◌≢◌, true, false, Option, none, some, List, [], ◌∷◌, ◌++◌, Memᴰ, leb,
  if◌then◌else◌, ok, length, parse_u64, is_utf8, ends_with, Text, bytes, text_eq, is_empty,
  starts_with, has_infix,
}
use ovayra.Release.World.{
  UpdateFormat, app, wix, appimage, Url, PlatformRelease, ReleaseManifest, Downloads, Libraries,
}
use ovayra.Release.Manifest.{
  pinned_update_public_key, pinned_update_public_key_sha256, max_manifest_bytes,
  parse_for_installed, is_lower_hex, is_trust_anchor, new_verifier,
}
use ovayra.Release.Manifest.Structure.{IsRelease, parse_for_installed_sound}
use ovayra.Release.Package.{
  File, Directory, Packaged, verify_manifest, read_text_bounded, local_name, read_regular_bounded,
  max_package_bytes, read_signature_for,
}
use ovayra.Release.Generate.{Entry, with_content}
use ovayra.Release.Generate.Tampered.{tampered_rejected}
use ovayra.Release.Buildconf.{parse_tokens}
use ovayra.Release.Buildconf.Quoted.{quoted_all, parse_tokens-quoted_all}

abbrev flags : List Text
flags = bytes "--enable-libvpx" ∷ bytes "--extra=a b" ∷ []

parse_tokens-quoted_all_example :
    parse_tokens (quoted_all (bytes "--enable-libopus" ∷ flags))
    ≡ ok (bytes "--enable-libopus" ∷ flags)
unfolding bytes is_empty
parse_tokens-quoted_all_example =
    parse_tokens-quoted_all (bytes "--enable-libopus") flags (refl, (refl, (refl, tt)))

abbrev tampered : Text
tampered = 0 ∷ []

abbrev other_digest : Text
other_digest = bytes "0"

-- A digest that tells the tampered payload from the others, among which is the pinned key.
digest_of : Text → Text
digest_of t = if text_eq t tampered then other_digest else pinned_update_public_key_sha256

abbrev url_at : Text → Url
url_at name = record {
  as_str = bytes "https://updates.ovayra.com/phase-0/" ++ name;
  scheme = bytes "https";
  host_str = some (bytes "updates.ovayra.com");
  port_or_known_default = some 443;
  port = none;
  username = [];
  password = none;
  query = none;
  fragment = none;
  path = bytes "/phase-0/" ++ name;
  path_segments = some (bytes "phase-0" ∷ name ∷ []);
}

abbrev mac_name : Text
mac_name = bytes "ovayra-phase-0_2_darwin-aarch64.app.tar.gz"

abbrev windows_name : Text
windows_name = bytes "ovayra-phase-0_2_windows-x86_64.msi"

abbrev linux_name : Text
linux_name = bytes "ovayra-phase-0_2_linux-x86_64.AppImage"

abbrev deb_name : Text
deb_name = bytes "ovayra-phase-0_2_linux-x86_64.deb"

abbrev signature_text : Text
signature_text = bytes "signature"

abbrev released : Text → UpdateFormat → PlatformRelease
released name format = record {
  url = url_at name;
  signature = signature_text;
  format = format;
  sha256 = pinned_update_public_key_sha256;
}

abbrev manifest : ReleaseManifest ℕ
manifest = record {
  version = 2;
  pub_date = bytes "2026-07-17T00:00:00Z";
  notes = bytes "notes";
  platforms =
      (bytes "darwin-aarch64", released mac_name app)
      ∷ (bytes "linux-x86_64", released linux_name appimage)
      ∷ (bytes "windows-x86_64", released windows_name wix)
      ∷ [];
}

abbrev downloads : Downloads
downloads = record {
  version = bytes "2";
  artifacts =
      (
        deb_name,
        record {
          url = deb_name;
          sha256 = pinned_update_public_key_sha256;
          length = 2;
          signature = signature_text;
        },
      )
      ∷ [];
}

abbrev libraries : Libraries ℕ
libraries = record {
  pre_is_empty = λ _. true;
  version_leb = leb;
  parse_version = parse_u64;
  version_text = λ _. bytes "2";
  is_rfc3339 = λ _. true;
  parse_url = λ name. some (record (url_at name) { as_str = name });
  join_url = λ _ name. some (record (url_at name) { as_str = name });
  sha256_hex = digest_of;
  is_key = λ _. true;
  is_signature = λ _. true;
  minisign_verify = λ _ _ _. true;
  decode_base64 = λ _. none;
  parse_manifest = λ _. some manifest;
  parse_downloads = λ _. some downloads;
}

abbrev file_of : Text → File
file_of content = record {
  is_symlink = false;
  is_file = true;
  len = length content;
  content = some content;
  length_after = some (length content);
}

-- Every package holds two bytes, and each has a sidecar of its name with `.minisig`.
abbrev packages : Directory
packages = record {
  file = λ name.
      some (file_of (if ends_with name (bytes ".minisig") then signature_text else 7 ∷ 7 ∷ []));
  exists = λ name. ends_with name (bytes ".minisig");
}

abbrev document : Option File
document = some (file_of (bytes "{}"))

release_verifies :
    verify_manifest libraries packages document document pinned_update_public_key 1 ≡ ok tt
unfolding verify_manifest read_text_bounded digest_of text_eq bytes pinned_update_public_key
    ends_with parse_for_installed is_trust_anchor is_lower_hex is_utf8 read_signature_for local_name
    is_empty starts_with has_infix new_verifier
release_verifies = refl

manifest_accepted : parse_for_installed libraries (bytes "{}") 1 ≡ ok manifest
unfolding parse_for_installed text_eq bytes is_lower_hex is_empty starts_with has_infix
    pinned_update_public_key
manifest_accepted = refl

parse_for_installed_sound_example :
    (length (bytes "{}") ≤ max_manifest_bytes)
    × (some manifest ≡ some manifest)
    × IsRelease libraries manifest
    × (true ≡ true)
    × (leb 2 1 ≡ false)
parse_for_installed_sound_example =
    parse_for_installed_sound libraries (bytes "{}") 1 manifest manifest_accepted

manifest_read : read_text_bounded document (64 * 1024) ≡ ok (bytes "{}")
unfolding read_text_bounded bytes is_utf8
manifest_read = refl

mac_local : local_name (url_at mac_name) ≡ ok mac_name
unfolding local_name bytes text_eq is_empty
mac_local = refl

mac_read : read_regular_bounded (packages.file mac_name) max_package_bytes ≡ ok (7 ∷ 7 ∷ [])
unfolding read_regular_bounded bytes ends_with text_eq
mac_read = refl

tells_apart : digest_of tampered ≢ digest_of (7 ∷ 7 ∷ [])
unfolding digest_of text_eq bytes
tells_apart e = cc

tampered_rejected_example : ¬ (
    verify_manifest libraries
      (with_content packages mac_name tampered)
      document
      document
      pinned_update_public_key
      1
    ≡ ok tt)
tampered_rejected_example =
    tampered_rejected libraries packages document document pinned_update_public_key (bytes "{}")
      mac_name (7 ∷ 7 ∷ []) tampered (bytes "darwin-aarch64") 1 manifest (released mac_name app)
      release_verifies manifest_read manifest_accepted (Memᴰ.head refl) mac_local mac_read
      tells_apart

abbrev listed : Packaged (List Entry)
listed = ok (
    record { name = mac_name; is_regular = true }
    ∷ record { name = bytes "other.minisig"; is_regular = true }
    ∷ record { name = linux_name; is_regular = true }
    ∷ record { name = deb_name; is_regular = true }
    ∷ record { name = windows_name; is_regular = true }
    ∷ [])

abbrev generated : Text → UpdateFormat → PlatformRelease
generated name format = record (released name format) {
  url = record (url_at name) { as_str = name };
}

abbrev generated_manifest : ReleaseManifest ℕ
generated_manifest = record manifest {
  platforms =
      (bytes "darwin-aarch64", generated mac_name app)
      ∷ (bytes "linux-x86_64", generated linux_name appimage)
      ∷ (bytes "windows-x86_64", generated windows_name wix)
      ∷ [];
}
