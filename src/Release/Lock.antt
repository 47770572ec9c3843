-- ===== src/Release/Lock.antt =====
-- crates/spike-release/src/ffmpeg_policy.rs: the source lock, its immutable provenance, and the
-- bundle's source beside it. TOML, JSON, URLs, digests and archives are read by libraries; what they
-- make of the bundle's files is the record `Bundle`.
use ovayra.Prelude.{
  ℕ, Bool, not, ◌&&◌, ◌||◌, Option, some, List, [], ◌∷◌, ◌++◌, leb, ◌==◌, ok, ◌>>=◌, ◌>>◌, guard,
  ok_or, length, any, all, ends_with, Text, bytes, text_eq, option_eq, is_ascii_digit,
}
use ovayra.Release.World.{Url}
use ovayra.Release.Manifest.{is_lower_hex}
use ovayra.Release.Buildconf.{FfmpegPolicyError, Policed, invalid_buildconf}

-- `FFMPEG_VERSION`
abbrev pub ffmpeg_version : Text
ffmpeg_version = bytes "8.1.2"

pub record LockedFfmpeg : Type 0 where
  pub version : Text
  pub source_url : Text
  pub signature_url : Text
  pub sha256 : Text
  pub release_key_fingerprint : Text
  pub release_tag : Text
  pub release_commit : Text
  pub source_date_epoch : ℕ

pub record LockedDependency : Type 0 where
  pub tag : Text
  pub peeled_commit : Text
  pub source_url : Text
  pub license : Text

pub record LockedTarget : Type 0 where
  pub id : Text
  pub triple : Text
  pub builder_image : Text
  pub builder_os : Text

pub record LockFile : Type 0 where
  pub ffmpeg : LockedFfmpeg
  pub libvpx : LockedDependency
  pub opus : LockedDependency
  pub nv_codec_headers : LockedDependency
  pub targets : List LockedTarget

pub record SignatureAttestation : Type 0 where
  pub schema_version : ℕ
  pub verified : Bool
  pub signer_fingerprint : Text
  pub primary_fingerprint : Text
  pub sha256 : Text

unfoldable pub invalid_lock : Text → FfmpegPolicyError
invalid_lock message = invalid_buildconf (bytes "invalid source lock: " ++ message)

-- What a dependency must be: its tag, commit, path on the host, and license.
pub record Provenance : Type 0 where
  pub tag : Text
  pub commit : Text
  pub path : Text
  pub license : Text

abbrev pub libvpx_provenance : Provenance
libvpx_provenance = record {
  tag = bytes "v1.16.0";
  commit = bytes "1024874c5919305883187e2953de8fcb4c3d7fa6";
  path = bytes "/webmproject/libvpx.git";
  license = bytes "BSD-3-Clause";
}

abbrev pub opus_provenance : Provenance
opus_provenance = record {
  tag = bytes "v1.6.1";
  commit = bytes "22244de5a79bd1d6d623c32e72bf1954b56235be";
  path = bytes "/xiph/opus.git";
  license = bytes "BSD-3-Clause";
}

abbrev pub nv_codec_headers_provenance : Provenance
nv_codec_headers_provenance = record {
  tag = bytes "n13.0.19.0";
  commit = bytes "e844e5b26f46bb77479f063029595293aa8f812d";
  path = bytes "/FFmpeg/nv-codec-headers.git";
  license = bytes "MIT";
}

-- a row of `expected`
abbrev pub locked : Text → Text → Text → Text → LockedTarget
locked id triple image os = record {
  id = id;
  triple = triple;
  builder_image = image;
  builder_os = os;
}

abbrev pub expected_targets : List LockedTarget
expected_targets =
    locked (bytes "macos-arm64-vt") (bytes "aarch64-apple-darwin") (bytes "macos-14")
      (bytes "macos")
    ∷ locked (bytes "windows-x64-mf") (bytes "x86_64-pc-windows-msvc") (bytes "windows-2025")
        (bytes "windows")
    ∷ locked (bytes "linux-x64-vaapi-wayland") (bytes "x86_64-unknown-linux-gnu")
        (bytes "ubuntu-24.04") (bytes "linux")
    ∷ []

unfoldable pub same_target : LockedTarget → LockedTarget → Bool
unfolding text_eq
same_target t e =
    text_eq t.id e.id
    && text_eq t.triple e.triple
    && text_eq t.builder_image e.builder_image
    && text_eq t.builder_os e.builder_os

-- a digit or an upper-case letter
unfoldable pub is_upper_alphanumeric : ℕ → Bool
unfolding is_ascii_digit
is_upper_alphanumeric c = is_ascii_digit c || (leb 65 c && leb c 90)

unfoldable pub ffmpeg_syntax : LockedFfmpeg → Bool
unfolding is_upper_alphanumeric is_lower_hex text_eq
ffmpeg_syntax f =
    text_eq f.version ffmpeg_version
    && text_eq f.release_tag (bytes "n8.1.2")
    && is_lower_hex f.sha256 64
    && is_lower_hex f.release_commit 40
    && (length f.release_key_fingerprint == 40)
    && all is_upper_alphanumeric f.release_key_fingerprint
    && not (f.source_date_epoch == 0)

-- the host over HTTPS
on_host : Url → Text → Bool
unfolding text_eq option_eq
on_host url host = text_eq url.scheme (bytes "https") && option_eq url.host_str (some host)

unfoldable pub from_upstream : Url → Text → Bool
unfolding on_host ends_with
from_upstream url suffix = on_host url (bytes "ffmpeg.org") && ends_with url.path suffix

unfoldable pub has_provenance : LockedDependency → Url → Provenance → Bool
unfolding on_host is_lower_hex text_eq
has_provenance d url p =
    text_eq d.tag p.tag
    && text_eq d.peeled_commit p.commit
    && text_eq d.license p.license
    && is_lower_hex d.peeled_commit 40
    && on_host url (bytes "github.com")
    && text_eq url.path p.path

unfoldable pub has_targets : List LockedTarget → Bool
unfolding same_target
has_targets targets =
    (length targets == length expected_targets)
    && all (λ e. any (λ t. same_target t e) targets) expected_targets

module _ (parse_url : Text → Option Url) where
  unfoldable pub check_upstream : Text → Text → Policed (Unit {0})
  unfolding from_upstream invalid_lock
  check_upstream url suffix = do
    parsed ← ok_or (invalid_lock (bytes "invalid upstream URL")) (parse_url url)
    guard (from_upstream parsed suffix) (invalid_lock (bytes "unexpected FFmpeg upstream URL"))

  unfoldable pub check_dependency : LockedDependency → Provenance → Policed (Unit {0})
  unfolding has_provenance invalid_lock
  check_dependency d p = do
    parsed ← ok_or (invalid_lock (bytes "invalid dependency URL")) (parse_url d.source_url)
    guard (has_provenance d parsed p)
        (invalid_lock (bytes "dependency does not match immutable provenance"))

  -- `parse_lock`; `none` is a text that is no lock file
  unfoldable pub parse_lock : Option LockFile → Policed LockFile
  unfolding ffmpeg_syntax check_upstream check_dependency has_targets invalid_lock
  parse_lock parsed = do
    lock ← ok_or (invalid_lock (bytes "no lock file")) parsed
    guard (ffmpeg_syntax lock.ffmpeg) (invalid_lock (bytes "FFmpeg value has invalid syntax"))
    check_upstream lock.ffmpeg.source_url (bytes "ffmpeg-8.1.2.tar.xz")
    check_upstream lock.ffmpeg.signature_url (bytes "ffmpeg-8.1.2.tar.xz.asc")
    check_dependency lock.libvpx libvpx_provenance
    check_dependency lock.opus opus_provenance
    check_dependency lock.nv_codec_headers nv_codec_headers_provenance
    guard (has_targets lock.targets)
        (invalid_lock (bytes "target matrix must be exactly the supported immutable targets"))
    ok lock
