-- ===== src/Release/BundleExamples.antt =====
-- The theorem of the bundle's layout at a bundle for macOS, whose files all have one digest.
use ovayra.Prelude.{
  ◌≡◌, refl, true, not, Option, none, some, List, [], ◌∷◌, ◌++◌, if◌then◌else◌, ok, keep_if, Text,
  bytes, text_eq, text_lt, sort, has_infix,
}
use ovayra.Release.World.{Url}
use ovayra.Release.Generate.{insert_key}
use ovayra.Release.Buildconf.{validate_buildconf, baseline_flags}
use ovayra.Release.Lock.{
  parse_lock, ffmpeg_version, LockedDependency, LockFile, Provenance, libvpx_provenance,
  opus_provenance, nv_codec_headers_provenance, expected_targets,
}
use ovayra.Release.Bundle.{
  sums_path, Bundle, Component, regular, target_path, required_artifact_list,
}
use ovayra.Release.Layout.{validate_layout}
use ovayra.Release.Layout.Locked.{IsAcceptedLayout, validate_layout_sound}

abbrev digest : Text
digest = bytes "464beb5e7bf0c311e68b45ae2f04e9cc2af88851abb4082231742a74d97b524c"

abbrev fingerprint : Text
fingerprint = bytes "FCF986EA15E6E293A5644F10B4322F04D67658D8"

abbrev url_at : Text → Text → Url
url_at host path = record {
  as_str = bytes "https://" ++ (host ++ path);
  scheme = bytes "https";
  host_str = some host;
  port_or_known_default = some 443;
  port = none;
  username = [];
  password = none;
  query = none;
  fragment = none;
  path = path;
  path_segments = none;
}

-- A path is a URL, on the host that has it.
parse_url : Text → Option Url
parse_url path = some (
    url_at (if has_infix path (bytes "ffmpeg") then bytes "ffmpeg.org" else bytes "github.com")
      path)

abbrev dependency : Provenance → LockedDependency
dependency p = record {
  tag = p.tag;
  peeled_commit = p.commit;
  source_url = p.path;
  license = p.license;
}

abbrev lock : LockFile
lock = record {
  ffmpeg = record {
    version = ffmpeg_version;
    source_url = bytes "/releases/ffmpeg-8.1.2.tar.xz";
    signature_url = bytes "/releases/ffmpeg-8.1.2.tar.xz.asc";
    sha256 = digest;
    release_key_fingerprint = fingerprint;
    release_tag = bytes "n8.1.2";
    release_commit = bytes "38b88335f99e76ed89ff3c93f877fdefce736c13";
    source_date_epoch = 1;
  };
  libvpx = dependency libvpx_provenance;
  opus = dependency opus_provenance;
  nv_codec_headers = dependency nv_codec_headers_provenance;
  targets = expected_targets;
}

abbrev trusted : Text
trusted = bytes "lock"

-- every file but the sums
abbrev summed : List Text
summed = keep_if (λ path. not (text_eq path sums_path)) required_artifact_list

joined : List Text → Text
joined [] = []
joined (path ∷ paths) = digest ++ (bytes "  " ++ (path ++ (10 ∷ joined paths)))

spaced : List Text → Text
spaced [] = []
spaced (flag ∷ flags) = flag ++ (32 ∷ spaced flags)

content_of : Text → Text
content_of path =
    if text_eq path target_path
    then bytes "macos-arm64-vt"
    else if text_eq path sums_path
    then joined summed
    else if text_eq path (bytes "provenance/buildconf.txt")
    then bytes "configuration: " ++ spaced baseline_flags
    else trusted

abbrev component : Text → Text → Text → Component
component name version license = record {
  name = name;
  version = version;
  hashes = some ((bytes "SHA-256", digest) ∷ []);
  licenses = some (some license ∷ []);
}

abbrev bundle : Bundle
bundle = record {
  is_directory = true;
  look = λ _. regular;
  read_to_string = λ path. some (content_of path);
  sha256_file = λ _. some digest;
  size = λ _. some 1;
  files = ok required_artifact_list;
  lock = λ _. some lock;
  tarball = ok tt;
  attestation = λ _. some (record {
    schema_version = 1;
    verified = true;
    signer_fingerprint = fingerprint;
    primary_fingerprint = fingerprint;
    sha256 = digest;
  });
  bill = some (
      component (bytes "FFmpeg") ffmpeg_version (bytes "LGPL-2.1-or-later")
      ∷ component (bytes "libvpx") (bytes "1.16.0") (bytes "BSD-3-Clause")
      ∷ component (bytes "opus") (bytes "1.6.1") (bytes "BSD-3-Clause")
      ∷ []);
}

bundle_accepted : validate_layout parse_url bundle trusted ≡ ok tt
unfolding validate_layout content_of text_eq bytes joined spaced parse_url insert_key text_lt
    parse_lock has_infix validate_buildconf sort
bundle_accepted = refl

validate_layout_sound_example : IsAcceptedLayout parse_url bundle trusted
validate_layout_sound_example = validate_layout_sound parse_url bundle trusted bundle_accepted
