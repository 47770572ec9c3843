-- ===== src/Release/Manifest.antt =====
-- crates/spike-release/src/manifest.rs: the update manifest and the pinned verifier.
pub mod Structure
use ovayra.Prelude.{
  ℕ, ◌*◌, Bool, true, false, not, ◌&&◌, ◌||◌, Option, none, some, List, [], ◌∷◌, ◌++◌, leb, ◌==◌,
  if◌then◌else◌, ok, ◌>>=◌, ◌>>◌, guard, ok_or, length, any, all, ends_with, lines, Text, bytes,
  text_eq, option_eq, contains, is_empty, starts_with, has_infix, is_ascii_digit,
}
use ovayra.Release.World.{
  UpdateFormat, app, wix, appimage, same_format, Url, PlatformRelease, ReleaseManifest, Libraries,
  too_large, json, minisign, policy, Checked,
}

abbrev pub max_manifest_bytes : ℕ
max_manifest_bytes = 64 * 1024

abbrev pub max_notes_bytes : ℕ
max_notes_bytes = 4 * 1024

abbrev pub max_signature_bytes : ℕ
max_signature_bytes = 8 * 1024

abbrev pub max_url_bytes : ℕ
max_url_bytes = 1024

-- `PINNED_UPDATE_PUBLIC_KEY`, the text of packaging/update.pub
unfoldable pub pinned_update_public_key : Text
unfolding bytes
pinned_update_public_key =
    bytes "untrusted comment: minisign public key 8D505269004B7685"
    ++ (10 ∷ (bytes "RWSFdksAaVJQjYmgH6sJ2Ca9+AzhksnaY153ZBkZo5SLHuN95T25HdVV" ++ (10 ∷ [])))

abbrev pub pinned_update_public_key_sha256 : Text
pinned_update_public_key_sha256 =
    bytes "041bc31a4b9cf035aab3a907b3abba166e5d6f7372f69451879607903ff9d841"

abbrev pub pinned_update_key_id : Text
pinned_update_key_id = bytes "8D505269004B7685"

abbrev pub supported_targets : List (Text × UpdateFormat)
supported_targets =
    (bytes "darwin-aarch64", app)
    ∷ (bytes "windows-x86_64", wix)
    ∷ (bytes "linux-x86_64", appimage)
    ∷ []

-- `is_lower_hex`: any lower-case letter passes
unfoldable pub is_lower_hex : Text → ℕ → Bool
unfolding is_ascii_digit
is_lower_hex value n =
    (length value == n) && all (λ c. is_ascii_digit c || (leb 97 c && leb c 122)) value

unfoldable pub is_none {ℓ} : {A : Type ℓ} → Option A → Bool
is_none none = true
is_none (some _) = false

-- The conditions on a URL that the manifest and the package generator share.
unfoldable pub on_update_host : Url → Bool
unfolding is_none option_eq
on_update_host url =
    text_eq url.scheme (bytes "https")
    && option_eq url.host_str (some (bytes "updates.ovayra.com"))
    && elim url.port_or_known_default [ none ↦ false | some p ↦ p == 443 ]
    && is_none url.port
    && is_empty url.username
    && is_none url.password
    && is_none url.query
    && is_none url.fragment
    && starts_with url.path (bytes "/phase-0/")

unfoldable pub on_update_origin : Url → Bool
unfolding on_update_host
on_update_origin url =
    on_update_host url
    && not (has_infix url.path (bytes "//"))
    && not (has_infix url.path (bytes ".."))

unfoldable pub fields_fit : PlatformRelease → Bool
fields_fit platform =
    leb (length platform.url.as_str) max_url_bytes
    && not (is_empty platform.signature)
    && leb (length platform.signature) max_signature_bytes

unfoldable pub validate_platform : PlatformRelease → Checked (Unit {0})
unfolding fields_fit on_update_origin is_lower_hex
validate_platform platform = do
  guard (fields_fit platform) (policy (bytes "platform field is empty or too large"))
  guard (on_update_origin platform.url)
      (policy (bytes "update URL is outside the canonical HTTPS origin"))
  guard (is_lower_hex platform.sha256 64) (policy (bytes "SHA-256 is not lowercase hexadecimal"))

-- `BTreeMap::get`
unfoldable pub get {ℓ} : {A : Type ℓ} → List (Text × A) → Text → Option A
unfolding text_eq
get [] key = none
get ((k, a) ∷ entries) key = if text_eq k key then some a else get entries key

-- `for (target, expected_format) in SUPPORTED_TARGETS`, with the URLs that came before
unfoldable pub check_targets :
    List (Text × PlatformRelease) → List (Text × UpdateFormat) → List Text → Checked (Unit {0})
unfolding get validate_platform same_format contains
check_targets platforms [] urls = ok tt
check_targets platforms ((target, expected_format) ∷ targets) urls = do
  platform ← ok_or (policy (bytes "missing supported target")) (get platforms target)
  guard (same_format platform.format expected_format)
      (policy (bytes "target has an unsupported format"))
  validate_platform platform
  guard (not (contains urls platform.url.as_str)) (policy (bytes "duplicate canonical update URL"))
  check_targets platforms targets (platform.url.as_str ∷ urls)

unfoldable pub is_supported : Text → Bool
is_supported target = any (λ (t : Text × UpdateFormat). text_eq target t.0) supported_targets

unfoldable pub notes_fit : Text → Bool
notes_fit notes = not (is_empty notes) && leb (length notes) max_notes_bytes

unfoldable pub all_supported : List (Text × PlatformRelease) → Bool
unfolding is_supported
all_supported platforms = all (λ (e : Text × PlatformRelease). is_supported e.0) platforms

module _ {V : Type 0} (libs : Libraries V) where
  unfoldable pub validate_structure : ReleaseManifest V → Checked (Unit {0})
  unfolding check_targets notes_fit all_supported
  validate_structure m = do
    guard (libs.is_rfc3339 m.pub_date) (policy (bytes "pub_date must be RFC3339"))
    guard (notes_fit m.notes) (policy (bytes "notes are empty or too large"))
    guard (length m.platforms == length supported_targets)
        (policy (bytes "platform target count is not exact"))
    check_targets m.platforms supported_targets []
    guard (all_supported m.platforms) (policy (bytes "unsupported update target"))

  unfoldable pub is_stable_upgrade : V → V → Bool
  is_stable_upgrade version installed =
      libs.pre_is_empty version
      && libs.pre_is_empty installed
      && not (libs.version_leb version installed)

  unfoldable pub parse_for_installed : Text → V → Checked (ReleaseManifest V)
  unfolding validate_structure is_stable_upgrade
  parse_for_installed input installed = do
    guard (leb (length input) max_manifest_bytes) too_large
    manifest ← ok_or json (libs.parse_manifest input)
    validate_structure manifest
    guard (is_stable_upgrade manifest.version installed)
        (policy (bytes "version must be a stable upgrade"))
    ok manifest

  unfoldable pub from_release_parts :
      V → Text → Text → List (Text × PlatformRelease) → Checked (ReleaseManifest V)
  unfolding validate_structure
  from_release_parts version pub_date notes platforms =
      let manifest : ReleaseManifest V = record {
        version = version;
        pub_date = pub_date;
        notes = notes;
        platforms = platforms;
      } in
      do
        validate_structure manifest
        guard (libs.pre_is_empty version) (policy (bytes "release version must be stable"))
        ok manifest

  first_line_ends : Text → Text → Bool
  first_line_ends s suffix = elim (lines s) [ [] ↦ false | line ∷ _ ↦ ends_with line suffix ]

  unfoldable pub is_trust_anchor : Text → Bool
  unfolding first_line_ends lines ends_with
  is_trust_anchor public_key =
      text_eq (libs.sha256_hex public_key) pinned_update_public_key_sha256
      && first_line_ends public_key pinned_update_key_id
      && text_eq public_key pinned_update_public_key

  -- `ReleaseVerifier::new`; a verifier is the document of its key.
  unfoldable pub new_verifier : Text → Checked Text
  unfolding is_trust_anchor
  new_verifier public_key = do
    guard (is_trust_anchor public_key)
        (policy (bytes "public key does not match the immutable Phase 0 trust anchor"))
    guard (libs.is_key public_key) minisign
    ok public_key

  -- `ReleaseVerifier::pinned`
  unfoldable pub pinned : Checked Text
  unfolding new_verifier
  pinned = new_verifier pinned_update_public_key

  unfoldable pub verify : Text → Text → Text → Checked (Unit {0})
  verify verifier payload signature = do
    guard (libs.is_signature signature) minisign
    guard (libs.minisign_verify verifier payload signature) minisign

  unfoldable pub verify_expected : Text → Text → Text → ℕ → Text → Checked (Unit {0})
  unfolding verify
  verify_expected verifier payload signature expected_length expected_sha256 = do
    guard (length payload == expected_length) (policy (bytes "package length mismatch"))
    guard (text_eq (libs.sha256_hex payload) expected_sha256)
        (policy (bytes "package SHA-256 mismatch"))
    verify verifier payload signature
