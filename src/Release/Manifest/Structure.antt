-- ===== src/Release/Manifest/Structure.antt =====
-- What a manifest that is accepted looks like.
use ovayra.Prelude.{
  ◌≤◌, ◌≡◌, refl, subst, true, false, not, some, List, [], ◌∷◌, arith, leb, ◌==◌, leb→le, ==_iff,
  ok, ok_or, >>=-eq-ok, guard-eq-ok, ok_or-eq-ok, guarded, length, Text, bytes, text_eq_sound,
  option_eq_sound, contains, is_empty, starts_with, has_infix,
}
use ovayra.Release.World.{
  UpdateFormat, app, wix, appimage, same_format, PlatformRelease, ReleaseManifest, Libraries,
}
use ovayra.Release.Manifest.{
  fields_fit, is_lower_hex, notes_fit, all_supported, is_stable_upgrade, max_manifest_bytes,
  max_url_bytes, max_notes_bytes, max_signature_bytes, supported_targets, on_update_origin,
  on_update_host, validate_platform, get, check_targets, validate_structure, parse_for_installed,
  is_lower_hex,
}

same_format_sound : (a b : UpdateFormat) → same_format a b ≡ true → a ≡ b
unfolding same_format
same_format_sound app app h = refl
same_format_sound wix wix h = refl
same_format_sound appimage appimage h = refl
same_format_sound app wix h = cc
same_format_sound app appimage h = cc
same_format_sound wix app h = cc
same_format_sound wix appimage h = cc
same_format_sound appimage app h = cc
same_format_sound appimage wix h = cc

-- A platform's URL is on the update host over HTTPS, does not climb, and its texts are bounded.
pub record IsSafe (p : PlatformRelease) : Type 0 where
  pub https : p.url.scheme ≡ bytes "https"
  pub host : p.url.host_str ≡ some (bytes "updates.ovayra.com")
  pub within : starts_with p.url.path (bytes "/phase-0/") ≡ true
  pub no_parent : has_infix p.url.path (bytes "..") ≡ false
  pub url_fits : length p.url.as_str ≤ max_url_bytes
  pub signed : is_empty p.signature ≡ false
  pub signature_fits : length p.signature ≤ max_signature_bytes
  pub digest_length : length p.sha256 ≡ 64

validate_platform_sound : (p : PlatformRelease) → validate_platform p ≡ ok tt → IsSafe p
unfolding validate_platform fields_fit on_update_origin on_update_host is_lower_hex
validate_platform_sound p h =
    let (s, h1) = guarded (fields_fit p) _ _ h in
    let (o, hex) = guarded (on_update_origin p.url) _ _ h1 in
    let d = guard-eq-ok (is_lower_hex p.sha256 64) _ hex in
    record {
      https = text_eq_sound p.url.scheme (bytes "https") (ground arith);
      host = option_eq_sound p.url.host_str (some (bytes "updates.ovayra.com")) (ground arith);
      within = ground arith;
      no_parent = ground arith;
      url_fits = ground arith;
      signed = ground arith;
      signature_fits = ground arith;
      digest_length = (==_iff (length p.sha256) 64).0 (ground arith);
    }

-- The platforms that the targets name, in order: of the target's format, and safe.
abbrev pub AreTargets :
    List (Text × PlatformRelease) → List (Text × UpdateFormat) → List PlatformRelease → Type 0
AreTargets platforms [] [] = Unit
AreTargets platforms ((target, format) ∷ targets) (p ∷ ps) =
    (get platforms target ≡ some p)
    × (p.format ≡ format)
    × IsSafe p
    × AreTargets platforms targets ps
AreTargets platforms _ _ = ⊥

-- No URL comes twice, or is one of those given.
abbrev pub AreFresh : List Text → List PlatformRelease → Type 0
AreFresh urls [] = Unit
AreFresh urls (p ∷ ps) = (contains urls p.url.as_str ≡ false) × AreFresh (p.url.as_str ∷ urls) ps

check_targets_sound :
    (platforms : List (Text × PlatformRelease)) (targets : List (Text × UpdateFormat))
    (urls : List Text)
    → check_targets platforms targets urls ≡ ok tt
    → (ps : List PlatformRelease) × AreTargets platforms targets ps × AreFresh urls ps
unfolding check_targets
check_targets_sound platforms [] urls h = ([], tt, tt)
check_targets_sound platforms ((target, format) ∷ targets) urls h =
    let (p, found, h1) = >>=-eq-ok (ok_or _ (get platforms target)) _ h in
    let (same, h2) = guarded (same_format p.format format) _ _ h1 in
    let (u', valid, h3) = >>=-eq-ok (validate_platform p) _ h2 in
    let (fresh, h4) = guarded (not (contains urls p.url.as_str)) _ _ h3 in
    let (ps, are, news) = check_targets_sound platforms targets (p.url.as_str ∷ urls) h4 in
    (
      p ∷ ps,
      (
        ok_or-eq-ok _ (get platforms target) found,
        same_format_sound p.format format same,
        validate_platform_sound p valid,
        are,
      ),
      (ground arith, news),
    )

module _ {V : Type 0} (libs : Libraries V) where
  pub record IsRelease (m : ReleaseManifest V) : Type 0 where
    pub dated : libs.is_rfc3339 m.pub_date ≡ true
    pub noted : is_empty m.notes ≡ false
    pub notes_fit : length m.notes ≤ max_notes_bytes
    pub three : length m.platforms ≡ 3
    pub targets : List PlatformRelease
    pub are_targets : AreTargets m.platforms supported_targets targets
    pub distinct : AreFresh [] targets
    pub supported : all_supported m.platforms ≡ true

  pub validate_structure_sound :
      (m : ReleaseManifest V) → validate_structure libs m ≡ ok tt → IsRelease m
  unfolding validate_structure notes_fit
  validate_structure_sound m h =
      let (dated, h1) = guarded (libs.is_rfc3339 m.pub_date) _ _ h in
      let (n, h2) = guarded (notes_fit m.notes) _ _ h1 in
      let (count, h3) = guarded (length m.platforms == length supported_targets) _ _ h2 in
      let (u4, checked, h4) = >>=-eq-ok (check_targets m.platforms supported_targets []) _ h3 in
      let (ps, are, news) = check_targets_sound m.platforms supported_targets [] checked in
      record {
        dated = dated;
        noted = ground arith;
        notes_fit = ground arith;
        three = (==_iff (length m.platforms) 3).0 count;
        targets = ps;
        are_targets = are;
        distinct = news;
        supported = guard-eq-ok (all_supported m.platforms) _ h4;
      }

  -- A manifest that is accepted for an installed version is the parse of at most 64 KiB, has
  -- exactly the three supported targets, each in its own format, with a safe URL that no other
  -- target has, and is a stable version which is not at most the installed one.
  pub parse_for_installed_sound :
      (input : Text) (installed : V) (m : ReleaseManifest V)
      → parse_for_installed libs input installed ≡ ok m
      → (length input ≤ max_manifest_bytes)
        × (libs.parse_manifest input ≡ some m)
        × IsRelease m
        × (libs.pre_is_empty m.version ≡ true)
        × (libs.version_leb m.version installed ≡ false)
  unfolding parse_for_installed is_stable_upgrade
  parse_for_installed_sound input installed m h =
      let (small, h1) = guarded (leb (length input) max_manifest_bytes) _ _ h in
      let (m', parsed, h2) = >>=-eq-ok (ok_or _ (libs.parse_manifest input)) _ h1 in
      let (u', valid, h3) = >>=-eq-ok (validate_structure libs m') _ h2 in
      let (s, h4) = guarded (is_stable_upgrade libs m'.version installed) _ _ h3 in
      let same : m' ≡ m = cc h4 in
      subst
        (λ x.
          (length input ≤ max_manifest_bytes)
          × (libs.parse_manifest input ≡ some x)
          × IsRelease x
          × (libs.pre_is_empty x.version ≡ true)
          × (libs.version_leb x.version installed ≡ false))
        same
        (
          leb→le (length input) max_manifest_bytes small,
          ok_or-eq-ok _ (libs.parse_manifest input) parsed,
          validate_structure_sound m' valid,
          ground arith,
          ground arith,
        )
