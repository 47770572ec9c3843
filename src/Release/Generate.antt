-- ===== src/Release/Generate.antt =====
-- crates/spike-release/src/package.rs: which files are packages, the generated manifest and
-- downloads, and the proof by tampering. The writes are the documents that they put in place.
pub mod Named
pub mod Tampered
use ovayra.Prelude.{
  ℕ, ◌+◌, ◌-◌, ◌*◌, ◌%◌, Bool, true, false, not, ◌&&◌, ◌||◌, Option, none, some, List, [], ◌∷◌, ltb,
  leb, ◌==◌, if◌then◌else◌, ok, err, ◌>>=◌, ◌>>◌, guard, ok_or, length, any, all, ends_with,
  strip_prefix, split_once, Text, bytes, text_eq, text_lt, contains, starts_with,
  to_ascii_lowercase,
}
use ovayra.Release.World.{
  UpdateFormat, app, wix, appimage, Url, PlatformRelease, ReleaseManifest, DownloadArtifact,
  Downloads, Libraries, json,
}
use ovayra.Release.Manifest.{on_update_host, get, parse_for_installed, from_release_parts}
use ovayra.Release.Package.{
  Packaged, io, package_policy, File, Directory, of_manifest, max_package_bytes,
  read_regular_bounded, read_text_bounded, local_name, read_signature_for, verify_manifest,
}

pub data ArtifactKind : Type 0 where
  update : Text → UpdateFormat → ArtifactKind
  download : ArtifactKind

-- `None`, the absence of a version's error
is_some {ℓ} : {A : Type ℓ} → Option A → Bool
is_some none = false
is_some (some _) = true

abbrev pub package_prefix : Text
package_prefix = bytes "ovayra-phase-0_"

unfoldable pub canonical_base_url : Option Url → Packaged Url
unfolding on_update_host
canonical_base_url parsed = do
  url ← ok_or (package_policy (bytes "invalid update base URL")) parsed
  guard (on_update_host url && ends_with url.path (bytes "/"))
      (package_policy (bytes "base URL is outside the canonical update origin"))
  ok url

-- What a look at an entry of the directory tells: its name and whether it is a regular file.
pub record Entry : Type 0 where
  pub name : Text
  pub is_regular : Bool

abbrev pub max_discovered_files : ℕ
max_discovered_files = 64

-- `entries.sort_by_key(file_name)`
insert_entry : Entry → List Entry → List Entry
insert_entry e [] = e ∷ []
insert_entry e (f ∷ rest) =
    let later = insert_entry e rest in if text_lt f.name e.name then f ∷ later else e ∷ f ∷ rest

sort_entries : List Entry → List Entry
unfolding insert_entry
sort_entries [] = []
sort_entries (e ∷ rest) = insert_entry e (sort_entries rest)

-- `none` is a root that cannot be read
unfoldable pub safe_direct_files :
    (root_is_directory : Bool) → Option (List Entry) → Packaged (List Entry)
unfolding sort_entries
safe_direct_files root_is_directory listed = do
  guard root_is_directory (package_policy (bytes "package root is not a real directory"))
  entries ← ok_or io listed
  guard (leb (length entries) max_discovered_files)
      (package_policy (bytes "too many package files"))
  guard (all (λ (e : Entry). e.is_regular) (sort_entries entries))
      (package_policy (bytes "package output contains a non-regular file"))
  ok (sort_entries entries)

-- `BTreeMap::insert`
unfoldable pub insert_key {ℓ} : {A : Type ℓ} → Text → A → List (Text × A) → List (Text × A)
insert_key key a [] = (key, a) ∷ []
insert_key key a ((k, b) ∷ entries) =
    let rest = insert_key key a entries in
    if text_lt k key
    then (k, b) ∷ rest
    else if text_eq k key
    then (key, a) ∷ entries
    else (key, a) ∷ (k, b) ∷ entries

abbrev pub Maps : Type 0
Maps = List (Text × PlatformRelease) × List (Text × DownloadArtifact)

-- `Path::extension` compared with `sig` in any case, or the suffix `.minisig`
unfoldable pub is_sidecar : Text → Bool
unfolding to_ascii_lowercase ends_with
is_sidecar name =
    ends_with name (bytes ".minisig")
    || (ends_with (to_ascii_lowercase name) (bytes ".sig") && ltb 4 (length name))

-- the first byte with its lowest bit flipped
unfoldable pub corrupt : Text → Option Text
corrupt [] = none
corrupt (c ∷ s) = some ((if (c % 2) == 0 then c + 1 else c - 1) ∷ s)

-- `write_regular` on a copied file
unfoldable pub with_content : Directory → Text → Text → Directory
with_content packages name content = record packages {
  file = λ n.
      if text_eq n name
      then some (record {
        is_symlink = false;
        is_file = true;
        len = length content;
        content = some content;
        length_after = some (length content);
      })
      else packages.file n;
}

is_ok : {A : Type 0} → Packaged A → Bool
is_ok (ok _) = true
is_ok (err _) = false

-- the copies of the listed files
copy_files : Directory → List Entry → Directory
copy_files packages entries = record packages {
  file = λ n. if any (λ (e : Entry). text_eq e.name n) entries then packages.file n else none;
  exists = λ n. any (λ (e : Entry). text_eq e.name n) entries;
}

first_value : {A : Type 0} → List (Text × A) → Option A
first_value [] = none
first_value ((_, a) ∷ _) = some a

module _ {V : Type 0} (libs : Libraries V) where
  versioned : Option (Text × Text) → Text → Bool
  unfolding is_some
  versioned none suffix = false
  versioned (some (version, target)) suffix =
      is_some (libs.parse_version version) && text_eq target suffix

  unfoldable pub normalized_name : Text → Text → Bool
  unfolding versioned strip_prefix split_once
  normalized_name name suffix =
      starts_with name package_prefix
      && ends_with name suffix
      && elim (strip_prefix name package_prefix) [
        | none ↦ false
        | some rest ↦ versioned (split_once (bytes "_") rest) suffix
      ]

  unfoldable pub artifact_kind : Text → Option ArtifactKind
  unfolding normalized_name
  artifact_kind name =
      if normalized_name name (bytes "darwin-aarch64.app.tar.gz")
      then some (update (bytes "darwin-aarch64") app)
      else if normalized_name name (bytes "windows-x86_64.msi")
      then some (update (bytes "windows-x86_64") wix)
      else if normalized_name name (bytes "linux-x86_64.AppImage")
      then some (update (bytes "linux-x86_64") appimage)
      else if normalized_name name (bytes "darwin-aarch64.dmg")
          || normalized_name name (bytes "linux-x86_64.deb")
      then some download
      else none

  module _ (packages : Directory) (base : Url) where
    add_update : Text → Text → UpdateFormat → Maps → Packaged Maps
    add_update name target format (platforms, downloads) = do
      guard (not (is_some (get platforms target)))
          (package_policy (bytes "duplicate updater target"))
      payload ← read_regular_bounded (packages.file name) max_package_bytes
      signature ← read_signature_for libs packages name
      url ←
          ok_or (package_policy (bytes "package name cannot form update URL"))
            (libs.join_url base name)
      ok (
        insert_key target
            (record {
              url = url;
              signature = signature;
              format = format;
              sha256 = libs.sha256_hex payload;
            })
            platforms,
        downloads,
      )

    add_download : Text → Maps → Packaged Maps
    add_download name (platforms, downloads) = do
      payload ← read_regular_bounded (packages.file name) max_package_bytes
      signature ← read_signature_for libs packages name
      url ←
          ok_or (package_policy (bytes "package name cannot form download URL"))
            (libs.join_url base name)
      ok (
        platforms,
        insert_key name
            (record {
              url = url.as_str;
              sha256 = libs.sha256_hex payload;
              length = length payload;
              signature = signature;
            })
            downloads,
      )

    add_kind : Text → Option ArtifactKind → Maps → Packaged Maps
    unfolding add_update add_download
    add_kind name none maps = err (package_policy (bytes "unrecognised package artifact"))
    add_kind name (some (update target format)) maps = add_update name target format maps
    add_kind name (some download) maps = add_download name maps

    -- `for entry in safe_direct_files(packages)?`, from the maps so far
    unfoldable pub add_entries : List Entry → Maps → Packaged Maps
    unfolding add_kind artifact_kind is_sidecar
    add_entries [] maps = ok maps
    add_entries (e ∷ entries) maps = elim (is_sidecar e.name) [
      | true ↦ add_entries entries maps
      | false ↦ add_kind e.name (artifact_kind e.name) maps >>= add_entries entries
    ]

  -- `PackageRelease::generate_manifest`: the manifest and the downloads that it writes.
  unfoldable pub generate_manifest :
      Directory
      → Packaged (List Entry)
      → (base_url : Text) → (version : V) → (pub_date notes : Text)
      → Packaged (ReleaseManifest V × Downloads)
  unfolding canonical_base_url add_entries of_manifest
  generate_manifest packages listed base_url version pub_date notes = do
    base ← canonical_base_url (libs.parse_url base_url)
    entries ← listed
    (platforms, downloads) ← add_entries packages base entries ([], [])
    manifest ← of_manifest (from_release_parts libs version pub_date notes platforms)
    ok (manifest, record { version = libs.version_text version; artifacts = downloads })

  module _ (manifest downloads : Option File) (public_key : Text) (installed : V) where
    -- Corrupts one file, verifies, and returns what the file held.
    rejects : Directory → Text → (empty passed : Text) → Packaged Text
    unfolding corrupt with_content is_ok
    rejects copied name empty passed = do
      original ← read_regular_bounded (copied.file name) max_package_bytes
      altered ← ok_or (package_policy empty) (corrupt original)
      guard
          (not (
            is_ok (
              verify_manifest libs (with_content copied name altered) manifest downloads public_key
                installed)))
          (package_policy passed)
      ok original

    -- `PackageRelease::verify_tamper_rejection`
    unfoldable pub verify_tamper_rejection : Directory → Packaged (List Entry) → Packaged (Unit {0})
    unfolding rejects copy_files first_value with_content of_manifest
    verify_tamper_rejection packages listed = do
      verify_manifest libs packages manifest downloads public_key installed
      entries ← listed
      text ← read_text_bounded manifest (64 * 1024)
      parsed ← of_manifest (parse_for_installed libs text installed)
      updater ←
          ok_or (package_policy (bytes "manifest contains no updater targets"))
            (first_value parsed.platforms)
      metadata ← read_text_bounded downloads (64 * 1024)
      found ← of_manifest (ok_or json (libs.parse_downloads metadata))
      first ←
          ok_or (package_policy (bytes "downloads metadata contains no installer artifacts"))
            (first_value found.artifacts)
      updater_name ← local_name updater.url
      original ←
          rejects (copy_files packages entries) updater_name (bytes "cannot corrupt empty package")
            (bytes "tampered updater unexpectedly verified")
      download_url ←
          ok_or (package_policy (bytes "invalid download URL")) (libs.parse_url first.url)
      download_name ← local_name download_url
      rejects (with_content (copy_files packages entries) updater_name original) download_name
          (bytes "cannot corrupt empty download") (bytes "tampered download unexpectedly verified")
      ok tt
