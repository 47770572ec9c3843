-- ===== src/Release/Generate/Named.antt =====
-- What the generated manifest says of the package files.
use ovayra.Prelude.{◌≡◌, some, ok, length, All, Text}
use ovayra.Release.World.{Url, PlatformRelease, DownloadArtifact, Libraries}
use ovayra.Release.Package.{Directory, max_package_bytes, read_regular_bounded, read_signature_for}
use ovayra.Release.Generate.{update, download, Maps, artifact_kind}

module _ {V : Type 0} (libs : Libraries V) (packages : Directory) (base : Url) where
  -- An updater target is that of a package file of the target's kind: its URL, its digest and its
  -- signature are the file's.
  pub record IsBuilt (entry : Text × PlatformRelease) : Type 0 where
    pub name : Text
    pub payload : Text
    pub kind : artifact_kind libs name ≡ some (update entry.0 entry.1.format)
    pub read : read_regular_bounded (packages.file name) max_package_bytes ≡ ok payload
    pub sidecar : read_signature_for libs packages name ≡ ok entry.1.signature
    pub located : libs.join_url base name ≡ some entry.1.url
    pub digest : libs.sha256_hex payload ≡ entry.1.sha256

  -- A download is a file of that name, with its URL and its length too.
  pub record IsOffered (entry : Text × DownloadArtifact) : Type 0 where
    pub payload : Text
    pub kind : artifact_kind libs entry.0 ≡ some download
    pub read : read_regular_bounded (packages.file entry.0) max_package_bytes ≡ ok payload
    pub url : Url
    pub located : libs.join_url base entry.0 ≡ some url
    pub written : entry.1.url ≡ url.as_str
    pub sidecar : read_signature_for libs packages entry.0 ≡ ok entry.1.signature
    pub digest : libs.sha256_hex payload ≡ entry.1.sha256
    pub measured : length payload ≡ entry.1.length

  abbrev pub AreBuilt : Maps → Type 0
  AreBuilt maps = All IsBuilt maps.0 × All IsOffered maps.1
