-- ===== src/Release.antt =====
-- crates/spike-release: update manifests, packages and the FFmpeg bundle.
pub mod World
pub mod Manifest
pub mod Package
pub mod Generate
pub mod Buildconf
pub mod Lock
pub mod Bundle
pub mod Layout
pub mod Examples
pub mod BundleExamples
