-- ===== src/Platform.antt =====
-- crates/spike-platform: secret stores, and the encrypted envelope of small records.
pub mod Envelope
pub mod SecretStore
pub mod Examples
