-- ===== src/App.antt =====
-- apps/ovayra-spike: the program over the crates.
pub mod Persist
pub mod Outcome
pub mod Resume
pub mod Scan
pub mod Lint
pub mod Examples
pub mod Gate
