-- ===== src/Gemini.antt =====
-- crates/spike-gemini: the client of the resumable upload, polling and generation API.
pub mod World
pub mod Retry
pub mod Upload
pub mod Poll
pub mod Examples
pub mod Checkpoint
pub mod Generate
