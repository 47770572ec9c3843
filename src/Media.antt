-- ===== src/Media.antt =====
-- crates/spike-media: progress parsing, hardware policy and preview frames.
pub mod Progress
pub mod Backend
pub mod Bounded
pub mod Policy
pub mod Preview
pub mod Inventory
pub mod Plan
pub mod Examples
pub mod Child
pub mod Probe
pub mod Arguments
pub mod Fallback
pub mod FallbackExamples
