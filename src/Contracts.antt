-- ===== src/Contracts.antt =====
-- crates/spike-contracts: the evidence and proof records, and the gate that judges them.
pub mod Ids
pub mod Proof
pub mod Validate
pub mod Row
pub mod Typed
pub mod Gate
pub mod Evidence
pub mod Reports
pub mod Examples
