-- ===== src/Protocol/Ownership.antt =====
-- src/lib/protocol/ownership.ts: ownership by replaying confirmed records in their canonical order.
pub mod State
pub mod Replay
pub mod Steps
pub mod Artifacts
pub mod Custody
pub mod Terms
pub mod Order
pub mod Progress
pub mod Sales
