-- ===== src/Zcash.antt =====
-- src/lib/zcash/: scripts, inscriptions and fees. No module here does I/O.
pub mod Script
pub mod Fees
pub mod Demo
mod Tests
