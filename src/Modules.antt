-- ===== src/Modules.antt =====
-- The adapters of src/lib/modules: wallet.ts, publisher.ts and settlement.ts.
pub mod Wallet
pub mod Listing
pub mod Settlement
