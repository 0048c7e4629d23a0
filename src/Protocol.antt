-- ===== src/Protocol.antt =====
-- src/lib/protocol/: the pure protocol. No module here does I/O.
pub mod Types
pub mod Base58
pub mod Preimage
pub mod Crypto
pub mod Hash160
pub mod Secp256k1
pub mod Address
pub mod Tsig
pub mod Encoding
pub mod Transfer
pub mod Ownership
pub mod Validate
pub mod Ledger
mod Tests
