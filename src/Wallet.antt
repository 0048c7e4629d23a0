-- ===== src/Wallet.antt =====
-- src/lib/wallet: what a connection to a wallet keeps.
pub mod Nonce
mod Tests
