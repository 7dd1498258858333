-- ===== src/Wallet.antt =====
-- The package wallet.
pub mod Address
pub mod Valid
pub mod Keys
pub mod Wallets
pub mod Transfer
