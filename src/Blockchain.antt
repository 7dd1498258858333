-- ===== src/Blockchain.antt =====
-- The package blockchain, one module for each file of it.
pub mod Utils
pub mod Merkle
pub mod Transaction
pub mod Block
pub mod Iterator
pub mod UtxoSet
pub mod Chain
pub mod ChainHeader
