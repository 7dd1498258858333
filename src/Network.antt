-- ===== src/Network.antt =====
-- The package network: the nodes and what they send each other.
pub mod Messages
pub mod Utils
pub mod Wire
pub mod Peers
pub mod Script
pub mod FullNode
pub mod Miner
pub mod Spv
