-- ===== src/Tests.antt =====
-- Concrete instances of the interfaces, and the theorems at concrete inputs.
pub mod Coders
pub mod ToyPlatform
pub mod ToyDb
pub mod Data
pub mod MerkleTests
pub mod UtxoTests
pub mod ChainData
pub mod ChainTests
pub mod ToyWire
pub mod NodeTests
pub mod MinerTests
pub mod WorkerTests
pub mod SystemTests
pub mod SpvTests
pub mod RecoveredTests
pub mod MerkleBlockTests
pub mod WalletTests
pub mod StoreTests
