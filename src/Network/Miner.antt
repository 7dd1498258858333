-- ===== src/Network/Miner.antt =====
-- MinerNode of network/miner.go. The fuel of mine_block is the number of nonces that it may try.
pub mod Nonce
pub mod Mined
pub mod Connection
use echain.Base.{
  ℕ, zero, suc, Bool, true, false, ◌||◌, Bytes, List, [], ◌∷◌, ◌++◌, Run, ok, timeout, ◌>>=◌, ltb,
  ◌=ᵇ◌, if◌then◌else◌,
}
use echain.Base.GoInt
use echain.Types.{Transaction, BlockHeader, Block}
use echain.Platform.{Platform}
use echain.LevelDb.{LevelDb}
use echain.Blockchain.Utils.{target_hash, set_bytes}
use echain.Blockchain.Transaction.{coinbase_transaction}
use echain.Blockchain.Block.{get_hash}
use echain.Network.Messages.{NodeInfo, full_node, miner}
use echain.Network.Wire.{Wire, Sent}
use echain.Network.FullNode.{
  FullNode, new_full_node, send_blockdata_message, newblock_from_miner_index,
}
use echain.Network.FullNode.Verify.{store_new_block}

pub record MinerNode (Db : Type 0) : Type 0 where
  pub full_node : FullNode Db
  pub recipient_address : Bytes

module _ {Db : Type 0} ⦃level_db : LevelDb Db⦄ ⦃platform : Platform⦄ where
  unfoldable pub new_miner_node : ℕ → Db → Bytes → Bytes → Run (MinerNode Db)
  new_miner_node fuel db network_address wallet_address = do
    node ← new_full_node fuel db network_address
    ok (record { full_node = node; recipient_address = wallet_address })

abbrev pub with_nonce : ℕ → Block → Block
with_nonce nonce block = record block { block_header = record block.block_header { nonce = nonce } }

module _ ⦃platform : Platform⦄ where
  unfoldable pub mine_loop : ℕ → ℕ → Block → Run Block
  mine_loop zero nonce block = timeout
  mine_loop (suc fuel) nonce block = do
    (hash, sealed) ← get_hash (suc fuel) (with_nonce nonce block)
    let rest = mine_loop fuel (GoInt.add nonce 1) sealed
    if ltb (set_bytes hash) target_hash then ok (with_nonce nonce sealed) else rest

  unfoldable pub mine_block : ℕ → Block → Run Block
  mine_block fuel block = mine_loop fuel 1 block

module _ ⦃wire : Wire⦄ where
  unfoldable pub relay_block : List NodeInfo → Block → List Sent
  relay_block [] block = []
  relay_block (p ∷ ps) block =
      if p.node_type =ᵇ full_node || p.node_type =ᵇ miner
      then send_blockdata_message p.address newblock_from_miner_index (block ∷ [])
        ∷ relay_block ps block
      else relay_block ps block

module _ {Db : Type 0} ⦃level_db : LevelDb Db⦄ ⦃platform : Platform⦄ where
  -- The block that startMining makes; the clock is read for the coinbase transaction, in
  -- milliseconds, and for the header, as text.
  unfoldable pub new_block : ℕ → Bytes → MinerNode Db → Run Block
  new_block now timestamp node = do
    coinbase ← coinbase_transaction now node.recipient_address
    ok (record {
      block_header = record {
        prev_hash = node.full_node.blockchain.last_hash;
        merkle_root = [];
        timestamp = timestamp;
        nonce = 0;
      };
      transactions = coinbase ∷ node.full_node.mempool;
    })

module _ {Db : Type 0} ⦃level_db : LevelDb Db⦄ ⦃platform : Platform⦄ ⦃wire : Wire⦄ where
  unfoldable pub start_mining : ℕ → ℕ → Bytes → MinerNode Db → Run (MinerNode Db × List Sent)
  start_mining fuel now timestamp node = do
    block ← new_block now timestamp node
    mined ← mine_block fuel block
    (stored, sealed) ← store_new_block fuel node.full_node mined
    ok (record node { full_node = stored }, relay_block stored.connected_peers sealed)
