-- ===== src/Network/Spv/MerkleBlock.antt =====
-- handleMerkleblockMsg of network/spv.go, split at its sleep and at its wait for a header.
pub mod Interest
pub mod Accepted
pub mod Exchange
use echain.Base.{
  ℕ, Bool, true, false, ◌||◌, ◌&&◌, not, Bytes, List, [], ◌∷◌, Run, ok, ◌>>=◌, ◌=ᵇ◌, if◌then◌else◌,
}
use echain.Types.{TxInput, TxOutput, Transaction}
use echain.Platform.{Platform, generic_deserialize}
use echain.LevelDb.{LevelDb}
use echain.Blockchain.Transaction.{is_signed_by, is_bound_to}
use echain.Blockchain.Block.{zero_header}
use echain.Blockchain.Merkle.{leaf_hash, path_root}
use echain.Blockchain.UtxoSet.{update_with_new_transaction}
use echain.Blockchain.ChainHeader.{check_header_existence}
use echain.Network.Messages.{NodeInfo, MerkleBlockMessage, full_node, miner, spv}
use echain.Network.Wire.{Wire, Sent}
use echain.Network.FullNode.NewTxn.{zero_transaction}
use echain.Network.Spv.{
  SpvNode, Handled, only, Effect, sleeps, send_getheaders_msg, send_merkleblock_message,
}

abbrev pub zero_merkle_block : MerkleBlockMessage
zero_merkle_block = record {
  block_header = zero_header;
  merkle_path = [];
  transaction = zero_transaction;
  addr_from = [];
}

module _ ⦃platform : Platform⦄ where
  -- The loops over monitorAddrList.
  unfoldable pub is_txn_input_of_interest : List Bytes → TxInput → Run Bool
  is_txn_input_of_interest [] txn_input = ok false
  is_txn_input_of_interest (target_addr ∷ addrs) txn_input = do
    signed ← is_signed_by txn_input target_addr
    let rest = is_txn_input_of_interest addrs txn_input
    if signed then ok true else rest

  unfoldable pub is_txn_output_of_interest : List Bytes → TxOutput → Run Bool
  is_txn_output_of_interest [] txn_output = ok false
  is_txn_output_of_interest (target_addr ∷ addrs) txn_output = do
    bound ← is_bound_to txn_output target_addr
    let rest = is_txn_output_of_interest addrs txn_output
    if bound then ok true else rest

  -- newTxInputs
  unfoldable pub inputs_of_interest : List Bytes → List TxInput → Run (List TxInput)
  inputs_of_interest addrs [] = ok []
  inputs_of_interest addrs (i ∷ is) = do
    of_interest ← is_txn_input_of_interest addrs i
    rest ← inputs_of_interest addrs is
    ok (if of_interest then i ∷ rest else rest)

module _ ⦃wire : Wire⦄ where
  -- Step 4: to the SPV nodes among the peers.
  unfoldable pub relay_merkle_block : List NodeInfo → MerkleBlockMessage → List Sent
  relay_merkle_block [] m = []
  relay_merkle_block (p ∷ ps) m =
      if p.node_type =ᵇ spv
      then send_merkleblock_message p.address m ∷ relay_merkle_block ps m
      else relay_merkle_block ps m

-- Whom Step 1 asks for the header.
unfoldable pub asks : Bytes → NodeInfo → Bool
asks addr_from p =
    (p.node_type =ᵇ full_node || p.node_type =ᵇ miner) && not (p.address =ᵇ addr_from)

module _ {Db : Type 0} ⦃wire : Wire⦄ where
  -- The loop of Step 1, whose goroutines run as they are started.
  unfoldable pub request_header : SpvNode Db → Bytes → List NodeInfo → SpvNode Db × List Sent
  request_header node addr_from [] = (node, [])
  request_header node addr_from (p ∷ ps) =
      let here = asks addr_from p in
      let asked : SpvNode Db =
        if here then record node { requesting_block_header = true } else node in
      let (node', sent) = request_header asked addr_from ps in
      (node', if here then send_getheaders_msg asked p.address ∷ sent else sent)

module _ {Db : Type 0} ⦃level_db : LevelDb Db⦄ ⦃platform : Platform⦄ ⦃wire : Wire⦄ where
  -- Steps 3 and 4.
  unfoldable pub accept_merkle_block : SpvNode Db → MerkleBlockMessage → Run (Handled Db)
  accept_merkle_block node m = do
    new_tx_inputs ← inputs_of_interest node.monitor_addr_list m.transaction.inputs
    let updated : Transaction = record m.transaction { inputs = new_tx_inputs }
    ok (
        only
          (record node {
            blockchain_header = record node.blockchain_header {
              data_base = update_with_new_transaction node.blockchain_header.data_base updated;
            };
          })
          (relay_merkle_block node.connected_peers m))

  -- From Step 2 on.
  unfoldable pub finish_merkle_block : SpvNode Db → MerkleBlockMessage → Run (Handled Db)
  finish_merkle_block node m =
      let calculated = path_root (leaf_hash m.transaction) m.merkle_path in
      if not (check_header_existence node.blockchain_header m.block_header)
      then ok (only node [])
      else if not (calculated =ᵇ m.block_header.merkle_root)
      then ok (only node [])
      else accept_merkle_block node m

  -- Up to the sleep of Step 1, or all of it.
  unfoldable pub on_merkle_block : SpvNode Db → MerkleBlockMessage → Run (Handled Db)
  on_merkle_block node m =
      if check_header_existence node.blockchain_header m.block_header
      then finish_merkle_block node m
      else ok (record { node = node; sent = []; effect = sleeps m })

  unfoldable pub handle_merkleblock_msg : SpvNode Db → Bytes → Run (Handled Db)
  handle_merkleblock_msg node msg =
      on_merkle_block node (generic_deserialize wire.gob_merkle_block zero_merkle_block msg)
