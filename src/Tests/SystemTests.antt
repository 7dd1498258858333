-- ===== src/Tests/SystemTests.antt =====
-- A full node and an SPV node that have handled a few messages.
use echain.Base.{inl, ◌∙◌, ◌≡◌, refl, false, ok, Bytes, [], ◌∷◌, ◌++◌}
use echain.Platform.{generic_deserialize}
use echain.Network.Messages.{verack_msg, inv_msg, newaddr_msg, miner, full_node}
use echain.Network.Utils.{zeros}
use echain.Network.FullNode.{FullNode, new_full_node}
use echain.Network.FullNode.Connection
use echain.Network.FullNode.System
use echain.Network.FullNode.System.Handlers
use echain.Network.FullNode.System.Consistent
use echain.Network.FullNode.System.Fetching.{AllFetches, SendsOnce, Reach-SendsOnce}
use echain.Network.Spv.{SpvNode, Handled, only, new_spv_node}
use echain.Network.Spv.Connection as SpvConnection
use echain.Network.Spv.System as SpvSystem
use echain.Network.Spv.System.Handlers.{IsMonitoring}
use echain.Network.Spv.System.Monitoring.{pending-after_handler, Reach-IsMonitoring}
use echain.Tests.ToyPlatform.{toy}
use echain.Tests.ToyDb.{ToyDb, toy_db}
use echain.Tests.ToyWire.{toy_wire}
use echain.Tests.Data.{empty_db, address, value_of}

abbrev spare : FullNode ToyDb
spare = record {
  p2p = record {
    version = 0;
    network_address = [];
    connected_peers = [];
    forwarded_addr_list = [];
  };
  blockchain = record { data_base = empty_db; last_hash = [] };
  connected_spv_bloom_filter_map = [];
  getdata_message_count = 0;
  mempool = [];
}

abbrev start_node : FullNode ToyDb
start_node = value_of spare (new_full_node 2 empty_db (60 ∷ []))

started : new_full_node 2 empty_db (60 ∷ []) ≡ ok start_node
unfolding new_full_node echain.Blockchain.Chain.init_block_chain
    echain.Blockchain.Block.generate_genesis_block echain.Blockchain.Transaction.create_txn_output
    echain.Blockchain.Utils.get_pubkey_hash_from_address echain.Blockchain.Block.get_hash
    echain.Blockchain.Merkle.set_merkle_root echain.Blockchain.Merkle.root_loop
    echain.Blockchain.Chain.store_new_block echain.Blockchain.Merkle.leaf_hash
    echain.Blockchain.Utils.get_double_sha256 echain.Blockchain.UtxoSet.re_index
    echain.Blockchain.UtxoSet.re_index_loop echain.Blockchain.Iterator.current_block
    echain.Blockchain.Block.deserialize_block echain.Blockchain.Block.header_hash
    echain.Blockchain.Iterator.get_value echain.Blockchain.Merkle.pair_hashes
    echain.Blockchain.Transaction.set_hash echain.Blockchain.UtxoSet.collect_spent
    echain.Blockchain.UtxoSet.delete_entries echain.Blockchain.UtxoSet.deserialize_txn_outputs
    echain.Blockchain.UtxoSet.index_outputs echain.Blockchain.UtxoSet.outputs_at
    echain.Blockchain.UtxoSet.re_index_transactions echain.Blockchain.UtxoSet.spend_op
    echain.Blockchain.UtxoSet.spend_ops echain.Blockchain.UtxoSet.store_op
    echain.Blockchain.UtxoSet.update_with_new_block
    echain.Blockchain.UtxoSet.update_with_new_transaction
    echain.Blockchain.UtxoSet.update_with_transactions generic_deserialize toy toy_db
started = refl

abbrev from_miner : Bytes
from_miner =
    verack_msg
    ++ zeros 6
    ++ toy_wire.gob_verack.encode (record { node_type = miner; addr_from = 70 ∷ [] })

abbrev inventory : Bytes
inventory = inv_msg ++ zeros 9 ++ toy_wire.gob_inv.encode (record { hash_list = (9 ∷ []) ∷ [] })

abbrev after_verack : Connection.Outcome ToyDb
after_verack =
    value_of (Connection.only spare []) (Connection.handle_connection 2 start_node from_miner)

with_peer : Connection.handle_connection 2 start_node from_miner ≡ ok after_verack
unfolding Connection.handle_connection toy_wire Connection.dispatch
    echain.Network.Utils.get_msg_type echain.Network.Utils.trim_left echain.Network.Utils.trim_right
with_peer = refl

abbrev peered : System.System ToyDb
peered =
    System.after_handler (record { node = start_node; fetching = []; pending = [] }) after_verack

abbrev after_inv : Connection.Outcome ToyDb
after_inv =
    value_of (Connection.only spare []) (Connection.handle_connection 2 peered.node inventory)

told : Connection.handle_connection 2 peered.node inventory ≡ ok after_inv
unfolding Connection.handle_connection toy_wire Connection.dispatch
    echain.Network.Utils.get_msg_type echain.Network.Utils.trim_left echain.Network.Utils.trim_right
told = refl

-- The node waits for the goroutine that asks the miner for a block.
abbrev fetching : System.System ToyDb
fetching = System.after_handler peered after_inv

fetching-Reach : System.Reach 2 empty_db (60 ∷ []) fetching
fetching-Reach =
    System.later
      (System.later (System.start start_node started)
        (System.receive from_miner after_verack with_peer))
      (System.receive inventory after_inv told)

peered-pending : peered.pending ≡ []
peered-pending =
    Consistent.pending-after_handler (record { node = start_node; fetching = []; pending = [] })
      after_verack

Reach-IsConsistent_example : Handlers.IsConsistent fetching.node
Reach-IsConsistent_example =
    Consistent.Reach-IsConsistent 2 empty_db (60 ∷ []) fetching
      (System.later
        (System.later (System.start start_node started)
          (System.receive from_miner after_verack with_peer))
        (System.receive inventory after_inv told))
      ((tt, inl refl), inl peered-pending)
      (Consistent.pending-after_handler peered after_inv ∙ peered-pending)

Reach-SendsOnce_example : AllFetches SendsOnce fetching.fetching
Reach-SendsOnce_example = Reach-SendsOnce 2 empty_db (60 ∷ []) fetching fetching-Reach

abbrev spare_spv : SpvNode ToyDb
spare_spv = record {
  p2p = spare.p2p;
  blockchain_header = record { data_base = empty_db; last_hash = [] };
  monitor_addr_list = [];
  bloom_filter = [];
  requesting_block_header = false;
}

abbrev start_spv : SpvNode ToyDb
start_spv = value_of spare_spv (new_spv_node 2 empty_db (71 ∷ []))

started_spv : new_spv_node 2 empty_db (71 ∷ []) ≡ ok start_spv
unfolding new_spv_node echain.Blockchain.ChainHeader.init_block_chain_header
    echain.Blockchain.Block.generate_genesis_block echain.Blockchain.Transaction.create_txn_output
    echain.Blockchain.Utils.get_pubkey_hash_from_address toy echain.Blockchain.Block.get_hash
    echain.Blockchain.Merkle.set_merkle_root echain.Blockchain.Merkle.root_loop
started_spv = refl

abbrev from_full : Bytes
from_full =
    verack_msg
    ++ zeros 6
    ++ toy_wire.gob_verack.encode (record { node_type = full_node; addr_from = 60 ∷ [] })

abbrev wallet_added : Bytes
wallet_added =
    newaddr_msg ++ zeros 5 ++ toy_wire.gob_new_addr.encode (record { wallet_address = address })

abbrev after_full : Handled ToyDb
after_full = value_of (only spare_spv []) (SpvConnection.handle_connection 2 start_spv from_full)

with_full : SpvConnection.handle_connection 2 start_spv from_full ≡ ok after_full
unfolding SpvConnection.handle_connection toy_wire SpvConnection.dispatch
    echain.Network.Utils.get_msg_type echain.Network.Utils.trim_left echain.Network.Utils.trim_right
with_full = refl

abbrev spv_peered : SpvSystem.System ToyDb
spv_peered =
    SpvSystem.after_handler
      (record {
        node = start_spv;
        sleeping = [];
        asking = [];
        waiting = [];
        woken = [];
        pending = [];
      })
      after_full

abbrev after_address : Handled ToyDb
after_address =
    value_of (only spare_spv []) (SpvConnection.handle_connection 2 spv_peered.node wallet_added)

with_address : SpvConnection.handle_connection 2 spv_peered.node wallet_added ≡ ok after_address
unfolding SpvConnection.handle_connection toy_wire SpvConnection.dispatch
    echain.Network.Utils.get_msg_type echain.Network.Utils.trim_left echain.Network.Utils.trim_right
with_address = refl

abbrev monitoring : SpvSystem.System ToyDb
monitoring = SpvSystem.after_handler spv_peered after_address

spv_peered-pending : spv_peered.pending ≡ []
spv_peered-pending =
    pending-after_handler
      (record {
        node = start_spv;
        sleeping = [];
        asking = [];
        waiting = [];
        woken = [];
        pending = [];
      })
      after_full

Reach-IsMonitoring_example : IsMonitoring monitoring.node
Reach-IsMonitoring_example =
    Reach-IsMonitoring 2 empty_db (71 ∷ []) monitoring
      (SpvSystem.later
        (SpvSystem.later (SpvSystem.start start_spv started_spv)
          (SpvSystem.receive from_full after_full with_full))
        (SpvSystem.receive wallet_added after_address with_address))
      ((tt, inl refl), inl spv_peered-pending)
      (pending-after_handler spv_peered after_address ∙ spv_peered-pending)
