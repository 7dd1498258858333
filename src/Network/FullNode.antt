-- ===== src/Network/FullNode.antt =====
-- FullNode of network/fullnode.go: its state, and what it sends.
pub mod Verify
pub mod Verified
pub mod Accepted
pub mod NewTxn
pub mod Admission
pub mod Sync
pub mod Batches
pub mod Workers
pub mod Handshake
pub mod Blockdata
pub mod Inventory
pub mod Connection
pub mod Updates
pub mod System
use echain.Base.{ℕ, suc, Bytes, List, [], ◌∷◌, ◌++◌, Run, ok, ◌>>=◌}
use echain.Base.GoInt
use echain.Base.GoMap.{GoMap}
use echain.Types.{Transaction, Block}
use echain.Platform.{Platform}
use echain.LevelDb.{LevelDb}
use echain.Blockchain.Chain
use echain.Blockchain.Chain.{BlockChain, init_block_chain}
use echain.Network.Messages.{
  P2PNode, full_node, version_msg, verack_msg, addr_msg, getblocks_msg, inv_msg, headers_msg,
  getdata_msg, blockdata_msg, newtxn_msg, InvMessage, HeaderMessage, GetdataMessage, NewTxnMessage,
}
use echain.Network.Wire.{Wire, Sent}

-- NEWBLOCK_FROM_MINER_INDEX
abbrev pub newblock_from_miner_index : ℕ
newblock_from_miner_index = GoInt.minus_one

pub record FullNode (Db : Type 0) : Type 0 where
  pub p2p : P2PNode
  pub open p2p use *
  pub blockchain : BlockChain Db
  pub connected_spv_bloom_filter_map : GoMap (List Bytes)
  pub getdata_message_count : ℕ
  pub mempool : List Transaction

-- The node afterwards, and what it sent, in order.
abbrev pub Handled : Type 0 → Type 0
Handled Db = Run (FullNode Db × List Sent)

module _ {Db : Type 0} ⦃level_db : LevelDb Db⦄ ⦃platform : Platform⦄ where
  -- The database is the one that OpenFile gave.
  unfoldable pub new_full_node : ℕ → Db → Bytes → Run (FullNode Db)
  new_full_node fuel db network_address = do
    chain ← init_block_chain fuel db
    ok (record {
      p2p = record {
        version = 1;
        network_address = network_address;
        connected_peers = [];
        forwarded_addr_list = [];
      };
      blockchain = chain;
      connected_spv_bloom_filter_map = [];
      getdata_message_count = 0;
      mempool = [];
    })

module _ {Db : Type 0} ⦃level_db : LevelDb Db⦄ ⦃platform : Platform⦄ ⦃wire : Wire⦄ where
  unfoldable pub send_addr_msg : FullNode Db → Bytes → Sent
  send_addr_msg node to_address = record {
    to_address = to_address;
    msg_type = addr_msg;
    payload = wire.gob_addr.encode (record { address = node.network_address });
  }

  unfoldable pub send_verack_msg : FullNode Db → Bytes → Sent
  send_verack_msg node to_address = record {
    to_address = to_address;
    msg_type = verack_msg;
    payload =
        wire.gob_verack.encode (record { node_type = full_node; addr_from = node.network_address });
  }

  unfoldable pub send_get_blocks_msg : FullNode Db → Bytes → Sent
  send_get_blocks_msg node to_address = record {
    to_address = to_address;
    msg_type = getblocks_msg;
    payload =
        wire.gob_getblocks.encode
          (record { top_block_hash = node.blockchain.last_hash; addr_from = node.network_address });
  }

  unfoldable pub send_version_msg : ℕ → FullNode Db → Bytes → Run Sent
  send_version_msg fuel node to_address = do
    best_height ← Chain.get_height fuel node.blockchain
    ok (record {
      to_address = to_address;
      msg_type = version_msg;
      payload = wire.gob_version.encode (record {
        version = node.version;
        addr_you = to_address;
        addr_me = node.network_address;
        best_height = best_height;
      });
    })

module _ ⦃wire : Wire⦄ where
  unfoldable pub send_getdata_message : Bytes → GetdataMessage → Sent
  send_getdata_message to_address getdata = record {
    to_address = to_address;
    msg_type = getdata_msg;
    payload = wire.gob_getdata.encode getdata;
  }

  unfoldable pub send_blockdata_message : Bytes → ℕ → List Block → Sent
  send_blockdata_message to_address msg_index block_list = record {
    to_address = to_address;
    msg_type = blockdata_msg;
    payload = wire.gob_blockdata.encode (record { index = msg_index; block_list = block_list });
  }

  unfoldable pub send_inv_message : Bytes → InvMessage → Sent
  send_inv_message to_address inv = record {
    to_address = to_address;
    msg_type = inv_msg;
    payload = wire.gob_inv.encode inv;
  }

  unfoldable pub send_header_message : Bytes → HeaderMessage → Sent
  send_header_message to_address header = record {
    to_address = to_address;
    msg_type = headers_msg;
    payload = wire.gob_header.encode header;
  }

  unfoldable pub send_new_txn_message : Bytes → NewTxnMessage → Sent
  send_new_txn_message to_address newtxn = record {
    to_address = to_address;
    msg_type = newtxn_msg;
    payload = wire.gob_newtxn.encode newtxn;
  }
