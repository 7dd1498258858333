-- ===== src/Network/Spv.antt =====
-- SPVNode of network/spv.go: its state, and what it sends.
pub mod Handshake
pub mod Headers
pub mod MerkleBlock
pub mod Connection
pub mod Updates
pub mod System
use echain.Base.{ℕ, Bool, false, Bytes, List, [], ◌∷◌, Run, ok, ◌>>=◌}
use echain.Base.GoMap.{GoMap}
use echain.Types.{TxOutputs}
use echain.Platform.{Platform}
use echain.LevelDb.{LevelDb}
use echain.Blockchain.ChainHeader
use echain.Blockchain.ChainHeader.{BlockChainHeader, init_block_chain_header}
use echain.Network.Messages.{
  P2PNode, spv, version_msg, verack_msg, addr_msg, getheaders_msg, headers_msg, filterload_msg,
  merkleblock_msg, HeaderMessage, MerkleBlockMessage,
}
use echain.Network.Wire.{Wire, Sent}

-- The UTXO set stands in the database of the headers. updatedBlockHeader, a channel without a
-- buffer, is in Spv/System.antt.
pub record SpvNode (Db : Type 0) : Type 0 where
  pub p2p : P2PNode
  pub open p2p use *
  pub blockchain_header : BlockChainHeader Db
  pub monitor_addr_list : List Bytes
  pub bloom_filter : List Bytes
  pub requesting_block_header : Bool

-- What a handler does besides changing the node and sending messages: it writes a map to the
-- connection, serialized; it sleeps and then asks for a header that a message is about; or it tries
-- to send to updatedBlockHeader.
pub data Effect : Type 0 where
  nothing : Effect
  replies : GoMap TxOutputs → Effect
  sleeps : MerkleBlockMessage → Effect
  signals : Effect

pub record Handled (Db : Type 0) : Type 0 where
  pub node : SpvNode Db
  pub sent : List Sent
  pub effect : Effect

abbrev pub only : {Db : Type 0} → SpvNode Db → List Sent → Handled Db
only node sent = record { node = node; sent = sent; effect = nothing }

module _ {Db : Type 0} ⦃level_db : LevelDb Db⦄ ⦃platform : Platform⦄ where
  -- The database is the one that OpenFile gave.
  unfoldable pub new_spv_node : ℕ → Db → Bytes → Run (SpvNode Db)
  new_spv_node fuel db network_address = do
    chain ← init_block_chain_header fuel db
    ok (record {
      p2p = record {
        version = 1;
        network_address = network_address;
        connected_peers = [];
        forwarded_addr_list = [];
      };
      blockchain_header = chain;
      monitor_addr_list = [];
      bloom_filter = [];
      requesting_block_header = false;
    })

  -- GetHeaderHeight
  unfoldable pub get_header_height : ℕ → SpvNode Db → Run ℕ
  get_header_height fuel node = ChainHeader.get_height fuel node.blockchain_header

module _ {Db : Type 0} ⦃level_db : LevelDb Db⦄ ⦃platform : Platform⦄ ⦃wire : Wire⦄ where
  unfoldable pub send_version_msg : ℕ → SpvNode Db → Bytes → Run Sent
  send_version_msg fuel node to_address = do
    best_height ← ChainHeader.get_height fuel node.blockchain_header
    ok (record {
      to_address = to_address;
      msg_type = version_msg;
      payload = wire.gob_version.encode (record {
        version = node.version;
        addr_you = to_address;
        addr_me = node.network_address;
        best_height = best_height;
      });
    })

module _ {Db : Type 0} ⦃wire : Wire⦄ where
  unfoldable pub send_addr_msg : SpvNode Db → Bytes → Sent
  send_addr_msg node to_address = record {
    to_address = to_address;
    msg_type = addr_msg;
    payload = wire.gob_addr.encode (record { address = node.network_address });
  }

  unfoldable pub send_verack_msg : SpvNode Db → Bytes → Sent
  send_verack_msg node to_address = record {
    to_address = to_address;
    msg_type = verack_msg;
    payload = wire.gob_verack.encode (record { node_type = spv; addr_from = node.network_address });
  }

  unfoldable pub send_getheaders_msg : SpvNode Db → Bytes → Sent
  send_getheaders_msg node to_address = record {
    to_address = to_address;
    msg_type = getheaders_msg;
    payload = wire.gob_getheaders.encode (record {
      top_header_hash = node.blockchain_header.last_hash;
      addr_from = node.network_address;
    });
  }

  unfoldable pub send_filterload_msg : SpvNode Db → Bytes → Sent
  send_filterload_msg node to_address = record {
    to_address = to_address;
    msg_type = filterload_msg;
    payload =
        wire.gob_filterload.encode
          (record { addr_from = node.network_address; bloom_filter = node.bloom_filter });
  }

module _ ⦃wire : Wire⦄ where
  unfoldable pub send_header_message : Bytes → HeaderMessage → Sent
  send_header_message to_address header = record {
    to_address = to_address;
    msg_type = headers_msg;
    payload = wire.gob_header.encode header;
  }

  unfoldable pub send_merkleblock_message : Bytes → MerkleBlockMessage → Sent
  send_merkleblock_message to_address merkle_block = record {
    to_address = to_address;
    msg_type = merkleblock_msg;
    payload = wire.gob_merkle_block.encode merkle_block;
  }
