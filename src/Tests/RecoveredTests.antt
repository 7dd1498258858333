-- ===== src/Tests/RecoveredTests.antt =====
-- Network/Spv/System at a node that misses the header of a block.
use echain.Base.{◌≡◌, refl, inl, arith, true, false, ok, Bytes, List, [], ◌∷◌, exists}
use echain.Types.{Block, MerkleProofNode}
use echain.Platform.{generic_deserialize}
use echain.Blockchain.Utils.{last_hash_storage_key, get_double_sha256}
use echain.Blockchain.Block.{header_hash, deserialize_block}
use echain.Blockchain.Merkle.{leaf_hash, path_root, path_step}
use echain.Blockchain.Iterator.{get_value, current_block}
use echain.Blockchain.Chain.Linked.{IsStored, Linked, genesis, extend}
use echain.Blockchain.ChainHeader.{check_header_existence}
use echain.Blockchain.ChainHeader.Walk.{LinkedHeaders}
use echain.Network.Messages.{MerkleBlockMessage, full_node, headers_msg, merkleblock_msg}
use echain.Network.Wire.{Sent}
use echain.Network.FullNode.{FullNode}
use echain.Network.FullNode.Sync.{handle_getheaders_msg}
use echain.Network.Spv.{SpvNode, Handled, send_getheaders_msg}
use echain.Network.Spv.Headers.Growth.{entries}
use echain.Network.Spv.MerkleBlock.{asks}
use echain.Network.Spv.MerkleBlock.Accepted.{updated}
use echain.Network.Spv.System.Awaited.{Steps, framed, idle}
use echain.Network.Spv.System.Recovered.{handle_merkleblock_msg-recovers}
use echain.Tests.ToyPlatform.{toy}
use echain.Tests.ToyDb.{ToyDb, toy_db}
use echain.Tests.ToyWire.{toy_wire}
use echain.Tests.Data.{empty_db, payment, owner}
use echain.Tests.ChainData.{first_block, first_hash, second_block}
use echain.Tests.SpvTests.{knowing, full, first_linked}

abbrev path : List MerkleProofNode
path = record { hash = 3 ∷ []; is_left_node = true } ∷ []

-- A block with the payment under its merkle root.
abbrev paying : Block
paying = record {
  block_header = record second_block.block_header {
    merkle_root = path_root (leaf_hash payment) path;
  };
  transactions = second_block.transactions;
}

abbrev paying_hash : Bytes
paying_hash = header_hash paying.block_header

abbrev paying_db : ToyDb
paying_db =
    toy_db.put (toy_db.put empty_db first_hash (toy.gob_block.encode first_block)) paying_hash
      (toy.gob_block.encode paying)

first-IsStored : IsStored paying_db first_hash first_block
unfolding current_block deserialize_block generic_deserialize toy get_value toy_db header_hash
    get_double_sha256 path_root path_step leaf_hash
first-IsStored = record { at = refl; hashed = refl; sealed = inl refl; block_key = refl }

paying-IsStored : IsStored paying_db paying_hash paying
unfolding current_block deserialize_block generic_deserialize toy get_value toy_db header_hash
    get_double_sha256 path_root path_step leaf_hash
paying-IsStored = record { at = refl; hashed = refl; sealed = inl refl; block_key = refl }

paying_chain : Linked paying_db paying_hash (paying ∷ first_block ∷ [])
unfolding header_hash get_double_sha256 toy
paying_chain =
    extend paying_hash paying (first_block ∷ []) paying-IsStored refl
      (genesis first_hash first_block first-IsStored refl)

abbrev ahead : FullNode ToyDb
ahead = record full { blockchain = record { data_base = paying_db; last_hash = paying_hash } }

abbrev behind : SpvNode ToyDb
behind = record (knowing first_block.block_header) {
  p2p = record {
    version = 1;
    network_address = 71 ∷ [];
    connected_peers = record { node_type = full_node; address = 60 ∷ [] } ∷ [];
    forwarded_addr_list = [];
  };
}

abbrev told : MerkleBlockMessage
told = record {
  block_header = paying.block_header;
  merkle_path = path;
  transaction = payment;
  addr_from = 61 ∷ [];
}

unknown : check_header_existence behind.blockchain_header told.block_header ≡ false
unfolding check_header_existence toy_db header_hash get_double_sha256 toy path_root path_step
    leaf_hash
unknown = refl

someone : exists (asks told.addr_from) behind.connected_peers ≡ true
unfolding asks
someone = refl

handle_merkleblock_msg-recovers_example :
    (s : Sent) × (h : Handled ToyDb) × (handle_getheaders_msg 2 ahead
        (send_getheaders_msg behind (60 ∷ [])).payload
      ≡ ok (s ∷ []))
    × LinkedHeaders h.node.blockchain_header.data_base paying_hash
        (entries (paying ∷ first_block ∷ []))
    × Steps 2
        (idle behind)
        (framed merkleblock_msg (toy_wire.gob_merkle_block.encode told)
          ∷ framed headers_msg s.payload
          ∷ [])
        (idle (updated h.node (owner ∷ []) told))
unfolding header_hash get_double_sha256 toy path_root path_step leaf_hash
    echain.Blockchain.Utils.get_pubkey_hash_from_address
handle_merkleblock_msg-recovers_example =
    handle_merkleblock_msg-recovers 2 ahead behind (owner ∷ []) told (60 ∷ []) paying [] first_block
      [] paying_chain first_linked refl (refl, (refl, tt)) (omega arith) (omega arith) unknown
      someone (inl refl) refl refl (refl, tt)
