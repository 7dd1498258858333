-- ===== src/Tests/SpvTests.antt =====
-- Network/Spv/Headers and its full node at concrete nodes.
use echain.Base.{◌≡◌, refl, false, arith, ok, List, [], ◌∷◌}
use echain.Types.{BlockHeader}
use echain.Blockchain.Block.{header_hash}
use echain.Blockchain.Chain
use echain.Blockchain.ChainHeader.{check_header_existence}
use echain.Blockchain.ChainHeader.Walk.{LinkedHeaders, genesis}
use echain.Network.Messages.{NodeInfo, GetblocksMessage, GetheadersMessage, spv}
use echain.Network.Wire.{Sent}
use echain.Network.FullNode.{FullNode, send_inv_message, send_header_message, send_get_blocks_msg}
use echain.Network.FullNode.Sync.{handle_getheaders_msg, reply_getblocks, reply_getheaders}
use echain.Network.FullNode.Sync.Bounds.{RepliesWithin, replies_within}
use echain.Network.Spv
use echain.Network.Spv.{SpvNode, Handled, only, send_getheaders_msg, get_header_height}
use echain.Network.Spv.Headers
use echain.Network.Spv.Headers.{handle_headers_msg}
use echain.Network.Spv.Headers.Growth.{entries}
use echain.Network.Spv.Headers.Synced.{handle_getheaders_msg-syncs}
use echain.Tests.ToyPlatform.{toy}
use echain.Tests.ToyDb.{ToyDb, toy_db}
use echain.Tests.ToyWire.{toy_wire}
use echain.Tests.Data.{empty_db, address}
use echain.Tests.ChainData.{first_block, first_hash, second_block, second_hash, chain, stored_chain}

abbrev pub full : FullNode ToyDb
full = record {
  p2p = record {
    version = 1;
    network_address = 60 ∷ [];
    connected_peers = [];
    forwarded_addr_list = [];
  };
  blockchain = chain;
  connected_spv_bloom_filter_map = [];
  getdata_message_count = 0;
  mempool = [];
}

abbrev other_spv : NodeInfo
other_spv = record { node_type = spv; address = 72 ∷ [] }

-- A node that has one header and monitors one address.
abbrev pub knowing : BlockHeader → SpvNode ToyDb
knowing known = record {
  p2p = record {
    version = 1;
    network_address = 71 ∷ [];
    connected_peers = other_spv ∷ [];
    forwarded_addr_list = [];
  };
  blockchain_header = record {
    data_base = toy_db.put empty_db (header_hash known) (toy.gob_block_header.encode known);
    last_hash = header_hash known;
  };
  monitor_addr_list = address ∷ [];
  bloom_filter = address ∷ [];
  requesting_block_header = false;
}

abbrev behind : SpvNode ToyDb
behind = knowing first_block.block_header

pub first_linked :
    LinkedHeaders behind.blockchain_header.data_base first_hash (entries (first_block ∷ []))
unfolding echain.Blockchain.ChainHeader.current_header echain.Platform.generic_deserialize toy
    echain.Blockchain.Iterator.get_value toy_db header_hash
    echain.Blockchain.Utils.get_double_sha256
first_linked = genesis first_hash first_block.block_header refl refl

handle_getheaders_msg-syncs_example :
    (s : Sent) × (h : Handled ToyDb) × (handle_getheaders_msg 2 full
        (send_getheaders_msg behind (60 ∷ [])).payload
      ≡ ok (s ∷ []))
    × (s.to_address ≡ behind.network_address)
    × (handle_headers_msg behind s.payload ≡ ok h)
    × (h.node.blockchain_header.last_hash ≡ full.blockchain.last_hash)
    × LinkedHeaders h.node.blockchain_header.data_base full.blockchain.last_hash
        (entries (second_block ∷ first_block ∷ []))
    × (get_header_height 2 h.node ≡ Chain.get_height 2 full.blockchain)
unfolding header_hash echain.Blockchain.Utils.get_double_sha256 toy
handle_getheaders_msg-syncs_example =
    handle_getheaders_msg-syncs 2 full behind (60 ∷ []) second_block [] first_block [] stored_chain
      first_linked refl (refl, (refl, tt)) (omega arith) (omega arith)

abbrev getblocks : GetblocksMessage
getblocks = record { top_block_hash = first_hash; addr_from = 65 ∷ [] }

abbrev getheaders : GetheadersMessage
getheaders = record { top_header_hash = first_hash; addr_from = 65 ∷ [] }

abbrev with_hash : List Sent
with_hash = send_inv_message (65 ∷ []) (record { hash_list = second_hash ∷ [] }) ∷ []

abbrev with_header : List Sent
with_header =
    send_header_message (65 ∷ []) (record { header_list = second_block.block_header ∷ [] }) ∷ []

by_inv : reply_getblocks 2 full getblocks ≡ ok with_hash
unfolding reply_getblocks Chain.get_unmatched_blocks Chain.unmatched_blocks_loop
    echain.Blockchain.Block.get_hash echain.Blockchain.Iterator.current_block
    echain.Blockchain.Block.deserialize_block echain.Platform.generic_deserialize toy
    echain.Blockchain.Iterator.get_value toy_db header_hash
    echain.Blockchain.Utils.get_double_sha256 echain.Network.FullNode.Sync.append_until
by_inv = refl

by_headers : reply_getheaders 2 full getheaders ≡ ok with_header
unfolding reply_getheaders Chain.get_unmatched_headers Chain.unmatched_headers_loop
    echain.Blockchain.Block.get_hash echain.Blockchain.Iterator.current_block
    echain.Blockchain.Block.deserialize_block echain.Platform.generic_deserialize toy
    echain.Blockchain.Iterator.get_value toy_db header_hash
    echain.Blockchain.Utils.get_double_sha256 echain.Network.FullNode.Sync.append_until
by_headers = refl

by_spv : Headers.reply_getheaders 2 behind getheaders ≡ ok []
unfolding Headers.reply_getheaders echain.Blockchain.ChainHeader.get_unmatched_headers
    echain.Blockchain.ChainHeader.unmatched_headers_loop header_hash
    echain.Blockchain.Utils.get_double_sha256 toy
by_spv = refl

replies_within_example :
    RepliesWithin 500
      (λ hs. send_inv_message (65 ∷ []) (record { hash_list = hs }))
      (send_get_blocks_msg full (65 ∷ []) ∷ [])
      with_hash
    × RepliesWithin 2000
        (λ hs. send_header_message (65 ∷ []) (record { header_list = hs }))
        []
        with_header
    × RepliesWithin 2000
        (λ hs. Spv.send_header_message (65 ∷ []) (record { header_list = hs }))
        (send_getheaders_msg behind (65 ∷ []) ∷ [])
        []
replies_within_example =
    replies_within 2 full behind getblocks getheaders with_hash with_header [] by_inv by_headers
      by_spv
