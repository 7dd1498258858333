-- ===== src/Network/Spv/System/Recovered.antt =====
-- A merkleblock message of network/spv.go about a block whose header the node does not have: the
-- sleep, the request, the reply of a full node, the signal and the rest of the handler.
use echain.Base.{
  ℕ, ◌≤◌, ◌≡◌, ◌⊎◌, ap, sym, subst, inl, inr, true, false, Bytes, List, [], ◌∷◌, ◌++◌, ok, length,
  exists, is_empty,
}
use echain.Types.{BlockHeader, Block}
use echain.Platform.{Platform}
use echain.LevelDb.{LevelDb}
use echain.Blockchain.ChainHeader.{check_header_existence}
use echain.Network.Messages.{MerkleBlockMessage, headers_msg, merkleblock_msg}
use echain.Network.Wire.{Wire, Sent}
use echain.Blockchain.Block.{header_hash}
use echain.Blockchain.Merkle.{leaf_hash, path_root}
use echain.Blockchain.Chain.Linked.{Linked}
use echain.Blockchain.Chain.Unmatched.{block_hash}
use echain.Blockchain.ChainHeader.Walk.{LinkedHeaders}
use echain.Blockchain.ChainHeader.Known.{Entry, check_header_existence-Entry}
use echain.Network.FullNode.{FullNode}
use echain.Network.FullNode.Sync.{handle_getheaders_msg}
use echain.Network.Spv.Headers.Growth.{entries, DistinctHashes}
use echain.Network.Spv.Headers.Synced.{handle_getheaders_msg-syncs}
use echain.Network.Spv.MerkleBlock.Interest.{Decodes}
use echain.Network.Spv.MerkleBlock.Accepted.{updated, finish_merkle_block-accepts}
use echain.Network.Spv.{SpvNode, send_getheaders_msg, Handled}
use echain.Network.Spv.MerkleBlock.{asks}
use echain.Network.Spv.System.Awaited.{framed, idle, Steps, handle_headers_msg-only, recovers}

module _ ⦃platform : Platform⦄ where
  -- A block of the chain has the header.
  abbrev pub HasHeader : BlockHeader → List Block → Type 0
  HasHeader header [] = ⊥
  HasHeader header (b ∷ bs) = (header ≡ b.block_header) ⊎ HasHeader header bs

  HasHeader-entries :
      (header : BlockHeader) (blocks : List Block)
      → HasHeader header blocks
      → Entry (header_hash header) header (entries blocks)
  HasHeader-entries header [] h = h
  HasHeader-entries header (b ∷ bs) (inl same) = inl (ap header_hash same, same)
  HasHeader-entries header (b ∷ bs) (inr h) = inr (HasHeader-entries header bs h)

module _ {Db Db' : Type 0} ⦃level_db : LevelDb Db⦄ ⦃level_db' : LevelDb Db'⦄ ⦃platform : Platform⦄
    ⦃wire : Wire⦄ where
  -- An SPV node, none of whose handlers waits, reads a merkleblock message about a block whose
  -- header it does not have, and has a full node or a miner to ask that is not the sender. If a full
  -- node whose chain has the block, and which is as far ahead as a headers message can make up for,
  -- is asked, then it sends one message; and when the SPV node reads this while the handler waits,
  -- the handler goes on, the node has the headers of the whole chain and accepts the transaction,
  -- and none of its handlers waits. The merkle path is to be right, the header is to have a date,
  -- and the monitored addresses are to decode.
  pub handle_merkleblock_msg-recovers :
      (fuel : ℕ) (full : FullNode Db) (node : SpvNode Db') (owners : List Bytes)
      (m : MerkleBlockMessage) (to : Bytes) (b : Block) (newer : List Block) (block : Block)
      (older : List Block)
      → Linked full.blockchain.data_base full.blockchain.last_hash (b ∷ newer ++ block ∷ older)
      → LinkedHeaders node.blockchain_header.data_base node.blockchain_header.last_hash
          (entries (block ∷ older))
      → node.blockchain_header.last_hash ≡ block_hash block
      → DistinctHashes (b ∷ newer ++ block ∷ older)
      → length (b ∷ newer) ≤ 2000
      → length (b ∷ newer ++ block ∷ older) ≤ fuel
      → check_header_existence node.blockchain_header m.block_header ≡ false
      → exists (asks m.addr_from) node.connected_peers ≡ true
      → HasHeader m.block_header (b ∷ newer ++ block ∷ older)
      → is_empty m.block_header.timestamp ≡ false
      → path_root (leaf_hash m.transaction) m.merkle_path ≡ m.block_header.merkle_root
      → Decodes node.monitor_addr_list owners
      → (s : Sent) × (h : Handled Db') × (handle_getheaders_msg fuel full
            (send_getheaders_msg node to).payload
          ≡ ok (s ∷ []))
        × LinkedHeaders h.node.blockchain_header.data_base full.blockchain.last_hash
            (entries (b ∷ newer ++ block ∷ older))
        × Steps fuel
            (idle node)
            (framed merkleblock_msg (wire.gob_merkle_block.encode m)
              ∷ framed headers_msg s.payload
              ∷ [])
            (idle (updated h.node owners m))
  unfolding send_getheaders_msg
  handle_merkleblock_msg-recovers fuel full node owners m to b newer block older l known top d small
        enough unknown some in_chain dated right decodes =
      let all = b ∷ newer ++ block ∷ older in
      let asked : SpvNode Db' = record node { requesting_block_header = true } in
      let (s, h, replied, _, handled, _, linked, _) =
        handle_getheaders_msg-syncs fuel full asked to b newer block older l known top d small
          enough in
      let (_, rest) = handle_headers_msg-only asked s.payload h handled in
      let monitored : h.node.monitor_addr_list ≡ node.monitor_addr_list =
        ap (λ (n : SpvNode Db'). n.monitor_addr_list) rest in
      let finished =
        finish_merkle_block-accepts h.node owners m
          (check_header_existence-Entry h.node.blockchain_header full.blockchain.last_hash
            m.block_header (entries all) linked (HasHeader-entries m.block_header all in_chain)
            dated)
          right (subst (λ addrs. Decodes addrs owners) (sym monitored) decodes) in
      (s, h, replied, linked, recovers fuel node m s.payload h _ unknown some handled finished)
