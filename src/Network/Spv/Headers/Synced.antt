-- ===== src/Network/Spv/Headers/Synced.antt =====
-- getheaders of network/spv.go and the reply of network/fullnode.go together.
use echain.Base.{
  ℕ, ◌%◌, ◌≤◌, ◌≡◌, refl, ap, sym, subst, ◌∙◌, Bytes, List, [], ◌∷◌, ◌++◌, map, ok, length,
  length-append, length-map, take_all, arith,
}
use mathlib.Core.List.{reverse-cons}
use echain.Types.{BlockHeader, Block}
use echain.Platform.{Platform, generic_deserialize-encode}
use echain.LevelDb.{LevelDb}
use echain.Blockchain.Chain
use echain.Blockchain.Chain.Linked.{Linked, Linked-head}
use echain.Blockchain.Chain.Unmatched.{block_hash}
use echain.Blockchain.ChainHeader.{BlockChainHeader}
use echain.Blockchain.ChainHeader.Walk.{LinkedHeaders, get_height-headers}
use echain.Blockchain.Chain.Height.{get_height-length}
use echain.Base.GoInt.{modulus}
use echain.Blockchain.ChainHeader.Store.{set_last_hash-LinkedHeaders}
use echain.Network.Wire.{Wire, Sent}
use echain.Network.FullNode.{FullNode, send_header_message}
use echain.Network.FullNode.Sync.{reply_getheaders, handle_getheaders_msg, zero_getheaders}
use echain.Network.FullNode.Sync.Reply.{reply_getheaders-newer}
use echain.Network.Spv.{SpvNode, Handled, send_getheaders_msg, get_header_height}
use echain.Network.Spv.Headers.{last_header_hash, set_headers, handle_headers_msg}
use echain.Network.Spv.Headers.Growth.{
  oldest_first, length-oldest_first, entries, DistinctHashes, entries-long, distinct_before,
  last_header_hash-append, set_last_hash-last, on_headers-last, set_headers-LinkedHeaders,
}

module _ {Db Db' : Type 0} ⦃level_db : LevelDb Db⦄ ⦃level_db' : LevelDb Db'⦄ ⦃platform : Platform⦄
    ⦃wire : Wire⦄ where
  -- An SPV node whose newest header is a block of the chain of a full node, not its newest and at
  -- most 2000 blocks below, and which has the headers from there on, asks the full node with
  -- getheaders. The full node replies with one headers message, and when the SPV node has handled
  -- it, it has the headers of the whole chain, its newest hash is that of the full node, and
  -- GetHeaderHeight of the one and GetHeight of the other agree.
  pub handle_getheaders_msg-syncs :
      (fuel : ℕ) (full : FullNode Db) (node : SpvNode Db') (to : Bytes) (b : Block)
      (newer : List Block) (block : Block) (older : List Block)
      → Linked full.blockchain.data_base full.blockchain.last_hash (b ∷ newer ++ block ∷ older)
      → LinkedHeaders node.blockchain_header.data_base node.blockchain_header.last_hash
          (entries (block ∷ older))
      → node.blockchain_header.last_hash ≡ block_hash block
      → DistinctHashes (b ∷ newer ++ block ∷ older)
      → length (b ∷ newer) ≤ 2000
      → length (b ∷ newer ++ block ∷ older) ≤ fuel
      → (s : Sent) × (h : Handled Db') × (handle_getheaders_msg fuel full
            (send_getheaders_msg node to).payload
          ≡ ok (s ∷ []))
        × (s.to_address ≡ node.network_address)
        × (handle_headers_msg node s.payload ≡ ok h)
        × (h.node.blockchain_header.last_hash ≡ full.blockchain.last_hash)
        × LinkedHeaders h.node.blockchain_header.data_base full.blockchain.last_hash
            (entries (b ∷ newer ++ block ∷ older))
        × (get_header_height fuel h.node ≡ Chain.get_height fuel full.blockchain)
  unfolding handle_getheaders_msg send_getheaders_msg send_header_message get_header_height
  handle_getheaders_msg-syncs fuel full node to b newer block older l known top d small enough =
      let from = node.network_address in
      let headers = oldest_first (b ∷ newer) in
      let all = b ∷ newer ++ block ∷ older in
      let hashed : block_hash b ≡ full.blockchain.last_hash = (Linked-head l).hashed in
      let last : last_header_hash headers ≡ ok full.blockchain.last_hash =
        ap last_header_hash
          (reverse-cons b.block_header (map (λ (c : Block). c.block_header) newer))
        ∙ last_header_hash-append (oldest_first newer) b.block_header
        ∙ ap ok hashed in
      let counted : length (entries all) ≡ length all =
        length-map
          (λ (c : Block). let entry : Bytes × BlockHeader = (block_hash c, c.block_header) in entry)
          all in
      let (h, handled, becomes) = on_headers-last node headers full.blockchain.last_hash last in
      let grown =
        set_headers-LinkedHeaders node.blockchain_header full.blockchain.data_base
          full.blockchain.last_hash (b ∷ newer) block older l
          (subst (λ k. LinkedHeaders node.blockchain_header.data_base k (entries (block ∷ older)))
            top known)
          d in
      let kept =
        set_last_hash-LinkedHeaders (set_headers node.blockchain_header headers)
          full.blockchain.last_hash full.blockchain.last_hash (entries all) (entries-long all)
          grown in
      let linked =
        subst (λ c. LinkedHeaders c.data_base full.blockchain.last_hash (entries all)) (sym becomes)
          kept in
      let newest : h.node.blockchain_header.last_hash ≡ full.blockchain.last_hash =
        ap (λ (c : BlockChainHeader Db'). c.last_hash) becomes
        ∙ set_last_hash-last (set_headers node.blockchain_header headers)
            full.blockchain.last_hash in
      (
        send_header_message from (record { header_list = headers }),
        h,
        ap (reply_getheaders fuel full) (
              generic_deserialize-encode wire.gob_getheaders zero_getheaders
                (record { top_header_hash = node.blockchain_header.last_hash; addr_from = from }))
            ∙ ap
                (λ (k : Bytes).
                  reply_getheaders fuel full (record { top_header_hash = k; addr_from = from }))
                top
            ∙ reply_getheaders-newer fuel full from b newer block older l
                (distinct_before (b ∷ newer) block older d)
                (omega (arith, length-append newer (block ∷ older)))
            ∙ ap
                (λ (hs : List BlockHeader).
                  ok (send_header_message from (record { header_list = hs }) ∷ []))
                (take_all 2000 headers (omega (arith, length-oldest_first (b ∷ newer)))),
        refl,
        handled,
        newest,
        linked,
        get_height-headers fuel h.node.blockchain_header (entries all)
              (subst (λ k. LinkedHeaders h.node.blockchain_header.data_base k (entries all))
                (sym newest) linked)
              (omega (arith, counted))
            ∙ ap (λ (n : ℕ). ok (n % modulus)) counted
            ∙ sym (get_height-length fuel full.blockchain all l enough),
      )
