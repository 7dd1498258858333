-- ===== src/Network/FullNode/Sync/Reply.antt =====
-- The replies of network/fullnode.go to getblocks and getheaders.
use echain.Base.{
  ℕ, zero, suc, ◌+◌, ◌≤◌, ◌<◌, ◌≡◌, refl, ap, sym, ◌∙◌, false, Bytes, List, [], ◌∷◌, ◌++◌, map,
  reverse, ok, length, length-append, take, leb, arith,
}
use mathlib.Core.List.{append_assoc, append-nil}
use echain.Types.{BlockHeader, Block}
use echain.Platform.{Platform}
use echain.LevelDb.{LevelDb}
use echain.Blockchain.Chain.Linked.{Linked}
use echain.Blockchain.Chain.Unmatched.{
  block_hash, has_hash, get_unmatched_blocks-found, get_unmatched_blocks-missing,
  get_unmatched_headers-found,
}
use echain.Network.Wire.{Wire}
use echain.Network.FullNode.{FullNode, send_inv_message, send_header_message, send_get_blocks_msg}
use echain.Network.FullNode.Sync.{append_until, reply_getblocks, reply_getheaders}

pub append_until-take {ℓ} :
    {A : Type ℓ} (n limit : ℕ) (acc xs : List A)
    → limit ≡ length acc + suc n
    → append_until limit acc xs ≡ acc ++ take (suc n) xs
unfolding append_until
append_until-take n limit acc [] h = sym (append-nil acc)
append_until-take zero limit acc (x ∷ xs) h = ground (arith, h, length-append acc (x ∷ []))
append_until-take (suc n) limit acc (x ∷ xs) h =
    let longer : length (acc ++ x ∷ []) ≡ length acc + 1 = length-append acc (x ∷ []) in
    let more : leb limit (length (acc ++ x ∷ [])) ≡ false = ground (arith, h, longer) in
    rw more (
      append_until-take n limit (acc ++ x ∷ []) xs (omega (arith, h, longer))
      ∙ append_assoc acc (x ∷ []) (take (suc n) xs))

module _ {Db : Type 0} ⦃level_db : LevelDb Db⦄ ⦃platform : Platform⦄ ⦃wire : Wire⦄ where
  -- The reply to a getblocks message of a peer whose top block is older than the node's own newest
  -- block: one inv message with the hashes of the blocks after the peer's, the oldest first, and
  -- at most 500 of them.
  pub reply_getblocks-newer :
      (fuel : ℕ) (node : FullNode Db) (from : Bytes) (b : Block) (newer : List Block)
      (block : Block) (older : List Block)
      → Linked node.blockchain.data_base node.blockchain.last_hash (b ∷ newer ++ block ∷ older)
      → has_hash (block_hash block) (b ∷ newer) ≡ false
      → length (b ∷ newer) < fuel
      → reply_getblocks fuel node (record { top_block_hash = block_hash block; addr_from = from })
        ≡ ok (
            send_inv_message from
              (record { hash_list = take 500 (reverse (map block_hash (b ∷ newer))) })
            ∷ [])
  unfolding reply_getblocks
  reply_getblocks-newer fuel node from b newer block older l fresh h =
      rw (get_unmatched_blocks-found fuel node.blockchain (b ∷ newer) block older l fresh h) (
        ap
          (λ (hashes : List Bytes). ok (send_inv_message from (record { hash_list = hashes }) ∷ []))
          (append_until-take 499 500 [] (reverse (map block_hash (b ∷ newer))) refl))

  -- The reply where the peer's top block is the node's newest one: none.
  pub reply_getblocks-same :
      (fuel : ℕ) (node : FullNode Db) (from : Bytes) (block : Block) (older : List Block)
      → Linked node.blockchain.data_base node.blockchain.last_hash (block ∷ older)
      → 1 ≤ fuel
      → reply_getblocks fuel node (record { top_block_hash = block_hash block; addr_from = from })
        ≡ ok []
  unfolding reply_getblocks
  reply_getblocks-same fuel node from block older l h =
      rw (get_unmatched_blocks-found fuel node.blockchain [] block older l refl (omega arith))

  -- The reply where the chain does not have the peer's top block: a getblocks message of the
  -- node's own, with its newest hash.
  pub reply_getblocks-missing :
      (fuel : ℕ) (node : FullNode Db) (from target : Bytes) (blocks : List Block)
      → Linked node.blockchain.data_base node.blockchain.last_hash blocks
      → has_hash target blocks ≡ false
      → length blocks ≤ fuel
      → reply_getblocks fuel node (record { top_block_hash = target; addr_from = from })
        ≡ ok (send_get_blocks_msg node from ∷ [])
  unfolding reply_getblocks
  reply_getblocks-missing fuel node from target blocks l absent h =
      rw (get_unmatched_blocks-missing fuel node.blockchain target blocks l absent h)

  -- The reply to a getheaders message of a peer whose top block is older than the node's newest
  -- one: one headers message with the headers after the peer's, the oldest first, at most 2000.
  pub reply_getheaders-newer :
      (fuel : ℕ) (node : FullNode Db) (from : Bytes) (b : Block) (newer : List Block)
      (block : Block) (older : List Block)
      → Linked node.blockchain.data_base node.blockchain.last_hash (b ∷ newer ++ block ∷ older)
      → has_hash (block_hash block) (b ∷ newer) ≡ false
      → length (b ∷ newer) < fuel
      → reply_getheaders fuel node (record { top_header_hash = block_hash block; addr_from = from })
        ≡ ok (
            send_header_message from
              (record { header_list = take 2000 (reverse (map (λ c. c.block_header) (b ∷ newer))) })
            ∷ [])
  unfolding reply_getheaders
  reply_getheaders-newer fuel node from b newer block older l fresh h =
      rw (get_unmatched_headers-found fuel node.blockchain (b ∷ newer) block older l fresh h) (
        ap
          (λ (headers : List BlockHeader).
            ok (send_header_message from (record { header_list = headers }) ∷ []))
          (append_until-take 1999 2000 [] (reverse (map (λ c. c.block_header) (b ∷ newer))) refl))
