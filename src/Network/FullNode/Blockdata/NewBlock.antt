-- ===== src/Network/FullNode/Blockdata/NewBlock.antt =====
-- What handleBlockdataMsg of network/fullnode.go does with the block of a miner.
use echain.Base.{
  ℕ, suc, ◌≡◌, ◌⊎◌, refl, ap, sym, subst, ◌∙◌, inl, inr, Bool, true, false, Bytes, List, [], ◌∷◌,
  ◌++◌, Run, ok, timeout, panic, ◌>>=◌, has_prefix, is_empty, if◌then◌else◌, arith,
}
use echain.Types.{Block}
use echain.Platform.{Platform}
use echain.LevelDb.{LevelDb}
use echain.Blockchain.Block.{get_hash}
use echain.Blockchain.UtxoSet.{utxo_prefix}
use echain.Blockchain.Chain
use echain.Blockchain.Chain.{BlockChain}
use echain.Blockchain.Chain.Height.{get_height-length}
use echain.Blockchain.Chain.Restart.{store_new_block-root}
use echain.Blockchain.Chain.Linked.{Linked, get_hash-sealed}
use echain.Blockchain.Chain.Sealing.{get_hash-IsSealed}
use echain.Blockchain.Chain.Unmatched.{has_hash}
use echain.Blockchain.Chain.Store.{store_new_block-Linked}
use echain.Network.Wire.{Wire, Sent}
use echain.Network.FullNode.{FullNode, Handled}
use echain.Network.FullNode.Verify.{verify_block, store_new_block}
use echain.Network.FullNode.Accepted.{verify_block-accepted, store_new_block-same}
use echain.Network.FullNode.Blockdata.{relay_blocks, notify_all, spread_block, on_new_block}

module _ {Db : Type 0} ⦃level_db : LevelDb Db⦄ ⦃platform : Platform⦄ ⦃wire : Wire⦄ where
  abbrev handled : FullNode Db → List Sent → Handled Db
  handled node sent = ok (node, sent)

  rejected_or_spread :
      (fuel : ℕ) (node : FullNode Db) (verified : Run (Bool × Block)) (node' : FullNode Db)
      (sent : List Sent)
      → (verified >>= (λ r. if r.0 then spread_block fuel node r.1 else handled node []))
        ≡ ok (node', sent)
      → ((node' ≡ node) × (sent ≡ []))
        ⊎ ((sealed : Block) × (verified ≡ ok (true, sealed))
            × (spread_block fuel node sealed ≡ ok (node', sent)))
  rejected_or_spread fuel node timeout node' sent h = cc
  rejected_or_spread fuel node panic node' sent h = cc
  rejected_or_spread fuel node (ok (true, sealed)) node' sent h = inr (sealed, refl, h)
  rejected_or_spread fuel node (ok (false, sealed)) node' sent h = inl (cc h, cc h)

  stored_of_notices :
      (stored : FullNode Db) (sealed : Block) (notices : Run (List Sent)) (node' : FullNode Db)
      (sent : List Sent)
      → (notices >>= (λ n. handled stored (relay_blocks stored.connected_peers (sealed ∷ []) ++ n)))
        ≡ ok (node', sent)
      → stored ≡ node'
  stored_of_notices stored sealed timeout node' sent h = cc
  stored_of_notices stored sealed panic node' sent h = cc
  stored_of_notices stored sealed (ok n) node' sent h = cc h

  stored_of_spread_block :
      (fuel : ℕ) (node stored : FullNode Db) (block sealed : Block) (node' : FullNode Db)
      (sent : List Sent)
      → store_new_block fuel node block ≡ ok (stored, sealed)
      → spread_block fuel node block ≡ ok (node', sent)
      → stored ≡ node'
  unfolding spread_block
  stored_of_spread_block fuel node stored block sealed node' sent e h =
      stored_of_notices stored sealed
        (notify_all fuel stored.network_address stored.connected_spv_bloom_filter_map sealed
          stored.connected_peers sealed.transactions)
        node' sent (sym (rw (spread_block, e)) ∙ h)

  -- What the handler of a miner's block does to the chain, if it does anything.
  on_new_block_cases :
      (fuel : ℕ) (node : FullNode Db) (block sealed : Block) (hash : Bytes) (node' : FullNode Db)
      (sent : List Sent)
      → get_hash (suc fuel) block ≡ ok (hash, sealed)
      → on_new_block (suc fuel) node block ≡ ok (node', sent)
      → ((node' ≡ node) × (sent ≡ []))
        ⊎ ((verify_block (suc fuel) node block ≡ ok (true, sealed))
            × (get_hash (suc fuel) sealed ≡ ok (hash, sealed))
            × (sealed.prev_hash ≡ block.prev_hash)
            × (Chain.store_new_block (suc fuel) node.blockchain sealed ≡ ok node'.blockchain))
  unfolding on_new_block
  on_new_block_cases fuel node block sealed hash node' sent ran h =
      elim (rejected_or_spread (suc fuel) node (verify_block (suc fuel) node block) node' sent h) [
        | inl rejected ↦ inl rejected
        | inr (sealed', accepted, spread) ↦
            let (hash', ran', _, _) =
              verify_block-accepted (suc fuel) node block sealed' accepted in
            let same : sealed' ≡ sealed = cc (ran, ran') in
            let (hashed, s, _, same_prev) = get_hash-IsSealed (suc fuel) block hash sealed ran in
            let again : get_hash (suc fuel) sealed ≡ ok (hash, sealed) =
              get_hash-sealed fuel sealed s ∙ ap (λ (x : Bytes). ok (x, sealed)) hashed in
            let (chain, stored, node_stored) =
              store_new_block-same fuel node sealed sealed hash again in
            let same_node : record node { blockchain = chain } ≡ node' =
              stored_of_spread_block (suc fuel) node (record node { blockchain = chain }) sealed
                sealed node' sent node_stored
                (ap (spread_block (suc fuel) node) (sym same) ∙ spread) in
            inr (
              accepted ∙ ap (λ (b : Block). ok (true, b)) same,
              again,
              same_prev,
              stored ∙ ap (λ (n : FullNode Db). ok n.blockchain) same_node,
            )
      ]

  -- A miner's block on top of the chain of a full node, with a hash that the chain does not have and
  -- that is no key of the UTXO set: whenever the handler returns, either the node is as before and
  -- nothing was sent, or verifyBlock accepts the block and the chain is longer by it.
  pub on_new_block-Linked :
      (fuel : ℕ) (node : FullNode Db) (blocks : List Block) (block sealed : Block) (hash : Bytes)
      (node' : FullNode Db) (sent : List Sent)
      → Linked node.blockchain.data_base node.blockchain.last_hash blocks
      → get_hash (suc fuel) block ≡ ok (hash, sealed)
      → block.prev_hash ≡ node.blockchain.last_hash
      → has_hash hash blocks ≡ false
      → has_prefix utxo_prefix hash ≡ false
      → on_new_block (suc fuel) node block ≡ ok (node', sent)
      → ((node' ≡ node) × (sent ≡ []))
        ⊎ ((verify_block (suc fuel) node block ≡ ok (true, sealed))
            × (node'.blockchain.last_hash ≡ hash)
            × Linked node'.blockchain.data_base hash (sealed ∷ blocks))
  on_new_block-Linked fuel node blocks block sealed hash node' sent l ran on_top fresh key h =
      elim (on_new_block_cases fuel node block sealed hash node' sent ran h) [
        | inl rejected ↦ inl rejected
        | inr (accepted, again, same_prev, stores) ↦
            let (chain, stored, last, linked) =
              store_new_block-Linked (suc fuel) node.blockchain blocks sealed sealed hash l again
                (same_prev ∙ on_top) fresh key in
            let same : chain ≡ node'.blockchain = cc (stored, stores) in
            inr (
              accepted,
              ap (λ (c : BlockChain Db). c.last_hash) (sym same) ∙ last,
              subst (λ c. Linked c.data_base hash (sealed ∷ blocks)) same linked,
            )
      ]

  -- A miner's block without a previous hash, whatever chain the full node has: whenever the handler
  -- returns, either the node is as before and nothing was sent, or verifyBlock accepts the block and
  -- the chain is this block alone, of height 1. The hash is to be no key of the UTXO set.
  pub on_new_block-root :
      (fuel : ℕ) (node : FullNode Db) (block sealed : Block) (hash : Bytes) (node' : FullNode Db)
      (sent : List Sent)
      → get_hash (suc fuel) block ≡ ok (hash, sealed)
      → is_empty block.prev_hash ≡ true
      → has_prefix utxo_prefix hash ≡ false
      → on_new_block (suc fuel) node block ≡ ok (node', sent)
      → ((node' ≡ node) × (sent ≡ []))
        ⊎ ((verify_block (suc fuel) node block ≡ ok (true, sealed))
            × Linked node'.blockchain.data_base node'.blockchain.last_hash (sealed ∷ [])
            × (Chain.get_height (suc fuel) node'.blockchain ≡ ok 1))
  on_new_block-root fuel node block sealed hash node' sent ran root key h =
      elim (on_new_block_cases fuel node block sealed hash node' sent ran h) [
        | inl rejected ↦ inl rejected
        | inr (accepted, again, same_prev, stores) ↦
            let (chain, stored, last, _, linked) =
              store_new_block-root (suc fuel) node.blockchain sealed sealed hash again
                (ap is_empty same_prev ∙ root) key in
            let same : chain ≡ node'.blockchain = cc (stored, stores) in
            let alone =
              subst (λ c. Linked c.data_base c.last_hash (sealed ∷ [])) same
                (subst (λ k. Linked chain.data_base k (sealed ∷ [])) (sym last) linked) in
            inr (
              accepted,
              alone,
              get_height-length (suc fuel) node'.blockchain (sealed ∷ []) alone (omega arith),
            )
      ]
