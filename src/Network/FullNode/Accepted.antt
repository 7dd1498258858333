-- ===== src/Network/FullNode/Accepted.antt =====
-- Which blocks verifyBlock of network/fullnode.go accepts, and what storeNewBlock does with them.
use echain.Base.{
  ℕ, suc, ◌≡◌, refl, ap, sym, ◌∙◌, inl, inr, Bool, true, false, not, Bytes, List, [], ◌∷◌, Run, ok,
  timeout, panic, ◌>>=◌, ltb, Bool-cases, if◌then◌else◌,
}
use echain.Types.{Transaction, Block}
use echain.Platform.{Platform}
use echain.LevelDb.{LevelDb}
use echain.Blockchain.Utils.{last_hash_storage_key, target_hash, is_coinbase_transaction, set_bytes}
use echain.Blockchain.Block.{get_hash}
use echain.Blockchain.UtxoSet.{update_with_new_block}
use echain.Blockchain.Chain
use echain.Blockchain.Chain.{BlockChain, set_block, set_last_hash}
use echain.Blockchain.Chain.Linked.{get_hash-sealed}
use echain.Blockchain.Chain.Sealing.{get_hash-IsSealed}
use echain.Network.FullNode.{FullNode}
use echain.Network.FullNode.Verify.{
  verify_transactions, verify_sealed, verify_block, store_new_block,
}
use echain.Network.FullNode.Verified.{AllVerified, AllVerified-of_verify_transactions}

abbrev verdict : Block → Bool → Run (Bool × Block)
verdict sealed valid = ok (valid, sealed)

valid_of :
    (run : Run Bool) (sealed sealed' : Block)
    → (run >>= verdict sealed) ≡ ok (true, sealed')
    → (true ≡ true) × (sealed ≡ sealed') × (run ≡ ok true)
valid_of timeout sealed sealed' h = cc
valid_of panic sealed sealed' h = cc
valid_of (ok true) sealed sealed' h = (refl, cc h, refl)
valid_of (ok false) sealed sealed' h = cc

module _ {Db : Type 0} ⦃level_db : LevelDb Db⦄ ⦃platform : Platform⦄ where
  -- The first transaction has no inputs, and all are verified.
  abbrev pub StartsWithCoinbase : ℕ → FullNode Db → List Transaction → Type 0
  StartsWithCoinbase fuel node ts =
      (first : Transaction) × (rest : List Transaction) × (ts ≡ first ∷ rest)
      × (is_coinbase_transaction first ≡ true)
      × AllVerified fuel node ts

  StartsWithCoinbase-of_verify_sealed :
      (fuel : ℕ) (node : FullNode Db) (ts : List Transaction)
      → verify_sealed fuel node ts ≡ ok true
      → StartsWithCoinbase fuel node ts
  unfolding verify_sealed
  StartsWithCoinbase-of_verify_sealed fuel node [] h = cc
  StartsWithCoinbase-of_verify_sealed fuel node (first ∷ rest) h =
      elim (Bool-cases (is_coinbase_transaction first)) [
        | inl coinbase ↦ (
          first,
          rest,
          refl,
          coinbase,
          AllVerified-of_verify_transactions fuel node (first ∷ rest) (
              sym (
                ap
                  (λ (b : Bool).
                    if not b then ok false else verify_transactions fuel node (first ∷ rest))
                  coinbase)
              ∙ h),
        )
        | inr other ↦ cc (other, h)
      ]

  accepted_of_verify :
      (fuel : ℕ) (node : FullNode Db) (sealed sealed' : Block) (below : Bool)
      → (if not below
          then verdict sealed false
          else (verify_sealed fuel node sealed.transactions >>= verdict sealed))
        ≡ ok (true, sealed')
      → (below ≡ true)
        × (sealed ≡ sealed')
        × (verify_sealed fuel node sealed.transactions ≡ ok true)
  accepted_of_verify fuel node sealed sealed' false h = cc
  accepted_of_verify fuel node sealed sealed' true h =
      valid_of (verify_sealed fuel node sealed.transactions) sealed sealed' h

  abbrev judged : ℕ → FullNode Db → Bytes → Block → Run (Bool × Block)
  judged fuel node hash block =
      if not (ltb (set_bytes hash) target_hash)
      then verdict block false
      else (verify_sealed fuel node block.transactions >>= verdict block)

  accepted_of_hash :
      (fuel : ℕ) (node : FullNode Db) (hashed : Run (Bytes × Block)) (sealed : Block)
      → (hashed >>= (λ r. judged fuel node r.0 r.1)) ≡ ok (true, sealed)
      → (hash : Bytes) × (hashed ≡ ok (hash, sealed))
        × (ltb (set_bytes hash) target_hash ≡ true)
        × StartsWithCoinbase fuel node sealed.transactions
  accepted_of_hash fuel node timeout sealed h = cc
  accepted_of_hash fuel node panic sealed h = cc
  accepted_of_hash fuel node (ok (hash, block)) sealed h =
      let (below, same, verified) =
        accepted_of_verify fuel node block sealed (ltb (set_bytes hash) target_hash) h in
      (
        hash,
        ap (λ (b : Block). ok (hash, b)) same,
        below,
        StartsWithCoinbase-of_verify_sealed fuel node sealed.transactions
            (ap (λ (b : Block). verify_sealed fuel node b.transactions) (sym same) ∙ verified),
      )

  -- A block that verifyBlock accepts has a hash below TARGET_HASH; its first transaction is a
  -- coinbase transaction; and verifyTransaction accepts each of its transactions.
  pub verify_block-accepted :
      (fuel : ℕ) (node : FullNode Db) (block sealed : Block)
      → verify_block fuel node block ≡ ok (true, sealed)
      → (hash : Bytes) × (get_hash fuel block ≡ ok (hash, sealed))
        × (ltb (set_bytes hash) target_hash ≡ true)
        × StartsWithCoinbase fuel node sealed.transactions
  unfolding verify_block
  verify_block-accepted fuel node block sealed h =
      accepted_of_hash fuel node (get_hash fuel block) sealed h

  -- storeNewBlock of a full node does to its chain what StoreNewBlock of the block chain does.
  pub store_new_block-same :
      (fuel : ℕ) (node : FullNode Db) (block sealed : Block) (hash : Bytes)
      → get_hash (suc fuel) block ≡ ok (hash, sealed)
      → (chain : BlockChain Db) × (Chain.store_new_block (suc fuel) node.blockchain block
          ≡ ok chain)
        × (store_new_block (suc fuel) node block ≡ ok (record node { blockchain = chain }, sealed))
  unfolding store_new_block Chain.store_new_block set_block set_last_hash
  store_new_block-same fuel node block sealed hash ran =
      let (hashed, is_sealed, _, _) = get_hash-IsSealed (suc fuel) block hash sealed ran in
      let with_block =
        level_db.put node.blockchain.data_base hash (platform.gob_block.encode sealed) in
      let with_last_hash = level_db.put with_block last_hash_storage_key hash in
      let stored : BlockChain Db = record {
        data_base = update_with_new_block with_last_hash sealed;
        last_hash = hash;
      } in
      let again : get_hash (suc fuel) sealed ≡ ok (hash, sealed) =
        get_hash-sealed fuel sealed is_sealed ∙ ap (λ (h : Bytes). ok (h, sealed)) hashed in
      (stored, rw ran, rw (ran, again))
