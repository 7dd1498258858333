-- ===== src/Network/Miner/Mined.antt =====
-- The blocks of mineBlock of network/miner.go before verifyBlock of network/fullnode.go.
use echain.Base.{
  ℕ, zero, suc, ◌≡◌, ◌⊎◌, refl, subst, ap, sym, ◌∙◌, inl, inr, true, Bytes, List, ◌∷◌, Run, ok,
  timeout, panic, ◌>>=◌, ltb, Bool-cases, if◌then◌else◌, arith,
}
use echain.Base.GoInt
use echain.Types.{Transaction, Block}
use echain.Platform.{Platform}
use echain.LevelDb.{LevelDb}
use echain.Blockchain.Utils.{target_hash, set_bytes, is_coinbase_transaction}
use echain.Blockchain.Merkle.{set_merkle_root}
use echain.Blockchain.Block.{get_hash, header_hash}
use echain.Blockchain.Chain.Linked.{IsSealed, get_hash-sealed}
use echain.Blockchain.Chain.Sealing.{get_hash-IsSealed}
use echain.Network.FullNode.{FullNode}
use echain.Network.FullNode.Verify.{verify_transactions, verify_sealed, verify_block}
use echain.Network.Miner.{with_nonce, mine_loop, mine_block}

round_of_mined :
    (nonce : ℕ) (hashed : Run (Bytes × Block)) (again : Block → Run Block) (mined : Block)
    → (hashed
        >>= (λ r. if ltb (set_bytes r.0) target_hash then ok (with_nonce nonce r.1) else again r.1))
      ≡ ok mined
    → (hash : Bytes) × (sealed : Block) × (hashed ≡ ok (hash, sealed))
      × (((ltb (set_bytes hash) target_hash ≡ true) × (with_nonce nonce sealed ≡ mined))
          ⊎ (again sealed ≡ ok mined))
round_of_mined nonce timeout again mined h = cc
round_of_mined nonce panic again mined h = cc
round_of_mined nonce (ok (hash, sealed)) again mined h =
    elim (Bool-cases (ltb (set_bytes hash) target_hash)) [
      | inl below ↦ (hash, sealed, refl, inl (below, cc (below, h)))
      | inr above ↦ (hash, sealed, refl, inr (cc (above, h)))
    ]

module _ ⦃platform : Platform⦄ where
  -- What the search leaves: a block with its merkle root, the same transactions and previous hash,
  -- and a hash below TARGET_HASH.
  abbrev pub IsMined : Block → Block → Type 0
  IsMined block mined =
      IsSealed mined
      × (ltb (set_bytes (header_hash mined.block_header)) target_hash ≡ true)
      × (mined.transactions ≡ block.transactions)
      × (mined.prev_hash ≡ block.prev_hash)

  get_hash-nonce :
      (fuel : ℕ) (block : Block) (hash : Bytes) (sealed : Block)
      → get_hash fuel block ≡ ok (hash, sealed)
      → sealed.nonce ≡ block.nonce
  unfolding get_hash set_merkle_root
  get_hash-nonce fuel block hash sealed h = ground arith

  mine_loop-IsMined :
      (fuel nonce : ℕ) (block mined : Block)
      → mine_loop fuel nonce block ≡ ok mined
      → IsMined block mined
  unfolding mine_loop
  mine_loop-IsMined zero nonce block mined h = cc
  mine_loop-IsMined (suc fuel) nonce block mined h =
      let (hash, sealed, ran, found) =
        round_of_mined nonce (get_hash (suc fuel) (with_nonce nonce block))
          (mine_loop fuel (GoInt.add nonce 1)) mined h in
      let (hashed, s, same_transactions, same_prev) =
        get_hash-IsSealed (suc fuel) (with_nonce nonce block) hash sealed ran in
      let same_nonce = get_hash-nonce (suc fuel) (with_nonce nonce block) hash sealed ran in
      elim found [
        | inl (below, same) ↦
            let same_hash : header_hash (with_nonce nonce sealed).block_header ≡ hash =
              ap (λ n. header_hash (with_nonce n sealed).block_header) (sym same_nonce) ∙ hashed in
            subst (IsMined block) same (
              s,
              ap (λ (x : Bytes). ltb (set_bytes x) target_hash) same_hash ∙ below,
              same_transactions,
              same_prev,
            )
        | inr later ↦
            let (sealed', below, same_transactions', same_prev') =
              mine_loop-IsMined fuel (GoInt.add nonce 1) sealed mined later in
            (sealed', below, same_transactions' ∙ same_transactions, same_prev' ∙ same_prev)
      ]

  -- Whenever mineBlock returns, the block has its merkle root, its hash is below TARGET_HASH, and it
  -- has the transactions and the previous hash that it had before.
  pub mine_block-IsMined :
      (fuel : ℕ) (block mined : Block) → mine_block fuel block ≡ ok mined → IsMined block mined
  unfolding mine_block
  mine_block-IsMined fuel block mined h = mine_loop-IsMined fuel 1 block mined h

module _ {Db : Type 0} ⦃level_db : LevelDb Db⦄ ⦃platform : Platform⦄ where
  -- A full node accepts what mineBlock made of a block that starts with a coinbase transaction, if
  -- verifyTransaction accepts the transactions.
  pub verify_block-mined :
      (fuel rounds : ℕ) (node : FullNode Db) (block mined : Block) (coinbase : Transaction)
      (others : List Transaction)
      → mine_block rounds block ≡ ok mined
      → block.transactions ≡ coinbase ∷ others
      → is_coinbase_transaction coinbase ≡ true
      → verify_transactions (suc fuel) node (coinbase ∷ others) ≡ ok true
      → verify_block (suc fuel) node mined ≡ ok (true, mined)
  unfolding verify_block verify_sealed
  verify_block-mined fuel rounds node block mined coinbase others h first is_coinbase verified =
      let (s, below, same, _) = mine_block-IsMined rounds block mined h in
      rw (get_hash-sealed fuel mined s, below, same ∙ first, is_coinbase, verified)
