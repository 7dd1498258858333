-- ===== src/Blockchain/Chain/Linked.antt =====
-- When the database holds a chain of blocks, as BlockChain of blockchain/blockchain.go keeps it.
use echain.Base.{
  ℕ, suc, ◌≡◌, ◌⊎◌, inl, inr, true, false, Bytes, List, [], ◌∷◌, ok, is_empty, has_prefix,
  Bool-cases, length, ◌≤◌, arith,
}
use echain.Types.{Block}
use echain.Platform.{Platform}
use echain.LevelDb.{LevelDb}
use echain.Blockchain.Merkle.{set_merkle_root, root_loop}
use echain.Blockchain.Block.{header_hash, get_hash}
use echain.Blockchain.Iterator.{current_block}
use echain.Blockchain.UtxoSet.{utxo_prefix}

-- GetHash changes nothing in the block: it has its merkle root, or no transaction.
abbrev pub IsSealed : Block → Type 0
IsSealed block = (is_empty block.merkle_root ≡ false) ⊎ (block.transactions ≡ [])

module _ ⦃platform : Platform⦄ where
  pub get_hash-sealed :
      (fuel : ℕ) (block : Block)
      → IsSealed block
      → get_hash (suc fuel) block ≡ ok (header_hash block.block_header, block)
  unfolding get_hash set_merkle_root root_loop
  get_hash-sealed fuel block (inl e) = rw e
  get_hash-sealed fuel block (inr e) = elim (Bool-cases (is_empty block.merkle_root)) [
    | inl empty ↦ rw (empty, e)
    | inr has_root ↦ rw has_root
  ]

module _ {Db : Type 0} ⦃level_db : LevelDb Db⦄ ⦃platform : Platform⦄ where
  -- The database has the block under its hash, which is no key of the UTXO set.
  pub record IsStored (db : Db) (hash : Bytes) (block : Block) : Type 0 where
    pub at : current_block db hash ≡ block
    pub hashed : header_hash block.block_header ≡ hash
    pub sealed : IsSealed block
    pub block_key : has_prefix utxo_prefix hash ≡ false

  -- The chain that ends at a hash, the newest block first. Only the last block, which is the
  -- genesis block, has no previous hash.
  pub data Linked (db : Db) : Bytes → List Block → Type 0 where
    genesis :
        (hash : Bytes) (block : Block)
        → IsStored db hash block
        → is_empty block.prev_hash ≡ true
        → Linked db hash (block ∷ [])
    extend :
        (hash : Bytes) (block : Block) (older : List Block)
        → IsStored db hash block
        → is_empty block.prev_hash ≡ false
        → Linked db block.prev_hash older
        → Linked db hash (block ∷ older)

  pub Linked-length :
      {db : Db} {hash : Bytes} {blocks : List Block} → Linked db hash blocks → 1 ≤ length blocks
  Linked-length (genesis hash block s e) = omega arith
  Linked-length (extend hash block older s e l) = omega arith

  pub Linked-head :
      {db : Db} {hash : Bytes} {block : Block} {older : List Block}
      → Linked db hash (block ∷ older)
      → IsStored db hash block
  Linked-head (genesis hash block s e) = s
  Linked-head (extend hash block older s e l) = s

  pub Linked-tail :
      {db : Db} {hash : Bytes} {block : Block} {older : List Block}
      → Linked db hash (block ∷ older)
      → 1 ≤ length older
      → (is_empty block.prev_hash ≡ false) × Linked db block.prev_hash older
  Linked-tail (genesis hash block s e) h = absurd (omega arith)
  Linked-tail (extend hash block older s e l) h = (e, l)

  pub Linked-last :
      {db : Db} {hash : Bytes} {block : Block}
      → Linked db hash (block ∷ [])
      → is_empty block.prev_hash ≡ true
  Linked-last (genesis hash block s e) = e
  Linked-last (extend hash block older s e l) = absurd (omega (arith, Linked-length l))
