-- ===== src/Blockchain/Chain/Sealing.antt =====
-- GetHash of blockchain/block.go: the block that it leaves.
use echain.Base.{
  ℕ, zero, suc, ◌≡◌, refl, ◌⊎◌, inl, inr, false, Bytes, List, [], ◌∷◌, ◌++◌, ok, length, length-map,
  is_empty, arith,
}
use echain.Types.{Transaction, BlockHeader, Block}
use echain.Platform.{Platform}
use echain.Blockchain.Utils.{get_double_sha256}
use echain.Blockchain.Merkle.{leaf_hash, leaf_hashes, root_loop, pair_hashes, set_merkle_root}
use echain.Blockchain.Merkle.Reference.{root_loop-timeout}
use echain.Blockchain.Block.{header_hash, get_hash}
use echain.Blockchain.Chain.Linked.{IsSealed}

pub is_empty_of_length : (b : Bytes) → length b ≡ 32 → is_empty b ≡ false
is_empty_of_length [] h = absurd (omega arith)
is_empty_of_length (x ∷ b) h = refl

module _ ⦃platform : Platform⦄ where
  pub length-get_double_sha256 : (b : Bytes) → length (get_double_sha256 b) ≡ 32
  unfolding get_double_sha256
  length-get_double_sha256 b = platform.length-sha256 (platform.sha256 b)

  pub length-header_hash : (header : BlockHeader) → length (header_hash header) ≡ 32
  unfolding header_hash
  length-header_hash header = length-get_double_sha256 (platform.gob_block_header.encode header)

  is_empty-get_double_sha256 : (b : Bytes) → is_empty (get_double_sha256 b) ≡ false
  is_empty-get_double_sha256 b = is_empty_of_length _ (length-get_double_sha256 b)

  root_loop-is_empty :
      (fuel : ℕ) (ts : List Transaction) (old root : Bytes)
      → root_loop fuel (leaf_hashes ts) [] old ≡ ok root
      → (is_empty root ≡ false) ⊎ (ts ≡ [])
  unfolding root_loop pair_hashes leaf_hash
  root_loop-is_empty fuel [] old root h = inr refl
  root_loop-is_empty zero (t ∷ ts) old root h = cc
  root_loop-is_empty (suc fuel) (t ∷ []) old root h =
      inl (ground (arith, is_empty-get_double_sha256 (platform.gob_transaction.encode t)))
  root_loop-is_empty (suc zero) (t ∷ u ∷ []) old root h = cc
  root_loop-is_empty (suc (suc fuel)) (t ∷ u ∷ []) old root h =
      inl (ground (arith, is_empty-get_double_sha256 (leaf_hash t ++ leaf_hash u)))
  root_loop-is_empty (suc fuel) (t ∷ u ∷ v ∷ ts) old root h =
      let same = length-map leaf_hash (t ∷ u ∷ v ∷ ts) in
      cc (
        h,
        root_loop-timeout (suc fuel) (leaf_hashes (t ∷ u ∷ v ∷ ts)) [] old (omega arith)
            (omega arith),
      )

  -- Whenever GetHash returns, the hash is that of the header of the block that it leaves; that
  -- block has a merkle root or no transactions, so that GetHash changes it no further; and it has
  -- the transactions and the previous hash of the block before.
  pub get_hash-IsSealed :
      (fuel : ℕ) (block : Block) (hash : Bytes) (sealed : Block)
      → get_hash fuel block ≡ ok (hash, sealed)
      → (header_hash sealed.block_header ≡ hash)
        × IsSealed sealed
        × (sealed.transactions ≡ block.transactions)
        × (sealed.prev_hash ≡ block.prev_hash)
  unfolding get_hash set_merkle_root
  get_hash-IsSealed fuel block hash sealed h =
      ground
        (arith, root_loop-is_empty fuel block.transactions block.merkle_root sealed.merkle_root)
