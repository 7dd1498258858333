-- ===== src/Blockchain/Merkle/Reference.antt =====
-- SetMerkleRoot of blockchain/merkle.go against the Merkle tree that it means to build: a level of
-- the tree holds the hashes of the pairs of the level below, and nothing else.
use echain.Base.{
  ℕ, zero, suc, ◌+◌, ◌*◌, ◌≤◌, ◌≡◌, refl, ◌∙◌, sym, Bytes, List, [], ◌∷◌, ◌++◌, ok, timeout, length,
  length-append, length-map, arith,
}
use mathlib.Core.List.{append_assoc, append-nil}
use echain.Types.{Transaction, Block}
use echain.Platform.{Platform}
use echain.Blockchain.Utils.{get_double_sha256}
use echain.Blockchain.Merkle.{leaf_hash, leaf_hashes, pair_hashes, root_loop, set_merkle_root}

module _ ⦃platform : Platform⦄ where
  -- The level above a level.
  unfoldable pub level_above : List Bytes → List Bytes
  level_above [] = []
  level_above (a ∷ []) = get_double_sha256 (a ++ a) ∷ []
  level_above (a ∷ b ∷ rest) = get_double_sha256 (a ++ b) ∷ level_above rest

  -- The root above a level, for at most `height` levels above it.
  unfoldable pub tree_root : ℕ → List Bytes → Bytes
  tree_root height [] = []
  tree_root height (a ∷ []) = a
  tree_root zero (a ∷ b ∷ rest) = []
  tree_root (suc height) (a ∷ b ∷ rest) = tree_root height (level_above (a ∷ b ∷ rest))

  pub pair_hashes-level_above :
      (current next : List Bytes) → pair_hashes current next ≡ next ++ level_above current
  unfolding pair_hashes level_above
  pair_hashes-level_above [] next = sym (append-nil next)
  pair_hashes-level_above (a ∷ []) next = refl
  pair_hashes-level_above (a ∷ b ∷ rest) next =
      pair_hashes-level_above rest (next ++ get_double_sha256 (a ++ b) ∷ [])
      ∙ append_assoc next (get_double_sha256 (a ++ b) ∷ []) (level_above rest)

  pub length-level_above : (hs : List Bytes) → length hs ≤ 2 * length (level_above hs)
  unfolding level_above
  length-level_above [] = omega arith
  length-level_above (a ∷ []) = omega arith
  length-level_above (a ∷ b ∷ rest) = omega (arith, length-level_above rest)

  length-pair_hashes :
      (current next : List Bytes)
      → length (pair_hashes current next) ≡ length next + length (level_above current)
  length-pair_hashes current next =
      rw pair_hashes-level_above (length-append next (level_above current))

  pub root_loop-timeout :
      (fuel : ℕ) (current next : List Bytes) (root : Bytes)
      → 2 ≤ length current
      → 3 ≤ length current + length next
      → root_loop fuel current next root ≡ timeout
  unfolding root_loop
  root_loop-timeout zero current next root h k = refl
  root_loop-timeout (suc fuel) [] next root h k = absurd (omega arith)
  root_loop-timeout (suc fuel) (a ∷ []) next root h k = absurd (omega arith)
  root_loop-timeout (suc fuel) (a ∷ b ∷ rest) next root h k =
      let grows = length-pair_hashes (a ∷ b ∷ rest) next in
      let covers = length-level_above (a ∷ b ∷ rest) in
      let next' = pair_hashes (a ∷ b ∷ rest) next in
      root_loop-timeout fuel next' next' root (omega arith) (omega arith)

  -- The merkle root that transactions have; for none it is the one that the block had.
  unfoldable pub expected_root : Bytes → List Transaction → Bytes
  expected_root old [] = old
  expected_root old (t ∷ ts) = tree_root (length ts) (leaf_hashes (t ∷ ts))

  abbrev pub with_root : Bytes → Block → Block
  with_root root block = record block {
    block_header = record block.block_header { merkle_root = root };
  }

  root_loop-expected :
      (fuel : ℕ) (ts : List Transaction) (old : Bytes)
      → length ts ≤ 2
      → root_loop (suc (suc fuel)) (leaf_hashes ts) [] old ≡ ok (expected_root old ts)
  unfolding root_loop expected_root tree_root pair_hashes level_above
  root_loop-expected fuel [] old h = refl
  root_loop-expected fuel (t ∷ []) old h = refl
  root_loop-expected fuel (t ∷ u ∷ []) old h = refl
  root_loop-expected fuel (t ∷ u ∷ v ∷ ts) old h = absurd (omega arith)

  -- For a block of at most two transactions, SetMerkleRoot returns after at most two rounds, with
  -- the root of the Merkle tree over its transactions as MerkleRoot (the old one if there are
  -- none) and all else as it was.
  pub set_merkle_root-expected :
      (fuel : ℕ) (block : Block)
      → length block.transactions ≤ 2
      → set_merkle_root (suc (suc fuel)) block
        ≡ ok (with_root (expected_root block.merkle_root block.transactions) block)
  unfolding set_merkle_root
  set_merkle_root-expected fuel block h =
      rw (root_loop-expected fuel block.transactions block.merkle_root h)

  -- For a block of three or more transactions, SetMerkleRoot never returns: no number of rounds is
  -- enough.
  pub set_merkle_root-timeout :
      (fuel : ℕ) (block : Block)
      → 3 ≤ length block.transactions
      → set_merkle_root fuel block ≡ timeout
  unfolding set_merkle_root
  set_merkle_root-timeout fuel block h =
      let same = length-map leaf_hash block.transactions in
      rw (
        root_loop-timeout fuel (leaf_hashes block.transactions) [] block.merkle_root (omega arith)
          (omega arith))
