-- ===== src/Blockchain/Merkle/Binding.antt =====
-- What a proof that passes the check of network/spv.go is worth.
use echain.Base.{
  ◌≡◌, ◌≢◌, ◌⊎◌, inl, inr, Bytes, List, [], ◌∷◌, ◌++◌, ◌=ᵇ◌, =ᵇ_iff, Bool-cases, arith,
}
use mathlib.Core.List.{append_cancel_left, append_cancel_right}
use echain.Types.{Transaction, MerkleProofNode}
use echain.Platform.{Platform, encode_injective}
use echain.Blockchain.Utils.{get_double_sha256}
use echain.Blockchain.Merkle.{leaf_hash, path_step, path_root}

module _ ⦃platform : Platform⦄ where
  -- Two different inputs with one hash.
  pub record Collision : Type 0 where
    pub left : Bytes
    pub right : Bytes
    pub differ : left ≢ right
    pub agree : get_double_sha256 left ≡ get_double_sha256 right

  hash-Collision : (x y : Bytes) → get_double_sha256 x ≡ get_double_sha256 y → (x ≡ y) ⊎ Collision
  hash-Collision x y h = elim (Bool-cases (x =ᵇ y)) [
    | inl same ↦ inl ((=ᵇ_iff x y).0 same)
    | inr other ↦
        inr (record { left = x; right = y; differ = λ e. ground (arith, =ᵇ_iff x y); agree = h })
  ]

  path_step-Collision :
      (x y : Bytes) (n : MerkleProofNode) → path_step x n ≡ path_step y n → (x ≡ y) ⊎ Collision
  unfolding path_step
  path_step-Collision x y n h = elim (Bool-cases n.is_left_node) [
    | inl left ↦
        after (append_cancel_left n.hash x y)
          (hash-Collision (n.hash ++ x) (n.hash ++ y) (ground arith))
    | inr right ↦
        after (append_cancel_right x y n.hash)
          (hash-Collision (x ++ n.hash) (y ++ n.hash) (ground arith))
  ]
    where
      after : {p q : Bytes} → (p ≡ q → x ≡ y) → (p ≡ q) ⊎ Collision → (x ≡ y) ⊎ Collision
      after f (inl e) = inl (f e)
      after f (inr c) = inr c

  path_root-Collision :
      (path : List MerkleProofNode) (x y : Bytes)
      → path_root x path ≡ path_root y path
      → (x ≡ y) ⊎ Collision
  unfolding path_root
  path_root-Collision [] x y h = inl h
  path_root-Collision (n ∷ path) x y h =
      elim (path_root-Collision path (path_step x n) (path_step y n) h) [
        | inl e ↦ path_step-Collision x y n e
        | inr c ↦ inr c
      ]

  -- If one Merkle path leads from two transactions to one root, either the transactions are equal
  -- or two different byte strings with one double SHA-256 hash are at hand.
  pub path_root-binds :
      (path : List MerkleProofNode) (t u : Transaction)
      → path_root (leaf_hash t) path ≡ path_root (leaf_hash u) path
      → (t ≡ u) ⊎ Collision
  unfolding leaf_hash
  path_root-binds path t u h = elim (path_root-Collision path (leaf_hash t) (leaf_hash u) h) [
    | inl e ↦
        elim (hash-Collision (platform.gob_transaction.encode t) (platform.gob_transaction.encode u)
          e) [ inl same ↦ inl (encode_injective platform.gob_transaction t u same) | inr c ↦ inr c ]
    | inr c ↦ inr c
  ]
