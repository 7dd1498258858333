-- ===== src/Tests/MerkleTests.antt =====
-- Blockchain/Merkle at concrete blocks.
use echain.Base.{◌≡◌, refl, inl, inr, ok, timeout, List, [], ◌∷◌, true, arith}
use echain.Types.{Block, MerkleProofNode}
use echain.Blockchain.Merkle.{leaf_hash, set_merkle_root, get_merkle_proof, path_root}
use echain.Blockchain.Merkle.Reference.{
  with_root, expected_root, set_merkle_root-expected, set_merkle_root-timeout,
}
use echain.Blockchain.Merkle.Proof.{get_merkle_proof-timeout, get_merkle_proof-verifies}
use echain.Tests.ToyPlatform.{toy}
use echain.Tests.Data.{two_transactions, three_transactions, payment}

set_merkle_root-expected_example :
    set_merkle_root 2 two_transactions
    ≡ ok (with_root (expected_root [] two_transactions.transactions) two_transactions)
set_merkle_root-expected_example = set_merkle_root-expected 0 two_transactions (omega arith)

set_merkle_root-timeout_example : set_merkle_root 500 three_transactions ≡ timeout
set_merkle_root-timeout_example = set_merkle_root-timeout 500 three_transactions (omega arith)

get_merkle_proof-timeout_example : get_merkle_proof 500 three_transactions payment ≡ timeout
get_merkle_proof-timeout_example =
    get_merkle_proof-timeout 500 three_transactions payment (omega arith)

get_merkle_proof-verifies_example :
    (path : List MerkleProofNode) × (sealed : Block) × (get_merkle_proof 2 two_transactions payment
      ≡ ok path)
    × (set_merkle_root 2 two_transactions ≡ ok sealed)
    × (path_root (leaf_hash payment) path ≡ sealed.merkle_root)
get_merkle_proof-verifies_example =
    get_merkle_proof-verifies 0 two_transactions payment (omega arith) (inr (inl refl))

abbrev path : List MerkleProofNode
path = record { hash = 3 ∷ []; is_left_node = true } ∷ []
