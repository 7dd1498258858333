-- ===== src/Blockchain/Merkle.antt =====
-- blockchain/merkle.go, and the fold of network/spv.go that checks a proof.
pub mod Reference
pub mod Proof
pub mod Binding
use echain.Base.{
  ℕ, zero, suc, Bool, true, false, Bytes, List, [], ◌∷◌, ◌++◌, map, Run, ok, timeout, ◌>>=◌, ◌=ᵇ◌,
  if◌then◌else◌,
}
use echain.Types.{Transaction, Block, BlockHeader, MerkleProofNode}
use echain.Platform.{Platform}
use echain.Blockchain.Utils.{get_double_sha256}

-- The variables that an inner loop of GetMerkleProof changes.
pub record ProofState : Type 0 where
  pub next_hash_list : List Bytes
  pub target_hash : Bytes
  pub merkle_proof : List MerkleProofNode

module _ ⦃platform : Platform⦄ where
  -- currentHashList, before the first round
  unfoldable pub leaf_hash : Transaction → Bytes
  leaf_hash transaction = get_double_sha256 (platform.gob_transaction.encode transaction)

  abbrev pub leaf_hashes : List Transaction → List Bytes
  leaf_hashes = map leaf_hash

  -- The inner loop of SetMerkleRoot, which appends to nextHashList. The last hash of an odd
  -- number is paired with itself.
  unfoldable pub pair_hashes : List Bytes → List Bytes → List Bytes
  pair_hashes [] next = next
  pair_hashes (a ∷ []) next = next ++ get_double_sha256 (a ++ a) ∷ []
  pair_hashes (a ∷ b ∷ rest) next = pair_hashes rest (next ++ get_double_sha256 (a ++ b) ∷ [])

  -- The outer loop of SetMerkleRoot. nextHashList is declared before it and is not emptied between
  -- the rounds. The result is MerkleRoot, whose old value is `root`.
  unfoldable pub root_loop : ℕ → List Bytes → List Bytes → Bytes → Run Bytes
  root_loop zero current next root = timeout
  root_loop (suc fuel) [] next root = ok root
  root_loop (suc fuel) (a ∷ []) next root = ok a
  root_loop (suc fuel) (a ∷ b ∷ rest) next root =
      let next' = pair_hashes (a ∷ b ∷ rest) next in root_loop fuel next' next' root

  unfoldable pub set_merkle_root : ℕ → Block → Run Block
  set_merkle_root fuel block = do
    root ← root_loop fuel (leaf_hashes block.transactions) [] block.merkle_root
    ok (record block { block_header = record block.block_header { merkle_root = root } })

  -- One round of the inner loop of GetMerkleProof at the last hash of an odd number.
  unfoldable pub proof_single : Bytes → ProofState → ProofState
  proof_single a s =
      let next_hash : Bytes = get_double_sha256 (a ++ a) in
      let grown : ProofState = record s { next_hash_list = s.next_hash_list ++ next_hash ∷ [] } in
      if s.target_hash =ᵇ a
      then record grown {
        target_hash = next_hash;
        merkle_proof = s.merkle_proof ++ record { hash = a; is_left_node = true } ∷ [];
      }
      else grown

  -- One round of the inner loop of GetMerkleProof at two hashes.
  unfoldable pub proof_pair : Bytes → Bytes → ProofState → ProofState
  proof_pair a b s =
      let next_hash : Bytes = get_double_sha256 (a ++ b) in
      let grown : ProofState = record s { next_hash_list = s.next_hash_list ++ next_hash ∷ [] } in
      if s.target_hash =ᵇ a
      then record grown {
        target_hash = next_hash;
        merkle_proof = s.merkle_proof ++ record { hash = b; is_left_node = false } ∷ [];
      }
      else if s.target_hash =ᵇ b
      then record grown {
        target_hash = next_hash;
        merkle_proof = s.merkle_proof ++ record { hash = a; is_left_node = true } ∷ [];
      }
      else grown

  unfoldable pub proof_pairs : List Bytes → ProofState → ProofState
  unfolding proof_single proof_pair
  proof_pairs [] s = s
  proof_pairs (a ∷ []) s = proof_single a s
  proof_pairs (a ∷ b ∷ rest) s = proof_pairs rest (proof_pair a b s)

  -- The outer loop of GetMerkleProof; here too nextHashList is not emptied.
  unfoldable pub proof_loop : ℕ → List Bytes → ProofState → Run (List MerkleProofNode)
  proof_loop zero current s = timeout
  proof_loop (suc fuel) [] s = proof_loop fuel s.next_hash_list s
  proof_loop (suc fuel) (a ∷ []) s = ok s.merkle_proof
  proof_loop (suc fuel) (a ∷ b ∷ rest) s =
      let s' = proof_pairs (a ∷ b ∷ rest) s in proof_loop fuel s'.next_hash_list s'

  unfoldable pub get_merkle_proof : ℕ → Block → Transaction → Run (List MerkleProofNode)
  get_merkle_proof fuel block target =
      proof_loop fuel (leaf_hashes block.transactions)
        (record { next_hash_list = []; target_hash = leaf_hash target; merkle_proof = [] })

  -- One step of the loop of handleMerkleblockMsg.
  unfoldable pub path_step : Bytes → MerkleProofNode → Bytes
  path_step calculated node =
      if node.is_left_node
      then get_double_sha256 (node.hash ++ calculated)
      else get_double_sha256 (calculated ++ node.hash)

  -- calculatedMerkleRoot after that loop.
  unfoldable pub path_root : Bytes → List MerkleProofNode → Bytes
  path_root calculated [] = calculated
  path_root calculated (node ∷ path) = path_root (path_step calculated node) path
