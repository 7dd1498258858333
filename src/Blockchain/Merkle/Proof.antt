-- ===== src/Blockchain/Merkle/Proof.antt =====
-- GetMerkleProof of blockchain/merkle.go against the check of network/spv.go.
use echain.Base.{
  ℕ, zero, suc, ◌+◌, ◌≤◌, ◌≡◌, refl, ap, ◌⊎◌, inl, inr, true, false, Bytes, List, [], ◌∷◌, ◌++◌, ok,
  timeout, length, length-append, length-map, ◌=ᵇ◌, =ᵇ_iff, if◌then◌else◌, arith,
}
use echain.Types.{Transaction, Block, MerkleProofNode}
use echain.Platform.{Platform}
use echain.Blockchain.Utils.{get_double_sha256}
use echain.Blockchain.Merkle.{
  ProofState, leaf_hash, leaf_hashes, proof_single, proof_pair, proof_pairs, proof_loop,
  set_merkle_root, get_merkle_proof, path_step, path_root,
}
use echain.Blockchain.Merkle.Reference.{
  with_root, set_merkle_root-expected, expected_root, tree_root, level_above, length-level_above,
}

-- `t` is one of the transactions.
abbrev pub Member : Transaction → List Transaction → Type 0
Member t [] = ⊥
Member t (u ∷ us) = (t ≡ u) ⊎ Member t us

module _ ⦃platform : Platform⦄ where
  path_root-append :
      (h : Bytes) (path : List MerkleProofNode) (node : MerkleProofNode)
      → path_root h (path ++ node ∷ []) ≡ path_step (path_root h path) node
  unfolding path_root
  path_root-append h [] node = refl
  path_root-append h (n ∷ path) node = path_root-append (path_step h n) path node

  -- The proof so far leads from the leaf to the hash that is looked for.
  abbrev pub LeadsFrom : Bytes → ProofState → Type 0
  LeadsFrom leaf s = path_root leaf s.merkle_proof ≡ s.target_hash

  proof_single-LeadsFrom :
      (leaf a : Bytes) (s : ProofState) → LeadsFrom leaf s → LeadsFrom leaf (proof_single a s)
  unfolding proof_single path_step
  proof_single-LeadsFrom leaf a s h = ground (
    arith,
    =ᵇ_iff s.target_hash a,
    path_root-append leaf s.merkle_proof (record { hash = a; is_left_node = true }),
  )

  proof_pair-LeadsFrom :
      (leaf a b : Bytes) (s : ProofState) → LeadsFrom leaf s → LeadsFrom leaf (proof_pair a b s)
  unfolding proof_pair path_step
  proof_pair-LeadsFrom leaf a b s h = ground (
    arith,
    =ᵇ_iff s.target_hash a,
    =ᵇ_iff s.target_hash b,
    path_root-append leaf s.merkle_proof (record { hash = a; is_left_node = true }),
    path_root-append leaf s.merkle_proof (record { hash = b; is_left_node = false }),
  )

  -- A pass of GetMerkleProof over the hashes of a level, however many, keeps a proof that leads
  -- from the leaf to the hash looked for: it still does so after the pass.
  pub proof_pairs-LeadsFrom :
      (leaf : Bytes) (hs : List Bytes) (s : ProofState)
      → LeadsFrom leaf s
      → LeadsFrom leaf (proof_pairs hs s)
  unfolding proof_pairs
  proof_pairs-LeadsFrom leaf [] s h = h
  proof_pairs-LeadsFrom leaf (a ∷ []) s h = proof_single-LeadsFrom leaf a s h
  proof_pairs-LeadsFrom leaf (a ∷ b ∷ rest) s h =
      proof_pairs-LeadsFrom leaf rest (proof_pair a b s) (proof_pair-LeadsFrom leaf a b s h)

  next_hash_list-proof_pairs :
      (hs : List Bytes) (s : ProofState)
      → length (proof_pairs hs s).next_hash_list ≡ length s.next_hash_list + length (level_above hs)
  unfolding proof_pairs proof_single proof_pair level_above
  next_hash_list-proof_pairs [] s = omega arith
  next_hash_list-proof_pairs (a ∷ []) s =
      ground (arith, length-append s.next_hash_list (get_double_sha256 (a ++ a) ∷ []))
  next_hash_list-proof_pairs (a ∷ b ∷ rest) s = ground (
    arith,
    next_hash_list-proof_pairs rest (proof_pair a b s),
    length-append s.next_hash_list (get_double_sha256 (a ++ b) ∷ []),
  )

  proof_loop-timeout :
      (fuel : ℕ) (current : List Bytes) (s : ProofState)
      → 2 ≤ length current
      → 3 ≤ length current + length s.next_hash_list
      → proof_loop fuel current s ≡ timeout
  unfolding proof_loop
  proof_loop-timeout zero current s h k = refl
  proof_loop-timeout (suc fuel) [] s h k = absurd (omega arith)
  proof_loop-timeout (suc fuel) (a ∷ []) s h k = absurd (omega arith)
  proof_loop-timeout (suc fuel) (a ∷ b ∷ rest) s h k =
      let grows = next_hash_list-proof_pairs (a ∷ b ∷ rest) s in
      let covers = length-level_above (a ∷ b ∷ rest) in
      let s' = proof_pairs (a ∷ b ∷ rest) s in
      proof_loop-timeout fuel s'.next_hash_list s' (omega arith) (omega arith)

  -- GetMerkleProof never returns for a block of three or more transactions.
  pub get_merkle_proof-timeout :
      (fuel : ℕ) (block : Block) (t : Transaction)
      → 3 ≤ length block.transactions
      → get_merkle_proof fuel block t ≡ timeout
  unfolding get_merkle_proof
  get_merkle_proof-timeout fuel block t h =
      let same = length-map leaf_hash block.transactions in
      proof_loop-timeout fuel (leaf_hashes block.transactions) _ (omega arith) (omega arith)

  -- The proof of one of two leaves: the first case is a target equal to the left leaf.
  proof_of_two : Bytes → Bytes → Bytes → List MerkleProofNode
  proof_of_two t u v =
      record { hash = if t =ᵇ u then v else u; is_left_node = if t =ᵇ u then false else true } ∷ []

  proof_loop-two :
      (fuel : ℕ) (t u v : Bytes)
      → (t ≡ u) ⊎ (t ≡ v)
      → (proof_loop
            (suc (suc fuel))
            (u ∷ v ∷ [])
            (record { next_hash_list = []; target_hash = t; merkle_proof = [] })
          ≡ ok (proof_of_two t u v))
        × (path_root t (proof_of_two t u v) ≡ get_double_sha256 (u ++ v))
  unfolding proof_loop proof_pairs path_step path_root proof_of_two
  proof_loop-two fuel t u v e = ground (arith, =ᵇ_iff t u, =ᵇ_iff t v)

  one_of_two :
      {t u v : Transaction}
      → Member t (u ∷ v ∷ [])
      → (leaf_hash t ≡ leaf_hash u) ⊎ (leaf_hash t ≡ leaf_hash v)
  one_of_two (inl e) = inl (ap leaf_hash e)
  one_of_two (inr (inl e)) = inr (ap leaf_hash e)
  one_of_two (inr (inr m)) = elim m [ ]

  proof_loop-expected :
      (fuel : ℕ) (ts : List Transaction) (t : Transaction) (old : Bytes)
      → length ts ≤ 2
      → Member t ts
      → (path : List MerkleProofNode) × (proof_loop
            (suc (suc fuel))
            (leaf_hashes ts)
            (record { next_hash_list = []; target_hash = leaf_hash t; merkle_proof = [] })
          ≡ ok path)
        × (path_root (leaf_hash t) path ≡ expected_root old ts)
  unfolding proof_loop path_root expected_root tree_root level_above
  proof_loop-expected fuel [] t old h m = absurd m
  proof_loop-expected fuel (u ∷ []) t old h (inl e) = ([], refl, ap leaf_hash e)
  proof_loop-expected fuel (u ∷ []) t old h (inr m) = absurd m
  proof_loop-expected fuel (u ∷ v ∷ []) t old h m =
      let (found, leads) =
        proof_loop-two fuel (leaf_hash t) (leaf_hash u) (leaf_hash v) (one_of_two m) in
      (_, found, leads)
  proof_loop-expected fuel (u ∷ v ∷ w ∷ ts) t old h m = absurd (omega arith)

  -- For a transaction of a block of at most two, GetMerkleProof returns a proof, and the check of
  -- an SPV node computes from it the root that SetMerkleRoot gives the block.
  pub get_merkle_proof-verifies :
      (fuel : ℕ) (block : Block) (t : Transaction)
      → length block.transactions ≤ 2
      → Member t block.transactions
      → (path : List MerkleProofNode) × (sealed : Block) × (get_merkle_proof
            (suc (suc fuel))
            block
            t
          ≡ ok path)
        × (set_merkle_root (suc (suc fuel)) block ≡ ok sealed)
        × (path_root (leaf_hash t) path ≡ sealed.merkle_root)
  unfolding get_merkle_proof
  get_merkle_proof-verifies fuel block t h m =
      let (path, found, leads) =
        proof_loop-expected fuel block.transactions t block.merkle_root h m in
      (
        path,
        with_root (expected_root block.merkle_root block.transactions) block,
        found,
        set_merkle_root-expected fuel block h,
        leads,
      )
