-- ===== src/Network/Miner/Nonce.antt =====
-- The search for a nonce in mineBlock of network/miner.go.
use echain.Base.{
  ℕ, zero, suc, ◌+◌, ◌≤◌, ◌<◌, ◌≡◌, sym, ◌∙◌, inl, inr, ◌⊎◌, subst, Bool, true, false, ok, ltb,
  Bool-cases, if◌then◌else◌, arith,
}
use echain.Base.GoInt
use echain.Base.GoInt.{modulus, add_small}
use echain.Types.{Block}
use echain.Platform.{Platform}
use echain.Blockchain.Utils.{target_hash, set_bytes}
use echain.Blockchain.Block.{header_hash}
use echain.Blockchain.Chain.Linked.{IsSealed, get_hash-sealed}
use echain.Network.Miner.{with_nonce, mine_loop, mine_block}

le_cases : (a b : ℕ) → a ≤ b → (a ≡ b) ⊎ (a < b)
le_cases a b h = elim (Bool-cases (ltb a b)) [
  | inl e ↦ inr (ground arith)
  | inr e ↦ inl (ground arith)
]

module _ ⦃platform : Platform⦄ where
  -- The hash of the block with the nonce is below TARGET_HASH.
  abbrev pub meets_target : Block → ℕ → Bool
  meets_target block nonce =
      ltb (set_bytes (header_hash (with_nonce nonce block).block_header)) target_hash

  mine_loop-sealed :
      (fuel nonce : ℕ) (block : Block)
      → IsSealed block
      → mine_loop (suc fuel) nonce block ≡ (
          if meets_target block nonce
          then ok (with_nonce nonce block)
          else mine_loop fuel (GoInt.add nonce 1) (with_nonce nonce block))
  unfolding mine_loop
  mine_loop-sealed fuel nonce block s =
      rw (mine_loop, get_hash-sealed fuel (with_nonce nonce block) s)

  mine_loop-least :
      (fuel nonce n : ℕ) (block : Block)
      → IsSealed block
      → nonce ≤ n
      → n < fuel + nonce
      → n < modulus
      → meets_target block n ≡ true
      → ((k : ℕ) → nonce ≤ k → k < n → meets_target block k ≡ false)
      → mine_loop fuel nonce block ≡ ok (with_nonce n block)
  mine_loop-least zero nonce n block s from h small hit miss = absurd (omega arith)
  mine_loop-least (suc fuel) nonce n block s from h small hit miss = elim (le_cases nonce n from) [
    | inl here ↦
        mine_loop-sealed fuel nonce block s
        ∙ subst
            (λ m.
              (if meets_target block m
                then ok (with_nonce m block)
                else mine_loop fuel (GoInt.add m 1) (with_nonce m block))
              ≡ ok (with_nonce n block))
            (sym here) (rw hit)
    | inr later ↦
        let e : GoInt.add nonce 1 ≡ nonce + 1 = add_small nonce 1 (omega arith) in
        rw (mine_loop-sealed fuel nonce block s, miss nonce (omega arith) later, e)
          (mine_loop-least fuel (nonce + 1) n (with_nonce nonce block) s (omega arith) (omega arith)
            small hit (λ k k_large k_small. miss k (omega arith) k_small))
  ]

  -- If n is the least nonce from 1 on with which the hash of a block that has its merkle root, or
  -- has no transactions, is below TARGET_HASH, mineBlock finds it, after n rounds.
  pub mine_block-least :
      (fuel n : ℕ) (block : Block)
      → IsSealed block
      → 1 ≤ n
      → n ≤ fuel
      → n < modulus
      → meets_target block n ≡ true
      → ((k : ℕ) → 1 ≤ k → k < n → meets_target block k ≡ false)
      → mine_block fuel block ≡ ok (with_nonce n block)
  unfolding mine_block
  mine_block-least fuel n block s positive h small hit miss =
      mine_loop-least fuel 1 n block s positive (omega arith) small hit miss
