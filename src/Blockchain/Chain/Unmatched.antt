-- ===== src/Blockchain/Chain/Unmatched.antt =====
-- GetUnmatchedBlocks and GetUnmatchedHeaders of blockchain/blockchain.go: what a peer lacks.
use echain.Base.{
  ℕ, zero, suc, ◌≤◌, ◌<◌, ◌≡◌, refl, ap, ◌∙◌, Bool, true, false, Bytes, List, [], ◌∷◌, ◌++◌, map,
  Run, ok, timeout, ◌>>=◌, ◌=ᵇ◌, =ᵇ-refl, length, exists, is_empty, length-append, if◌then◌else◌,
  arith,
}
use mathlib.Core.List.{append-nil, append_assoc}
use echain.Types.{BlockHeader, Block}
use echain.Platform.{Platform}
use echain.LevelDb.{LevelDb}
use echain.Blockchain.Block.{header_hash, get_hash}
use echain.Blockchain.Iterator.{current_block}
use echain.Blockchain.Chain.{
  BlockChain, unmatched_blocks_loop, get_unmatched_blocks, unmatched_headers_loop,
  get_unmatched_headers,
}
use echain.Blockchain.Chain.Linked.{
  Linked, get_hash-sealed, Linked-length, Linked-head, Linked-tail, Linked-last,
}

-- All but the last element.
abbrev pub drop_last {ℓ} : {A : Type ℓ} → List A → List A
drop_last [] = []
drop_last (x ∷ []) = []
drop_last (x ∷ y ∷ xs) = x ∷ drop_last (y ∷ xs)

module _ ⦃platform : Platform⦄ where
  abbrev pub block_hash : Block → Bytes
  block_hash block = header_hash block.block_header

  -- Some of the blocks has the hash.
  abbrev pub has_hash : Bytes → List Block → Bool
  has_hash target = exists (λ b. block_hash b =ᵇ target)

  pub has_hash-cons :
      (target : Bytes) (block : Block) (blocks : List Block)
      → has_hash target (block ∷ blocks) ≡ false
      → ((block_hash block =ᵇ target) ≡ false) × (has_hash target blocks ≡ false)
  has_hash-cons target block blocks h = ground arith

module _ {Db : Type 0} ⦃level_db : LevelDb Db⦄ ⦃platform : Platform⦄ where
  -- The loop of both functions, which collect different parts of a block.
  walk : {A : Type 0} → (Bytes → Block → A) → ℕ → Db → Bytes → Bytes → List A → Run (Bool × List A)
  walk part zero db target current_hash unmatched = timeout
  walk part (suc fuel) db target current_hash unmatched = do
    (hash, block) ← get_hash (suc fuel) (current_block db current_hash)
    let rest = walk part fuel db target block.prev_hash (unmatched ++ part hash block ∷ [])
    if hash =ᵇ target
        then ok (true, unmatched)
        else if is_empty block.prev_hash
        then ok (false, unmatched)
        else rest

  unmatched_blocks_loop-walk :
      (fuel : ℕ) (db : Db) (target current_hash : Bytes) (unmatched : List Bytes)
      → unmatched_blocks_loop fuel db target current_hash unmatched
        ≡ walk (λ hash block. hash) fuel db target current_hash unmatched
  unfolding unmatched_blocks_loop walk
  unmatched_blocks_loop-walk zero db target current_hash unmatched = refl
  unmatched_blocks_loop-walk (suc fuel) db target current_hash unmatched =
      simp (unmatched_blocks_loop-walk fuel db target)

  unmatched_headers_loop-walk :
      (fuel : ℕ) (db : Db) (target current_hash : Bytes) (unmatched : List BlockHeader)
      → unmatched_headers_loop fuel db target current_hash unmatched
        ≡ walk (λ hash block. block.block_header) fuel db target current_hash unmatched
  unfolding unmatched_headers_loop walk
  unmatched_headers_loop-walk zero db target current_hash unmatched = refl
  unmatched_headers_loop-walk (suc fuel) db target current_hash unmatched =
      simp (unmatched_headers_loop-walk fuel db target)

  walk-found :
      {A : Type 0} (part : Bytes → Block → A) (fuel : ℕ) (db : Db) (hash : Bytes)
      (newer : List Block) (block : Block) (older : List Block) (unmatched : List A)
      → Linked db hash (newer ++ block ∷ older)
      → has_hash (block_hash block) newer ≡ false
      → length newer < fuel
      → walk part fuel db (block_hash block) hash unmatched
        ≡ ok (true, unmatched ++ map (λ b. part (block_hash b) b) newer)
  unfolding walk
  walk-found part zero db hash newer block older unmatched l fresh h = absurd (omega arith)
  walk-found part (suc fuel) db hash [] block older unmatched l fresh h =
      let s = Linked-head l in rw (s.at, get_hash-sealed fuel block s.sealed, =ᵇ-refl, append-nil)
  walk-found part (suc fuel) db hash (n ∷ newer) block older unmatched l fresh h =
      let s = Linked-head l in
      let (e, l') = Linked-tail l (omega (arith, length-append newer (block ∷ older))) in
      let (other, fresh') = has_hash-cons (block_hash block) n newer fresh in
      rw (s.at, get_hash-sealed fuel n s.sealed, other, e)
        (walk-found part fuel db n.prev_hash newer block older _ l' fresh' (omega arith)
          ∙ ap (λ r. ok (true, r)) (append_assoc unmatched (part (block_hash n) n ∷ []) _))

  walk-missing :
      {A : Type 0} (part : Bytes → Block → A) (fuel : ℕ) (db : Db) (target hash : Bytes)
      (blocks : List Block) (unmatched : List A)
      → Linked db hash blocks
      → has_hash target blocks ≡ false
      → length blocks ≤ fuel
      → walk part fuel db target hash unmatched
        ≡ ok (false, unmatched ++ map (λ b. part (block_hash b) b) (drop_last blocks))
  unfolding walk
  walk-missing part zero db target hash blocks unmatched l absent h =
      absurd (omega (arith, Linked-length l))
  walk-missing part (suc fuel) db target hash [] unmatched l absent h =
      absurd (omega (arith, Linked-length l))
  walk-missing part (suc fuel) db target hash (b ∷ []) unmatched l absent h =
      let s = Linked-head l in
      let (other, absent') = has_hash-cons target b [] absent in
      rw (s.at, get_hash-sealed fuel b s.sealed, other, Linked-last l, append-nil)
  walk-missing part (suc fuel) db target hash (b ∷ c ∷ older) unmatched l absent h =
      let s = Linked-head l in
      let (e, l') = Linked-tail l (omega arith) in
      let (other, absent') = has_hash-cons target b (c ∷ older) absent in
      rw (s.at, get_hash-sealed fuel b s.sealed, other, e)
        (walk-missing part fuel db target b.prev_hash (c ∷ older) _ l' absent' (omega arith)
          ∙ ap (λ r. ok (false, r)) (append_assoc unmatched (part (block_hash b) b ∷ []) _))

  -- On a chain that has a block with the hash (the newest such one is taken), GetUnmatchedBlocks
  -- reports it as found and returns the hashes of the newer blocks, the newest first.
  pub get_unmatched_blocks-found :
      (fuel : ℕ) (chain : BlockChain Db) (newer : List Block) (block : Block) (older : List Block)
      → Linked chain.data_base chain.last_hash (newer ++ block ∷ older)
      → has_hash (block_hash block) newer ≡ false
      → length newer < fuel
      → get_unmatched_blocks fuel chain (block_hash block) ≡ ok (true, map block_hash newer)
  unfolding get_unmatched_blocks
  get_unmatched_blocks-found fuel chain newer block older l fresh h =
      unmatched_blocks_loop-walk fuel chain.data_base (block_hash block) chain.last_hash []
      ∙ walk-found (λ hash b. hash) fuel chain.data_base chain.last_hash newer block older [] l
          fresh h

  -- On a chain that has no block with the hash, GetUnmatchedBlocks reports that and returns the
  -- hashes of all blocks but the genesis block.
  pub get_unmatched_blocks-missing :
      (fuel : ℕ) (chain : BlockChain Db) (target : Bytes) (blocks : List Block)
      → Linked chain.data_base chain.last_hash blocks
      → has_hash target blocks ≡ false
      → length blocks ≤ fuel
      → get_unmatched_blocks fuel chain target ≡ ok (false, map block_hash (drop_last blocks))
  unfolding get_unmatched_blocks
  get_unmatched_blocks-missing fuel chain target blocks l absent h =
      unmatched_blocks_loop-walk fuel chain.data_base target chain.last_hash []
      ∙ walk-missing (λ hash b. hash) fuel chain.data_base target chain.last_hash blocks [] l absent
          h

  -- GetUnmatchedHeaders returns the headers of those blocks whose hashes GetUnmatchedBlocks
  -- returns, on a chain that has a block with the hash.
  pub get_unmatched_headers-found :
      (fuel : ℕ) (chain : BlockChain Db) (newer : List Block) (block : Block) (older : List Block)
      → Linked chain.data_base chain.last_hash (newer ++ block ∷ older)
      → has_hash (block_hash block) newer ≡ false
      → length newer < fuel
      → get_unmatched_headers fuel chain (block_hash block)
        ≡ ok (true, map (λ b. b.block_header) newer)
  unfolding get_unmatched_headers
  get_unmatched_headers-found fuel chain newer block older l fresh h =
      unmatched_headers_loop-walk fuel chain.data_base (block_hash block) chain.last_hash []
      ∙ walk-found (λ hash b. b.block_header) fuel chain.data_base chain.last_hash newer block older
          [] l fresh h
