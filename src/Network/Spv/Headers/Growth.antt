-- ===== src/Network/Spv/Headers/Growth.antt =====
-- What the handler of a headers message of network/spv.go adds to the headers of a chain of blocks.
use echain.Base.{
  ◌≤◌, ◌≡◌, refl, ap, sym, subst, ◌∙◌, inl, inr, true, false, Bytes, List, [], ◌∷◌, ◌++◌, map,
  reverse, ok, ◌=ᵇ◌, ◌||◌, =ᵇ_sound, =ᵇ_iff, length, length-append, length-map, length-reverse,
  Bool-cases, if◌then◌else◌, arith,
}
use mathlib.Core.List.{reverse-cons}
use echain.Base.GoMap.{GoMap}
use echain.Types.{BlockHeader, Block}
use echain.Platform.{Platform, generic_deserialize-encode}
use echain.LevelDb.{LevelDb}
use echain.Blockchain.Block.{header_hash}
use echain.Blockchain.Chain.Linked.{Linked, Linked-head, Linked-tail}
use echain.Blockchain.Chain.Sealing.{length-header_hash}
use echain.Blockchain.Chain.Unmatched.{block_hash, has_hash}
use echain.Blockchain.ChainHeader.{BlockChainHeader, set_header, set_last_hash}
use echain.Blockchain.ChainHeader.Walk.{LinkedHeaders, has_key}
use echain.Blockchain.ChainHeader.Store.{set_header-extends}
use echain.Network.Messages.{HeaderMessage}
use echain.Network.Wire.{Wire}
use echain.Network.FullNode.{send_header_message}
use echain.Network.Spv.{SpvNode, Handled, signals, nothing}
use echain.Network.Spv.Headers.{
  zero_header_message, last_header_hash, set_headers, on_headers, handle_headers_msg,
}

abbrev pub oldest_first : List Block → List BlockHeader
oldest_first blocks = reverse (map (λ b. b.block_header) blocks)

pub length-oldest_first : (blocks : List Block) → length (oldest_first blocks) ≡ length blocks
length-oldest_first blocks =
    length-reverse (map (λ (b : Block). b.block_header) blocks)
    ∙ length-map (λ (b : Block). b.block_header) blocks

module _ ⦃platform : Platform⦄ where
  -- The headers of a chain of blocks under their hashes.
  abbrev pub entries : List Block → GoMap BlockHeader
  entries = map (λ b. (block_hash b, b.block_header))

  -- No two of the blocks have one hash.
  abbrev pub DistinctHashes : List Block → Type 0
  DistinctHashes [] = Unit
  DistinctHashes (b ∷ bs) = (has_hash (block_hash b) bs ≡ false) × DistinctHashes bs

  has_key-entries :
      (k : Bytes) (blocks : List Block) → has_key k (entries blocks) ≡ has_hash k blocks
  has_key-entries k [] = refl
  has_key-entries k (b ∷ bs) = ground (arith, has_key-entries k bs)

  pub entries-long :
      (blocks : List Block) (k : Bytes) → has_key k (entries blocks) ≡ true → length k ≡ 32
  entries-long [] k h = cc
  entries-long (b ∷ bs) k h = elim (Bool-cases (block_hash b =ᵇ k)) [
    | inl e ↦
        subst (λ x. length x ≡ 32) (=ᵇ_sound (block_hash b) k e) (length-header_hash b.block_header)
    | inr e ↦ entries-long bs k (ground arith)
  ]

  has_hash-append :
      (k : Bytes) (xs ys : List Block) → has_hash k (xs ++ ys) ≡ (has_hash k xs || has_hash k ys)
  has_hash-append k [] ys = refl
  has_hash-append k (x ∷ xs) ys = ground (arith, has_hash-append k xs ys)

  pub distinct_before :
      (newer : List Block) (block : Block) (older : List Block)
      → DistinctHashes (newer ++ block ∷ older)
      → has_hash (block_hash block) newer ≡ false
  distinct_before [] block older d = refl
  distinct_before (b ∷ newer) block older d = ground (
    arith,
    distinct_before newer block older d.1,
    has_hash-append (block_hash b) newer (block ∷ older),
    d.0,
    =ᵇ_iff (block_hash b) (block_hash block),
    =ᵇ_iff (block_hash block) (block_hash b),
  )

  pub last_header_hash-append :
      (hs : List BlockHeader) (h : BlockHeader)
      → last_header_hash (hs ++ h ∷ []) ≡ ok (header_hash h)
  unfolding last_header_hash
  last_header_hash-append [] h = refl
  last_header_hash-append (g ∷ []) h = refl
  last_header_hash-append (g ∷ f ∷ hs) h = last_header_hash-append (f ∷ hs) h

module _ {Db : Type 0} ⦃level_db : LevelDb Db⦄ ⦃platform : Platform⦄ where
  set_headers-append :
      (chain : BlockChainHeader Db) (hs : List BlockHeader) (h : BlockHeader)
      → set_headers chain (hs ++ h ∷ []) ≡ set_header (set_headers chain hs) h
  unfolding set_headers
  set_headers-append chain [] h = refl
  set_headers-append chain (g ∷ hs) h = set_headers-append (set_header chain g) hs h

  pub set_last_hash-last :
      (chain : BlockChainHeader Db) (hash : Bytes) → (set_last_hash chain hash).last_hash ≡ hash
  unfolding set_last_hash
  set_last_hash-last chain hash = refl

module _ {Db : Type 0} ⦃level_db : LevelDb Db⦄ ⦃platform : Platform⦄ ⦃wire : Wire⦄ where
  pub on_headers-last :
      (node : SpvNode Db) (headers : List BlockHeader) (hash : Bytes)
      → last_header_hash headers ≡ ok hash
      → (h : Handled Db) × (handle_headers_msg node
            (send_header_message [] (record { header_list = headers })).payload
          ≡ ok h)
        × (h.node.blockchain_header
            ≡ set_last_hash (set_headers node.blockchain_header headers) hash)
  unfolding handle_headers_msg send_header_message on_headers
  on_headers-last node headers hash last =
      let m : HeaderMessage = record { header_list = headers } in
      (
        record {
          node = record node {
            blockchain_header = set_last_hash (set_headers node.blockchain_header headers) hash;
          };
          sent = [];
          effect = if node.requesting_block_header then signals else nothing;
        },
        ap (on_headers node) (generic_deserialize-encode wire.gob_header zero_header_message m)
            ∙ rw last,
        refl,
      )

module _ {Db Db' : Type 0} ⦃level_db : LevelDb Db⦄ ⦃level_db' : LevelDb Db'⦄
    ⦃platform : Platform⦄ where
  -- The headers of the newer blocks, the oldest first, on top of those of the others.
  pub set_headers-LinkedHeaders :
      (chain : BlockChainHeader Db') (db : Db) (hash : Bytes) (newer : List Block) (block : Block)
      (older : List Block)
      → Linked db hash (newer ++ block ∷ older)
      → LinkedHeaders chain.data_base (block_hash block) (entries (block ∷ older))
      → DistinctHashes (newer ++ block ∷ older)
      → LinkedHeaders
          (set_headers chain (oldest_first newer)).data_base
          hash
          (entries (newer ++ block ∷ older))
  unfolding set_headers
  set_headers-LinkedHeaders chain db hash [] block older l known d =
      subst (λ h. LinkedHeaders chain.data_base h (entries (block ∷ older))) (Linked-head l).hashed
        known
  set_headers-LinkedHeaders chain db hash (b ∷ newer) block older l known d =
      let some_older : 1 ≤ length (newer ++ block ∷ older) =
        omega (arith, length-append newer (block ∷ older)) in
      let (full, tail) = Linked-tail l some_older in
      let shorter =
        set_headers-LinkedHeaders chain db b.prev_hash newer block older tail known d.1 in
      let before = oldest_first newer in
      let chain' = set_headers chain before in
      let longer =
        set_header-extends chain' b.block_header (entries (newer ++ block ∷ older)) shorter full
          (has_key-entries (block_hash b) (newer ++ block ∷ older) ∙ d.0) in
      subst (λ c. LinkedHeaders c.data_base hash (entries (b ∷ newer ++ block ∷ older)))
        (sym (
          ap (set_headers chain)
            (reverse-cons b.block_header (map (λ (b : Block). b.block_header) newer))
          ∙ set_headers-append chain before b.block_header))
        (subst
          (λ h.
            LinkedHeaders (set_header chain' b.block_header).data_base h
              (entries (b ∷ newer ++ block ∷ older)))
          (Linked-head l).hashed longer)
