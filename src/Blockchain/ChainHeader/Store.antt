-- ===== src/Blockchain/ChainHeader/Store.antt =====
-- SetHeader, SetLastHash and CheckHeaderExistence of blockchain/blockchain.go.
use echain.Base.{
  ◌≡◌, ap, sym, subst, ◌∙◌, inl, inr, Bool, true, false, not, Bytes, ◌∷◌, Option, none, some, ◌=ᵇ◌,
  =ᵇ_sound, =ᵇ-refl, length, is_empty, Bool-cases, if◌then◌else◌, arith,
}
use echain.Base.GoMap.{GoMap}
use echain.Types.{BlockHeader}
use echain.Platform.{Platform, generic_deserialize-encode}
use echain.LevelDb.{LevelDb}
use echain.Blockchain.Block.{header_hash, zero_header}
use echain.Blockchain.Iterator.{get_value}
use echain.Blockchain.Chain.Sealing.{length-header_hash}
use echain.Blockchain.Chain.Store.{last_hash_key-ne}
use echain.Blockchain.ChainHeader.{
  BlockChainHeader, current_header, set_header, set_last_hash, check_header_existence,
}
use echain.Blockchain.ChainHeader.Walk.{LinkedHeaders, genesis, extend, has_key}

has_key-ne :
    (hash k : Bytes) (headers : GoMap BlockHeader)
    → has_key hash headers ≡ false
    → has_key k headers ≡ true
    → (hash =ᵇ k) ≡ false
has_key-ne hash k headers absent present = elim (Bool-cases (hash =ᵇ k)) [
  | inl e ↦ cc (absent, present, ap (λ (x : Bytes). has_key x headers) (=ᵇ_sound hash k e))
  | inr e ↦ e
]

module _ {Db : Type 0} ⦃level_db : LevelDb Db⦄ ⦃platform : Platform⦄ where
  current_header-same :
      (db db' : Db) (hash : Bytes)
      → level_db.get db' hash ≡ level_db.get db hash
      → current_header db' hash ≡ current_header db hash
  unfolding current_header get_value
  current_header-same db db' hash same = rw (current_header, get_value, same)

  current_header-stored :
      (db : Db) (hash : Bytes) (header : BlockHeader)
      → level_db.get db hash ≡ some (platform.gob_block_header.encode header)
      → current_header db hash ≡ header
  unfolding current_header get_value
  current_header-stored db hash header stored =
      rw (current_header, get_value, stored)
        (generic_deserialize-encode platform.gob_block_header zero_header header)

  LinkedHeaders-frame :
      {db db' : Db} {hash : Bytes} {headers : GoMap BlockHeader}
      → ((k : Bytes) → has_key k headers ≡ true → level_db.get db' k ≡ level_db.get db k)
      → LinkedHeaders db hash headers
      → LinkedHeaders db' hash headers
  LinkedHeaders-frame same (genesis hash header s e) =
      genesis hash header
        (current_header-same _ _ hash (same hash (ground (arith, =ᵇ-refl hash))) ∙ s) e
  LinkedHeaders-frame same (extend hash header older s e l) =
      extend hash header older
        (current_header-same _ _ hash (same hash (ground (arith, =ᵇ-refl hash))) ∙ s) e
        (LinkedHeaders-frame (λ k h. same k (ground (arith, h))) l)

  get-set_header :
      (chain : BlockChainHeader Db) (header : BlockHeader) (last_hash k : Bytes)
      → length k ≡ 32
      → level_db.get (set_last_hash (set_header chain header) last_hash).data_base k ≡ (
          if header_hash header =ᵇ k
          then some (platform.gob_block_header.encode header)
          else level_db.get chain.data_base k)
  unfolding set_header set_last_hash
  get-set_header chain header last_hash k long =
      rw (level_db.get-put, level_db.get-put, last_hash_key-ne k long)

  get-set_header_alone :
      (chain : BlockChainHeader Db) (header : BlockHeader) (k : Bytes)
      → level_db.get (set_header chain header).data_base k ≡ (
          if header_hash header =ᵇ k
          then some (platform.gob_block_header.encode header)
          else level_db.get chain.data_base k)
  unfolding set_header
  get-set_header_alone chain header k = rw level_db.get-put

  -- SetHeader of a header whose hash is new makes the chain before it longer.
  pub set_header-extends :
      (chain : BlockChainHeader Db) (header : BlockHeader) (headers : GoMap BlockHeader)
      → LinkedHeaders chain.data_base header.prev_hash headers
      → is_empty header.prev_hash ≡ false
      → has_key (header_hash header) headers ≡ false
      → LinkedHeaders
          (set_header chain header).data_base
          (header_hash header)
          ((header_hash header, header) ∷ headers)
  set_header-extends chain header headers l full fresh =
      let hash = header_hash header in
      let chain' = set_header chain header in
      let value = λ (old : Option Bytes) (b : Bool).
        if b then some (platform.gob_block_header.encode header) else old in
      extend hash header headers
        (current_header-stored chain'.data_base hash header (
          get-set_header_alone chain header hash
          ∙ ap (value (level_db.get chain.data_base hash)) (=ᵇ-refl hash)))
        full
        (LinkedHeaders-frame
          (λ k present.
            get-set_header_alone chain header k
            ∙ ap (value (level_db.get chain.data_base k)) (has_key-ne hash k headers fresh present))
          l)

  -- SetLastHash leaves the headers as they are.
  pub set_last_hash-LinkedHeaders :
      (chain : BlockChainHeader Db) (last_hash hash : Bytes) (headers : GoMap BlockHeader)
      → ((k : Bytes) → has_key k headers ≡ true → length k ≡ 32)
      → LinkedHeaders chain.data_base hash headers
      → LinkedHeaders (set_last_hash chain last_hash).data_base hash headers
  unfolding set_last_hash
  set_last_hash-LinkedHeaders chain last_hash hash headers long l =
      LinkedHeaders-frame (λ k present. rw (level_db.get-put, last_hash_key-ne k (long k present)))
        l

  -- SetHeader of a header on top of a chain, then SetLastHash of its hash, makes the chain longer by
  -- it, if the chain does not have the hash yet and has only keys of 32 bytes.
  pub set_header-LinkedHeaders :
      (chain : BlockChainHeader Db) (header : BlockHeader) (headers : GoMap BlockHeader)
      → LinkedHeaders chain.data_base chain.last_hash headers
      → ((k : Bytes) → has_key k headers ≡ true → length k ≡ 32)
      → header.prev_hash ≡ chain.last_hash
      → is_empty chain.last_hash ≡ false
      → has_key (header_hash header) headers ≡ false
      → LinkedHeaders
          (set_last_hash (set_header chain header) (header_hash header)).data_base
          (header_hash header)
          ((header_hash header, header) ∷ headers)
  set_header-LinkedHeaders chain header headers l long on_top full fresh =
      let hash = header_hash header in
      let chain' = set_last_hash (set_header chain header) hash in
      extend hash header headers
        (current_header-stored chain'.data_base hash header (
          get-set_header chain header hash hash (length-header_hash header)
          ∙ ap
              (λ (b : Bool).
                if b
                then some (platform.gob_block_header.encode header)
                else level_db.get chain.data_base hash)
              (=ᵇ-refl hash)))
        (ap is_empty on_top ∙ full)
        (subst (λ h. LinkedHeaders chain'.data_base h headers) (sym on_top)
          (LinkedHeaders-frame
            (λ k present.
              get-set_header chain header hash k (long k present)
              ∙ ap
                  (λ (b : Bool).
                    if b
                    then some (platform.gob_block_header.encode header)
                    else level_db.get chain.data_base k)
                  (has_key-ne hash k headers fresh present))
            l))

  -- CheckHeaderExistence reads one key.
  pub check_header_existence-same :
      (chain chain' : BlockChainHeader Db) (header : BlockHeader)
      → level_db.get chain'.data_base (header_hash header)
        ≡ level_db.get chain.data_base (header_hash header)
      → check_header_existence chain' header ≡ check_header_existence chain header
  unfolding check_header_existence
  check_header_existence-same chain chain' header same =
      rw (check_header_existence, same)
        (ap
          (λ (h : BlockHeader). elim (level_db.get chain.data_base (header_hash header)) [
            | none ↦ false
            | some _ ↦ not (is_empty h.timestamp)
          ])
          (current_header-same chain.data_base chain'.data_base (header_hash header) same))

  -- After SetHeader, CheckHeaderExistence finds the header if its timestamp is not empty; of a
  -- header with another hash it says what it said before.
  pub check_header_existence-set_header :
      (chain : BlockChainHeader Db) (header other : BlockHeader)
      → (check_header_existence (set_header chain header) header ≡ not (is_empty header.timestamp))
        × ((header_hash header =ᵇ header_hash other) ≡ false
            → check_header_existence (set_header chain header) other
              ≡ check_header_existence chain other)
  unfolding check_header_existence set_header current_header get_value
  check_header_existence-set_header chain header other =
      let hash = header_hash header in
      let encoded = platform.gob_block_header.encode header in
      let db' = level_db.put chain.data_base hash encoded in
      let stored = level_db.get-put chain.data_base hash hash encoded in
      let kept = level_db.get-put chain.data_base hash (header_hash other) encoded in
      (
        rw (check_header_existence, stored, =ᵇ-refl hash)
            (ap (λ (h : BlockHeader). not (is_empty h.timestamp))
              (current_header-stored db' hash header (rw (stored, =ᵇ-refl hash)))),
        λ ne.
            rw (check_header_existence, kept, ne)
              (ap
                (λ (h : BlockHeader). elim (level_db.get chain.data_base (header_hash other)) [
                  | none ↦ false
                  | some _ ↦ not (is_empty h.timestamp)
                ])
                (current_header-same chain.data_base db' (header_hash other) (rw (kept, ne)))),
      )
