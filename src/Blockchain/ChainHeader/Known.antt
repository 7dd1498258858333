-- ===== src/Blockchain/ChainHeader/Known.antt =====
-- CheckHeaderExistence of blockchain/blockchain.go on a chain of headers.
use echain.Base.{
  ◌≡◌, refl, ap, sym, ◌∙◌, inl, inr, ◌⊎◌, true, false, Bytes, [], ◌∷◌, Option, none, some, is_empty,
}
use echain.Base.GoMap.{GoMap}
use echain.Types.{BlockHeader}
use echain.Platform.{Platform, generic_deserialize-nil}
use echain.LevelDb.{LevelDb}
use echain.Blockchain.Block.{header_hash, zero_header}
use echain.Blockchain.Iterator.{get_value}
use echain.Blockchain.ChainHeader.{BlockChainHeader, current_header, check_header_existence}
use echain.Blockchain.ChainHeader.Walk.{LinkedHeaders, genesis, extend}

-- The header stands under the hash.
abbrev pub Entry : Bytes → BlockHeader → GoMap BlockHeader → Type 0
Entry hash header [] = ⊥
Entry hash header ((k, h) ∷ entries) = ((hash ≡ k) × (header ≡ h)) ⊎ Entry hash header entries

module _ {Db : Type 0} ⦃level_db : LevelDb Db⦄ ⦃platform : Platform⦄ where
  current_header-Entry :
      {db : Db} {hash : Bytes} {headers : GoMap BlockHeader} (k : Bytes) (header : BlockHeader)
      → LinkedHeaders db hash headers
      → Entry k header headers
      → current_header db k ≡ header
  current_header-Entry {db} k header (genesis hash h s e) (inl (same, is)) =
      ap (current_header db) same ∙ s ∙ sym is
  current_header-Entry k header (genesis hash h s e) (inr other) = absurd other
  current_header-Entry {db} k header (extend hash h older s e l) (inl (same, is)) =
      ap (current_header db) same ∙ s ∙ sym is
  current_header-Entry k header (extend hash h older s e l) (inr later) =
      current_header-Entry k header l later

  current_header-none :
      (db : Db) (hash : Bytes) → level_db.get db hash ≡ none → current_header db hash ≡ zero_header
  unfolding current_header get_value
  current_header-none db hash absent =
      rw (current_header, get_value, absent)
        (generic_deserialize-nil platform.gob_block_header zero_header)

  stored_or_none :
      (chain : BlockChainHeader Db) (header : BlockHeader) (found : Option Bytes)
      → level_db.get chain.data_base (header_hash header) ≡ found
      → current_header chain.data_base (header_hash header) ≡ header
      → is_empty header.timestamp ≡ false
      → check_header_existence chain header ≡ true
  unfolding check_header_existence
  stored_or_none chain header none at is full =
      let zero : zero_header ≡ header =
        sym (current_header-none chain.data_base (header_hash header) at) ∙ is in
      let dated : is_empty zero_header.timestamp ≡ false =
        ap (λ (h : BlockHeader). is_empty h.timestamp) zero ∙ full in
      absurd (cc dated)
  stored_or_none chain header (some bytes) at is full = rw (check_header_existence, at, is, full)

  -- The headers of a chain exist, if they have a date.
  pub check_header_existence-Entry :
      (chain : BlockChainHeader Db) (hash : Bytes) (header : BlockHeader)
      (headers : GoMap BlockHeader)
      → LinkedHeaders chain.data_base hash headers
      → Entry (header_hash header) header headers
      → is_empty header.timestamp ≡ false
      → check_header_existence chain header ≡ true
  check_header_existence-Entry chain hash header headers l entry full =
      stored_or_none chain header _ refl (current_header-Entry (header_hash header) header l entry)
        full
