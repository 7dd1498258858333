-- ===== src/Blockchain/Chain/Store.antt =====
-- StoreNewBlock of blockchain/blockchain.go: the chain grows by the block.
use echain.Base.{
  ℕ, ◌≡◌, ◌≢◌, refl, ap, sym, subst, ◌∙◌, inl, inr, true, false, Bytes, List, [], ◌∷◌, Option, some,
  ok, ◌=ᵇ◌, =ᵇ_sound, =ᵇ_iff, =ᵇ-refl, length, has_prefix, has_prefix-append, Bool-cases,
  if◌then◌else◌, arith,
}
use echain.Base.GoMap.{GoMap}
use echain.Types.{TxOutputs, Transaction, Block}
use echain.Platform.{Platform, generic_deserialize-encode}
use echain.LevelDb.{LevelDb, BatchOp, replay}
use echain.Blockchain.Utils.{last_hash_storage_key}
use echain.Blockchain.Block.{header_hash, get_hash, deserialize_block, zero_block}
use echain.Blockchain.Iterator.{get_value, current_block}
use echain.Blockchain.UtxoSet.{
  utxo_prefix, utxo_key, store_op, spend_ops, spend_op, collect_spent, update_with_new_transaction,
  update_with_transactions, update_with_new_block,
}
use echain.Blockchain.Chain.{BlockChain, store_new_block}
use echain.Blockchain.Chain.Linked.{IsSealed, IsStored, Linked, genesis, extend}
use echain.Blockchain.Chain.Sealing.{get_hash-IsSealed, length-header_hash, is_empty_of_length}
use echain.Blockchain.Chain.Unmatched.{block_hash, has_hash}

pub utxo_key-ne : (id k : Bytes) → has_prefix utxo_prefix k ≡ false → (utxo_key id =ᵇ k) ≡ false
utxo_key-ne id k h = elim (Bool-cases (utxo_key id =ᵇ k)) [
  | inl e ↦ cc (
    h,
    ap (has_prefix utxo_prefix) (=ᵇ_sound (utxo_key id) k e),
    has_prefix-append utxo_prefix id,
  )
  | inr e ↦ e
]

bytes-ne : (a b : Bytes) → length a ≢ length b → (a =ᵇ b) ≡ false
bytes-ne a b h = elim (Bool-cases (a =ᵇ b)) [
  | inl e ↦ absurd (h (ap length (=ᵇ_sound a b e)))
  | inr e ↦ e
]

pub last_hash_key-ne : (k : Bytes) → length k ≡ 32 → (last_hash_storage_key =ᵇ k) ≡ false
last_hash_key-ne k h = bytes-ne last_hash_storage_key k (omega arith)

module _ ⦃platform : Platform⦄ where
  replay-store_op_ne :
      (id k : Bytes) (os : TxOutputs) (ops : List BatchOp) (old : Option Bytes)
      → has_prefix utxo_prefix k ≡ false
      → replay (store_op id os ∷ ops) k old ≡ replay ops k old
  unfolding store_op replay
  replay-store_op_ne id k [] ops old h = rw (utxo_key-ne id k h)
  replay-store_op_ne id k (o ∷ os) ops old h = rw (utxo_key-ne id k h)

  replay-put_ne :
      (id k value : Bytes) (ops : List BatchOp) (old : Option Bytes)
      → has_prefix utxo_prefix k ≡ false
      → replay (BatchOp.put (utxo_key id) value ∷ ops) k old ≡ replay ops k old
  unfolding replay
  replay-put_ne id k value ops old h = rw (utxo_key-ne id k h)

  has_hash_self :
      (hash : Bytes) (block : Block) (older : List Block)
      → block_hash block ≡ hash
      → has_hash hash (block ∷ older) ≡ true
  has_hash_self hash block older h = ground (arith, =ᵇ_iff (block_hash block) hash)

  has_hash-length : (k : Bytes) (blocks : List Block) → has_hash k blocks ≡ true → length k ≡ 32
  has_hash-length k [] h = cc
  has_hash-length k (b ∷ blocks) h = elim (Bool-cases (block_hash b =ᵇ k)) [
    | inl e ↦
        subst (λ x. length x ≡ 32) (=ᵇ_sound (block_hash b) k e) (length-header_hash b.block_header)
    | inr e ↦ has_hash-length k blocks (ground arith)
  ]

  has_hash-ne :
      (hash k : Bytes) (blocks : List Block)
      → has_hash hash blocks ≡ false
      → has_hash k blocks ≡ true
      → (hash =ᵇ k) ≡ false
  has_hash-ne hash k blocks absent present = elim (Bool-cases (hash =ᵇ k)) [
    | inl e ↦ cc (absent, present, ap (λ (x : Bytes). has_hash x blocks) (=ᵇ_sound hash k e))
    | inr e ↦ e
  ]

module _ {Db : Type 0} ⦃level_db : LevelDb Db⦄ ⦃platform : Platform⦄ where
  replay-spend_ops_ne :
      (db : Db) (m : GoMap (List ℕ)) (k : Bytes) (old : Option Bytes)
      → has_prefix utxo_prefix k ≡ false
      → replay (spend_ops db m) k old ≡ old
  unfolding spend_ops spend_op
  replay-spend_ops_ne db [] k old h = unfold replay in refl
  replay-spend_ops_ne db ((id, ids) ∷ m) k old h =
      replay-store_op_ne id k _ (spend_ops db m) old h ∙ replay-spend_ops_ne db m k old h

  pub get-update_with_new_transaction :
      (db : Db) (t : Transaction) (k : Bytes)
      → has_prefix utxo_prefix k ≡ false
      → level_db.get (update_with_new_transaction db t) k ≡ level_db.get db k
  unfolding update_with_new_transaction
  get-update_with_new_transaction db t k h = rw level_db.get-write (
      replay-put_ne t.hash k _ (spend_ops db (collect_spent [] t.inputs)) (level_db.get db k) h
      ∙ replay-spend_ops_ne db (collect_spent [] t.inputs) k (level_db.get db k) h)

  pub get-update_with_transactions :
      (db : Db) (ts : List Transaction) (k : Bytes)
      → has_prefix utxo_prefix k ≡ false
      → level_db.get (update_with_transactions db ts) k ≡ level_db.get db k
  unfolding update_with_transactions
  get-update_with_transactions db [] k h = refl
  get-update_with_transactions db (t ∷ ts) k h =
      get-update_with_transactions (update_with_new_transaction db t) ts k h
      ∙ get-update_with_new_transaction db t k h

  -- Blocks stay stored where the database is as before.
  IsStored-frame :
      {db db' : Db} (hash : Bytes) (block : Block)
      → level_db.get db' hash ≡ level_db.get db hash
      → IsStored db hash block
      → IsStored db' hash block
  unfolding current_block get_value
  IsStored-frame hash block same s = record {
    at = rw (same, get_value) s.at;
    hashed = s.hashed;
    sealed = s.sealed;
    block_key = s.block_key;
  }

  -- A chain stays where the database is as before under the hashes of its blocks.
  pub Linked-frame :
      {db db' : Db} {hash : Bytes} {blocks : List Block}
      → ((k : Bytes)
          → has_hash k blocks ≡ true
          → has_prefix utxo_prefix k ≡ false
          → level_db.get db' k ≡ level_db.get db k)
      → Linked db hash blocks
      → Linked db' hash blocks
  Linked-frame same (genesis hash block s e) =
      genesis hash block
        (IsStored-frame hash block (same hash (has_hash_self hash block [] s.hashed) s.block_key) s)
        e
  Linked-frame same (extend hash block older s e l) =
      extend hash block older
        (IsStored-frame hash block (same hash (has_hash_self hash block older s.hashed) s.block_key)
          s)
        e (Linked-frame (λ k h p. same k (ground (arith, h)) p) l)

  Linked-hash_length :
      {db : Db} {hash : Bytes} {blocks : List Block} → Linked db hash blocks → length hash ≡ 32
  Linked-hash_length (genesis hash block s e) =
      ap length (sym s.hashed) ∙ length-header_hash block.block_header
  Linked-hash_length (extend hash block older s e l) =
      ap length (sym s.hashed) ∙ length-header_hash block.block_header

  -- The database after the three writes of StoreNewBlock.
  abbrev pub stored_db : Db → Bytes → Block → Db
  stored_db db hash sealed =
      update_with_new_block
        (level_db.put (level_db.put db hash (platform.gob_block.encode sealed))
          last_hash_storage_key hash)
        sealed

  get-stored_db :
      (db : Db) (hash k : Bytes) (sealed : Block)
      → length k ≡ 32
      → has_prefix utxo_prefix k ≡ false
      → level_db.get (stored_db db hash sealed) k
        ≡ (if hash =ᵇ k then some (platform.gob_block.encode sealed) else level_db.get db k)
  unfolding update_with_new_block
  get-stored_db db hash k sealed long key =
      get-update_with_transactions _ sealed.transactions k key
      ∙ rw (level_db.get-put, level_db.get-put, last_hash_key-ne k long)

  pub stored_db-IsStored :
      (db : Db) (hash : Bytes) (sealed : Block)
      → header_hash sealed.block_header ≡ hash
      → IsSealed sealed
      → has_prefix utxo_prefix hash ≡ false
      → IsStored (stored_db db hash sealed) hash sealed
  unfolding current_block get_value deserialize_block
  stored_db-IsStored db hash sealed hashed s key =
      let long = ap length (sym hashed) ∙ length-header_hash sealed.block_header in
      record {
        at =
            rw (get-stored_db db hash hash sealed long key, =ᵇ-refl hash, get_value)
              (generic_deserialize-encode platform.gob_block zero_block sealed);
        hashed = hashed;
        sealed = s;
        block_key = key;
      }

  -- StoreNewBlock of a block on top of a chain makes the chain longer by that block: it succeeds
  -- whenever the hash of the block can be computed, if no block of the chain has that hash and it
  -- is no key of the UTXO set.
  pub store_new_block-Linked :
      (fuel : ℕ) (chain : BlockChain Db) (blocks : List Block) (block sealed : Block) (hash : Bytes)
      → Linked chain.data_base chain.last_hash blocks
      → get_hash fuel block ≡ ok (hash, sealed)
      → block.prev_hash ≡ chain.last_hash
      → has_hash hash blocks ≡ false
      → has_prefix utxo_prefix hash ≡ false
      → (chain' : BlockChain Db) × (store_new_block fuel chain block ≡ ok chain')
        × (chain'.last_hash ≡ hash)
        × Linked chain'.data_base hash (sealed ∷ blocks)
  unfolding store_new_block
  store_new_block-Linked fuel chain blocks block sealed hash l ran on_top fresh key =
      let (hashed, s, same_transactions, same_prev) =
        get_hash-IsSealed fuel block hash sealed ran in
      let prev : sealed.prev_hash ≡ chain.last_hash = same_prev ∙ on_top in
      (
        record { data_base = stored_db chain.data_base hash sealed; last_hash = hash },
        rw ran,
        refl,
        extend hash sealed blocks (stored_db-IsStored chain.data_base hash sealed hashed s key)
            (is_empty_of_length sealed.prev_hash (ap length prev ∙ Linked-hash_length l))
            (subst (λ h. Linked (stored_db chain.data_base hash sealed) h blocks) (sym prev)
              (Linked-frame
                (λ k present free. rw (
                  get-stored_db chain.data_base hash k sealed (has_hash-length k blocks present)
                      free,
                  has_hash-ne hash k blocks fresh present,
                ))
                l)),
      )
