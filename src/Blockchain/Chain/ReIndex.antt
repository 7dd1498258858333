-- ===== src/Blockchain/Chain/ReIndex.antt =====
-- ReIndex of blockchain/utxoset.go on a chain of blocks.
use echain.Base.{
  ℕ, zero, suc, ◌≤◌, ◌≡◌, refl, ap, sym, ◌∙◌, inl, inr, Bool, true, false, not, ◌||◌, Bytes, List,
  [], ◌∷◌, ◌++◌, Option, none, some, ok, ◌=ᵇ◌, =ᵇ_sound, keep, exists, length, has_prefix,
  has_prefix-append, Bool-cases, if◌then◌else◌, arith,
}
use mathlib.Core.List.{append-nil}
use echain.Base.GoMap.{GoMap, find, AllKeys}
use echain.Types.{TxOutputs, Transaction, Block}
use echain.Platform.{Platform}
use echain.LevelDb.{LevelDb, replay}
use echain.Blockchain.Utils.{last_hash_storage_key}
use echain.Blockchain.Iterator.{get_value}
use echain.Blockchain.UtxoSet.{
  utxo_prefix, utxo_key, collect_spent, index_outputs, outputs_at, delete_entries,
  re_index_transactions, re_index_loop, re_index,
}
use echain.Blockchain.UtxoSet.Update.{
  refers_to, outputs_of, outputs_of-encode, outputs_at-get, keep_ext,
}
use echain.Blockchain.UtxoSet.Ledger.{spent_in}
use echain.Blockchain.Chain.Linked.{Linked, genesis, extend, Linked-length}
use echain.Blockchain.Chain.Store.{utxo_key-ne, Linked-frame}
use echain.Blockchain.Chain.Visit.{
  visited, visited_outputs, Recorded, Recorded-append, unspent, unspent-Recorded, Recorded-nil,
  visited_outputs-none, visited_outputs-last, unnamed_of_unreferenced, spent_in-unreferenced,
}

replay-delete_none : (m : GoMap Bytes) (k : Bytes) → replay (delete_entries m) k none ≡ none
unfolding replay delete_entries
replay-delete_none [] k = refl
replay-delete_none ((j, v) ∷ m) k = ground (arith, replay-delete_none m k)

replay-delete_entries :
    (m : GoMap Bytes) (k : Bytes) (old : Option Bytes)
    → find m k ≡ old
    → replay (delete_entries m) k old ≡ none
unfolding replay delete_entries
replay-delete_entries [] k old h = cc
replay-delete_entries ((j, v) ∷ m) k old h =
    ground (arith, replay-delete_none m k, replay-delete_entries m k old)

replay-delete_entries_ne :
    (prefix : Bytes) (m : GoMap Bytes) (k : Bytes) (old : Option Bytes)
    → AllKeys (λ j. has_prefix prefix j ≡ true) m
    → has_prefix prefix k ≡ false
    → replay (delete_entries m) k old ≡ old
unfolding replay delete_entries
replay-delete_entries_ne prefix [] k old a h = refl
replay-delete_entries_ne prefix ((j, v) ∷ m) k old a h = elim (Bool-cases (j =ᵇ k)) [
  | inl e ↦ cc (a.0, h, ap (has_prefix prefix) (=ᵇ_sound j k e))
  | inr e ↦
      ap (λ (b : Bool). replay (delete_entries m) k (if b then none else old)) e
      ∙ replay-delete_entries_ne prefix m k old a.1 h
]

module _ {Db : Type 0} ⦃level_db : LevelDb Db⦄ ⦃platform : Platform⦄ where
  get-put_ne :
      (db : Db) (id k value : Bytes)
      → has_prefix utxo_prefix k ≡ false
      → level_db.get (level_db.put db (utxo_key id) value) k ≡ level_db.get db k
  get-put_ne db id k value h =
      level_db.get-put db (utxo_key id) k value
      ∙ ap (λ (b : Bool). if b then some value else level_db.get db k) (utxo_key-ne id k h)

  outputs_at-put :
      (db : Db) (id j : Bytes) (os : TxOutputs)
      → outputs_at (level_db.put db (utxo_key id) (platform.gob_tx_outputs.encode os)) j
        ≡ (if id =ᵇ j then os else outputs_at db j)
  outputs_at-put db id j os =
      rw (outputs_at-get _ j, level_db.get-put)
        (ground (arith, outputs_of-encode os, outputs_at-get db j))

  abbrev re_put : Db → GoMap (List ℕ) → Transaction → Db
  re_put db spent t =
      level_db.put db (utxo_key t.hash) (platform.gob_tx_outputs.encode (unspent spent t))

  outputs_at-re_index_transactions :
      (db : Db) (spent : GoMap (List ℕ)) (before ts : List Transaction) (id : Bytes)
      → Recorded spent before
      → outputs_at (re_index_transactions db spent ts).0 id
        ≡ visited_outputs before ts id (outputs_at db id)
  unfolding re_index_transactions visited_outputs
  outputs_at-re_index_transactions db spent before [] id r = refl
  outputs_at-re_index_transactions db spent before (t ∷ ts) id r =
      let spent' = collect_spent spent t.inputs in
      let r' = Recorded-append spent before t r in
      outputs_at-re_index_transactions (re_put db spent' t) spent' (before ++ t ∷ []) ts id r'
      ∙ ap (visited_outputs (before ++ t ∷ []) ts id) (
          outputs_at-put db t.hash id (unspent spent' t)
          ∙ unspent-Recorded spent' (before ++ t ∷ []) t id (outputs_at db id) r')

  re_index_transactions-append :
      (db : Db) (spent : GoMap (List ℕ)) (ts us : List Transaction)
      → re_index_transactions db spent (ts ++ us) ≡ (
          let (db', spent') = re_index_transactions db spent ts in
          re_index_transactions db' spent' us)
  unfolding re_index_transactions
  re_index_transactions-append db spent [] us = refl
  re_index_transactions-append db spent (t ∷ ts) us =
      let spent' = collect_spent spent t.inputs in
      re_index_transactions-append (re_put db spent' t) spent' ts us

  get-re_index_transactions :
      (db : Db) (spent : GoMap (List ℕ)) (ts : List Transaction) (k : Bytes)
      → has_prefix utxo_prefix k ≡ false
      → level_db.get (re_index_transactions db spent ts).0 k ≡ level_db.get db k
  unfolding re_index_transactions
  get-re_index_transactions db spent [] k h = refl
  get-re_index_transactions db spent (t ∷ ts) k h =
      let spent' = collect_spent spent t.inputs in
      get-re_index_transactions (re_put db spent' t) spent' ts k h ∙ get-put_ne db t.hash k _ h

  re_index_loop-visited :
      (fuel : ℕ) (db : Db) (spent : GoMap (List ℕ)) (hash : Bytes) (blocks : List Block)
      → Linked db hash blocks
      → length blocks ≤ fuel
      → re_index_loop fuel db spent hash ≡ ok (re_index_transactions db spent (visited blocks)).0
  unfolding re_index_loop visited
  re_index_loop-visited zero db spent hash blocks l h = absurd (omega (arith, Linked-length l))
  re_index_loop-visited (suc fuel) db spent hash _ (genesis _ block s e) h =
      rw (s.at, e, append-nil)
  re_index_loop-visited (suc fuel) db spent hash _ (extend _ block older s e l) h =
      let (db', spent') = re_index_transactions db spent block.transactions in
      let l' =
        Linked-frame
          (λ k present free. get-re_index_transactions db spent block.transactions k free) l in
      rw (s.at, e, re_index_transactions-append db spent block.transactions (visited older))
        (re_index_loop-visited fuel db' spent' block.prev_hash older l' (omega arith))

  -- The database after the deletion of all entries of the UTXO set.
  abbrev cleared : Db → Db
  cleared db = level_db.write db (delete_entries (level_db.iterate db utxo_prefix))

  get-cleared_ne :
      (db : Db) (k : Bytes)
      → has_prefix utxo_prefix k ≡ false
      → level_db.get (cleared db) k ≡ level_db.get db k
  get-cleared_ne db k h =
      level_db.get-write db _ k
      ∙ replay-delete_entries_ne utxo_prefix _ k (level_db.get db k)
          (level_db.iterate-AllKeys db utxo_prefix) h

  outputs_at-cleared : (db : Db) (id : Bytes) → outputs_at (cleared db) id ≡ []
  unfolding outputs_of
  outputs_at-cleared db id =
      rw
        (
          outputs_at-get (cleared db) id,
          level_db.get-write,
          replay-delete_entries (level_db.iterate db utxo_prefix) (utxo_key id)
              (level_db.get db (utxo_key id))
              (level_db.find-iterate db utxo_prefix (utxo_key id)
                (has_prefix-append utxo_prefix id)),
        )
        refl

  get_value-same :
      (db db' : Db) (k : Bytes)
      → level_db.get db' k ≡ level_db.get db k
      → get_value db' k ≡ get_value db k
  unfolding get_value
  get_value-same db db' k h = ap (λ (o : Option Bytes). elim o [ none ↦ [] | some value ↦ value ]) h

  -- ReIndex of a chain is the visit of its transactions in an empty set.
  re_index-visited :
      (fuel : ℕ) (db : Db) (blocks : List Block)
      → Linked db (get_value db last_hash_storage_key) blocks
      → length blocks ≤ fuel
      → re_index fuel db ≡ ok (re_index_transactions (cleared db) [] (visited blocks)).0
  unfolding re_index
  re_index-visited fuel db blocks l h =
      ap (re_index_loop fuel (cleared db) []) (
        get_value-same db (cleared db) last_hash_storage_key
          (get-cleared_ne db last_hash_storage_key refl))
      ∙ (re_index_loop-visited fuel (cleared db) [] _ blocks
          (Linked-frame (λ k present free. get-cleared_ne db k free) l) h)

  -- What ReIndex of a chain leaves: the chain, and under each id what the visit of the transactions
  -- from nothing gives.
  pub re_index-Linked :
      (fuel : ℕ) (db : Db) (blocks : List Block)
      → Linked db (get_value db last_hash_storage_key) blocks
      → length blocks ≤ fuel
      → (db' : Db) × (re_index fuel db ≡ ok db')
        × Linked db' (get_value db last_hash_storage_key) blocks
        × ((id : Bytes) → outputs_at db' id ≡ visited_outputs [] (visited blocks) id [])
  re_index-Linked fuel db blocks l h = (
    (re_index_transactions (cleared db) [] (visited blocks)).0,
    re_index-visited fuel db blocks l h,
    Linked-frame
        (λ k present free.
          get-re_index_transactions (cleared db) [] (visited blocks) k free
          ∙ get-cleared_ne db k free)
        l,
    λ id.
        outputs_at-re_index_transactions (cleared db) [] [] (visited blocks) id
          (λ j x. Recorded-nil j x)
        ∙ ap (visited_outputs [] (visited blocks) id) (outputs_at-cleared db id),
  )

  -- ReIndex ends on every chain of at most as many blocks as there is fuel. Of a transaction t of the
  -- chain it then has the outputs that neither t nor a transaction that the loop visits before t
  -- spends. The loop visits the blocks from the newest and each block from its first transaction;
  -- t is the last one visited with its hash.
  pub re_index-outputs :
      (fuel : ℕ) (db : Db) (blocks : List Block) (before : List Transaction) (t : Transaction)
      (after : List Transaction)
      → Linked db (get_value db last_hash_storage_key) blocks
      → length blocks ≤ fuel
      → visited blocks ≡ before ++ t ∷ after
      → exists (λ u. u.hash =ᵇ t.hash) after ≡ false
      → (db' : Db) × (re_index fuel db ≡ ok db')
        × (outputs_at db' t.hash
            ≡ keep
                (λ o. not (spent_in (before ++ t ∷ []) t.hash o.index))
                (index_outputs 0 t.outputs))
  re_index-outputs fuel db blocks before t after l h split last = (
    (re_index_transactions (cleared db) [] (visited blocks)).0,
    re_index-visited fuel db blocks l h,
    outputs_at-re_index_transactions (cleared db) [] [] (visited blocks) t.hash
          (λ id x. Recorded-nil id x)
        ∙ ap (λ ts. visited_outputs [] ts t.hash (outputs_at (cleared db) t.hash)) split
        ∙ visited_outputs-last [] before t after _ last,
  )

  -- ReIndex leaves nothing under the id of no transaction of the chain, whatever the set had.
  pub re_index-unknown :
      (fuel : ℕ) (db : Db) (blocks : List Block) (id : Bytes)
      → Linked db (get_value db last_hash_storage_key) blocks
      → length blocks ≤ fuel
      → exists (λ u. u.hash =ᵇ id) (visited blocks) ≡ false
      → (db' : Db) × (re_index fuel db ≡ ok db') × (outputs_at db' id ≡ [])
  re_index-unknown fuel db blocks id l h none_has = (
    (re_index_transactions (cleared db) [] (visited blocks)).0,
    re_index-visited fuel db blocks l h,
    outputs_at-re_index_transactions (cleared db) [] [] (visited blocks) id
          (λ j x. Recorded-nil j x)
        ∙ visited_outputs-none [] (visited blocks) id _ none_has
        ∙ outputs_at-cleared db id,
  )

  -- On a chain where no transaction visited after t spends an output of t or has its hash, ReIndex
  -- leaves under the hash of t exactly its unspent outputs: those that no transaction of the whole
  -- chain spends.
  pub re_index-unspent :
      (fuel : ℕ) (db : Db) (blocks : List Block) (before : List Transaction) (t : Transaction)
      (after : List Transaction)
      → Linked db (get_value db last_hash_storage_key) blocks
      → length blocks ≤ fuel
      → visited blocks ≡ before ++ t ∷ after
      → exists (λ u. refers_to u.inputs t.hash || (u.hash =ᵇ t.hash)) after ≡ false
      → (db' : Db) × (re_index fuel db ≡ ok db')
        × (outputs_at db' t.hash
            ≡ keep
                (λ o. not (spent_in (visited blocks) t.hash o.index))
                (index_outputs 0 t.outputs))
  re_index-unspent fuel db blocks before t after l h split last =
      let (db', ran, stored) =
        re_index-outputs fuel db blocks before t after l h split
          (unnamed_of_unreferenced t.hash after last) in
      (
        db',
        ran,
        stored
            ∙ keep_ext (λ o. not (spent_in (before ++ t ∷ []) t.hash o.index))
                (λ o. not (spent_in (visited blocks) t.hash o.index)) (index_outputs 0 t.outputs)
                (λ o. ap not (
                  spent_in-unreferenced before t after o.index last
                  ∙ ap (λ ts. spent_in ts t.hash o.index) (sym split))),
      )
