-- ===== src/Blockchain/Chain/Restart.antt =====
-- InitBlockChain of blockchain/blockchain.go, and StoreNewBlock of a block without a previous hash.
use echain.Base.{
  ℕ, suc, ◌≡◌, refl, ap, sym, subst, ◌∙◌, true, false, Bytes, List, [], ◌∷◌, Option, none, some,
  Run, ok, panic, timeout, ◌>>=◌, ◌=ᵇ◌, keep, is_empty, has_prefix, if◌then◌else◌, arith, codes,
}
use mathlib.Core.List.{append-nil}
use echain.Types.{TxOutput, TxOutputs, TxOutputWithIndex, Transaction, Block}
use echain.Platform.{Platform}
use echain.LevelDb.{LevelDb}
use echain.Blockchain.Utils.{last_hash_storage_key}
use echain.Blockchain.Block.{get_hash, generate_genesis_block}
use echain.Blockchain.Transaction.{set_hash}
use echain.Blockchain.Iterator.{get_value}
use echain.Blockchain.UtxoSet.{utxo_prefix, index_outputs, outputs_at, update_with_new_block}
use echain.Blockchain.UtxoSet.Ledger.{spent_in}
use echain.Blockchain.UtxoSet.Update.{spends}
use echain.Blockchain.Chain.{BlockChain, store_new_block, init_block_chain, get_height}
use echain.Blockchain.Chain.Height.{get_height-length}
use echain.Blockchain.Chain.Linked.{Linked, genesis, get_hash-sealed}
use echain.Blockchain.Chain.Sealing.{get_hash-IsSealed}
use echain.Blockchain.Chain.Store.{stored_db, stored_db-IsStored, get-update_with_transactions}
use echain.Blockchain.Chain.Visit.{visited, visited_outputs}
use echain.Blockchain.Chain.ReIndex.{re_index-Linked}

module _ {Db : Type 0} ⦃level_db : LevelDb Db⦄ ⦃platform : Platform⦄ where
  get_value-stored_db :
      (db : Db) (hash : Bytes) (sealed : Block)
      → get_value (stored_db db hash sealed) last_hash_storage_key ≡ hash
  unfolding update_with_new_block get_value
  get_value-stored_db db hash sealed =
      let put =
        level_db.put (level_db.put db hash (platform.gob_block.encode sealed)) last_hash_storage_key
          hash in
      let found : level_db.get (stored_db db hash sealed) last_hash_storage_key ≡ some hash =
        get-update_with_transactions put sealed.transactions last_hash_storage_key refl
        ∙ level_db.get-put _ last_hash_storage_key last_hash_storage_key hash in
      ap (λ (o : Option Bytes). elim o [ none ↦ [] | some value ↦ value ]) found

  -- StoreNewBlock of a block without a previous hash succeeds if GetHash does. The chain is then
  -- that block alone, whatever it was before.
  pub store_new_block-root :
      (fuel : ℕ) (chain : BlockChain Db) (block sealed : Block) (hash : Bytes)
      → get_hash fuel block ≡ ok (hash, sealed)
      → is_empty block.prev_hash ≡ true
      → has_prefix utxo_prefix hash ≡ false
      → (chain' : BlockChain Db) × (store_new_block fuel chain block ≡ ok chain')
        × (chain'.last_hash ≡ hash)
        × (get_value chain'.data_base last_hash_storage_key ≡ hash)
        × Linked chain'.data_base hash (sealed ∷ [])
  unfolding store_new_block
  store_new_block-root fuel chain block sealed hash ran root key =
      let (hashed, s, same_transactions, same_prev) =
        get_hash-IsSealed fuel block hash sealed ran in
      (
        record { data_base = stored_db chain.data_base hash sealed; last_hash = hash },
        rw ran,
        refl,
        get_value-stored_db chain.data_base hash sealed,
        genesis hash sealed (stored_db-IsStored chain.data_base hash sealed hashed s key)
            (ap is_empty same_prev ∙ root),
      )

module _ ⦃platform : Platform⦄ where
  -- The one transaction of the genesis block has no inputs.
  genesis_of :
      (output : Run TxOutput) (block : Block)
      → (output >>= (λ o. ok (record {
        block_header = record {
          timestamp = codes "2009-01-03 00:00:00 +0000 UTC";
          prev_hash = [];
          merkle_root = [];
          nonce = 4436;
        };
        transactions =
            set_hash (record { hash = []; inputs = []; outputs = o ∷ []; locktime = 1230940800000 })
            ∷ [];
      })))
        ≡ ok block
      → (t : Transaction) × (block.transactions ≡ t ∷ []) × (t.inputs ≡ []) × (block.prev_hash ≡ [])
  unfolding set_hash
  genesis_of timeout block h = cc
  genesis_of panic block h = cc
  genesis_of (ok o) block h = (
    set_hash (record { hash = []; inputs = []; outputs = o ∷ []; locktime = 1230940800000 }),
    cc h,
    refl,
    cc h,
  )

  genesis_transaction :
      (block : Block)
      → generate_genesis_block ≡ ok block
      → (t : Transaction) × (block.transactions ≡ t ∷ []) × (t.inputs ≡ []) × (block.prev_hash ≡ [])
  unfolding generate_genesis_block
  genesis_transaction block h = genesis_of _ block h

  keep_all : (os : TxOutputs) → keep (λ (o : TxOutputWithIndex). true) os ≡ os
  keep_all [] = refl
  keep_all (o ∷ os) = ap (◌∷◌ o) (keep_all os)

  -- The visit of one transaction without inputs.
  visited_outputs-one :
      (t : Transaction) (id : Bytes)
      → t.inputs ≡ []
      → visited_outputs [] (t ∷ []) id [] ≡ (if t.hash =ᵇ id then index_outputs 0 t.outputs else [])
  unfolding visited_outputs spent_in spends
  visited_outputs-one t id no_inputs = rw no_inputs (rw (keep_all (index_outputs 0 t.outputs)))

module _ {Db : Type 0} ⦃level_db : LevelDb Db⦄ ⦃platform : Platform⦄ where
  -- InitBlockChain on any database, so also on that of a node that is started again: it succeeds if
  -- the genesis block can be made and hashed and its hash is no key of the UTXO set. The chain is
  -- then the genesis block alone, the height is 1, and the UTXO set has nothing but the outputs of
  -- the genesis transaction.
  pub init_block_chain-restarts :
      (fuel : ℕ) (db : Db) (block sealed : Block) (hash : Bytes)
      → generate_genesis_block ≡ ok block
      → get_hash (suc fuel) block ≡ ok (hash, sealed)
      → has_prefix utxo_prefix hash ≡ false
      → (t : Transaction) × (chain : BlockChain Db) × (block.transactions ≡ t ∷ [])
        × (init_block_chain (suc fuel) db ≡ ok chain)
        × Linked chain.data_base chain.last_hash (sealed ∷ [])
        × (get_height (suc fuel) chain ≡ ok 1)
        × ((id : Bytes)
            → outputs_at chain.data_base id
              ≡ (if t.hash =ᵇ id then index_outputs 0 t.outputs else []))
  unfolding init_block_chain visited
  init_block_chain-restarts fuel db block sealed hash made ran key =
      let (t, one, no_inputs, root) = genesis_transaction block made in
      let (hashed, s, same_transactions, same_prev) =
        get_hash-IsSealed (suc fuel) block hash sealed ran in
      let again : get_hash (suc fuel) sealed ≡ ok (hash, sealed) =
        get_hash-sealed fuel sealed s ∙ ap (λ (x : Bytes). ok (x, sealed)) hashed in
      let (stored, stores, last, tip, linked) =
        store_new_block-root (suc fuel) (record { data_base = db; last_hash = hash }) sealed sealed
          hash again (ap is_empty (same_prev ∙ root)) key in
      let from_tip = subst (λ h. Linked stored.data_base h (sealed ∷ [])) (sym tip) linked in
      let (db', indexed, kept, outputs) =
        re_index-Linked (suc fuel) stored.data_base (sealed ∷ []) from_tip (omega arith) in
      let chain : BlockChain Db = record stored { data_base = db' } in
      let linked' : Linked db' chain.last_hash (sealed ∷ []) =
        subst (λ h. Linked db' h (sealed ∷ [])) (tip ∙ sym last) kept in
      (
        t,
        chain,
        one,
        rw (made, ran, stores, indexed),
        linked',
        get_height-length (suc fuel) chain (sealed ∷ []) linked' (omega arith),
        λ id.
            outputs id
            ∙ ap (λ (ts : List Transaction). visited_outputs [] ts id [])
                (append-nil sealed.transactions ∙ same_transactions ∙ one)
            ∙ visited_outputs-one t id no_inputs,
      )
