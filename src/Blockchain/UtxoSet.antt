-- ===== src/Blockchain/UtxoSet.antt =====
-- blockchain/utxoset.go: the unspent transaction outputs, in the database under "utxo-" and the
-- id of their transaction.
pub mod Update
pub mod Find
pub mod Ledger
pub mod Spend
use echain.Base.{
  ℕ, zero, suc, Bool, true, false, not, Bytes, codes, List, [], ◌∷◌, ◌++◌, Option, none, some, Run,
  ok, timeout, ◌>>=◌, ◌=ᵇ◌, ◌==◌, keep, drop, contains, is_empty, if◌then◌else◌,
}
use echain.Base.GoInt
use echain.Base.GoMap.{GoMap, find_or, append_to}
use echain.Types.{TxInput, TxOutput, TxOutputWithIndex, TxOutputs, Transaction, Block}
use echain.Platform.{Platform, generic_deserialize}
use echain.LevelDb.{LevelDb, BatchOp}
use echain.Blockchain.Utils.{last_hash_storage_key}
use echain.Blockchain.Transaction.{is_bound_to}
use echain.Blockchain.Iterator.{get_value, current_block}

abbrev pub utxo_prefix : Bytes
utxo_prefix = codes "utxo-"

abbrev pub utxo_prefix_length : ℕ
utxo_prefix_length = 5

abbrev pub utxo_key : Bytes → Bytes
utxo_key id = utxo_prefix ++ id

-- The loop over the inputs: which outputs of which transaction they spend.
unfoldable pub collect_spent : GoMap (List ℕ) → List TxInput → GoMap (List ℕ)
collect_spent spent [] = spent
collect_spent spent (i ∷ is) = collect_spent (append_to spent i.tx_id i.v_out) is

-- The loop over the outputs, which pairs each with its position.
unfoldable pub index_outputs : ℕ → List TxOutput → TxOutputs
index_outputs i [] = []
index_outputs i (o ∷ os) = record { tx_output = o; index = i } ∷ index_outputs (suc i) os

-- The state of the loops of FindSpendableOutput. `found` records `break OuterLoop`.
pub record Search : Type 0 where
  pub accumulated_amount : ℕ
  pub utxo_map : GoMap TxOutputs
  pub found : Bool

module _ ⦃platform : Platform⦄ where
  unfoldable pub deserialize_txn_outputs : Bytes → TxOutputs
  deserialize_txn_outputs = generic_deserialize platform.gob_tx_outputs []

  -- The inner loop of FindSpendableOutput.
  unfoldable pub spend_outputs : Bytes → ℕ → Bytes → TxOutputs → Search → Run Search
  spend_outputs address amount txn_id [] s = ok s
  spend_outputs address amount txn_id (o ∷ os) s = do
    bound ← is_bound_to o.tx_output address
    let s' =
        if bound
        then record s {
          accumulated_amount = GoInt.add s.accumulated_amount o.tx_output.value;
          utxo_map = append_to s.utxo_map txn_id o;
        }
        else s
    let rest = spend_outputs address amount txn_id os s'
    if not (GoInt.lt s'.accumulated_amount amount) then ok (record s' { found = true }) else rest

  unfoldable pub spend_entries : Bytes → ℕ → GoMap Bytes → Search → Run Search
  spend_entries address amount [] s = ok s
  spend_entries address amount ((key, value) ∷ entries) s = do
    s' ←
        spend_outputs address amount (drop utxo_prefix_length key) (deserialize_txn_outputs value) s
    let rest = spend_entries address amount entries s'
    if s'.found then ok s' else rest

  -- The inner loop of FindUTXO.
  unfoldable pub bound_outputs : Bytes → Bytes → TxOutputs → GoMap TxOutputs → Run (GoMap TxOutputs)
  bound_outputs address txn_id [] m = ok m
  bound_outputs address txn_id (o ∷ os) m = do
    bound ← is_bound_to o.tx_output address
    bound_outputs address txn_id os (if bound then append_to m txn_id o else m)

  unfoldable pub bound_entries : Bytes → GoMap Bytes → GoMap TxOutputs → Run (GoMap TxOutputs)
  bound_entries address [] m = ok m
  bound_entries address ((key, value) ∷ entries) m = do
    m' ← bound_outputs address (drop utxo_prefix_length key) (deserialize_txn_outputs value) m
    bound_entries address entries m'

-- The first output with the index.
unfoldable pub find_output : ℕ → TxOutputs → Option TxOutput
find_output v_out [] = none
find_output v_out (o ∷ os) = if o.index == v_out then some o.tx_output else find_output v_out os

-- The deletion batch of ReIndex.
unfoldable pub delete_entries : GoMap Bytes → List BatchOp
delete_entries [] = []
delete_entries ((key, value) ∷ entries) = BatchOp.delete key ∷ delete_entries entries

module _ ⦃platform : Platform⦄ where
  -- Put, or Delete if nothing is left.
  unfoldable pub store_op : Bytes → TxOutputs → BatchOp
  store_op id [] = BatchOp.delete (utxo_key id)
  store_op id (o ∷ os) = BatchOp.put (utxo_key id) (platform.gob_tx_outputs.encode (o ∷ os))

module _ {Db : Type 0} ⦃level_db : LevelDb Db⦄ ⦃platform : Platform⦄ where
  unfoldable pub find_spendable_output : Db → Bytes → ℕ → Run (ℕ × GoMap TxOutputs)
  find_spendable_output db address amount = do
    s ←
        spend_entries address amount (level_db.iterate db utxo_prefix)
          (record { accumulated_amount = 0; utxo_map = []; found = false })
    ok (s.accumulated_amount, s.utxo_map)

  unfoldable pub find_utxo : Db → Bytes → Run (GoMap TxOutputs)
  find_utxo db address = bound_entries address (level_db.iterate db utxo_prefix) []

  -- The outputs that the set has for a transaction.
  unfoldable pub outputs_at : Db → Bytes → TxOutputs
  outputs_at db id = deserialize_txn_outputs (get_value db (utxo_key id))

  -- The entry of the batch for a transaction of which outputs are spent.
  unfoldable pub spend_op : Db → Bytes → List ℕ → BatchOp
  unfolding store_op
  spend_op db id spent_ids =
      store_op id (keep (λ o. not (contains spent_ids o.index)) (outputs_at db id))

  unfoldable pub spend_ops : Db → GoMap (List ℕ) → List BatchOp
  spend_ops db [] = []
  spend_ops db ((id, spent_ids) ∷ spent) = spend_op db id spent_ids ∷ spend_ops db spent

  unfoldable pub update_with_new_transaction : Db → Transaction → Db
  unfolding spend_ops collect_spent
  update_with_new_transaction db t = level_db.write db (
      BatchOp.put (utxo_key t.hash) (platform.gob_tx_outputs.encode (index_outputs 0 t.outputs))
      ∷ spend_ops db (collect_spent [] t.inputs))

  unfoldable pub update_with_transactions : Db → List Transaction → Db
  update_with_transactions db [] = db
  update_with_transactions db (t ∷ ts) =
      update_with_transactions (update_with_new_transaction db t) ts

  unfoldable pub update_with_new_block : Db → Block → Db
  unfolding update_with_transactions
  update_with_new_block db block = update_with_transactions db block.transactions

  unfoldable pub get_tx_output_from_tx_input : Db → TxInput → Option TxOutput
  unfolding find_output
  get_tx_output_from_tx_input db txn_input =
      find_output txn_input.v_out (outputs_at db txn_input.tx_id)

  -- The loop of ReIndex over the transactions of a block.
  unfoldable pub re_index_transactions :
      Db → GoMap (List ℕ) → List Transaction → Db × GoMap (List ℕ)
  re_index_transactions db spent [] = (db, spent)
  re_index_transactions db spent (t ∷ ts) =
      let spent' : GoMap (List ℕ) = collect_spent spent t.inputs in
      let unspent : TxOutputs =
        keep (λ o. not (contains (find_or [] spent' t.hash) o.index)) (index_outputs 0 t.outputs) in
      re_index_transactions
        (level_db.put db (utxo_key t.hash) (platform.gob_tx_outputs.encode unspent)) spent' ts

  -- The loop of ReIndex over the chain, from the newest block.
  unfoldable pub re_index_loop : ℕ → Db → GoMap (List ℕ) → Bytes → Run Db
  re_index_loop zero db spent current_hash = timeout
  re_index_loop (suc fuel) db spent current_hash =
      let block = current_block db current_hash in
      let (db', spent') = re_index_transactions db spent block.transactions in
      let rest = re_index_loop fuel db' spent' block.prev_hash in
      if is_empty block.prev_hash then ok db' else rest

  unfoldable pub re_index : ℕ → Db → Run Db
  re_index fuel db =
      let cleared = level_db.write db (delete_entries (level_db.iterate db utxo_prefix)) in
      re_index_loop fuel cleared [] (get_value cleared last_hash_storage_key)
