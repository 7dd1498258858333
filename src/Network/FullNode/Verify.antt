-- ===== src/Network/FullNode/Verify.antt =====
-- verifyTransaction, verifyBlock and storeNewBlock of network/fullnode.go.
use echain.Base.{
  ℕ, Bool, true, false, not, List, [], ◌∷◌, Option, none, some, Run, ok, panic, ◌>>=◌, ltb,
  get_elem?, if◌then◌else◌,
}
use echain.Base.GoMap.{GoMap, find}
use echain.Types.{TxInput, TxOutput, Transaction, Block}
use echain.Platform.{Platform}
use echain.LevelDb.{LevelDb}
use echain.Blockchain.Utils.{target_hash, is_coinbase_transaction, set_bytes}
use echain.Blockchain.Block.{get_hash}
use echain.Blockchain.UtxoSet.{update_with_new_block}
use echain.Blockchain.Chain.{get_transaction_map_from_inputs, set_block, set_last_hash}
use echain.Network.Script.{ScriptCheck, unlocked, wrong_public_key, wrong_signature, check_script}
use echain.Network.FullNode.{FullNode}

-- txnMap[TxID].Outputs[VOut]. A missing transaction is a zero one, without outputs; an index out of
-- range, a negative one too, panics.
unfoldable pub referenced_utxo : GoMap Transaction → TxInput → Option TxOutput
referenced_utxo txn_map i = elim (find txn_map i.tx_id) [
  | none ↦ none
  | some t ↦ get_elem? t.outputs i.v_out
]

abbrev pub is_unlocked : ScriptCheck → Bool
is_unlocked unlocked = true
is_unlocked wrong_public_key = false
is_unlocked wrong_signature = false

module _ ⦃platform : Platform⦄ where
  unfoldable pub verify_inputs : GoMap Transaction → List TxInput → Run Bool
  verify_inputs txn_map [] = ok true
  verify_inputs txn_map (i ∷ is) =
      let rest = verify_inputs txn_map is in
      elim (referenced_utxo txn_map i) [
        | none ↦ panic
        | some referenced ↦
            check_script i referenced >>= (λ check. if is_unlocked check then rest else ok false)
      ]

module _ {Db : Type 0} ⦃level_db : LevelDb Db⦄ ⦃platform : Platform⦄ where
  unfoldable pub verify_transaction : ℕ → FullNode Db → Transaction → Run Bool
  verify_transaction fuel node t = if is_coinbase_transaction t then ok true else (do
    txn_map ← get_transaction_map_from_inputs fuel node.blockchain t
    verify_inputs txn_map t.inputs)

  unfoldable pub verify_transactions : ℕ → FullNode Db → List Transaction → Run Bool
  verify_transactions fuel node [] = ok true
  verify_transactions fuel node (t ∷ ts) = do
    valid ← verify_transaction fuel node t
    let rest = verify_transactions fuel node ts
    if valid then rest else ok false

  -- Transactions[0] panics where there is none.
  unfoldable pub verify_sealed : ℕ → FullNode Db → List Transaction → Run Bool
  verify_sealed fuel node [] = panic
  verify_sealed fuel node (first ∷ transactions) =
      if not (is_coinbase_transaction first)
      then ok false
      else verify_transactions fuel node (first ∷ transactions)

  -- GetHash may set the merkle root of the block: the block afterwards is returned too.
  unfoldable pub verify_block : ℕ → FullNode Db → Block → Run (Bool × Block)
  verify_block fuel node block = do
    (hash, sealed) ← get_hash fuel block
    if not (ltb (set_bytes hash) target_hash)
        then ok (false, sealed)
        else (verify_sealed fuel node sealed.transactions >>= (λ valid. ok (valid, sealed)))

  unfoldable pub store_new_block : ℕ → FullNode Db → Block → Run (FullNode Db × Block)
  store_new_block fuel node block = do
    (with_block, sealed) ← set_block fuel node.blockchain block
    (hash, sealed') ← get_hash fuel sealed
    let chain = set_last_hash with_block hash
    ok (
      record node {
        blockchain = record chain { data_base = update_with_new_block chain.data_base sealed' };
      },
      sealed',
    )
