-- ===== src/Network/FullNode/NewTxn.antt =====
-- handleNewTxnMsg of network/fullnode.go.
use echain.Base.{
  ℕ, ◌||◌, Bytes, List, [], ◌∷◌, ◌++◌, Option, none, some, Run, ok, ◌>>=◌, ◌=ᵇ◌, exists,
  if◌then◌else◌,
}
use echain.Base.GoInt
use echain.Types.{TxInput, TxOutput, Transaction}
use echain.Platform.{Platform, generic_deserialize}
use echain.LevelDb.{LevelDb}
use echain.Blockchain.UtxoSet.{get_tx_output_from_tx_input}
use echain.Network.Messages.{NodeInfo, full_node, miner}
use echain.Network.Wire.{Wire, Sent}
use echain.Network.Script.{ScriptCheck, unlocked, wrong_public_key, wrong_signature, check_script}
use echain.Network.FullNode.{FullNode, send_new_txn_message}

-- The errors of handleNewTxnMsg.
pub data TxnError : Type 0 where
  missing_utxo invalid_public_key invalid_signature exceeds_input_amount : TxnError

pub data InputCheck : Type 0 where
  rejected : TxnError → InputCheck
  -- totalInputAmount
  paid : ℕ → InputCheck

abbrev pub zero_transaction : Transaction
zero_transaction = record { hash = []; inputs = []; outputs = []; locktime = 0 }

-- spentAmount
unfoldable pub spent_amount : ℕ → List TxOutput → ℕ
spent_amount spent [] = spent
spent_amount spent (o ∷ os) = spent_amount (GoInt.add spent o.value) os

-- What a check of a script says of the loop over the inputs.
abbrev pub next_input : ScriptCheck → Run InputCheck → Run InputCheck
next_input wrong_public_key rest = ok (rejected invalid_public_key)
next_input wrong_signature rest = ok (rejected invalid_signature)
next_input unlocked rest = rest

module _ {Db : Type 0} ⦃level_db : LevelDb Db⦄ ⦃platform : Platform⦄ where
  -- Step 1: the loop over the inputs.
  unfoldable pub check_inputs : Db → List TxInput → ℕ → Run InputCheck
  check_inputs db [] total = ok (paid total)
  check_inputs db (i ∷ is) total = elim (get_tx_output_from_tx_input db i) [
    | none ↦ ok (rejected missing_utxo)
    | some o ↦
        let rest = check_inputs db is (GoInt.add total o.value) in
        check_script i o >>= (λ check. next_input check rest)
  ]

module _ ⦃wire : Wire⦄ where
  unfoldable pub relay_new_txn : List NodeInfo → Transaction → List Sent
  relay_new_txn [] t = []
  relay_new_txn (p ∷ ps) t =
      if p.node_type =ᵇ full_node || p.node_type =ᵇ miner
      then send_new_txn_message p.address (record { transaction = t }) ∷ relay_new_txn ps t
      else relay_new_txn ps t

module _ {Db : Type 0} ⦃level_db : LevelDb Db⦄ ⦃platform : Platform⦄ ⦃wire : Wire⦄ where
  -- Step 3, and the errors before it.
  unfoldable pub admit :
      FullNode Db → Transaction → InputCheck → FullNode Db × List Sent × Option TxnError
  admit node t (rejected error) = (node, [], some error)
  admit node t (paid total) =
      if GoInt.lt total (spent_amount 0 t.outputs) then (node, [], some exceeds_input_amount) else (
        record node { mempool = node.mempool ++ t ∷ [] },
        relay_new_txn node.connected_peers t,
        none,
      )

  unfoldable pub handle_new_txn :
      FullNode Db → Transaction → Run (FullNode Db × List Sent × Option TxnError)
  handle_new_txn node t =
      if exists (λ txn. txn.hash =ᵇ t.hash) node.mempool
      then ok (node, [], none)
      else (do check ← check_inputs node.blockchain.data_base t.inputs 0; ok (admit node t check))

  -- The payload is read as a Transaction.
  unfoldable pub handle_new_txn_msg :
      FullNode Db → Bytes → Run (FullNode Db × List Sent × Option TxnError)
  handle_new_txn_msg node msg =
      handle_new_txn node (generic_deserialize platform.gob_transaction zero_transaction msg)
