-- ===== src/Blockchain/Transaction.antt =====
-- blockchain/transaction.go.
use echain.Base.{ℕ, Bool, Bytes, [], ◌∷◌, Run, ok, ◌>>=◌, ◌=ᵇ◌}
use echain.Types.{TxInput, TxOutput, Transaction}
use echain.Platform.{Platform}
use echain.Blockchain.Utils.{
  coinbase_reward, get_pubkey_hash_from_address, get_pubkey_hash_from_pubkey,
}

module _ ⦃platform : Platform⦄ where
  unfoldable pub create_txn_output : ℕ → Bytes → Run TxOutput
  create_txn_output amount address = do
    pub_key_hash ← get_pubkey_hash_from_address address
    ok (record { value = amount; script_pub_key = record { pub_key_hash = pub_key_hash } })

  -- TxInput.Hash, on a copy whose signature is cleared.
  unfoldable pub tx_input_hash : TxInput → Bytes
  tx_input_hash txn_input =
      let unsigned : TxInput = record txn_input {
        script_sig = record txn_input.script_sig { signature = [] };
      } in
      platform.sha256 (platform.gob_tx_input.encode unsigned)

  unfoldable pub set_hash : Transaction → Transaction
  set_hash transaction =
      let cleared : Transaction = record transaction { hash = [] } in
      record transaction { hash = platform.sha256 (platform.gob_transaction.encode cleared) }

  -- `now` is the clock in milliseconds.
  unfoldable pub coinbase_transaction : ℕ → Bytes → Run Transaction
  coinbase_transaction now to_address = do
    tx_output ← create_txn_output coinbase_reward to_address
    ok (set_hash (record { hash = []; inputs = []; outputs = tx_output ∷ []; locktime = now }))

  unfoldable pub is_signed_by : TxInput → Bytes → Run Bool
  is_signed_by tx_input address = do
    pub_key_hash ← get_pubkey_hash_from_address address
    ok (get_pubkey_hash_from_pubkey tx_input.script_sig.pub_key =ᵇ pub_key_hash)

  unfoldable pub is_bound_to : TxOutput → Bytes → Run Bool
  is_bound_to tx_output address = do
    pub_key_hash ← get_pubkey_hash_from_address address
    ok (tx_output.script_pub_key.pub_key_hash =ᵇ pub_key_hash)
