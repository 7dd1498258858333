-- ===== src/Wallet/Transfer.antt =====
-- Transfer of wallet/wallets.go, up to the broadcast. The key store, the answer of an SPV node to
-- the request for unspent outputs, the clock and ecdsa.Sign, which gives two
-- numbers r and s for a key and a hash, are arguments.
pub mod Picked
pub mod Balanced
pub mod Admitted
use echain.Base.{
  ℕ, Bool, true, false, not, Bytes, List, [], ◌∷◌, ◌++◌, map, Option, none, some, Run, ok, ◌>>=◌,
  if◌then◌else◌,
}
use echain.Base.GoInt
use echain.Base.GoMap.{GoMap, find}
use echain.Types.{TxInput, TxOutput, TxOutputWithIndex, TxOutputs, Transaction}
use echain.Platform.{Platform}
use echain.Blockchain.Transaction.{create_txn_output, set_hash, tx_input_hash}
use echain.Wallet.Address.{Wallet}
use echain.Wallet.Keys.{int_bytes}

-- The errors of Transfer.
pub data TransferError : Type 0 where
  unknown_address no_utxos not_enough_balance : TransferError

pub data Transferred : Type 0 where
  failed : TransferError → Transferred
  -- the transaction that is sent
  sent : Transaction → Transferred

-- The state of the loops; `enough` records `break OuterLoop`.
pub record Selection : Type 0 where
  pub transfer_amount : ℕ
  pub new_txn_inputs : List TxInput
  pub enough : Bool

unfoldable pub create_txn_input : Bytes → ℕ → Bytes → TxInput
create_txn_input txn_id v_out pubkey = record {
  tx_id = txn_id;
  v_out = v_out;
  script_sig = record { signature = []; pub_key = pubkey };
}

unfoldable pub select_outputs : Bytes → ℕ → Bytes → TxOutputs → Selection → Selection
select_outputs pubkey amount txn_id [] s = s
select_outputs pubkey amount txn_id (o ∷ os) s =
    let s' : Selection = record {
      transfer_amount = GoInt.add s.transfer_amount o.tx_output.value;
      new_txn_inputs = s.new_txn_inputs ++ create_txn_input txn_id o.index pubkey ∷ [];
      enough = not (GoInt.lt (GoInt.add s.transfer_amount o.tx_output.value) amount);
    } in
    let rest = select_outputs pubkey amount txn_id os s' in if s'.enough then s' else rest

-- Go does not say in which order it runs through a map: the map may be any list of the entries.
unfoldable pub select_entries : Bytes → ℕ → GoMap TxOutputs → Selection → Selection
select_entries pubkey amount [] s = s
select_entries pubkey amount ((txn_id, outputs) ∷ entries) s =
    let s' = select_outputs pubkey amount txn_id outputs s in
    let rest = select_entries pubkey amount entries s' in if s'.enough then s' else rest

-- append(r.Bytes(), s.Bytes()...)
unfoldable pub join_signature : ℕ × ℕ → Bytes
join_signature (r, s) = int_bytes r ++ int_bytes s

module _ ⦃platform : Platform⦄ where
  -- signTransaction; `sign` is ecdsa.Sign with the key: one of its random results for each hash.
  unfoldable pub sign_inputs : (Bytes → ℕ × ℕ) → List TxInput → List TxInput
  sign_inputs sign [] = []
  sign_inputs sign (i ∷ is) =
      record i {
        script_sig = record i.script_sig { signature = join_signature (sign (tx_input_hash i)) };
      }
      ∷ sign_inputs sign is

  unfoldable pub change_outputs : Bytes → ℕ → ℕ → Run (List TxOutput)
  change_outputs from_address transfer_amount amount =
      if GoInt.lt amount transfer_amount
      then create_txn_output (GoInt.sub transfer_amount amount) from_address >>= (λ o. ok (o ∷ []))
      else ok []

  unfoldable pub make_transaction :
      (Bytes → ℕ × ℕ) → ℕ → Bytes → Bytes → ℕ → Selection → Run Transaction
  make_transaction sign now from_address to_address amount s = do
    payment ← create_txn_output amount to_address
    change ← change_outputs from_address s.transfer_amount amount
    ok (
        set_hash (record {
          hash = [];
          inputs = sign_inputs sign s.new_txn_inputs;
          outputs = payment ∷ change;
          locktime = now;
        }))

  unfoldable pub transfer_from :
      (Bytes → ℕ × ℕ) → ℕ → Wallet → GoMap TxOutputs → Bytes → Bytes → ℕ → Run Transferred
  transfer_from sign now wallet utxo_map from_address to_address amount =
      let s =
        select_entries wallet.public_key amount utxo_map
          (record { transfer_amount = 0; new_txn_inputs = []; enough = false }) in
      if GoInt.lt s.transfer_amount amount
      then ok (failed not_enough_balance)
      else (make_transaction sign now from_address to_address amount s >>= (λ t. ok (sent t)))

  unfoldable pub transfer :
      (Wallet → Bytes → ℕ × ℕ)
      → ℕ
      → GoMap Wallet
      → Option (GoMap TxOutputs)
      → Bytes
      → Bytes
      → ℕ
      → Run Transferred
  transfer sign now wallets utxos from_address to_address amount =
      elim (find wallets from_address) [
        | none ↦ ok (failed unknown_address)
        | some wallet ↦ elim utxos [
          | none ↦ ok (failed no_utxos)
          | some utxo_map ↦
              transfer_from (sign wallet) now wallet utxo_map from_address to_address amount
        ]
      ]

-- GetBalance, on the answer of getUTXOs.
unfoldable pub outputs_balance : ℕ → TxOutputs → ℕ
outputs_balance balance [] = balance
outputs_balance balance (o ∷ os) = outputs_balance (GoInt.add balance o.tx_output.value) os

unfoldable pub entries_balance : ℕ → GoMap TxOutputs → ℕ
entries_balance balance [] = balance
entries_balance balance ((txn_id, outputs) ∷ entries) =
    entries_balance (outputs_balance balance outputs) entries

unfoldable pub get_balance : Option (GoMap TxOutputs) → ℕ
get_balance none = 0
get_balance (some utxo_map) = entries_balance 0 utxo_map
