-- ===== src/Wallet/Transfer/Balanced.antt =====
-- What the transaction of Transfer of wallet/wallets.go spends and pays.
use echain.Base.{
  ℕ, ◌<◌, ◌≤◌, ◌≡◌, refl, ap, ◌∙◌, Bool, true, false, Bytes, List, [], ◌∷◌, ◌++◌, map, Run, ok,
  timeout, panic, ◌>>=◌, if◌then◌else◌, arith,
}
use echain.Base.GoInt
use echain.Base.GoInt.{modulus, half}
use echain.Base.GoMap.{GoMap}
use echain.Types.{TxInput, TxOutput, TxOutputWithIndex, TxOutputs, Transaction}
use echain.Platform.{Platform}
use echain.Blockchain.Transaction.{create_txn_output, set_hash}
use echain.Wallet.Address.{Wallet}
use echain.Wallet.Transfer.{
  Selection, sent, failed, not_enough_balance, select_entries, sign_inputs, change_outputs,
  make_transaction, transfer_from,
}
use echain.Wallet.Transfer.Picked.{available, input_of, chosen_total, select_entries-Picks}

-- The values of outputs, added to an amount.
abbrev pub total_value : ℕ → List TxOutput → ℕ
total_value total [] = total
total_value total (o ∷ os) = total_value (GoInt.add total o.value) os

amounts_of_enough :
    (total amount : ℕ)
    → total < modulus
    → amount < half
    → GoInt.lt total amount ≡ false
    → (amount ≤ total) × (total < half)
unfolding GoInt.lt
amounts_of_enough total amount small small' enough = (ground arith, ground arith)

add_below : (a b : ℕ) → GoInt.add a b < modulus
unfolding GoInt.add
add_below a b = omega arith

add_zero : (a : ℕ) → a < half → GoInt.add 0 a ≡ a
unfolding GoInt.add
add_zero a h = omega arith

chosen_total-small :
    (total : ℕ) (cs : List (Bytes × TxOutputWithIndex))
    → total < modulus
    → chosen_total total cs < modulus
chosen_total-small total [] h = h
chosen_total-small total (c ∷ cs) h =
    chosen_total-small (GoInt.add total c.1.tx_output.value) cs
      (add_below total c.1.tx_output.value)

transfer_amount-small :
    (cs : List (Bytes × TxOutputWithIndex)) (s : Selection)
    → s.transfer_amount ≡ chosen_total 0 cs
    → s.transfer_amount < modulus
transfer_amount-small cs s e = omega (arith, e, chosen_total-small 0 cs (omega arith))

module _ ⦃platform : Platform⦄ where
  value-create_txn_output :
      (amount : ℕ) (to : Bytes) (o : TxOutput)
      → create_txn_output amount to ≡ ok o
      → o.value ≡ amount
  unfolding create_txn_output
  value-create_txn_output amount to o h = ground arith

  total_value-change_outputs :
      (from : Bytes) (total amount : ℕ) (change : List TxOutput)
      → amount ≤ total
      → total < half
      → change_outputs from total amount ≡ ok change
      → total_value amount change ≡ total
  unfolding change_outputs GoInt.lt GoInt.sub GoInt.add create_txn_output
  total_value-change_outputs from total amount change le small h = ground arith

  made_of_outputs :
      (payment : Run TxOutput) (change : Run (List TxOutput)) (ins : List TxInput) (now : ℕ)
      (t : Transaction)
      → (payment >>= (λ p. change >>= (λ c.
          ok (set_hash (record { hash = []; inputs = ins; outputs = p ∷ c; locktime = now })))))
        ≡ ok t
      → (p : TxOutput) × (c : List TxOutput) × (payment ≡ ok p)
        × (change ≡ ok c)
        × (t.outputs ≡ p ∷ c)
        × (t.inputs ≡ ins)
  unfolding set_hash
  made_of_outputs timeout change ins now t h = cc
  made_of_outputs panic change ins now t h = cc
  made_of_outputs (ok p) timeout ins now t h = cc
  made_of_outputs (ok p) panic ins now t h = cc
  made_of_outputs (ok p) (ok c) ins now t h = (p, c, refl, refl, cc h, cc h)

  transaction_of_sent :
      (short : Bool) (made : Run Transaction) (t : Transaction)
      → (if short then ok (failed not_enough_balance) else (made >>= (λ u. ok (sent u))))
        ≡ ok (sent t)
      → (short ≡ false) × (made ≡ ok t)
  transaction_of_sent true made t h = cc
  transaction_of_sent false timeout t h = cc
  transaction_of_sent false panic t h = cc
  transaction_of_sent false (ok u) t h = (refl, cc h)

  -- If Transfer of a non-negative amount sends a transaction, its inputs are the signed inputs for
  -- a first part of the outputs that the wallet was told of, in their order and each once, and
  -- what it pays out, the amount and the change, adds up to just what those outputs add up to
  -- (sums wrap at 2 ^ 64).
  pub transfer_from-balanced :
      (sign : Bytes → ℕ × ℕ) (now : ℕ) (wallet : Wallet) (utxo_map : GoMap TxOutputs)
      (from to : Bytes) (amount : ℕ) (t : Transaction)
      → amount < half
      → transfer_from sign now wallet utxo_map from to amount ≡ ok (sent t)
      → (chosen : List (Bytes × TxOutputWithIndex)) × (rest : List (Bytes × TxOutputWithIndex))
        × (available utxo_map ≡ chosen ++ rest)
        × (t.inputs ≡ sign_inputs sign (map (input_of wallet.public_key) chosen))
        × (total_value 0 t.outputs ≡ chosen_total 0 chosen)
  unfolding transfer_from make_transaction
  transfer_from-balanced sign now wallet utxo_map from to amount t small h =
      let start : Selection = record { transfer_amount = 0; new_txn_inputs = []; enough = false } in
      let s = select_entries wallet.public_key amount utxo_map start in
      let (chosen, rest, all, ins, total, _) =
        select_entries-Picks wallet.public_key amount utxo_map start in
      let (enough, made) =
        transaction_of_sent (GoInt.lt s.transfer_amount amount)
          (make_transaction sign now from to amount s) t h in
      let (p, c, paid, changed, outs, same_ins) =
        made_of_outputs (create_txn_output amount to) (change_outputs from s.transfer_amount amount)
          (sign_inputs sign s.new_txn_inputs) now t made in
      let (le, low) =
        amounts_of_enough s.transfer_amount amount (transfer_amount-small chosen s total) small
          enough in
      (
        chosen,
        rest,
        all,
        same_ins ∙ ap (sign_inputs sign) ins,
        ap (total_value 0) outs
            ∙ ap (λ v. total_value v c)
                (ap (GoInt.add 0) (value-create_txn_output amount to p paid)
                  ∙ add_zero amount small)
            ∙ total_value-change_outputs from s.transfer_amount amount c le low changed
            ∙ total,
      )
