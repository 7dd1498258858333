-- ===== src/Tests/UtxoTests.antt =====
-- Blockchain/UtxoSet at concrete databases.
use echain.Base.{ℕ, ◌%◌, ◌≡◌, refl, ok, Bytes, [], ◌∷◌, ◌++◌, true, not, keep}
use echain.Base.GoInt
use echain.Base.GoInt.{modulus}
use echain.Base.GoMap.{GoMap, find_or}
use echain.Types.{TxOutputs}
use echain.Blockchain.Utils.{get_pubkey_hash_from_address}
use echain.Blockchain.UtxoSet.{
  index_outputs, outputs_at, update_with_new_transaction, update_with_new_block, find_utxo,
  find_spendable_output,
}
use echain.Blockchain.UtxoSet.Update.{refers_to, outputs_at-update_with_new_transaction}
use echain.Blockchain.UtxoSet.Ledger.{spent_in, created, outputs_at-update_with_new_block}
use echain.Blockchain.UtxoSet.Find.{has_owner, find_utxo-owned}
use echain.Blockchain.UtxoSet.Spend.{map_total, find_spendable_output-part}
use echain.Tests.ToyPlatform.{toy}
use echain.Tests.ToyDb.{ToyDb, toy_db}
use echain.Tests.Data.{empty_db, payment, three_transactions, address, owner}

outputs_at-update_with_new_transaction_example :
    outputs_at (update_with_new_transaction empty_db payment) (10 ∷ [])
    ≡ index_outputs 0 payment.outputs
unfolding refers_to
outputs_at-update_with_new_transaction_example =
    outputs_at-update_with_new_transaction empty_db payment (10 ∷ [])

outputs_at-update_with_new_block_example :
    outputs_at (update_with_new_block empty_db three_transactions) (10 ∷ [])
    ≡ keep
        (λ o. not (spent_in three_transactions.transactions (10 ∷ []) o.index))
        (created three_transactions.transactions (10 ∷ []) (outputs_at empty_db (10 ∷ [])))
unfolding refers_to
outputs_at-update_with_new_block_example =
    outputs_at-update_with_new_block empty_db three_transactions (10 ∷ [])
      (refl, refl, (refl, refl, (refl, refl, tt)))

address_valid : get_pubkey_hash_from_address address ≡ ok owner
unfolding get_pubkey_hash_from_address toy
address_valid = refl

find_utxo-owned_example :
    (m : GoMap TxOutputs) × (find_utxo (update_with_new_transaction empty_db payment) address
      ≡ ok m)
    × ((id : Bytes)
        → find_or [] m id
          ≡ keep (has_owner owner) (outputs_at (update_with_new_transaction empty_db payment) id))
find_utxo-owned_example =
    find_utxo-owned (update_with_new_transaction empty_db payment) address owner address_valid

abbrev funded : ToyDb
funded = update_with_new_transaction empty_db payment

find_spendable_output-part_example :
    (total : ℕ) × (m : GoMap TxOutputs) × (find_spendable_output funded address 20 ≡ ok (total, m))
    × (total ≡ map_total m % modulus)
    × ((id : Bytes)
        → (rest : TxOutputs) × (find_or [] m id ++ rest
            ≡ keep (has_owner owner) (outputs_at funded id)))
    × (GoInt.lt total 20 ≡ true
        → (id : Bytes) → find_or [] m id ≡ keep (has_owner owner) (outputs_at funded id))
find_spendable_output-part_example =
    find_spendable_output-part funded address owner 20 address_valid
