-- ===== src/Tests/WalletTests.antt =====
-- Wallet/Transfer and Wallet/Keys at a concrete wallet.
use echain.Base.{
  ℕ, ◌+◌, ◌≤◌, ◌≡◌, ◌⊎◌, ◌↔◌, refl, ap, sym, subst, false, inl, inr, arith, ok, true, false, some,
  Bytes, List, [], ◌∷◌, ◌++◌, map, length, Bool-cases, ◌=ᵇ◌, if◌then◌else◌,
}
use mathlib.Core.List.{Permᴰ}
use echain.Base.GoMap.{GoMap}
use echain.Types.{TxOutputWithIndex, TxOutputs, Transaction}
use echain.Blockchain.Utils.{
  get_pubkey_hash_from_address, get_pubkey_hash_from_pubkey,
  get_ecdsa_pubkey_from_uncompressed_pubkey,
}
use echain.Blockchain.Transaction.{set_hash}
use echain.Blockchain.UtxoSet.{find_utxo, outputs_at, update_with_new_transaction}
use echain.Blockchain.UtxoSet.Find.Answer.{DistinctIndexes}
use echain.Blockchain.UtxoSet.Update.{outputs_at-update_with_new_transaction}
use echain.Blockchain.UtxoSet.{deserialize_txn_outputs, index_outputs}
use echain.Blockchain.UtxoSet.Update.{refers_to}
use echain.Blockchain.Iterator.{get_value}
use echain.Platform.{Gob, generic_deserialize, generic_deserialize-encode}
use echain.Network.Messages.{miner}
use echain.Network.FullNode.{FullNode}
use echain.Network.FullNode.NewTxn.{handle_new_txn_msg}
use echain.Network.FullNode.Admission.{admitted}
use echain.Wallet.Address
use echain.Wallet.Address.{Wallet, pub_key_hash}
use echain.Wallet.Keys.{int_bytes, create_wallet}
use echain.Wallet.Keys.Halves.{create_wallet-decodes}
use echain.Wallet.Transfer.{
  Selection, Transferred, failed, no_utxos, sent, select_entries, sign_inputs, make_transaction,
  transfer_from, create_txn_input,
}
use echain.Wallet.Transfer.Picked.{available, input_of, chosen_total}
use echain.Wallet.Transfer.Balanced.{total_value, transfer_from-balanced}
use echain.Wallet.Transfer.Admitted.{Signs, AllBalanced, transfer_from-admitted}
use echain.Tests.ToyPlatform.{toy}
use echain.Tests.ToyDb.{ToyDb, toy_db}
use echain.Tests.ToyWire.{toy_wire}
use echain.Tests.Data.{address, owner, output, empty_db}

abbrev pub wallet : Wallet
wallet = record { private_key = 3; public_key = 4 ∷ 20 ∷ 21 ∷ [] }

abbrev sign : Bytes → ℕ × ℕ
sign hash = (20, 9)

abbrev told : GoMap TxOutputs
told =
    (
      10 ∷ [],
      record { tx_output = output 30 owner; index = 0 }
          ∷ record { tx_output = output 12 owner; index = 1 }
          ∷ [],
    )
    ∷ []

abbrev paid : Transaction
paid = set_hash (record {
  hash = [];
  inputs = sign_inputs sign (create_txn_input (10 ∷ []) 0 wallet.public_key ∷ []);
  outputs = output 20 owner ∷ output 10 owner ∷ [];
  locktime = 5;
})

transferred : transfer_from sign 5 wallet told address address 20 ≡ ok (sent paid)
unfolding transfer_from echain.Base.GoInt.lt select_entries echain.Wallet.Transfer.select_outputs
    echain.Base.GoInt.add make_transaction echain.Blockchain.Transaction.create_txn_output
    get_pubkey_hash_from_address toy echain.Wallet.Transfer.change_outputs set_hash
    echain.Base.GoInt.sub sign_inputs
transferred = refl

transfer_from-balanced_example :
    (chosen : List (Bytes × TxOutputWithIndex)) × (rest : List (Bytes × TxOutputWithIndex))
    × (available told ≡ chosen ++ rest)
    × (paid.inputs ≡ sign_inputs sign (map (input_of wallet.public_key) chosen))
    × (total_value 0 paid.outputs ≡ chosen_total 0 chosen)
transfer_from-balanced_example =
    transfer_from-balanced sign 5 wallet told address address 20 paid (omega arith) transferred

-- Two outputs that are locked by the key of the wallet, and what is made of them.
abbrev funding : Transaction
funding = record {
  hash = 30 ∷ [];
  inputs = [];
  outputs = output 5 (pub_key_hash wallet) ∷ output 8 (pub_key_hash wallet) ∷ [];
  locktime = 0;
}

abbrev pub funded : FullNode ToyDb
funded = record {
  p2p = record {
    version = 1;
    network_address = 60 ∷ [];
    connected_peers = record { node_type = miner; address = 70 ∷ [] } ∷ [];
    forwarded_addr_list = [];
  };
  blockchain = record { data_base = update_with_new_transaction empty_db funding; last_hash = [] };
  connected_spv_bloom_filter_map = [];
  getdata_message_count = 0;
  mempool = [];
}

abbrev answer : GoMap TxOutputs
answer =
    (
      30 ∷ [],
      record { tx_output = output 5 (pub_key_hash wallet); index = 0 }
          ∷ record { tx_output = output 8 (pub_key_hash wallet); index = 1 }
          ∷ [],
    )
    ∷ []

answered : find_utxo funded.blockchain.data_base (Address.address wallet) ≡ ok answer
unfolding find_utxo echain.Blockchain.UtxoSet.bound_entries toy_db update_with_new_transaction
    echain.Blockchain.UtxoSet.bound_outputs echain.Blockchain.UtxoSet.deserialize_txn_outputs
    echain.Platform.generic_deserialize toy echain.Blockchain.UtxoSet.index_outputs pub_key_hash
    echain.Blockchain.Transaction.is_bound_to get_pubkey_hash_from_address Address.address
    Address.get_checksum
answered = refl

abbrev spent : Transaction
spent = set_hash (record {
  hash = [];
  inputs = sign_inputs sign (
      create_txn_input (30 ∷ []) 0 wallet.public_key
      ∷ create_txn_input (30 ∷ []) 1 wallet.public_key
      ∷ []);
  outputs = output 7 owner ∷ output 6 (pub_key_hash wallet) ∷ [];
  locktime = 5;
})

spent_made : transfer_from sign 5 wallet answer (Address.address wallet) address 7 ≡ ok (sent spent)
unfolding transfer_from echain.Base.GoInt.lt select_entries echain.Wallet.Transfer.select_outputs
    echain.Base.GoInt.add make_transaction echain.Blockchain.Transaction.create_txn_output
    get_pubkey_hash_from_address toy echain.Wallet.Transfer.change_outputs Address.address
    pub_key_hash Address.get_checksum set_hash echain.Base.GoInt.sub sign_inputs
spent_made = refl

funding-DistinctIndexes : (id : Bytes) → DistinctIndexes (outputs_at funded.blockchain.data_base id)
unfolding refers_to index_outputs outputs_at deserialize_txn_outputs get_value
    echain.Platform.generic_deserialize toy toy_db
funding-DistinctIndexes id =
    subst DistinctIndexes (sym (outputs_at-update_with_new_transaction empty_db funding id))
      (elim (Bool-cases (funding.hash =ᵇ id)) [ inl e ↦ rw e (refl, (refl, tt)) | inr e ↦ rw e tt ])

wallet-Signs : Signs sign wallet.public_key
unfolding get_ecdsa_pubkey_from_uncompressed_pubkey echain.Blockchain.Utils.set_bytes_from toy
wallet-Signs = record { x = 20; y = 21; has_key = refl; accepts = λ hash. refl }

own_address :
    get_pubkey_hash_from_address (Address.address wallet)
    ≡ ok (get_pubkey_hash_from_pubkey wallet.public_key)
unfolding get_pubkey_hash_from_address toy Address.address pub_key_hash Address.get_checksum
    get_pubkey_hash_from_pubkey
own_address = refl

spent-AllBalanced : AllBalanced sign spent.inputs
unfolding sign_inputs set_hash int_bytes
spent-AllBalanced = (inl refl, (inl refl, tt))

transfer_from-admitted_example :
    handle_new_txn_msg funded (toy.gob_transaction.encode spent) ≡ ok (admitted funded spent)
transfer_from-admitted_example =
    transfer_from-admitted sign 5 wallet answer answer (Address.address wallet) address 7 spent
      funded (omega arith) wallet-Signs spent-AllBalanced own_address funding-DistinctIndexes
      answered (Permᴰ.cons refl Permᴰ.nil) spent_made refl

create_wallet-decodes_example :
    (get_ecdsa_pubkey_from_uncompressed_pubkey (create_wallet 3 300 7).public_key ≡ ok (300, 7)) ↔ (
      (length (int_bytes 300) ≡ length (int_bytes 7))
      ⊎ (length (int_bytes 300) + 1 ≡ length (int_bytes 7)))
create_wallet-decodes_example = create_wallet-decodes 3 300 7
