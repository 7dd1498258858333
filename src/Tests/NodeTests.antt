-- ===== src/Tests/NodeTests.antt =====
-- Network/FullNode at concrete nodes.
use echain.Base.{
  ℕ, ◌≡◌, ◌↔◌, refl, arith, ok, Bytes, List, [], ◌∷◌, ◌++◌, true, false, some, drop, ltb, codes,
}
use echain.Base.GoInt
use echain.Types.{TxInput, TxOutput, Transaction}
use echain.Platform.{generic_deserialize}
use echain.Blockchain.Utils.{
  get_double_sha256, get_pubkey_hash_from_pubkey, get_ecdsa_pubkey_from_uncompressed_pubkey,
  set_bytes, target_hash,
}
use echain.Blockchain.Block.{header_hash, get_hash}
use echain.Blockchain.UtxoSet.{update_with_new_transaction, get_tx_output_from_tx_input}
use echain.Blockchain.Chain.{BlockChain}
use echain.Blockchain.Chain.Unmatched.{block_hash}
use echain.Network.Messages.{NodeInfo, AddrMessage, version_msg, msg_type_length}
use echain.Network.Wire.{Sent}
use echain.Network.Utils.{msg_type_to_bytes, get_msg_type}
use echain.Network.Utils.Prefix.{msg_type_to_bytes-get_msg_type}
use echain.Network.Script.Unlocked.{IsUnlocked}
use echain.Network.FullNode.{
  FullNode, send_inv_message, send_header_message, send_get_blocks_msg, send_addr_msg,
}
use echain.Network.FullNode.Verify.{verify_transaction, verify_block, store_new_block}
use echain.Blockchain.Chain.Visit.{visited}
use echain.Network.FullNode.Verified.{AllUnlocked, output_in, verify_transaction-AllUnlocked}
use echain.Network.FullNode.Accepted.{StartsWithCoinbase, verify_block-accepted}
use echain.Network.FullNode.NewTxn.{spent_amount, handle_new_txn, missing_utxo}
use echain.Network.FullNode.Admission.{
  done, Pays, admitted, handle_new_txn-Pays, handle_new_txn-rejected, handle_new_txn-twice,
}
use echain.Network.FullNode.Sync.{getdata_messages, reply_getblocks}
use echain.Network.FullNode.Sync.Reply.{reply_getblocks-newer}
use echain.Network.FullNode.Batches.{IsBatched, requested, getdata_messages-IsBatched}
use echain.Tests.ToyPlatform.{toy}
use echain.Tests.ToyDb.{ToyDb, toy_db}
use echain.Tests.ToyWire.{toy_wire}
use echain.Tests.Data.{empty_db, output, spending}
use echain.Tests.ChainData.{
  first_block, second_block, second_hash, third_block, chain, stored_chain,
}

abbrev peer : NodeInfo
peer = record { node_type = codes "miner"; address = 70 ∷ [] }

abbrev node_of : BlockChain ToyDb → FullNode ToyDb
node_of chain = record {
  p2p = record {
    version = 1;
    network_address = 60 ∷ [];
    connected_peers = peer ∷ [];
    forwarded_addr_list = [];
  };
  blockchain = chain;
  connected_spv_bloom_filter_map = [];
  getdata_message_count = 0;
  mempool = [];
}

-- The toy platform takes a signature for valid if r is the first coordinate of the key.
abbrev key : Bytes
key = 4 ∷ 20 ∷ 21 ∷ []

abbrev coin : TxOutput
coin = output 5 (get_pubkey_hash_from_pubkey key)

abbrev funding : Transaction
funding = record { hash = 30 ∷ []; inputs = []; outputs = coin ∷ []; locktime = 0 }

abbrev coin_input : TxInput
coin_input = record {
  tx_id = 30 ∷ [];
  v_out = 0;
  script_sig = record { signature = 20 ∷ 9 ∷ []; pub_key = key };
}

abbrev transfer : List TxInput → ℕ → Transaction
transfer inputs amount = record {
  hash = 31 ∷ [];
  inputs = inputs;
  outputs = output amount (7 ∷ []) ∷ [];
  locktime = 0;
}

abbrev funded : FullNode ToyDb
funded =
    node_of (record { data_base = update_with_new_transaction empty_db funding; last_hash = [] })

coin_found : get_tx_output_from_tx_input funded.blockchain.data_base coin_input ≡ some coin
unfolding get_tx_output_from_tx_input echain.Blockchain.UtxoSet.outputs_at
    echain.Blockchain.UtxoSet.deserialize_txn_outputs generic_deserialize toy
    echain.Blockchain.Iterator.get_value toy_db update_with_new_transaction
    echain.Blockchain.UtxoSet.index_outputs get_pubkey_hash_from_pubkey
coin_found = refl

coin-IsUnlocked : IsUnlocked coin_input coin
unfolding get_pubkey_hash_from_pubkey get_ecdsa_pubkey_from_uncompressed_pubkey
    echain.Blockchain.Utils.set_bytes_from toy
coin-IsUnlocked = (refl, 20, 21, refl, refl)

handle_new_txn-Pays_example :
    (handle_new_txn funded (transfer (coin_input ∷ []) 5)
      ≡ ok (admitted funded (transfer (coin_input ∷ []) 5)))
    ↔ ((total : ℕ) × Pays funded.blockchain.data_base (coin_input ∷ []) 0 total
        × (GoInt.lt total (spent_amount 0 (output 5 (7 ∷ []) ∷ [])) ≡ false))
handle_new_txn-Pays_example = handle_new_txn-Pays funded (transfer (coin_input ∷ []) 5) refl

-- Four outputs of 2^62 are worth 0 in all, so that nothing has to be spent for them.
abbrev huge : TxOutput
huge = output 4611686018427387904 (7 ∷ [])

abbrev minting : Transaction
minting = record {
  hash = 32 ∷ [];
  inputs = [];
  outputs = huge ∷ huge ∷ huge ∷ huge ∷ [];
  locktime = 0;
}

minted : handle_new_txn funded minting ≡ ok (admitted funded minting)
unfolding GoInt.lt GoInt.add spent_amount
minted = (handle_new_txn-Pays funded minting refl).1 (0, done 0, refl)

handle_new_txn-twice_example :
    handle_new_txn funded (transfer (coin_input ∷ coin_input ∷ []) 10)
    ≡ ok (admitted funded (transfer (coin_input ∷ coin_input ∷ []) 10))
unfolding GoInt.lt GoInt.add spent_amount
handle_new_txn-twice_example =
    handle_new_txn-twice funded (transfer (coin_input ∷ coin_input ∷ []) 10) coin_input coin refl
      coin_found coin-IsUnlocked refl refl

unfunded :
    handle_new_txn (node_of chain) (transfer (coin_input ∷ []) 5)
    ≡ ok (node_of chain, [], some missing_utxo)
unfolding handle_new_txn echain.Network.FullNode.NewTxn.check_inputs get_tx_output_from_tx_input
    echain.Blockchain.UtxoSet.outputs_at echain.Blockchain.UtxoSet.deserialize_txn_outputs
    generic_deserialize toy echain.Blockchain.Iterator.get_value toy_db header_hash
    get_double_sha256 echain.Network.FullNode.NewTxn.admit
unfunded = refl

handle_new_txn-rejected_example : (node_of chain ≡ node_of chain) × (◌≡◌ {A = List Sent} [] [])
handle_new_txn-rejected_example =
    handle_new_txn-rejected (node_of chain) (transfer (coin_input ∷ []) 5) (node_of chain) []
      missing_utxo unfunded

verify_transaction-AllUnlocked_example :
    (verify_transaction 2 (node_of chain) spending ≡ ok true)
    ↔ AllUnlocked (output_in (visited (second_block ∷ first_block ∷ []))) spending.inputs
unfolding echain.Blockchain.Utils.is_coinbase_transaction
verify_transaction-AllUnlocked_example =
    verify_transaction-AllUnlocked 2 (node_of chain) (second_block ∷ first_block ∷ []) spending
      stored_chain (omega arith) refl

third_accepted : verify_block 1 (node_of chain) third_block ≡ ok (true, third_block)
unfolding verify_block get_hash echain.Blockchain.Utils.set_bytes_from header_hash get_double_sha256
    toy echain.Network.FullNode.Verify.verify_sealed echain.Blockchain.Utils.is_coinbase_transaction
    echain.Network.FullNode.Verify.verify_transactions verify_transaction
third_accepted = refl

verify_block-accepted_example :
    (hash : Bytes) × (get_hash 1 third_block ≡ ok (hash, third_block))
    × (ltb (set_bytes hash) target_hash ≡ true)
    × StartsWithCoinbase 1 (node_of chain) third_block.transactions
verify_block-accepted_example =
    verify_block-accepted 1 (node_of chain) third_block third_block third_accepted

reply_getblocks-newer_example :
    reply_getblocks 2
      (node_of chain)
      (record { top_block_hash = block_hash first_block; addr_from = 70 ∷ [] })
    ≡ ok (send_inv_message (70 ∷ []) (record { hash_list = second_hash ∷ [] }) ∷ [])
unfolding header_hash get_double_sha256 toy
reply_getblocks-newer_example =
    reply_getblocks-newer 2 (node_of chain) (70 ∷ []) second_block [] first_block [] stored_chain
      refl (omega arith)

getdata_messages-IsBatched_example :
    IsBatched (60 ∷ []) 0 (getdata_messages (60 ∷ []) [] ((1 ∷ []) ∷ (2 ∷ []) ∷ []))
    × (requested (getdata_messages (60 ∷ []) [] ((1 ∷ []) ∷ (2 ∷ []) ∷ []))
        ≡ (1 ∷ []) ∷ (2 ∷ []) ∷ [])
getdata_messages-IsBatched_example = getdata_messages-IsBatched (60 ∷ []) ((1 ∷ []) ∷ (2 ∷ []) ∷ [])

abbrev addr : AddrMessage
addr = record { address = 70 ∷ [] }

abbrev after_addr : FullNode ToyDb
after_addr = record (node_of chain) {
  p2p = record (node_of chain).p2p { forwarded_addr_list = (70 ∷ []) ∷ [] };
}

msg_type_to_bytes-get_msg_type_example :
    (prefix : Bytes) × (msg_type_to_bytes version_msg ≡ ok prefix)
    × (get_msg_type (prefix ++ 1 ∷ 2 ∷ []) ≡ version_msg)
    × (drop msg_type_length (prefix ++ 1 ∷ 2 ∷ []) ≡ 1 ∷ 2 ∷ [])
msg_type_to_bytes-get_msg_type_example =
    msg_type_to_bytes-get_msg_type version_msg (1 ∷ 2 ∷ []) (omega arith) refl
