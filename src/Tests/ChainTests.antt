-- ===== src/Tests/ChainTests.antt =====
-- Blockchain/Chain at a chain of two blocks.
use echain.Base.{
  ◌≡◌, refl, arith, false, ok, Bytes, [], ◌∷◌, ◌=ᵇ◌, not, keep, has_prefix, if◌then◌else◌,
}
use echain.Types.{Transaction, Block}
use echain.Blockchain.Utils.{get_double_sha256}
use echain.Blockchain.Block.{header_hash, get_hash, generate_genesis_block}
use echain.Blockchain.UtxoSet.{utxo_prefix, index_outputs, outputs_at, re_index}
use echain.Blockchain.UtxoSet.Ledger.{spent_in}
use echain.Blockchain.Chain.{BlockChain, store_new_block, init_block_chain, get_height}
use echain.Blockchain.Chain.Linked.{Linked}
use echain.Blockchain.Chain.Store.{store_new_block-Linked}
use echain.Blockchain.Chain.Restart.{init_block_chain-restarts}
use echain.Blockchain.Chain.Visit.{visited}
use echain.Blockchain.Chain.ReIndex.{re_index-outputs, re_index-unspent}
use echain.Tests.ToyPlatform.{toy}
use echain.Tests.ToyDb.{ToyDb, toy_db}
use echain.Tests.Data.{payment, reward, spending, value_of}
use echain.Tests.ChainData.{
  first_block, second_block, chain_db, stored_chain, chain, third_block, third_hash, stored_tip,
}

store_new_block-Linked_example :
    (chain' : BlockChain ToyDb) × (store_new_block 1 chain third_block ≡ ok chain')
    × (chain'.last_hash ≡ third_hash)
    × Linked chain'.data_base third_hash (third_block ∷ second_block ∷ first_block ∷ [])
unfolding get_hash header_hash get_double_sha256 toy
store_new_block-Linked_example =
    store_new_block-Linked 1 chain (second_block ∷ first_block ∷ []) third_block third_block
      third_hash stored_chain refl refl refl refl

re_index-outputs_example :
    (db' : ToyDb) × (re_index 2 chain_db ≡ ok db')
    × (outputs_at db' (10 ∷ [])
        ≡ keep
            (λ o. not (spent_in (payment ∷ []) (10 ∷ []) o.index))
            (index_outputs 0 payment.outputs))
unfolding visited
re_index-outputs_example =
    re_index-outputs 2 chain_db (second_block ∷ first_block ∷ []) [] payment
      (spending ∷ reward ∷ []) stored_tip (omega arith) refl refl

re_index-unspent_example :
    (db' : ToyDb) × (re_index 2 chain_db ≡ ok db')
    × (outputs_at db' (11 ∷ [])
        ≡ keep
            (λ o. not (spent_in (payment ∷ spending ∷ reward ∷ []) (11 ∷ []) o.index))
            (index_outputs 0 reward.outputs))
unfolding visited
re_index-unspent_example =
    re_index-unspent 2 chain_db (second_block ∷ first_block ∷ []) (payment ∷ spending ∷ []) reward
      [] stored_tip (omega arith) refl refl

abbrev genesis_block : Block
genesis_block = value_of first_block generate_genesis_block

genesis_made : generate_genesis_block ≡ ok genesis_block
unfolding generate_genesis_block echain.Blockchain.Transaction.create_txn_output
    echain.Blockchain.Utils.get_pubkey_hash_from_address toy
genesis_made = refl

abbrev genesis_hashed : Bytes × Block
genesis_hashed = value_of ([], first_block) (get_hash 1 genesis_block)

genesis_hashes : get_hash 1 genesis_block ≡ ok (genesis_hashed.0, genesis_hashed.1)
unfolding get_hash generate_genesis_block echain.Blockchain.Transaction.create_txn_output
    echain.Blockchain.Utils.get_pubkey_hash_from_address toy
    echain.Blockchain.Merkle.set_merkle_root echain.Blockchain.Merkle.root_loop
genesis_hashes = refl

genesis_key : has_prefix utxo_prefix genesis_hashed.0 ≡ false
unfolding get_hash generate_genesis_block echain.Blockchain.Transaction.create_txn_output
    echain.Blockchain.Utils.get_pubkey_hash_from_address toy
    echain.Blockchain.Merkle.set_merkle_root echain.Blockchain.Merkle.root_loop header_hash
    get_double_sha256
genesis_key = refl

-- The database of a node that has two blocks.
init_block_chain-restarts_example :
    (t : Transaction) × (restarted : BlockChain ToyDb) × (genesis_block.transactions ≡ t ∷ [])
    × (init_block_chain 1 chain.data_base ≡ ok restarted)
    × Linked restarted.data_base restarted.last_hash (genesis_hashed.1 ∷ [])
    × (get_height 1 restarted ≡ ok 1)
    × ((id : Bytes)
        → outputs_at restarted.data_base id
          ≡ (if t.hash =ᵇ id then index_outputs 0 t.outputs else []))
init_block_chain-restarts_example =
    init_block_chain-restarts 0 chain.data_base genesis_block genesis_hashed.1 genesis_hashed.0
      genesis_made genesis_hashes genesis_key
