-- ===== src/Tests/MinerTests.antt =====
-- Network/Miner, the blocks of miners in Network/FullNode, and Wallet at concrete inputs.
use echain.Base.{Bytes, ◌≡◌, refl, arith, List, ok, inl, ◌⊎◌, [], ◌∷◌, true}
use echain.Types.{Transaction, Block}
use echain.Blockchain.Utils.{
  is_coinbase_transaction, get_address_from_pubkey, get_pubkey_hash_from_address,
  get_pubkey_hash_from_pubkey,
}
use echain.Network.FullNode.{FullNode}
use echain.Network.FullNode.Verify.{verify_transactions, verify_block}
use echain.Network.Miner.{with_nonce, mine_block}
use echain.Network.Miner.Nonce.{meets_target, mine_block-least}
use echain.Network.Miner.Mined.{verify_block-mined}
use echain.Wallet.Address.{Wallet, address, is_address_valid}
use echain.Wallet.Valid.{is_address_valid-address}
use echain.Tests.ToyPlatform.{toy}
use echain.Tests.ToyDb.{ToyDb, toy_db}
use echain.Tests.Data.{reward}
use echain.Blockchain.Utils.{last_hash_storage_key, get_double_sha256}
use echain.Blockchain.Block.{get_hash, header_hash}
use echain.Blockchain.UtxoSet.{update_with_new_block}
use echain.Blockchain.Chain.Linked.{Linked}
use echain.Network.Wire.{Sent}
use echain.Network.FullNode.Blockdata.{
  on_new_block, spread_block, notify_all, notify_peers, relay_blocks,
}
use echain.Blockchain.Utils.{set_bytes_from}
use echain.Blockchain.Chain.{get_height, set_block, set_last_hash}
use echain.Network.FullNode.Verify.{store_new_block, verify_sealed, verify_transaction}
use echain.Network.FullNode.Blockdata.NewBlock.{on_new_block-Linked, on_new_block-root}
use echain.Tests.ToyWire.{toy_wire}
use echain.Tests.ChainData.{
  chain, chain_db, first_block, second_block, stored_chain, third_block, third_hash, block_of,
}

abbrev node : FullNode ToyDb
node = record {
  p2p = record {
    version = 1;
    network_address = [];
    connected_peers = [];
    forwarded_addr_list = [];
  };
  blockchain = chain;
  connected_spv_bloom_filter_map = [];
  getdata_message_count = 0;
  mempool = [];
}

first_hits : meets_target third_block 1 ≡ true
unfolding echain.Blockchain.Utils.set_bytes_from echain.Blockchain.Block.header_hash
    echain.Blockchain.Utils.get_double_sha256 toy
first_hits = refl

mine_block-least_example : mine_block 1 third_block ≡ ok (with_nonce 1 third_block)
mine_block-least_example =
    mine_block-least 1 1 third_block (inl refl) (omega arith) (omega arith) (omega arith) first_hits
      (λ k large small. absurd (omega arith))

mined : mine_block 1 third_block ≡ ok (with_nonce 1 third_block)
unfolding mine_block echain.Network.Miner.mine_loop echain.Blockchain.Block.get_hash
    echain.Blockchain.Utils.set_bytes_from echain.Blockchain.Block.header_hash
    echain.Blockchain.Utils.get_double_sha256 toy
mined = refl

third_verified : verify_transactions 1 node third_block.transactions ≡ ok true
unfolding verify_transactions echain.Network.FullNode.Verify.verify_transaction
    is_coinbase_transaction
third_verified = refl

abbrev third_coinbase : Transaction
third_coinbase = record reward { hash = 13 ∷ [] }

verify_block-mined_example :
    verify_block 1 node (with_nonce 1 third_block) ≡ ok (true, with_nonce 1 third_block)
unfolding is_coinbase_transaction
verify_block-mined_example =
    verify_block-mined 0 1 node third_block (with_nonce 1 third_block) third_coinbase [] mined refl
      refl third_verified

abbrev wallet : Wallet
wallet = record { private_key = 3; public_key = 4 ∷ 20 ∷ 21 ∷ [] }

is_address_valid-address_example :
    (is_address_valid (address wallet) ≡ ok true)
    × (get_address_from_pubkey wallet.public_key ≡ address wallet)
    × (get_pubkey_hash_from_address (address wallet)
        ≡ ok (get_pubkey_hash_from_pubkey wallet.public_key))
is_address_valid-address_example = is_address_valid-address wallet

abbrev after_third : FullNode ToyDb
after_third = record node {
  blockchain = record {
    data_base =
        update_with_new_block
          (toy_db.put (toy_db.put chain_db third_hash (toy.gob_block.encode third_block))
            last_hash_storage_key third_hash)
          third_block;
    last_hash = third_hash;
  };
}

third_handled : on_new_block 1 node third_block ≡ ok (after_third, [])
unfolding on_new_block verify_block get_hash header_hash get_double_sha256 toy set_bytes_from
    verify_sealed is_coinbase_transaction verify_transactions verify_transaction spread_block
    store_new_block set_block set_last_hash notify_all notify_peers relay_blocks toy_db
third_handled = refl

third_hashed : get_hash 1 third_block ≡ ok (third_hash, third_block)
unfolding get_hash
third_hashed = refl

on_new_block-Linked_example :
    ((after_third ≡ node) × (◌≡◌ {A = List Sent} [] []))
    ⊎ ((verify_block 1 node third_block ≡ ok (true, third_block))
        × (third_hash ≡ third_hash)
        × Linked after_third.blockchain.data_base third_hash
            (third_block ∷ second_block ∷ first_block ∷ []))
unfolding header_hash get_double_sha256 toy
on_new_block-Linked_example =
    on_new_block-Linked 0 node (second_block ∷ first_block ∷ []) third_block third_block third_hash
      after_third [] stored_chain third_hashed refl refl refl third_handled

-- A block that names no block before it.
abbrev root_block : Block
root_block = block_of [] (third_coinbase ∷ [])

abbrev root_hash : Bytes
root_hash = header_hash root_block.block_header

abbrev after_root : FullNode ToyDb
after_root = record node {
  blockchain = record {
    data_base =
        update_with_new_block
          (toy_db.put (toy_db.put chain_db root_hash (toy.gob_block.encode root_block))
            last_hash_storage_key root_hash)
          root_block;
    last_hash = root_hash;
  };
}

root_handled : on_new_block 1 node root_block ≡ ok (after_root, [])
unfolding on_new_block verify_block get_hash header_hash get_double_sha256 toy set_bytes_from
    verify_sealed is_coinbase_transaction verify_transactions verify_transaction spread_block
    store_new_block set_block set_last_hash notify_all notify_peers relay_blocks toy_db
root_handled = refl

root_hashed : get_hash 1 root_block ≡ ok (root_hash, root_block)
unfolding get_hash
root_hashed = refl

on_new_block-root_example :
    ((after_root ≡ node) × (◌≡◌ {A = List Sent} [] []))
    ⊎ ((verify_block 1 node root_block ≡ ok (true, root_block))
        × Linked after_root.blockchain.data_base root_hash (root_block ∷ [])
        × (get_height 1 after_root.blockchain ≡ ok 1))
unfolding header_hash get_double_sha256 toy
on_new_block-root_example =
    on_new_block-root 0 node root_block root_block root_hash after_root [] root_hashed refl refl
      root_handled
