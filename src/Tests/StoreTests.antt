-- ===== src/Tests/StoreTests.antt =====
-- Wallet/Wallets at a concrete key store.
use echain.Base.{◌≡◌, refl, false, ok, true, false, [], ◌∷◌, ◌++◌}
use echain.Base.GoMap.{find_or}
use echain.Blockchain.Utils.{get_pubkey_hash_from_address, get_pubkey_hash_from_pubkey}
use echain.Network.Messages.{full_node, spv}
use echain.Network.Wire.{Sent}
use echain.Network.Utils.{is_transaction_of_interest}
use echain.Network.FullNode.Handshake.{handle_filterload_msg}
use echain.Network.Spv.{SpvNode, send_filterload_msg}
use echain.Network.Spv.Connection.{load_filters, handle_new_addr_msg}
use echain.Wallet.Wallets.{Wallets, add_wallet_addr_to_spv_nodes}
use echain.Wallet.Wallets.Watched.{add_wallet_addr_to_spv_nodes-watched}
use echain.Wallet.Address.{Wallet}
use echain.Tests.ToyPlatform.{toy}
use echain.Tests.ToyDb.{ToyDb, toy_db}
use echain.Tests.ToyWire.{toy_wire}
use echain.Tests.Data.{address, owner, empty_db, payment}
use echain.Tests.WalletTests.{funded}

-- Another wallet, which the store has from before.
abbrev old_wallet : Wallet
old_wallet = record { private_key = 5; public_key = 4 ∷ 22 ∷ 23 ∷ [] }

abbrev store : Wallets
store = record {
  connected_nodes = record { node_type = spv; address = 71 ∷ [] } ∷ [];
  wallets = (8 ∷ [], old_wallet) ∷ [];
}

abbrev monitor : SpvNode ToyDb
monitor = record {
  p2p = record {
    version = 1;
    network_address = 71 ∷ [];
    connected_peers = record { node_type = full_node; address = 60 ∷ [] } ∷ [];
    forwarded_addr_list = [];
  };
  blockchain_header = record { data_base = empty_db; last_hash = [] };
  monitor_addr_list = [];
  bloom_filter = [];
  requesting_block_header = false;
}

add_wallet_addr_to_spv_nodes-watched_example :
    (s : Sent) × (add_wallet_addr_to_spv_nodes store address ≡ s ∷ [])
    × (let h = handle_new_addr_msg monitor s.payload in
        let full' = handle_filterload_msg funded (send_filterload_msg h.node (60 ∷ [])).payload in
        (h.node.bloom_filter ≡ [] ++ address ∷ [])
        × (h.sent ≡ load_filters h.node monitor.connected_peers)
        × (is_transaction_of_interest payment
              (find_or [] full'.connected_spv_bloom_filter_map monitor.network_address)
            ≡ ok true))
unfolding get_pubkey_hash_from_address toy get_pubkey_hash_from_pubkey
add_wallet_addr_to_spv_nodes-watched_example =
    add_wallet_addr_to_spv_nodes-watched store address owner monitor [] funded (60 ∷ []) payment
      refl tt refl refl
