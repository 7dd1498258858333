-- ===== src/Wallet/Wallets/Watched.antt =====
-- AddWalletAddrToSPVNodes of wallet/wallets.go, handleNewAddrMsg of network/spv.go and
-- handleFilterloadMsg of network/fullnode.go in a row.
use echain.Base.{
  ◌≡◌, refl, ap, ◌∙◌, Bool, true, Bytes, List, [], ◌∷◌, ◌++◌, ok, =ᵇ-refl, exists, arith,
}
use echain.Base.GoMap.{find_or, find_or-set}
use echain.Types.{Transaction}
use echain.Platform.{Platform, generic_deserialize-encode}
use echain.LevelDb.{LevelDb}
use echain.Blockchain.Utils.{get_pubkey_hash_from_address}
use echain.Network.Messages.{NewAddrMessage, FilterloadMessage, spv, newaddr_msg}
use echain.Network.Wire.{Wire, Sent}
use echain.Network.Utils.{is_transaction_of_interest}
use echain.Network.Utils.Interest.{names_owner, is_transaction_of_interest-names_owner}
use echain.Network.FullNode.{FullNode}
use echain.Network.FullNode.Handshake.{zero_filterload, handle_filterload_msg}
use echain.Network.Spv.{SpvNode, send_filterload_msg}
use echain.Network.Spv.MerkleBlock.Interest.{Decodes}
use echain.Network.Spv.Connection.{
  zero_new_addr, load_filters, on_new_addr, update_bloom_filter, handle_new_addr_msg,
}
use echain.Wallet.Wallets.{Wallets, send_to_spv_nodes, add_wallet_addr_to_spv_nodes}

exists-append :
    (p : Bytes → Bool) (xs : List Bytes) (x : Bytes) → p x ≡ true → exists p (xs ++ x ∷ []) ≡ true
exists-append p [] x h = ground arith
exists-append p (y ∷ xs) x h = ground (arith, exists-append p xs x h)

module _ ⦃platform : Platform⦄ where
  Decodes-append :
      (addresses owners : List Bytes) (address owner : Bytes)
      → Decodes addresses owners
      → get_pubkey_hash_from_address address ≡ ok owner
      → Decodes (addresses ++ address ∷ []) (owners ++ owner ∷ [])
  Decodes-append [] [] address owner d h = (h, tt)
  Decodes-append [] (o ∷ owners) address owner d h = absurd d
  Decodes-append (a ∷ addresses) [] address owner d h = absurd d
  Decodes-append (a ∷ addresses) (o ∷ owners) address owner d h =
      (d.0, Decodes-append addresses owners address owner d.1 h)

module _ {Db Db' : Type 0} ⦃level_db : LevelDb Db⦄ ⦃level_db' : LevelDb Db'⦄ ⦃platform : Platform⦄
    ⦃wire : Wire⦄ where
  -- What a full node has of an SPV node that sent it its filter.
  filter_after_load :
      (node : SpvNode Db) (full : FullNode Db') (to : Bytes)
      → find_or []
          (handle_filterload_msg full (send_filterload_msg node to).payload
            ).connected_spv_bloom_filter_map
          node.network_address
        ≡ node.bloom_filter
  unfolding handle_filterload_msg send_filterload_msg
  filter_after_load node full to =
      let f : FilterloadMessage = record {
        addr_from = node.network_address;
        bloom_filter = node.bloom_filter;
      } in
      rw (
        generic_deserialize-encode wire.gob_filterload zero_filterload f,
        find_or-set [] full.connected_spv_bloom_filter_map node.network_address node.network_address
            node.bloom_filter,
        =ᵇ-refl node.network_address,
      )

  -- A key store that is connected to one SPV node sends it a new address. When the SPV node has
  -- handled that message, its filter has the address too, and it has sent the filter to each full
  -- node among its peers. After a full node has handled the filterload message, every transaction
  -- with an output locked by the public key hash of the address, or with an input of such a key, is
  -- of interest to it for that SPV node, if the addresses that the SPV node monitored before decode.
  pub add_wallet_addr_to_spv_nodes-watched :
      (ws : Wallets) (wallet_address owner : Bytes) (node : SpvNode Db) (owners : List Bytes)
      (full : FullNode Db') (to : Bytes) (t : Transaction)
      → ws.connected_nodes ≡ record { node_type = spv; address = node.network_address } ∷ []
      → Decodes node.monitor_addr_list owners
      → get_pubkey_hash_from_address wallet_address ≡ ok owner
      → names_owner t owner ≡ true
      → (s : Sent) × (add_wallet_addr_to_spv_nodes ws wallet_address ≡ s ∷ [])
        × (let h = handle_new_addr_msg node s.payload in
            let full' = handle_filterload_msg full (send_filterload_msg h.node to).payload in
            (h.node.bloom_filter ≡ node.monitor_addr_list ++ wallet_address ∷ [])
            × (h.sent ≡ load_filters h.node node.connected_peers)
            × (is_transaction_of_interest t
                  (find_or [] full'.connected_spv_bloom_filter_map node.network_address)
                ≡ ok true))
  unfolding add_wallet_addr_to_spv_nodes send_to_spv_nodes handle_new_addr_msg on_new_addr
      update_bloom_filter
  add_wallet_addr_to_spv_nodes-watched ws wallet_address owner node owners full to t one d valid
        named =
      let m : NewAddrMessage = record { wallet_address = wallet_address } in
      let h = handle_new_addr_msg node (wire.gob_new_addr.encode m) in
      let filter = node.monitor_addr_list ++ wallet_address ∷ [] in
      let loaded : h.node.bloom_filter ≡ filter =
        ap (λ (k : NewAddrMessage). node.monitor_addr_list ++ k.wallet_address ∷ [])
          (generic_deserialize-encode wire.gob_new_addr zero_new_addr m) in
      (
        record {
          to_address = node.network_address;
          msg_type = newaddr_msg;
          payload = wire.gob_new_addr.encode m;
        },
        rw one,
        (
          loaded,
          refl,
          ap (is_transaction_of_interest t) (filter_after_load h.node full to ∙ loaded)
              ∙ is_transaction_of_interest-names_owner filter (owners ++ owner ∷ []) t
                  (Decodes-append node.monitor_addr_list owners wallet_address owner d valid)
              ∙ ap ok (exists-append (names_owner t) owners owner named),
        ),
      )
