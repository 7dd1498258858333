-- ===== src/Network/Spv/System/Handlers.antt =====
-- What a handler of network/spv.go keeps of the lists of a node.
use echain.Base.{
  ℕ, ◌≡◌, refl, sym, subst, ◌∙◌, inl, inr, false, Bytes, [], ◌∷◌, ◌++◌, Run, ◌=ᵇ◌, ltb, length,
  contains_bytes, Bool-cases, Ensures, Ensures-ok, Ensures-panic, Ensures-if, Ensures-bind,
}
use echain.Platform.{Platform}
use echain.LevelDb.{LevelDb}
use echain.Network.Messages.{
  NodeInfo, VerackMessage, AddrMessage, NewAddrMessage, version_msg, verack_msg, addr_msg,
  getheaders_msg, headers_msg, newaddr_msg, merkleblock_msg, getutxo_msg, newtxn_msg,
  msg_type_length,
}
use echain.Network.Wire.{Wire}
use echain.Network.Peers.{get_connected_node_addresses}
use echain.Network.FullNode.Handshake.PeerList.{AllDistinct, append-AllDistinct, addresses-append}
use echain.Network.Spv.{SpvNode, Handled}
use echain.Network.Spv.Handshake.{
  on_verack, on_addr, greet, handle_version_msg, handle_verack_msg, handle_addr_msg,
}
use echain.Network.Spv.Headers.{handle_headers_msg}
use echain.Network.Spv.MerkleBlock.{handle_merkleblock_msg}
use echain.Network.Spv.Connection.{
  on_new_addr, handle_new_addr_msg, handle_new_txn_msg, dispatch, handle_connection,
}
use echain.Network.Spv.System.Keeps.{
  Keeps, KeepsNode, on_headers-Keeps, reply_getheaders-Keeps, on_version-Keeps,
  on_merkle_block-Keeps, get_utxo-Keeps,
}

-- The filter is the list of monitored addresses; no peer and no forwarded address stands twice.
pub record IsMonitoring {Db : Type 0} (node : SpvNode Db) : Type 0 where
  pub filter : node.bloom_filter ≡ node.monitor_addr_list
  pub peers : AllDistinct (get_connected_node_addresses node.p2p)
  pub forwarded : AllDistinct node.forwarded_addr_list

pub of_Keeps :
    {Db : Type 0} {node node' : SpvNode Db}
    → Keeps node node'
    → IsMonitoring node
    → IsMonitoring node'
of_Keeps k c = record {
  filter = k.bloom_filter ∙ c.filter ∙ sym k.monitor_addr_list;
  peers = subst (λ p. AllDistinct (get_connected_node_addresses p)) (sym k.p2p) c.peers;
  forwarded = subst (λ p. AllDistinct p.forwarded_addr_list) (sym k.p2p) c.forwarded;
}

abbrev MonitoringAfter : {Db : Type 0} → Run (Handled Db) → Type 0
MonitoringAfter run = Ensures (λ h. IsMonitoring h.node) run

of_KeepsNode :
    {Db : Type 0} (node : SpvNode Db) (run : Run (Handled Db))
    → KeepsNode node run
    → IsMonitoring node
    → MonitoringAfter run
of_KeepsNode node run k c = record { at = λ h e. of_Keeps (k.at h e) c }

pub new_peer-IsMonitoring :
    {Db : Type 0} (node : SpvNode Db) (peer : NodeInfo)
    → IsMonitoring node
    → contains_bytes (get_connected_node_addresses node.p2p) peer.address ≡ false
    → IsMonitoring (record node {
      p2p = record node.p2p { connected_peers = node.connected_peers ++ peer ∷ [] };
    })
unfolding get_connected_node_addresses
new_peer-IsMonitoring node peer c fresh = record {
  filter = c.filter;
  peers = rw (addresses-append node.connected_peers peer) (append-AllDistinct _ _ c.peers fresh);
  forwarded = c.forwarded;
}

module _ {Db : Type 0} ⦃level_db : LevelDb Db⦄ ⦃platform : Platform⦄ ⦃wire : Wire⦄ where
  on_verack-IsMonitoring :
      (node : SpvNode Db) (m : VerackMessage)
      → IsMonitoring node
      → IsMonitoring (on_verack node m).node
  unfolding on_verack
  on_verack-IsMonitoring node m c =
      elim (Bool-cases (contains_bytes (get_connected_node_addresses node.p2p) m.addr_from)) [
        | inl known ↦ rw known c
        | inr fresh ↦ rw fresh (
            new_peer-IsMonitoring node (record { node_type = m.node_type; address = m.addr_from }) c
              fresh)
      ]

  on_addr-IsMonitoring :
      (fuel : ℕ) (node : SpvNode Db) (m : AddrMessage) (msg : Bytes)
      → IsMonitoring node
      → MonitoringAfter (on_addr fuel node m msg)
  unfolding on_addr get_connected_node_addresses
  on_addr-IsMonitoring fuel node m msg c =
      Ensures-bind _ (greet fuel node m.address) _ λ greeting e.
        Ensures-if _ (contains_bytes node.forwarded_addr_list m.address) _ _
          (λ known. Ensures-ok _ _ c)
          λ fresh. Ensures-ok _ _ (record {
            filter = c.filter;
            peers = c.peers;
            forwarded = append-AllDistinct _ _ c.forwarded fresh;
          })

  on_new_addr-IsMonitoring :
      (node : SpvNode Db) (m : NewAddrMessage)
      → IsMonitoring node
      → IsMonitoring (on_new_addr node m).node
  unfolding on_new_addr
  on_new_addr-IsMonitoring node m c = record {
    filter = refl;
    peers = c.peers;
    forwarded = c.forwarded;
  }

  dispatch-IsMonitoring :
      (fuel : ℕ) (node : SpvNode Db) (msg_type payload : Bytes)
      → IsMonitoring node
      → MonitoringAfter (dispatch fuel node msg_type payload)
  unfolding dispatch handle_version_msg handle_verack_msg handle_addr_msg handle_headers_msg
      handle_new_addr_msg handle_merkleblock_msg handle_new_txn_msg
  dispatch-IsMonitoring fuel node msg_type payload c =
      Ensures-if _ (msg_type =ᵇ version_msg) _ _
        (λ _. of_KeepsNode node _ (on_version-Keeps fuel node _) c)
        λ _.
          Ensures-if _ (msg_type =ᵇ verack_msg) _ _
            (λ _. Ensures-ok _ _ (on_verack-IsMonitoring node _ c))
            λ _.
              Ensures-if _ (msg_type =ᵇ addr_msg) _ _
                (λ _. on_addr-IsMonitoring fuel node _ payload c)
                λ _.
                  Ensures-if _ (msg_type =ᵇ getheaders_msg) _ _
                    (λ _. of_KeepsNode node _ (reply_getheaders-Keeps fuel node payload) c)
                    λ _.
                      Ensures-if _ (msg_type =ᵇ headers_msg) _ _
                        (λ _. of_KeepsNode node _ (on_headers-Keeps node _) c)
                        λ _.
                          Ensures-if _ (msg_type =ᵇ newaddr_msg) _ _
                            (λ _. Ensures-ok _ _ (on_new_addr-IsMonitoring node _ c))
                            λ _.
                              Ensures-if _ (msg_type =ᵇ merkleblock_msg) _ _
                                (λ _. of_KeepsNode node _ (on_merkle_block-Keeps node _) c)
                                λ _.
                                  Ensures-if _ (msg_type =ᵇ getutxo_msg) _ _
                                    (λ _. of_KeepsNode node _ (get_utxo-Keeps node payload) c)
                                    λ _.
                                      Ensures-if _ (msg_type =ᵇ newtxn_msg) _ _
                                        (λ _. Ensures-ok _ _ c) λ _. Ensures-ok _ _ c

  pub handle_connection-IsMonitoring :
      (fuel : ℕ) (node : SpvNode Db) (read : Bytes)
      → IsMonitoring node
      → MonitoringAfter (handle_connection fuel node read)
  unfolding handle_connection
  handle_connection-IsMonitoring fuel node read c =
      Ensures-if _ (ltb (length read) msg_type_length) _ _ (λ _. Ensures-panic _)
        λ _. dispatch-IsMonitoring fuel node _ _ c
