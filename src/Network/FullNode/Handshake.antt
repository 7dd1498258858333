-- ===== src/Network/FullNode/Handshake.antt =====
-- handleVersionMsg, handleVerackMsg, handleAddrMsg and handleFilterloadMsg of network/fullnode.go:
-- the peers of a node.
pub mod PeerList
use echain.Base.{
  ℕ, Bool, true, false, not, Bytes, List, [], ◌∷◌, ◌++◌, Run, ok, ◌>>=◌, ◌==◌, ◌=ᵇ◌, contains_bytes,
  if◌then◌else◌,
}
use echain.Base.GoMap
use echain.Platform.{Platform, generic_deserialize}
use echain.LevelDb.{LevelDb}
use echain.Network.Messages.{
  VersionMessage, VerackMessage, AddrMessage, FilterloadMessage, NodeInfo, P2PNode, addr_msg,
}
use echain.Network.Wire.{Wire, Sent}
use echain.Network.Peers.{get_connected_node_addresses}
use echain.Network.FullNode.{
  FullNode, Handled, send_version_msg, send_verack_msg, send_addr_msg, send_get_blocks_msg,
}

abbrev pub zero_version : VersionMessage
zero_version = record { version = 0; addr_you = []; addr_me = []; best_height = 0 }

abbrev pub zero_verack : VerackMessage
zero_verack = record { node_type = []; addr_from = [] }

abbrev pub zero_addr : AddrMessage
zero_addr = record { address = [] }

abbrev pub zero_filterload : FilterloadMessage
zero_filterload = record { addr_from = []; bloom_filter = [] }

-- The loop of handleAddrMsg, which passes the message on as it came.
unfoldable pub forward_addr : List NodeInfo → Bytes → Bytes → List Sent
forward_addr [] address msg = []
forward_addr (p ∷ ps) address msg =
    if p.address =ᵇ address
    then forward_addr ps address msg
    else record { to_address = p.address; msg_type = addr_msg; payload = msg }
      ∷ forward_addr ps address msg

module _ {Db : Type 0} ⦃level_db : LevelDb Db⦄ ⦃platform : Platform⦄ ⦃wire : Wire⦄ where
  unfoldable pub on_version : ℕ → FullNode Db → VersionMessage → Handled Db
  on_version fuel node m =
      if node.version == m.version
      then (if contains_bytes (get_connected_node_addresses node.p2p) m.addr_me
          then ok (node, send_verack_msg node m.addr_me ∷ [])
          else send_version_msg fuel node m.addr_me
            >>= (λ version. ok (node, send_verack_msg node m.addr_me ∷ version ∷ [])))
      else ok (node, [])

  unfoldable pub handle_version_msg : ℕ → FullNode Db → Bytes → Handled Db
  handle_version_msg fuel node msg =
      on_version fuel node (generic_deserialize wire.gob_version zero_version msg)

  unfoldable pub on_verack : FullNode Db → VerackMessage → FullNode Db × List Sent
  on_verack node m =
      if contains_bytes (get_connected_node_addresses node.p2p) m.addr_from then (node, []) else (
        record node {
          p2p = record node.p2p {
            connected_peers =
                node.connected_peers
                ++ record { node_type = m.node_type; address = m.addr_from } ∷ [];
          };
        },
        send_addr_msg node m.addr_from ∷ send_get_blocks_msg node m.addr_from ∷ [],
      )

  unfoldable pub handle_verack_msg : FullNode Db → Bytes → FullNode Db × List Sent
  handle_verack_msg node msg = on_verack node (generic_deserialize wire.gob_verack zero_verack msg)

  -- The version message to an address that is no peer's yet.
  unfoldable pub greet : ℕ → FullNode Db → Bytes → Run (List Sent)
  greet fuel node address =
      if contains_bytes (get_connected_node_addresses node.p2p) address
      then ok []
      else (send_version_msg fuel node address >>= (λ version. ok (version ∷ [])))

  unfoldable pub on_addr : ℕ → FullNode Db → AddrMessage → Bytes → Handled Db
  on_addr fuel node m msg = greet fuel node m.address >>= (λ greeting.
      if contains_bytes node.forwarded_addr_list m.address
      then ok (node, greeting)
      else ok (
        record node {
          p2p = record node.p2p {
            forwarded_addr_list = node.forwarded_addr_list ++ m.address ∷ [];
          };
        },
        greeting ++ forward_addr node.connected_peers m.address msg,
      ))

  unfoldable pub handle_addr_msg : ℕ → FullNode Db → Bytes → Handled Db
  handle_addr_msg fuel node msg =
      on_addr fuel node (generic_deserialize wire.gob_addr zero_addr msg) msg

  unfoldable pub handle_filterload_msg : FullNode Db → Bytes → FullNode Db
  handle_filterload_msg node msg =
      let m = generic_deserialize wire.gob_filterload zero_filterload msg in
      record node {
        connected_spv_bloom_filter_map =
            GoMap.set node.connected_spv_bloom_filter_map m.addr_from m.bloom_filter;
      }
