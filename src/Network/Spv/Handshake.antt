-- ===== src/Network/Spv/Handshake.antt =====
-- handleVersionMsg, handleVerackMsg and handleAddrMsg of network/spv.go.
use echain.Base.{ℕ, Bytes, List, [], ◌∷◌, ◌++◌, Run, ok, ◌>>=◌, ◌==◌, contains_bytes, if◌then◌else◌}
use echain.Platform.{Platform, generic_deserialize}
use echain.LevelDb.{LevelDb}
use echain.Network.Messages.{VersionMessage, VerackMessage, AddrMessage}
use echain.Network.Wire.{Wire, Sent}
use echain.Network.Peers.{get_connected_node_addresses}
use echain.Network.FullNode.Handshake.{zero_version, zero_verack, zero_addr, forward_addr}
use echain.Network.Spv.{
  SpvNode, Handled, only, send_version_msg, send_verack_msg, send_addr_msg, send_getheaders_msg,
}

module _ {Db : Type 0} ⦃level_db : LevelDb Db⦄ ⦃platform : Platform⦄ ⦃wire : Wire⦄ where
  -- The version message to an address that is no peer's yet.
  unfoldable pub greet : ℕ → SpvNode Db → Bytes → Run (List Sent)
  greet fuel node address =
      if contains_bytes (get_connected_node_addresses node.p2p) address
      then ok []
      else (send_version_msg fuel node address >>= (λ version. ok (version ∷ [])))

  unfoldable pub on_version : ℕ → SpvNode Db → VersionMessage → Run (Handled Db)
  on_version fuel node m =
      if node.version == m.version
      then (greet fuel node m.addr_me
          >>= (λ greeting. ok (only node (send_verack_msg node m.addr_me ∷ greeting))))
      else ok (only node [])

  unfoldable pub on_verack : SpvNode Db → VerackMessage → Handled Db
  on_verack node m =
      if contains_bytes (get_connected_node_addresses node.p2p) m.addr_from
      then only node []
      else only
          (record node {
            p2p = record node.p2p {
              connected_peers =
                  node.connected_peers
                  ++ record { node_type = m.node_type; address = m.addr_from } ∷ [];
            };
          })
          (send_addr_msg node m.addr_from ∷ send_getheaders_msg node m.addr_from ∷ [])

  unfoldable pub on_addr : ℕ → SpvNode Db → AddrMessage → Bytes → Run (Handled Db)
  on_addr fuel node m msg = greet fuel node m.address >>= (λ greeting.
      if contains_bytes node.forwarded_addr_list m.address
      then ok (only node greeting)
      else ok (
          only
            (record node {
              p2p = record node.p2p {
                forwarded_addr_list = node.forwarded_addr_list ++ m.address ∷ [];
              };
            })
            (greeting ++ forward_addr node.connected_peers m.address msg)))

  unfoldable pub handle_version_msg : ℕ → SpvNode Db → Bytes → Run (Handled Db)
  handle_version_msg fuel node msg =
      on_version fuel node (generic_deserialize wire.gob_version zero_version msg)

  unfoldable pub handle_verack_msg : SpvNode Db → Bytes → Handled Db
  handle_verack_msg node msg = on_verack node (generic_deserialize wire.gob_verack zero_verack msg)

  unfoldable pub handle_addr_msg : ℕ → SpvNode Db → Bytes → Run (Handled Db)
  handle_addr_msg fuel node msg =
      on_addr fuel node (generic_deserialize wire.gob_addr zero_addr msg) msg
