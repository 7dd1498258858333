-- ===== src/Network/Spv/Updates.antt =====
-- The assignments of network/spv.go to fields that other goroutines assign too. No lock guards them:
-- between the check of a handler and its assignment, and between the two accesses of an assignment,
-- which reads a field and then writes one, other goroutines run.
pub mod Split
use echain.Base.{
  Bytes, List, [], ◌∷◌, ◌++◌, Option, none, some, ◌=ᵇ◌, drop, contains_bytes, if◌then◌else◌,
}
use echain.Platform.{generic_deserialize}
use echain.Network.Messages.{
  NodeInfo, VerackMessage, AddrMessage, verack_msg, addr_msg, newaddr_msg, msg_type_length,
}
use echain.Network.Wire.{Wire}
use echain.Network.Utils.{get_msg_type}
use echain.Network.Peers.{get_connected_node_addresses}
use echain.Network.FullNode.Handshake.{zero_verack, zero_addr}
use echain.Network.Spv.{SpvNode}
use echain.Network.Spv.Connection.{zero_new_addr}

-- An assignment that a handler is to make: the append of handleVerackMsg, of handleAddrMsg and of
-- handleNewAddrMsg, and that of updateBloomFilter.
pub data Update : Type 0 where
  append_peer : NodeInfo → Update
  append_forwarded : Bytes → Update
  append_monitored : Bytes → Update
  copy_monitored : Update

-- The field that an assignment writes, and what it writes.
pub data Assigned : Type 0 where
  peers : List NodeInfo → Assigned
  forwarded : List Bytes → Assigned
  monitored : List Bytes → Assigned
  filter : List Bytes → Assigned

-- A handler before an assignment, or in it, before the write.
pub data Pending : Type 0 where
  to_read : Update → Pending
  to_write : Assigned → Pending

-- What an assignment reads, with what it appends.
unfoldable pub evaluate : {Db : Type 0} → SpvNode Db → Update → Assigned
evaluate node (append_peer p) = peers (node.connected_peers ++ p ∷ [])
evaluate node (append_forwarded a) = forwarded (node.forwarded_addr_list ++ a ∷ [])
evaluate node (append_monitored a) = monitored (node.monitor_addr_list ++ a ∷ [])
evaluate node copy_monitored = filter node.monitor_addr_list

unfoldable pub assign : {Db : Type 0} → SpvNode Db → Assigned → SpvNode Db
assign node (peers ps) = record node { p2p = record node.p2p { connected_peers = ps } }
assign node (forwarded addrs) = record node {
  p2p = record node.p2p { forwarded_addr_list = addrs };
}
assign node (monitored addrs) = record node { monitor_addr_list = addrs }
assign node (filter addrs) = record node { bloom_filter = addrs }

-- handleNewAddrMsg goes on with updateBloomFilter.
unfoldable pub next_update : Assigned → List Pending
next_update (peers ps) = []
next_update (forwarded addrs) = []
next_update (monitored addrs) = to_read copy_monitored ∷ []
next_update (filter addrs) = []

module _ {Db : Type 0} where
  unfoldable pub verack_update : SpvNode Db → VerackMessage → Option Update
  verack_update node m =
      if contains_bytes (get_connected_node_addresses node.p2p) m.addr_from
      then none
      else some (append_peer (record { node_type = m.node_type; address = m.addr_from }))

  unfoldable pub addr_update : SpvNode Db → AddrMessage → Option Update
  addr_update node m =
      if contains_bytes node.forwarded_addr_list m.address
      then none
      else some (append_forwarded m.address)

  -- The first assignment of the handler of what was read, if its check comes out for it.
  unfoldable pub first_update : ⦃wire : Wire⦄ → SpvNode Db → Bytes → Option Update
  first_update ⦃wire⦄ node read =
      let payload = drop msg_type_length read in
      let msg_type = get_msg_type read in
      if msg_type =ᵇ verack_msg
      then verack_update node (generic_deserialize wire.gob_verack zero_verack payload)
      else if msg_type =ᵇ addr_msg
      then addr_update node (generic_deserialize wire.gob_addr zero_addr payload)
      else if msg_type =ᵇ newaddr_msg
      then (let m = generic_deserialize wire.gob_new_addr zero_new_addr payload in
          some (append_monitored m.wallet_address))
      else none
