-- ===== src/Network/FullNode/Updates.antt =====
-- The appends of network/fullnode.go to fields that other goroutines append to too. No lock guards
-- them: between the check of a handler and its append, and between the two accesses of an append,
-- which reads a field and then writes it, other goroutines run.
pub mod Split
use echain.Base.{
  Bytes, List, [], ◌∷◌, ◌++◌, Option, none, some, Run, ok, timeout, panic, ◌=ᵇ◌, drop, exists,
  contains_bytes, if◌then◌else◌,
}
use echain.Base.GoInt
use echain.Types.{Transaction}
use echain.Platform.{Platform, generic_deserialize}
use echain.LevelDb.{LevelDb}
use echain.Network.Messages.{
  NodeInfo, VerackMessage, AddrMessage, verack_msg, addr_msg, newtxn_msg, msg_type_length,
}
use echain.Network.Wire.{Wire}
use echain.Network.Utils.{get_msg_type}
use echain.Network.Peers.{get_connected_node_addresses}
use echain.Network.FullNode.{FullNode}
use echain.Network.FullNode.Handshake.{zero_verack, zero_addr}
use echain.Network.FullNode.NewTxn.{
  InputCheck, rejected, paid, zero_transaction, check_inputs, spent_amount,
}

-- An append that a handler is to make: that of handleVerackMsg, of handleAddrMsg and of
-- handleNewTxnMsg.
pub data Update : Type 0 where
  append_peer : NodeInfo → Update
  append_forwarded : Bytes → Update
  append_transaction : Transaction → Update

-- The field that an append writes, and what it writes.
pub data Assigned : Type 0 where
  peers : List NodeInfo → Assigned
  forwarded : List Bytes → Assigned
  transactions : List Transaction → Assigned

-- A handler before its append, or in it, before the write.
pub data Pending : Type 0 where
  to_read : Update → Pending
  to_write : Assigned → Pending

-- What an append reads, with what it appends.
unfoldable pub evaluate : {Db : Type 0} → FullNode Db → Update → Assigned
evaluate node (append_peer p) = peers (node.connected_peers ++ p ∷ [])
evaluate node (append_forwarded a) = forwarded (node.forwarded_addr_list ++ a ∷ [])
evaluate node (append_transaction t) = transactions (node.mempool ++ t ∷ [])

unfoldable pub assign : {Db : Type 0} → FullNode Db → Assigned → FullNode Db
assign node (peers ps) = record node { p2p = record node.p2p { connected_peers = ps } }
assign node (forwarded addrs) = record node {
  p2p = record node.p2p { forwarded_addr_list = addrs };
}
assign node (transactions ts) = record node { mempool = ts }

-- Whether the transaction is to be added, from what the loop over its inputs found.
unfoldable pub checked : Transaction → Run InputCheck → Option Update
checked t (ok (paid total)) =
    if GoInt.lt total (spent_amount 0 t.outputs) then none else some (append_transaction t)
checked t (ok (rejected error)) = none
checked t timeout = none
checked t panic = none

module _ {Db : Type 0} where
  unfoldable pub verack_update : FullNode Db → VerackMessage → Option Update
  verack_update node m =
      if contains_bytes (get_connected_node_addresses node.p2p) m.addr_from
      then none
      else some (append_peer (record { node_type = m.node_type; address = m.addr_from }))

  unfoldable pub addr_update : FullNode Db → AddrMessage → Option Update
  addr_update node m =
      if contains_bytes node.forwarded_addr_list m.address
      then none
      else some (append_forwarded m.address)

  unfoldable pub txn_update :
      ⦃level_db : LevelDb Db⦄ ⦃platform : Platform⦄ → FullNode Db → Transaction → Option Update
  txn_update node t =
      if exists (λ txn. txn.hash =ᵇ t.hash) node.mempool
      then none
      else checked t (check_inputs node.blockchain.data_base t.inputs 0)

  -- The append of the handler of what was read, if its checks come out for it.
  unfoldable pub handler_update :
      ⦃level_db : LevelDb Db⦄ ⦃platform : Platform⦄ ⦃wire : Wire⦄
      → FullNode Db
      → Bytes
      → Option Update
  handler_update ⦃platform = platform⦄ ⦃wire⦄ node read =
      let payload = drop msg_type_length read in
      let msg_type = get_msg_type read in
      if msg_type =ᵇ verack_msg
      then verack_update node (generic_deserialize wire.gob_verack zero_verack payload)
      else if msg_type =ᵇ addr_msg
      then addr_update node (generic_deserialize wire.gob_addr zero_addr payload)
      else if msg_type =ᵇ newtxn_msg
      then txn_update node (generic_deserialize platform.gob_transaction zero_transaction payload)
      else none
