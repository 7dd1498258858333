-- ===== src/Network/FullNode/Updates/Split.antt =====
-- The handlers of network/fullnode.go as a check and an append that nothing interrupts.
use echain.Base.{
  ℕ, ◌≡◌, refl, inl, inr, Bytes, Option, none, some, ok, ◌=ᵇ◌, exists, contains_bytes, Bool-cases,
  Ensures, Ensures-ok, Ensures-if, Ensures-bind,
}
use echain.Base.GoInt
use echain.Types.{Transaction}
use echain.Platform.{Platform}
use echain.LevelDb.{LevelDb}
use echain.Network.Messages.{VerackMessage, AddrMessage}
use echain.Network.Wire.{Wire}
use echain.Network.Peers.{get_connected_node_addresses}
use echain.Network.FullNode.{FullNode}
use echain.Network.FullNode.Handshake.{greet, on_verack, on_addr}
use echain.Network.FullNode.NewTxn.{
  InputCheck, rejected, paid, check_inputs, admit, handle_new_txn, spent_amount,
}
use echain.Network.FullNode.Updates.{
  Update, evaluate, assign, verack_update, addr_update, checked, txn_update,
}

abbrev pub uninterrupted : {Db : Type 0} → FullNode Db → Option Update → FullNode Db
uninterrupted node none = node
uninterrupted node (some u) = assign node (evaluate node u)

module _ {Db : Type 0} ⦃level_db : LevelDb Db⦄ ⦃platform : Platform⦄ ⦃wire : Wire⦄ where
  -- When nothing interrupts it, handleVerackMsg leaves the node that its check and append lead to.
  pub on_verack-uninterrupted :
      (node : FullNode Db) (m : VerackMessage)
      → (on_verack node m).0 ≡ uninterrupted node (verack_update node m)
  unfolding on_verack verack_update evaluate assign
  on_verack-uninterrupted node m =
      elim (Bool-cases (contains_bytes (get_connected_node_addresses node.p2p) m.addr_from)) [
        | inl known ↦ rw known
        | inr fresh ↦ rw fresh
      ]

  -- The same of handleAddrMsg, where it returns.
  pub on_addr-uninterrupted :
      (fuel : ℕ) (node : FullNode Db) (m : AddrMessage) (msg : Bytes)
      → Ensures (λ r. r.0 ≡ uninterrupted node (addr_update node m)) (on_addr fuel node m msg)
  unfolding on_addr addr_update evaluate assign
  on_addr-uninterrupted fuel node m msg = Ensures-bind _ (greet fuel node m.address) _ λ greeting e.
      Ensures-if _ (contains_bytes node.forwarded_addr_list m.address) _ _
        (λ known. Ensures-ok _ _ (rw known)) λ fresh. Ensures-ok _ _ (rw fresh)

  admit-uninterrupted :
      (node : FullNode Db) (t : Transaction) (check : InputCheck)
      → (admit node t check).0 ≡ uninterrupted node (checked t (ok check))
  unfolding admit checked evaluate assign
  admit-uninterrupted node t (rejected error) = refl
  admit-uninterrupted node t (paid total) =
      elim (Bool-cases (GoInt.lt total (spent_amount 0 t.outputs))) [
        | inl less ↦ rw less
        | inr enough ↦ rw enough
      ]

  -- The same of handleNewTxnMsg, where it returns.
  pub handle_new_txn-uninterrupted :
      (node : FullNode Db) (t : Transaction)
      → Ensures (λ r. r.0 ≡ uninterrupted node (txn_update node t)) (handle_new_txn node t)
  unfolding handle_new_txn txn_update
  handle_new_txn-uninterrupted node t =
      let db = node.blockchain.data_base in
      Ensures-if _ (exists (λ txn. txn.hash =ᵇ t.hash) node.mempool) _ _
        (λ known. Ensures-ok _ _ (rw known))
        λ fresh.
          Ensures-bind _ (check_inputs db t.inputs 0) _
            λ check e. Ensures-ok _ _ (rw (fresh, e) (admit-uninterrupted node t check))
