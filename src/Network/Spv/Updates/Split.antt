-- ===== src/Network/Spv/Updates/Split.antt =====
-- The handlers of network/spv.go as a check and assignments that nothing interrupts.
use echain.Base.{
  ℕ, ◌≡◌, refl, inl, inr, Bytes, Option, none, some, contains_bytes, Bool-cases, Ensures,
  Ensures-ok, Ensures-if, Ensures-bind,
}
use echain.Platform.{Platform}
use echain.LevelDb.{LevelDb}
use echain.Network.Messages.{VerackMessage, AddrMessage, NewAddrMessage}
use echain.Network.Wire.{Wire}
use echain.Network.Peers.{get_connected_node_addresses}
use echain.Network.Spv.{SpvNode}
use echain.Network.Spv.Handshake.{greet, on_verack, on_addr}
use echain.Network.Spv.Connection.{on_new_addr}
use echain.Network.Spv.Updates.{
  Update, append_monitored, copy_monitored, evaluate, assign, verack_update, addr_update,
}

abbrev pub uninterrupted : {Db : Type 0} → SpvNode Db → Option Update → SpvNode Db
uninterrupted node none = node
uninterrupted node (some u) = assign node (evaluate node u)

module _ {Db : Type 0} ⦃level_db : LevelDb Db⦄ ⦃platform : Platform⦄ ⦃wire : Wire⦄ where
  -- When nothing interrupts it, handleVerackMsg leaves the node that its check and assignment lead
  -- to.
  pub on_verack-uninterrupted :
      (node : SpvNode Db) (m : VerackMessage)
      → (on_verack node m).node ≡ uninterrupted node (verack_update node m)
  unfolding on_verack verack_update evaluate assign
  on_verack-uninterrupted node m =
      elim (Bool-cases (contains_bytes (get_connected_node_addresses node.p2p) m.addr_from)) [
        | inl known ↦ rw known
        | inr fresh ↦ rw fresh
      ]

  -- The same of handleAddrMsg, where it returns.
  pub on_addr-uninterrupted :
      (fuel : ℕ) (node : SpvNode Db) (m : AddrMessage) (msg : Bytes)
      → Ensures (λ h. h.node ≡ uninterrupted node (addr_update node m)) (on_addr fuel node m msg)
  unfolding on_addr addr_update evaluate assign
  on_addr-uninterrupted fuel node m msg = Ensures-bind _ (greet fuel node m.address) _ λ greeting e.
      Ensures-if _ (contains_bytes node.forwarded_addr_list m.address) _ _
        (λ known. Ensures-ok _ _ (rw known)) λ fresh. Ensures-ok _ _ (rw fresh)

  -- The same of handleNewAddrMsg and its two assignments.
  pub on_new_addr-uninterrupted :
      (node : SpvNode Db) (m : NewAddrMessage)
      → (on_new_addr node m).node
        ≡ uninterrupted
            (uninterrupted node (some (append_monitored m.wallet_address)))
            (some copy_monitored)
  unfolding on_new_addr evaluate assign
  on_new_addr-uninterrupted node m = refl
