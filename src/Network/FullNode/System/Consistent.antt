-- ===== src/Network/FullNode/System/Consistent.antt =====
-- What every reachable state of a node of network/fullnode.go keeps.
use echain.Base.{
  ◌⊎◌, inl, inr, ℕ, ◌≡◌, refl, sym, subst, ◌∙◌, Bytes, [], ◌∷◌, ◌++◌, ◌=ᵇ◌, ltb, length, Ensures,
  Ensures-ok, Ensures-panic, Ensures-if, Ensures-bind,
}
use echain.Platform.{Platform}
use echain.LevelDb.{LevelDb}
use echain.Blockchain.Chain.{init_block_chain}
use echain.Network.Messages.{
  version_msg, verack_msg, addr_msg, getblocks_msg, inv_msg, getdata_msg, blockdata_msg,
  getheaders_msg, getutxo_msg, newtxn_msg, filterload_msg, msg_type_length,
}
use echain.Network.Wire.{Wire}
use echain.Network.Peers.{get_connected_node_addresses}
use echain.Network.FullNode.{FullNode, new_full_node}
use echain.Network.FullNode.Handshake.{handle_version_msg, handle_verack_msg, handle_addr_msg}
use echain.Network.FullNode.Sync.{handle_getblocks_msg, handle_getheaders_msg}
use echain.Network.FullNode.Blockdata.{handle_blockdata_msg}
use echain.Network.FullNode.NewTxn.{handle_new_txn, handle_new_txn_msg}
use echain.Network.FullNode.Connection.{
  Outcome, Effect, nothing, replies, fetches, dispatch, handle_connection,
}
use echain.Network.FullNode.System.{
  System, after_effect, after_handler, Step, receive, check, load, store, work, finish, Reach,
  start, later,
}
use echain.Network.FullNode.System.Keeps.{
  Keeps, on_version-Keeps, on_blockdata-Keeps, finish_inv_msg-Keeps, get_utxo-Keeps,
}
use echain.Network.FullNode.Updates.{to_read}
use echain.Network.FullNode.System.Phases.{
  Phase, handler_update-Before, load-Phase, store-Phase, Phase-of_Keeps,
}
use echain.Network.FullNode.System.Handlers.{
  IsConsistent, of_Keeps, ConsistentAfter, of_KeepsNode, of_sending, on_verack-IsConsistent,
  on_addr-IsConsistent, filterload-IsConsistent, handle_new_txn-IsConsistent,
  start_inv-IsConsistent,
}

module _ {Db : Type 0} ⦃level_db : LevelDb Db⦄ ⦃platform : Platform⦄ ⦃wire : Wire⦄ where
  dispatch-IsConsistent :
      (fuel : ℕ) (node : FullNode Db) (msg_type payload : Bytes)
      → IsConsistent node
      → ConsistentAfter (dispatch fuel node msg_type payload)
  unfolding dispatch handle_version_msg handle_verack_msg handle_addr_msg handle_blockdata_msg
      handle_new_txn_msg
  dispatch-IsConsistent fuel node msg_type payload c =
      Ensures-if _ (msg_type =ᵇ version_msg) _ _
        (λ _. of_KeepsNode node _ (on_version-Keeps fuel node _) c)
        λ _.
          Ensures-if _ (msg_type =ᵇ verack_msg) _ _
            (λ _. Ensures-ok _ _ (on_verack-IsConsistent node _ c))
            λ _.
              Ensures-if _ (msg_type =ᵇ addr_msg) _ _
                (λ _. on_addr-IsConsistent fuel node _ payload c)
                λ _.
                  Ensures-if _ (msg_type =ᵇ getblocks_msg) _ _
                    (λ _. of_sending node (handle_getblocks_msg fuel node payload) c)
                    λ _.
                      Ensures-if _ (msg_type =ᵇ inv_msg) _ _
                        (λ _. Ensures-ok _ _ (start_inv-IsConsistent node payload c))
                        λ _.
                          Ensures-if _ (msg_type =ᵇ getdata_msg) _ _ (λ _. Ensures-ok _ _ c)
                            λ _.
                              Ensures-if _ (msg_type =ᵇ blockdata_msg) _ _
                                (λ _. of_KeepsNode node _ (on_blockdata-Keeps fuel node _) c)
                                λ _.
                                  Ensures-if _ (msg_type =ᵇ getheaders_msg) _ _
                                    (λ _.
                                      of_sending node (handle_getheaders_msg fuel node payload) c)
                                    λ _.
                                      Ensures-if _ (msg_type =ᵇ getutxo_msg) _ _
                                        (λ _. record {
                                          at = λ h e.
                                              of_Keeps ((get_utxo-Keeps node payload).at h e) c;
                                        })
                                        λ _.
                                          Ensures-if _ (msg_type =ᵇ newtxn_msg) _ _
                                            (λ _. Ensures-bind _ (handle_new_txn node _) _ λ r e.
                                              Ensures-ok _ _
                                                ((handle_new_txn-IsConsistent node _ c).at r e))
                                            λ _.
                                              Ensures-if _ (msg_type =ᵇ filterload_msg) _ _
                                                (λ _.
                                                  Ensures-ok _ _
                                                    (filterload-IsConsistent node payload c))
                                                λ _. Ensures-ok _ _ c

  handle_connection-IsConsistent :
      (fuel : ℕ) (node : FullNode Db) (read : Bytes)
      → IsConsistent node
      → ConsistentAfter (handle_connection fuel node read)
  unfolding handle_connection
  handle_connection-IsConsistent fuel node read c =
      Ensures-if _ (ltb (length read) msg_type_length) _ _ (λ _. Ensures-panic _)
        λ _. dispatch-IsConsistent fuel node _ _ c

  node-after_effect : (s : System Db) (e : Effect) → (after_effect s e).node ≡ s.node
  node-after_effect s nothing = refl
  node-after_effect s (replies m) = refl
  node-after_effect s (fetches messages) = refl

  pending-after_effect : (s : System Db) (e : Effect) → (after_effect s e).pending ≡ s.pending
  pending-after_effect s nothing = refl
  pending-after_effect s (replies m) = refl
  pending-after_effect s (fetches messages) = refl

  pub pending-after_handler :
      (s : System Db) (h : Outcome Db) → (after_handler s h).pending ≡ s.pending
  pending-after_handler s h = pending-after_effect (record s { node = h.node }) h.effect

  -- A handler begins when no other is between its check and the end of its append, or it leaves
  -- these lists alone. No lock of the code sees to that.
  abbrev pub IsAlone : {fuel : ℕ} {s t : System Db} → Step fuel s t → Type 0
  IsAlone {fuel} {s} (receive read h e) = (s.pending ≡ []) ⊎ Keeps s.node h.node
  IsAlone {fuel} {s} (check read h u e first) = s.pending ≡ []
  IsAlone (load before u after e) = Unit
  IsAlone (store before a after e) = Unit
  IsAlone (work before f after workers e st) = Unit
  IsAlone (finish before f after node sent e over run) = Unit

  abbrev pub OneAtATime :
      {fuel : ℕ} {db : Db} {network_address : Bytes} {s : System Db}
      → Reach fuel db network_address s
      → Type 0
  OneAtATime (start node e) = Unit
  OneAtATime (later r st) = OneAtATime r × IsAlone st

  Step-Phase :
      {fuel : ℕ} {s t : System Db} (st : Step fuel s t)
      → IsAlone st
      → Phase s.node s.pending
      → Phase t.node t.pending
  Step-Phase {fuel} {s} (receive read h e) (inl alone) p =
      let s' : System Db = record s { node = h.node } in
      let none_pending = pending-after_effect s' h.effect ∙ alone in
      subst (Phase (after_effect s' h.effect).node) (sym none_pending) (
        subst (λ n. IsConsistent n) (sym (node-after_effect s' h.effect))
          ((handle_connection-IsConsistent fuel s.node read (subst (Phase s.node) alone p)).at h e))
  Step-Phase {fuel} {s} (receive read h e) (inr keeps) p =
      let s' : System Db = record s { node = h.node } in
      subst (Phase (after_effect s' h.effect).node) (sym (pending-after_effect s' h.effect)) (
        subst (λ n. Phase n s.pending) (sym (node-after_effect s' h.effect))
          (Phase-of_Keeps s.pending keeps p))
  Step-Phase {fuel} {s} (check read h u e first) alone p =
      subst (λ ps. Phase s.node (ps ++ to_read u ∷ [])) (sym alone)
        (handler_update-Before s.node read u (subst (Phase s.node) alone p) first)
  Step-Phase {fuel} {s} (load before u after e) alone p =
      load-Phase s.node before u after (subst (Phase s.node) e p)
  Step-Phase {fuel} {s} (store before a after e) alone p =
      store-Phase s.node before a after (subst (Phase s.node) e p)
  Step-Phase (work before f after workers e st) alone p = p
  Step-Phase {fuel} {s} (finish before f after node sent e over run) alone p =
      Phase-of_Keeps s.pending ((finish_inv_msg-Keeps fuel s.node).at (node, sent) run) p

  new_full_node-IsConsistent :
      (fuel : ℕ) (db : Db) (network_address : Bytes)
      → Ensures (λ node. IsConsistent node) (new_full_node fuel db network_address)
  unfolding new_full_node get_connected_node_addresses
  new_full_node-IsConsistent fuel db network_address =
      Ensures-bind _ (init_block_chain fuel db) _ λ chain e.
        Ensures-ok _ _ (record { peers = tt; forwarded = tt; filters = tt; mempool = tt })

  Reach-Phase :
      (fuel : ℕ) {db : Db} {network_address : Bytes} {s : System Db}
      (r : Reach fuel db network_address s)
      → OneAtATime r
      → Phase s.node s.pending
  Reach-Phase fuel {db} {network_address} (start node e) alone =
      (new_full_node-IsConsistent fuel db network_address).at node e
  Reach-Phase fuel (later r st) (before, alone) = Step-Phase st alone (Reach-Phase fuel r before)

  -- Whatever a full node reads from its connections, and however its handlers are interleaved:
  -- if none that changes these lists began while another was between its check and the end of
  -- its append, then, whenever none is between these, no two of its peers have one address, no
  -- address stands twice among those that it forwarded, no SPV node has two filters, and no two
  -- transactions of the mempool have one hash.
  pub Reach-IsConsistent :
      (fuel : ℕ) (db : Db) (network_address : Bytes) (s : System Db)
      (r : Reach fuel db network_address s)
      → OneAtATime r
      → s.pending ≡ []
      → IsConsistent s.node
  Reach-IsConsistent fuel db network_address s r alone idle =
      subst (Phase s.node) idle (Reach-Phase fuel r alone)
