-- ===== src/Network/Spv/System/Monitoring.antt =====
-- What every reachable state of a node of network/spv.go keeps, if no two handlers overlap.
use echain.Base.{
  ◌⊎◌, inl, inr, ℕ, ◌≡◌, refl, sym, subst, ◌∙◌, Bytes, List, [], ◌∷◌, ◌++◌, Ensures, Ensures-ok,
  Ensures-bind,
}
use echain.Platform.{Platform}
use echain.LevelDb.{LevelDb}
use echain.Blockchain.ChainHeader.{init_block_chain_header}
use echain.Network.Messages.{MerkleBlockMessage}
use echain.Network.Wire.{Wire}
use echain.Network.Peers.{get_connected_node_addresses}
use echain.Network.Spv.{Handled, Effect, nothing, replies, sleeps, signals, new_spv_node}
use echain.Network.Spv.System.{
  System, signal, after_effect, after_handler, Step, receive, check, load, store, ask, await,
  resume, Reach, start, later,
}
use echain.Network.Spv.System.Keeps.{Keeps, request_header-Keeps, finish_merkle_block-Keeps}
use echain.Network.Spv.Updates.{to_read}
use echain.Network.Spv.System.Handlers.{IsMonitoring, handle_connection-IsMonitoring}
use echain.Network.Spv.System.Phases.{
  Phase, first_update-Before, load-Phase, store-Phase, Phase-of_Keeps,
}

module _ {Db : Type 0} ⦃level_db : LevelDb Db⦄ ⦃platform : Platform⦄ ⦃wire : Wire⦄ where
  node-signal : (s : System Db) (ms : List MerkleBlockMessage) → (signal s ms).node ≡ s.node
  unfolding signal
  node-signal s [] = refl
  node-signal s (m ∷ ms) = refl

  node-after_effect : (s : System Db) (e : Effect) → (after_effect s e).node ≡ s.node
  node-after_effect s nothing = refl
  node-after_effect s (replies m) = refl
  node-after_effect s (sleeps m) = refl
  node-after_effect s signals = node-signal s s.waiting

  pending-signal :
      (s : System Db) (ms : List MerkleBlockMessage) → (signal s ms).pending ≡ s.pending
  unfolding signal
  pending-signal s [] = refl
  pending-signal s (m ∷ ms) = refl

  pending-after_effect : (s : System Db) (e : Effect) → (after_effect s e).pending ≡ s.pending
  pending-after_effect s nothing = refl
  pending-after_effect s (replies m) = refl
  pending-after_effect s (sleeps m) = refl
  pending-after_effect s signals = pending-signal s s.waiting

  pub pending-after_handler :
      (s : System Db) (h : Handled Db) → (after_handler s h).pending ≡ s.pending
  pending-after_handler s h = pending-after_effect (record s { node = h.node }) h.effect

  -- A handler begins when no other is between its check and the end of its assignments, or it
  -- leaves these lists alone. No lock of the code sees to that.
  abbrev pub IsAlone : {fuel : ℕ} {s t : System Db} → Step fuel s t → Type 0
  IsAlone {fuel} {s} (receive read h e) = (s.pending ≡ []) ⊎ Keeps s.node h.node
  IsAlone {fuel} {s} (check read h u e first) = s.pending ≡ []
  IsAlone (load before u after e) = Unit
  IsAlone (store before a after e) = Unit
  IsAlone (ask before m after e) = Unit
  IsAlone (await before m after e) = Unit
  IsAlone (resume before m after h e run) = Unit

  abbrev pub OneAtATime :
      {fuel : ℕ} {db : Db} {network_address : Bytes} {s : System Db}
      → Reach fuel db network_address s
      → Type 0
  OneAtATime (start node e) = Unit
  OneAtATime (later r st) = OneAtATime r × IsAlone st

  Step-Phase :
      {fuel : ℕ} {s t : System Db} (st : Step fuel s t)
      → IsAlone st
      → Phase s.node s.pending
      → Phase t.node t.pending
  Step-Phase {fuel} {s} (receive read h e) (inl alone) p =
      let s' : System Db = record s { node = h.node } in
      let none_pending = pending-after_effect s' h.effect ∙ alone in
      subst (Phase (after_effect s' h.effect).node) (sym none_pending) (
        subst (λ n. IsMonitoring n) (sym (node-after_effect s' h.effect))
          ((handle_connection-IsMonitoring fuel s.node read (subst (Phase s.node) alone p)).at h e))
  Step-Phase {fuel} {s} (receive read h e) (inr keeps) p =
      let s' : System Db = record s { node = h.node } in
      subst (Phase (after_effect s' h.effect).node) (sym (pending-after_effect s' h.effect)) (
        subst (λ n. Phase n s.pending) (sym (node-after_effect s' h.effect))
          (Phase-of_Keeps s.pending keeps p))
  Step-Phase {fuel} {s} (check read h u e first) alone p =
      subst (λ ps. Phase s.node (ps ++ to_read u ∷ [])) (sym alone)
        (first_update-Before s.node read u (subst (Phase s.node) alone p) first)
  Step-Phase {fuel} {s} (load before u after e) alone p =
      load-Phase s.node before u after (subst (Phase s.node) e p)
  Step-Phase {fuel} {s} (store before a after e) alone p =
      store-Phase s.node before a after (subst (Phase s.node) e p)
  Step-Phase {fuel} {s} (ask before m after e) alone p =
      Phase-of_Keeps s.pending (request_header-Keeps s.node m.addr_from s.node.connected_peers) p
  Step-Phase (await before m after e) alone p = p
  Step-Phase {fuel} {s} (resume before m after h e run) alone p =
      Phase-of_Keeps s.pending ((finish_merkle_block-Keeps s.node m).at h run) p

  new_spv_node-IsMonitoring :
      (fuel : ℕ) (db : Db) (network_address : Bytes)
      → Ensures (λ node. IsMonitoring node) (new_spv_node fuel db network_address)
  unfolding new_spv_node get_connected_node_addresses
  new_spv_node-IsMonitoring fuel db network_address =
      Ensures-bind _ (init_block_chain_header fuel db) _
        λ chain e. Ensures-ok _ _ (record { filter = refl; peers = tt; forwarded = tt })

  Reach-Phase :
      (fuel : ℕ) {db : Db} {network_address : Bytes} {s : System Db}
      (r : Reach fuel db network_address s)
      → OneAtATime r
      → Phase s.node s.pending
  Reach-Phase fuel {db} {network_address} (start node e) alone =
      (new_spv_node-IsMonitoring fuel db network_address).at node e
  Reach-Phase fuel (later r st) (before, alone) = Step-Phase st alone (Reach-Phase fuel r before)

  -- Whatever an SPV node reads from its connections, and however its handlers are interleaved:
  -- if none that changes these lists began while another was between its check and the end of
  -- its assignments, then, whenever none is between these, its filter is the list of the
  -- addresses that it monitors, no two of its peers have one address, and no address stands
  -- twice among those that it forwarded.
  pub Reach-IsMonitoring :
      (fuel : ℕ) (db : Db) (network_address : Bytes) (s : System Db)
      (r : Reach fuel db network_address s)
      → OneAtATime r
      → s.pending ≡ []
      → IsMonitoring s.node
  Reach-IsMonitoring fuel db network_address s r alone idle =
      subst (Phase s.node) idle (Reach-Phase fuel r alone)
