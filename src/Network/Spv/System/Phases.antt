-- ===== src/Network/Spv/System/Phases.antt =====
-- What a node of network/spv.go keeps, as long as no two handlers overlap.
use echain.Base.{
  Bool, Bytes, Option, none, true, if◌then◌else◌, ◌=ᵇ◌, ◌≡◌, refl, ap, some, sym, subst, ◌∙◌, false,
  List, [], ◌∷◌, ◌++◌, contains_bytes,
}
use echain.Network.Messages.{verack_msg, addr_msg, newaddr_msg, P2PNode, VerackMessage, AddrMessage}
use echain.Network.Wire.{Wire}
use echain.Network.Utils.{get_msg_type}
use echain.Network.Peers.{get_connected_node_addresses}
use echain.Network.FullNode.Handshake.PeerList.{AllDistinct, append-AllDistinct}
use echain.Network.Spv.{SpvNode}
use echain.Network.Spv.System.Keeps.{Keeps}
use echain.Network.Spv.Updates.{
  Update, append_peer, append_forwarded, append_monitored, copy_monitored, Assigned, peers,
  forwarded, monitored, filter, Pending, to_read, to_write, evaluate, assign, next_update,
  verack_update, addr_update, first_update,
}
use echain.Network.Spv.System.Handlers.{new_peer-IsMonitoring, IsMonitoring, of_Keeps}

unless_contained :
    (b : Bool) (u v : Update) → (if b then none else some u) ≡ some v → (b ≡ false) × (u ≡ v)
unless_contained true u v e = cc
unless_contained false u v e = (refl, cc e)

of_if :
    (P : Update → Type 0) (b : Bool) (x y : Option Update) (u : Update)
    → (x ≡ some u → P u)
    → (y ≡ some u → P u)
    → (if b then x else y) ≡ some u
    → P u
of_if P true x y u first second e = first e
of_if P false x y u first second e = second e

of_some : (P : Update → Type 0) (x u : Update) → P x → some x ≡ some u → P u
of_some P x u p e = subst P same p
  where
    same : x ≡ u
    same = cc e

module _ {Db : Type 0} where
  -- No peer and no forwarded address stands twice, which holds between the two assignments of
  -- handleNewAddrMsg too.
  pub record HasDistinct (node : SpvNode Db) : Type 0 where
    pub peers : AllDistinct (get_connected_node_addresses node.p2p)
    pub forwarded : AllDistinct node.forwarded_addr_list

  -- What holds before an assignment, when its handler is the only one.
  abbrev pub Before : SpvNode Db → Update → Type 0
  Before node (append_peer p) =
      IsMonitoring node × (contains_bytes (get_connected_node_addresses node.p2p) p.address ≡ false)
  Before node (append_forwarded a) =
      IsMonitoring node × (contains_bytes node.forwarded_addr_list a ≡ false)
  Before node (append_monitored a) = IsMonitoring node
  Before node copy_monitored = HasDistinct node

  -- What holds within it, before the write.
  abbrev pub Within : SpvNode Db → Assigned → Type 0
  Within node (peers ps) = IsMonitoring (assign node (peers ps))
  Within node (forwarded addrs) = IsMonitoring (assign node (forwarded addrs))
  Within node (monitored addrs) = HasDistinct node
  Within node (filter addrs) = IsMonitoring (assign node (filter addrs))

  abbrev pub Alone : SpvNode Db → Pending → Type 0
  Alone node (to_read u) = Before node u
  Alone node (to_write a) = Within node a

  -- What holds when one handler at most is before an assignment or in it.
  abbrev pub Phase : SpvNode Db → List Pending → Type 0
  Phase node [] = IsMonitoring node
  Phase node (p ∷ []) = Alone node p
  Phase node (p ∷ q ∷ ps) = ⊥

  HasDistinct-of_IsMonitoring : (node : SpvNode Db) → IsMonitoring node → HasDistinct node
  HasDistinct-of_IsMonitoring node c = record { peers = c.peers; forwarded = c.forwarded }

  evaluate-Within : (node : SpvNode Db) (u : Update) → Before node u → Within node (evaluate node u)
  unfolding evaluate assign get_connected_node_addresses
  evaluate-Within node (append_peer p) (c, fresh) = new_peer-IsMonitoring node p c fresh
  evaluate-Within node (append_forwarded a) (c, fresh) = record {
    filter = c.filter;
    peers = c.peers;
    forwarded = append-AllDistinct _ _ c.forwarded fresh;
  }
  evaluate-Within node (append_monitored a) c = HasDistinct-of_IsMonitoring node c
  evaluate-Within node copy_monitored d = record {
    filter = refl;
    peers = d.peers;
    forwarded = d.forwarded;
  }

  assign-Phase :
      (node : SpvNode Db) (a : Assigned)
      → Within node a
      → Phase (assign node a) (next_update a ++ [])
  unfolding assign next_update
  assign-Phase node (peers ps) w = w
  assign-Phase node (forwarded addrs) w = w
  assign-Phase node (monitored addrs) w = record { peers = w.peers; forwarded = w.forwarded }
  assign-Phase node (filter addrs) w = w

  pub load-Phase :
      (node : SpvNode Db) (before : List Pending) (u : Update) (after : List Pending)
      → Phase node (before ++ to_read u ∷ after)
      → Phase node (before ++ to_write (evaluate node u) ∷ after)
  load-Phase node [] u [] p = evaluate-Within node u p
  load-Phase node [] u (q ∷ after) p = absurd p
  load-Phase node (q ∷ []) u after p = absurd p
  load-Phase node (q ∷ r ∷ before) u after p = absurd p

  pub store-Phase :
      (node : SpvNode Db) (before : List Pending) (a : Assigned) (after : List Pending)
      → Phase node (before ++ to_write a ∷ after)
      → Phase (assign node a) (before ++ next_update a ++ after)
  store-Phase node [] a [] p = assign-Phase node a p
  store-Phase node [] a (q ∷ after) p = absurd p
  store-Phase node (q ∷ []) a after p = absurd p
  store-Phase node (q ∷ r ∷ before) a after p = absurd p

  HasDistinct-of_Keeps :
      {node node' : SpvNode Db} → Keeps node node' → HasDistinct node → HasDistinct node'
  HasDistinct-of_Keeps k d = record {
    peers = subst (λ p. AllDistinct (get_connected_node_addresses p)) (sym k.p2p) d.peers;
    forwarded = subst (λ p. AllDistinct p.forwarded_addr_list) (sym k.p2p) d.forwarded;
  }

  assign-Keeps :
      {node node' : SpvNode Db} (a : Assigned)
      → Keeps node node'
      → Keeps (assign node a) (assign node' a)
  unfolding assign
  assign-Keeps (peers ps) k = record {
    p2p = ap (λ (p : P2PNode). record p { connected_peers = ps }) k.p2p;
    monitor_addr_list = k.monitor_addr_list;
    bloom_filter = k.bloom_filter;
  }
  assign-Keeps (forwarded addrs) k = record {
    p2p = ap (λ (p : P2PNode). record p { forwarded_addr_list = addrs }) k.p2p;
    monitor_addr_list = k.monitor_addr_list;
    bloom_filter = k.bloom_filter;
  }
  assign-Keeps (monitored addrs) k = record {
    p2p = k.p2p;
    monitor_addr_list = refl;
    bloom_filter = k.bloom_filter;
  }
  assign-Keeps (filter addrs) k = record {
    p2p = k.p2p;
    monitor_addr_list = k.monitor_addr_list;
    bloom_filter = refl;
  }

  pub Phase-of_Keeps :
      {node node' : SpvNode Db} (ps : List Pending)
      → Keeps node node'
      → Phase node ps
      → Phase node' ps
  Phase-of_Keeps [] k c = of_Keeps k c
  Phase-of_Keeps (to_read (append_peer p) ∷ []) k (c, fresh) = (
    of_Keeps k c,
    ap (λ q. contains_bytes (get_connected_node_addresses q) p.address) k.p2p ∙ fresh,
  )
  Phase-of_Keeps (to_read (append_forwarded a) ∷ []) k (c, fresh) =
      (of_Keeps k c, ap (λ q. contains_bytes q.forwarded_addr_list a) k.p2p ∙ fresh)
  Phase-of_Keeps (to_read (append_monitored a) ∷ []) k c = of_Keeps k c
  Phase-of_Keeps (to_read copy_monitored ∷ []) k d = HasDistinct-of_Keeps k d
  Phase-of_Keeps (to_write (peers ps) ∷ []) k c = of_Keeps (assign-Keeps (peers ps) k) c
  Phase-of_Keeps (to_write (forwarded addrs) ∷ []) k c =
      of_Keeps (assign-Keeps (forwarded addrs) k) c
  Phase-of_Keeps (to_write (monitored addrs) ∷ []) k d = HasDistinct-of_Keeps k d
  Phase-of_Keeps (to_write (filter addrs) ∷ []) k c = of_Keeps (assign-Keeps (filter addrs) k) c
  Phase-of_Keeps (p ∷ q ∷ ps) k c = absurd c

  verack_update-Before :
      (node : SpvNode Db) (m : VerackMessage) (u : Update)
      → IsMonitoring node
      → verack_update node m ≡ some u
      → Before node u
  unfolding verack_update
  verack_update-Before node m u c e =
      let (fresh, same) =
        unless_contained (contains_bytes (get_connected_node_addresses node.p2p) m.addr_from)
          (append_peer (record { node_type = m.node_type; address = m.addr_from })) u e in
      subst (Before node) same (c, fresh)

  addr_update-Before :
      (node : SpvNode Db) (m : AddrMessage) (u : Update)
      → IsMonitoring node
      → addr_update node m ≡ some u
      → Before node u
  unfolding addr_update
  addr_update-Before node m u c e =
      let (fresh, same) =
        unless_contained (contains_bytes node.forwarded_addr_list m.address)
          (append_forwarded m.address) u e in
      subst (Before node) same (c, fresh)

  pub first_update-Before :
      ⦃wire : Wire⦄ (node : SpvNode Db) (read : Bytes) (u : Update)
      → IsMonitoring node
      → first_update node read ≡ some u
      → Before node u
  unfolding first_update
  first_update-Before node read u c e =
      of_if (Before node) (get_msg_type read =ᵇ verack_msg) _ _ u (verack_update-Before node _ u c)
        (of_if (Before node) (get_msg_type read =ᵇ addr_msg) _ _ u (addr_update-Before node _ u c) (
          of_if (Before node) (get_msg_type read =ᵇ newaddr_msg) _ none u
            (of_some (Before node) _ u c) (λ h. cc)))
        e
