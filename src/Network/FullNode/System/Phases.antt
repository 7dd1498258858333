-- ===== src/Network/FullNode/System/Phases.antt =====
-- A handler of network/fullnode.go before its append and in it, when it is the only one.
use echain.Base.{
  Bool, Bytes, List, [], ◌∷◌, ◌++◌, Option, none, some, Run, ok, timeout, panic, ◌≡◌, refl, ap,
  subst, ◌∙◌, true, false, ◌=ᵇ◌, exists, contains_bytes, if◌then◌else◌,
}
use echain.Base.GoInt
use echain.Types.{Transaction}
use echain.Platform.{Platform}
use echain.LevelDb.{LevelDb}
use echain.Network.Messages.{P2PNode, VerackMessage, AddrMessage, verack_msg, addr_msg, newtxn_msg}
use echain.Network.Wire.{Wire}
use echain.Network.Utils.{get_msg_type}
use echain.Network.Peers.{get_connected_node_addresses}
use echain.Network.FullNode.{FullNode}
use echain.Network.FullNode.Handshake.PeerList.{append-AllDistinct, addresses-append}
use echain.Network.FullNode.NewTxn.{InputCheck, rejected, paid, check_inputs, spent_amount}
use echain.Network.FullNode.Updates.{
  Update, append_peer, append_forwarded, append_transaction, Assigned, peers, forwarded,
  transactions, Pending, to_read, to_write, evaluate, assign, verack_update, addr_update, checked,
  txn_update, handler_update,
}
use echain.Network.FullNode.System.Keeps.{Keeps}
use echain.Network.FullNode.System.Handlers.{
  IsConsistent, of_Keeps, hashes, hashes-append, contains_bytes-hashes,
}

unless_contained :
    (b : Bool) (u v : Update) → (if b then none else some u) ≡ some v → (b ≡ false) × (u ≡ v)
unless_contained true u v e = cc
unless_contained false u v e = (refl, cc e)

of_if :
    (P : Update → Type 0) (b : Bool) (x y : Option Update) (u : Update)
    → (x ≡ some u → P u)
    → (y ≡ some u → P u)
    → (if b then x else y) ≡ some u
    → P u
of_if P true x y u first second e = first e
of_if P false x y u first second e = second e

checked-transaction :
    (t : Transaction) (check : Run InputCheck) (u : Update)
    → checked t check ≡ some u
    → append_transaction t ≡ u
unfolding checked
checked-transaction t (ok (paid total)) u e =
    (unless_contained (GoInt.lt total (spent_amount 0 t.outputs)) (append_transaction t) u e).1
checked-transaction t (ok (rejected error)) u e = cc
checked-transaction t timeout u e = cc
checked-transaction t panic u e = cc

module _ {Db : Type 0} where
  -- What the checks of the handler found.
  abbrev Fresh : FullNode Db → Update → Type 0
  Fresh node (append_peer p) =
      contains_bytes (get_connected_node_addresses node.p2p) p.address ≡ false
  Fresh node (append_forwarded a) = contains_bytes node.forwarded_addr_list a ≡ false
  Fresh node (append_transaction t) = exists (λ txn. txn.hash =ᵇ t.hash) node.mempool ≡ false

  abbrev pub Before : FullNode Db → Update → Type 0
  Before node u = IsConsistent node × Fresh node u

  abbrev pub Alone : FullNode Db → Pending → Type 0
  Alone node (to_read u) = Before node u
  Alone node (to_write a) = IsConsistent (assign node a)

  -- What holds when one handler at most is before its append or in it.
  abbrev pub Phase : FullNode Db → List Pending → Type 0
  Phase node [] = IsConsistent node
  Phase node (p ∷ []) = Alone node p
  Phase node (p ∷ q ∷ ps) = ⊥

  evaluate-IsConsistent :
      (node : FullNode Db) (u : Update)
      → Before node u
      → IsConsistent (assign node (evaluate node u))
  unfolding evaluate assign get_connected_node_addresses
  evaluate-IsConsistent node (append_peer p) (c, fresh) = record {
    peers = rw (addresses-append node.connected_peers p) (append-AllDistinct _ _ c.peers fresh);
    forwarded = c.forwarded;
    filters = c.filters;
    mempool = c.mempool;
  }
  evaluate-IsConsistent node (append_forwarded a) (c, fresh) = record {
    peers = c.peers;
    forwarded = append-AllDistinct _ _ c.forwarded fresh;
    filters = c.filters;
    mempool = c.mempool;
  }
  evaluate-IsConsistent node (append_transaction t) (c, fresh) = record {
    peers = c.peers;
    forwarded = c.forwarded;
    filters = c.filters;
    mempool = rw (hashes-append node.mempool t) (
        append-AllDistinct (hashes node.mempool) t.hash c.mempool
          (contains_bytes-hashes node.mempool t.hash ∙ fresh));
  }

  pub load-Phase :
      (node : FullNode Db) (before : List Pending) (u : Update) (after : List Pending)
      → Phase node (before ++ to_read u ∷ after)
      → Phase node (before ++ to_write (evaluate node u) ∷ after)
  load-Phase node [] u [] p = evaluate-IsConsistent node u p
  load-Phase node [] u (q ∷ after) p = absurd p
  load-Phase node (q ∷ []) u after p = absurd p
  load-Phase node (q ∷ r ∷ before) u after p = absurd p

  pub store-Phase :
      (node : FullNode Db) (before : List Pending) (a : Assigned) (after : List Pending)
      → Phase node (before ++ to_write a ∷ after)
      → Phase (assign node a) (before ++ after)
  store-Phase node [] a [] p = p
  store-Phase node [] a (q ∷ after) p = absurd p
  store-Phase node (q ∷ []) a after p = absurd p
  store-Phase node (q ∷ r ∷ before) a after p = absurd p

  assign-Keeps :
      {node node' : FullNode Db} (a : Assigned)
      → Keeps node node'
      → Keeps (assign node a) (assign node' a)
  unfolding assign
  assign-Keeps (peers ps) k = record {
    p2p = ap (λ (p : P2PNode). record p { connected_peers = ps }) k.p2p;
    filters = k.filters;
    mempool = k.mempool;
  }
  assign-Keeps (forwarded addrs) k = record {
    p2p = ap (λ (p : P2PNode). record p { forwarded_addr_list = addrs }) k.p2p;
    filters = k.filters;
    mempool = k.mempool;
  }
  assign-Keeps (transactions ts) k = record { p2p = k.p2p; filters = k.filters; mempool = refl }

  pub Phase-of_Keeps :
      {node node' : FullNode Db} (ps : List Pending)
      → Keeps node node'
      → Phase node ps
      → Phase node' ps
  Phase-of_Keeps [] k c = of_Keeps k c
  Phase-of_Keeps (to_read (append_peer p) ∷ []) k (c, fresh) = (
    of_Keeps k c,
    ap (λ q. contains_bytes (get_connected_node_addresses q) p.address) k.p2p ∙ fresh,
  )
  Phase-of_Keeps (to_read (append_forwarded a) ∷ []) k (c, fresh) =
      (of_Keeps k c, ap (λ q. contains_bytes q.forwarded_addr_list a) k.p2p ∙ fresh)
  Phase-of_Keeps (to_read (append_transaction t) ∷ []) k (c, fresh) =
      (of_Keeps k c, ap (exists (λ txn. txn.hash =ᵇ t.hash)) k.mempool ∙ fresh)
  Phase-of_Keeps (to_write a ∷ []) k c = of_Keeps (assign-Keeps a k) c
  Phase-of_Keeps (p ∷ q ∷ ps) k c = absurd c

  verack_update-Fresh :
      (node : FullNode Db) (m : VerackMessage) (u : Update)
      → verack_update node m ≡ some u
      → Fresh node u
  unfolding verack_update
  verack_update-Fresh node m u e =
      let (fresh, same) =
        unless_contained (contains_bytes (get_connected_node_addresses node.p2p) m.addr_from)
          (append_peer (record { node_type = m.node_type; address = m.addr_from })) u e in
      subst (Fresh node) same fresh

  addr_update-Fresh :
      (node : FullNode Db) (m : AddrMessage) (u : Update)
      → addr_update node m ≡ some u
      → Fresh node u
  unfolding addr_update
  addr_update-Fresh node m u e =
      let (fresh, same) =
        unless_contained (contains_bytes node.forwarded_addr_list m.address)
          (append_forwarded m.address) u e in
      subst (Fresh node) same fresh

module _ {Db : Type 0} ⦃level_db : LevelDb Db⦄ ⦃platform : Platform⦄ where
  txn_update-Fresh :
      (node : FullNode Db) (t : Transaction) (u : Update)
      → txn_update node t ≡ some u
      → Fresh node u
  unfolding txn_update
  txn_update-Fresh node t u e =
      let check = check_inputs node.blockchain.data_base t.inputs 0 in
      let (fresh, admitted) =
        unless_known (exists (λ txn. txn.hash =ᵇ t.hash) node.mempool) (checked t check) u e in
      subst (Fresh node) (checked-transaction t check u admitted) fresh
    where
      unless_known :
          (b : Bool) (x : Option Update) (v : Update)
          → (if b then none else x) ≡ some v
          → (b ≡ false) × (x ≡ some v)
      unless_known true x v h = cc
      unless_known false x v h = (refl, h)

  pub handler_update-Before :
      ⦃wire : Wire⦄ (node : FullNode Db) (read : Bytes) (u : Update)
      → IsConsistent node
      → handler_update node read ≡ some u
      → Before node u
  unfolding handler_update
  handler_update-Before node read u c e = (
    c,
    of_if (Fresh node) (get_msg_type read =ᵇ verack_msg) _ _ u (verack_update-Fresh node _ u)
        (of_if (Fresh node) (get_msg_type read =ᵇ addr_msg) _ _ u (addr_update-Fresh node _ u) (
          of_if (Fresh node) (get_msg_type read =ᵇ newtxn_msg) _ none u (txn_update-Fresh node _ u)
            (λ h. cc)))
        e,
  )
