-- ===== src/Network/FullNode/System/Handlers.antt =====
-- What a handler of network/fullnode.go keeps of the lists of a node without repetitions.
use echain.Base.{
  ℕ, ◌≡◌, refl, sym, subst, ◌∙◌, ap, inl, inr, false, Bytes, List, [], ◌∷◌, ◌++◌, map, Run, ◌=ᵇ◌,
  exists, contains_bytes, Bool-cases, Ensures, Ensures-ok, Ensures-if, Ensures-bind, arith,
}
use echain.Base.GoInt
use echain.Base.GoMap.{DistinctKeys, set-DistinctKeys}
use echain.Types.{Transaction}
use echain.Platform.{Platform}
use echain.LevelDb.{LevelDb}
use echain.Network.Messages.{VerackMessage, AddrMessage}
use echain.Network.Wire.{Wire, Sent}
use echain.Network.Peers.{get_connected_node_addresses}
use echain.Network.FullNode.{FullNode, Handled}
use echain.Network.FullNode.Handshake.{on_verack, on_addr, greet, handle_filterload_msg}
use echain.Network.FullNode.Handshake.PeerList.{
  AllDistinct, append-AllDistinct, on_verack-AllDistinct,
}
use echain.Network.FullNode.NewTxn.{
  InputCheck, rejected, paid, admit, handle_new_txn, check_inputs, spent_amount,
}
use echain.Network.FullNode.Inventory.{begin_inv_msg, on_inv}
use echain.Network.FullNode.Connection.{Outcome, plainly, sending, start_inv}
use echain.Network.FullNode.System.Keeps.{Keeps, KeepsNode}

abbrev pub hashes : List Transaction → List Bytes
hashes = map (λ t. t.hash)

-- No peer and no forwarded address stands twice, no SPV node has two filters, and no two
-- transactions of the mempool have one hash.
pub record IsConsistent {Db : Type 0} (node : FullNode Db) : Type 0 where
  pub peers : AllDistinct (get_connected_node_addresses node.p2p)
  pub forwarded : AllDistinct node.forwarded_addr_list
  pub filters : DistinctKeys node.connected_spv_bloom_filter_map
  pub mempool : AllDistinct (hashes node.mempool)

pub of_Keeps :
    {Db : Type 0} {node node' : FullNode Db}
    → Keeps node node'
    → IsConsistent node
    → IsConsistent node'
of_Keeps k c = record {
  peers = subst (λ p. AllDistinct (get_connected_node_addresses p)) (sym k.p2p) c.peers;
  forwarded = subst (λ p. AllDistinct p.forwarded_addr_list) (sym k.p2p) c.forwarded;
  filters = subst (λ m. DistinctKeys m) (sym k.filters) c.filters;
  mempool = subst (λ m. AllDistinct (hashes m)) (sym k.mempool) c.mempool;
}

abbrev pub ConsistentAfter : {Db : Type 0} → Run (Outcome Db) → Type 0
ConsistentAfter run = Ensures (λ h. IsConsistent h.node) run

pub of_KeepsNode :
    {Db : Type 0} (node : FullNode Db) (run : Handled Db)
    → KeepsNode node run
    → IsConsistent node
    → ConsistentAfter (plainly run)
of_KeepsNode node run k c = Ensures-bind _ run _ λ r e. Ensures-ok _ _ (of_Keeps (k.at r e) c)

pub of_sending :
    {Db : Type 0} (node : FullNode Db) (run : Run (List Sent))
    → IsConsistent node
    → ConsistentAfter (sending node run)
of_sending node run c = Ensures-bind _ run _ λ sent e. Ensures-ok _ _ c

pub hashes-append :
    (ts : List Transaction) (t : Transaction) → hashes (ts ++ t ∷ []) ≡ hashes ts ++ t.hash ∷ []
hashes-append [] t = refl
hashes-append (u ∷ ts) t = ap (◌∷◌ u.hash) (hashes-append ts t)

pub contains_bytes-hashes :
    (ts : List Transaction) (hash : Bytes)
    → contains_bytes (hashes ts) hash ≡ exists (λ t. t.hash =ᵇ hash) ts
contains_bytes-hashes [] hash = refl
contains_bytes-hashes (t ∷ ts) hash = ground (arith, contains_bytes-hashes ts hash)

module _ {Db : Type 0} ⦃level_db : LevelDb Db⦄ ⦃platform : Platform⦄ ⦃wire : Wire⦄ where
  pub on_verack-IsConsistent :
      (node : FullNode Db) (m : VerackMessage)
      → IsConsistent node
      → IsConsistent (on_verack node m).0
  unfolding on_verack
  on_verack-IsConsistent node m c =
      let distinct = (on_verack-AllDistinct node m c.peers).0 in
      elim (Bool-cases (contains_bytes (get_connected_node_addresses node.p2p) m.addr_from)) [
        | inl known ↦ rw known c
        | inr fresh ↦
            let distinct' = rw fresh at distinct in
            rw fresh (record {
              peers = distinct';
              forwarded = c.forwarded;
              filters = c.filters;
              mempool = c.mempool;
            })
      ]

  pub on_addr-IsConsistent :
      (fuel : ℕ) (node : FullNode Db) (m : AddrMessage) (msg : Bytes)
      → IsConsistent node
      → ConsistentAfter (plainly (on_addr fuel node m msg))
  unfolding on_addr get_connected_node_addresses
  on_addr-IsConsistent fuel node m msg c =
      Ensures-bind _ (on_addr fuel node m msg) _ λ r e. Ensures-ok _ _ (after.at r e)
    where
      after : Ensures (λ r. IsConsistent r.0) (on_addr fuel node m msg)
      after = Ensures-bind _ (greet fuel node m.address) _ λ greeting e.
          Ensures-if _ (contains_bytes node.forwarded_addr_list m.address) _ _
            (λ known. Ensures-ok _ _ c)
            λ fresh. Ensures-ok _ _ (record {
              peers = c.peers;
              forwarded = append-AllDistinct _ _ c.forwarded fresh;
              filters = c.filters;
              mempool = c.mempool;
            })

  pub filterload-IsConsistent :
      (node : FullNode Db) (msg : Bytes)
      → IsConsistent node
      → IsConsistent (handle_filterload_msg node msg)
  unfolding handle_filterload_msg
  filterload-IsConsistent node msg c = record {
    peers = c.peers;
    forwarded = c.forwarded;
    filters = set-DistinctKeys node.connected_spv_bloom_filter_map _ _ c.filters;
    mempool = c.mempool;
  }

  admit-IsConsistent :
      (node : FullNode Db) (t : Transaction) (check : InputCheck)
      → IsConsistent node
      → exists (λ txn. txn.hash =ᵇ t.hash) node.mempool ≡ false
      → IsConsistent (admit node t check).0
  unfolding admit
  admit-IsConsistent node t (rejected error) c fresh = c
  admit-IsConsistent node t (paid total) c fresh =
      elim (Bool-cases (GoInt.lt total (spent_amount 0 t.outputs))) [
        | inl less ↦ rw less c
        | inr enough ↦ rw enough (record {
          peers = c.peers;
          forwarded = c.forwarded;
          filters = c.filters;
          mempool = rw (hashes-append node.mempool t) (
              append-AllDistinct (hashes node.mempool) t.hash c.mempool
                (contains_bytes-hashes node.mempool t.hash ∙ fresh));
        })
      ]

  pub handle_new_txn-IsConsistent :
      (node : FullNode Db) (t : Transaction)
      → IsConsistent node
      → Ensures (λ r. IsConsistent r.0) (handle_new_txn node t)
  unfolding handle_new_txn
  handle_new_txn-IsConsistent node t c =
      Ensures-if _ (exists (λ txn. txn.hash =ᵇ t.hash) node.mempool) _ _ (λ known. Ensures-ok _ _ c)
        λ fresh.
          Ensures-bind _ (check_inputs node.blockchain.data_base t.inputs 0) _
            λ check e. Ensures-ok _ _ (admit-IsConsistent node t check c fresh)

  pub start_inv-IsConsistent :
      (node : FullNode Db) (msg : Bytes)
      → IsConsistent node
      → IsConsistent (start_inv node msg).node
  unfolding start_inv begin_inv_msg on_inv
  start_inv-IsConsistent node msg c = record {
    peers = c.peers;
    forwarded = c.forwarded;
    filters = c.filters;
    mempool = c.mempool;
  }
