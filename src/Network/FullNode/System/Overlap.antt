-- ===== src/Network/FullNode/System/Overlap.antt =====
-- Two handlers of network/fullnode.go that overlap: no lock keeps the second from its check before
-- the first has made its append.
use echain.Base.{ℕ, ◌≡◌, refl, subst, Bytes, [], ◌∷◌, ◌++◌, some, ok}
use echain.Platform.{Platform}
use echain.LevelDb.{LevelDb}
use echain.Network.Messages.{NodeInfo}
use echain.Network.Wire.{Wire}
use echain.Network.FullNode.Connection.{Outcome, handle_connection}
use echain.Network.FullNode.Updates.{append_peer, to_read, evaluate, assign, handler_update}
use echain.Network.FullNode.System.{System, check, load, store, Reach, later}

module _ {Db : Type 0} ⦃level_db : LevelDb Db⦄ ⦃platform : Platform⦄ ⦃wire : Wire⦄ where
  -- In any reachable state without pending handlers, when a message is read that makes a handler
  -- append a peer: if it is read twice, and both handlers make their checks before either appends,
  -- then the peer stands in the list twice.
  pub Reach-peer_twice :
      (fuel : ℕ) (db : Db) (network_address : Bytes) (s : System Db) (read : Bytes) (h : Outcome Db)
      (p : NodeInfo)
      → Reach fuel db network_address s
      → s.pending ≡ []
      → handle_connection fuel s.node read ≡ ok h
      → handler_update s.node read ≡ some (append_peer p)
      → (t : System Db) × Reach fuel db network_address t
        × (t.node.connected_peers ≡ (s.node.connected_peers ++ p ∷ []) ++ p ∷ [])
  unfolding evaluate assign
  Reach-peer_twice fuel db network_address s read h p r idle ran fresh =
      let u = append_peer p in
      let once : Reach fuel db network_address (record s { pending = to_read u ∷ [] }) =
        subst (λ ps. Reach fuel db network_address (record s { pending = ps ++ to_read u ∷ [] }))
          idle (later r (check read h u ran fresh)) in
      let twice = later once (check read h u ran fresh) in
      let loaded = later twice (load [] u (to_read u ∷ []) refl) in
      let stored = later loaded (store [] (evaluate s.node u) (to_read u ∷ []) refl) in
      let node' = assign s.node (evaluate s.node u) in
      let loaded' = later stored (load [] u [] refl) in
      let stored' = later loaded' (store [] (evaluate node' u) [] refl) in (_, stored', refl)
