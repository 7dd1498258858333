-- ===== src/Network/Spv/System/Overlap.antt =====
-- Two handlers of network/spv.go that overlap: no lock keeps the second from its read of a list
-- before the first has written it.
use echain.Base.{ℕ, ◌≡◌, refl, subst, Bytes, [], ◌∷◌, ◌++◌, some, ok}
use echain.Platform.{Platform}
use echain.LevelDb.{LevelDb}
use echain.Network.Wire.{Wire}
use echain.Network.Spv.{Handled}
use echain.Network.Spv.Connection.{handle_connection}
use echain.Network.Spv.Updates.{
  append_monitored, copy_monitored, filter, to_read, to_write, evaluate, assign, next_update,
  first_update,
}
use echain.Network.Spv.System.{System, check, load, store, Reach, later}

module _ {Db : Type 0} ⦃level_db : LevelDb Db⦄ ⦃platform : Platform⦄ ⦃wire : Wire⦄ where
  -- In any reachable state without pending handlers, when two messages are read that make a handler
  -- monitor an address: if both handlers read the list before either writes it, then the first
  -- address is lost, although both handlers have returned.
  pub Reach-address_lost :
      (fuel : ℕ) (db : Db) (network_address : Bytes) (s : System Db) (read read' : Bytes)
      (h h' : Handled Db) (a b : Bytes)
      → Reach fuel db network_address s
      → s.pending ≡ []
      → handle_connection fuel s.node read ≡ ok h
      → first_update s.node read ≡ some (append_monitored a)
      → handle_connection fuel s.node read' ≡ ok h'
      → first_update s.node read' ≡ some (append_monitored b)
      → (t : System Db) × Reach fuel db network_address t
        × (t.pending ≡ [])
        × (t.node.monitor_addr_list ≡ s.node.monitor_addr_list ++ b ∷ [])
        × (t.node.bloom_filter ≡ s.node.monitor_addr_list ++ b ∷ [])
  unfolding evaluate assign next_update
  Reach-address_lost fuel db network_address s read read' h h' a b r idle ran first ran' second =
      let u = append_monitored a in
      let v = append_monitored b in
      let old = s.node.monitor_addr_list in
      let one : Reach fuel db network_address (record s { pending = to_read u ∷ [] }) =
        subst (λ ps. Reach fuel db network_address (record s { pending = ps ++ to_read u ∷ [] }))
          idle (later r (check read h u ran first)) in
      let both = later one (check read' h' v ran' second) in
      let loaded = later both (load [] u (to_read v ∷ []) refl) in
      let loaded' = later loaded (load (to_write (evaluate s.node u) ∷ []) v [] refl) in
      let stored =
        later loaded' (store [] (evaluate s.node u) (to_write (evaluate s.node v) ∷ []) refl) in
      let stored' =
        later stored (store (to_read copy_monitored ∷ []) (evaluate s.node v) [] refl) in
      let copying = later stored' (load [] copy_monitored (to_read copy_monitored ∷ []) refl) in
      let new = old ++ b ∷ [] in
      let copied = later copying (store [] (filter new) (to_read copy_monitored ∷ []) refl) in
      let copying' = later copied (load [] copy_monitored [] refl) in
      let copied' = later copying' (store [] (filter new) [] refl) in (_, copied', refl, refl, refl)
