-- ===== src/Network/FullNode/Handshake/PeerList.antt =====
-- How the handlers of network/fullnode.go keep the lists of peers and of forwarded addresses.
use echain.Base.{
  ℕ, ◌≡◌, refl, ap, inl, inr, true, false, ◌||◌, Bytes, List, [], ◌∷◌, ◌++◌, Run, ok, timeout,
  panic, ◌>>=◌, ◌=ᵇ◌, =ᵇ_iff, =ᵇ-refl, contains_bytes, Bool-cases, if◌then◌else◌, arith,
}
use echain.Platform.{Platform}
use echain.LevelDb.{LevelDb}
use echain.Network.Messages.{VerackMessage, AddrMessage, NodeInfo}
use echain.Network.Wire.{Wire, Sent}
use echain.Network.Peers.{addresses, get_connected_node_addresses}
use echain.Network.FullNode.{FullNode, send_addr_msg, send_get_blocks_msg}
use echain.Network.FullNode.Handshake.{on_verack, on_addr, greet, forward_addr}

-- No address stands twice.
abbrev pub AllDistinct : List Bytes → Type 0
AllDistinct [] = Unit
AllDistinct (x ∷ xs) = (contains_bytes xs x ≡ false) × AllDistinct xs

contains_bytes-append :
    (xs : List Bytes) (a b : Bytes)
    → contains_bytes (xs ++ a ∷ []) b ≡ (contains_bytes xs b || (a =ᵇ b))
contains_bytes-append [] a b = ground arith
contains_bytes-append (x ∷ xs) a b = ground (arith, contains_bytes-append xs a b)

pub append-AllDistinct :
    (xs : List Bytes) (a : Bytes)
    → AllDistinct xs
    → contains_bytes xs a ≡ false
    → AllDistinct (xs ++ a ∷ [])
append-AllDistinct [] a d h = (refl, tt)
append-AllDistinct (x ∷ xs) a d h = (
  ground (arith, contains_bytes-append xs a x, =ᵇ_iff x a, =ᵇ_iff a x, d.0),
  append-AllDistinct xs a d.1 (ground arith),
)

pub addresses-append :
    (ps : List NodeInfo) (p : NodeInfo) → addresses (ps ++ p ∷ []) ≡ addresses ps ++ p.address ∷ []
unfolding addresses
addresses-append [] p = refl
addresses-append (q ∷ ps) p = ap (◌∷◌ q.address) (addresses-append ps p)

module _ {Db : Type 0} ⦃level_db : LevelDb Db⦄ ⦃platform : Platform⦄ ⦃wire : Wire⦄ where
  -- A verack message makes its sender a peer, without a second entry for an address that is a peer
  -- already: if the addresses of the peers are distinct they stay so, and the sender's is among
  -- them. A new peer is sent an addr message and a getblocks message, a known one nothing.
  pub on_verack-AllDistinct :
      (node : FullNode Db) (m : VerackMessage)
      → AllDistinct (get_connected_node_addresses node.p2p)
      → AllDistinct (get_connected_node_addresses (on_verack node m).0.p2p)
        × (contains_bytes (get_connected_node_addresses (on_verack node m).0.p2p) m.addr_from
            ≡ true)
        × ((on_verack node m).1 ≡ (
            if contains_bytes (get_connected_node_addresses node.p2p) m.addr_from
            then []
            else send_addr_msg node m.addr_from ∷ send_get_blocks_msg node m.addr_from ∷ []))
  unfolding on_verack get_connected_node_addresses
  on_verack-AllDistinct node m d =
      let old = addresses node.connected_peers in
      let entry : NodeInfo = record { node_type = m.node_type; address = m.addr_from } in
      elim (Bool-cases (contains_bytes old m.addr_from)) [
        | inl known ↦ (rw known d, rw (known, known), rw known)
        | inr fresh ↦ (
          rw (fresh, addresses-append node.connected_peers entry)
              (append-AllDistinct old m.addr_from d fresh),
          rw (fresh, addresses-append node.connected_peers entry)
              (ground
                (arith, contains_bytes-append old m.addr_from m.addr_from, =ᵇ-refl m.addr_from)),
          rw fresh,
        )
      ]

  abbrev pub forwarded : FullNode Db → List Sent → Run (FullNode Db × List Sent)
  forwarded node sent = ok (node, sent)

  known_after_addr :
      (node : FullNode Db) (m : AddrMessage) (msg : Bytes) (greeting : Run (List Sent))
      (node' : FullNode Db) (sent : List Sent)
      → (greeting >>= (λ g.
          if contains_bytes node.forwarded_addr_list m.address
          then forwarded node g
          else forwarded
              (record node {
                p2p = record node.p2p {
                  forwarded_addr_list = node.forwarded_addr_list ++ m.address ∷ [];
                };
              })
              (g ++ forward_addr node.connected_peers m.address msg)))
        ≡ ok (node', sent)
      → contains_bytes node'.forwarded_addr_list m.address ≡ true
  known_after_addr node m msg timeout node' sent h = cc
  known_after_addr node m msg panic node' sent h = cc
  known_after_addr node m msg (ok g) node' sent h =
      ground (
        arith,
        contains_bytes-append node.forwarded_addr_list m.address m.address,
        =ᵇ-refl m.address,
      )

  -- An address is forwarded once: when an addr message has been handled, a later one for the same
  -- address changes nothing in the node and is not passed on to a peer; at most a version message
  -- to the address is sent, if it is no peer.
  pub on_addr-once :
      (fuel : ℕ) (node : FullNode Db) (m : AddrMessage) (msg msg' : Bytes) (node' : FullNode Db)
      (sent : List Sent)
      → on_addr fuel node m msg ≡ ok (node', sent)
      → on_addr fuel node' m msg' ≡ (greet fuel node' m.address >>= forwarded node')
  unfolding on_addr
  on_addr-once fuel node m msg msg' node' sent h =
      rw (known_after_addr node m msg (greet fuel node m.address) node' sent h)
