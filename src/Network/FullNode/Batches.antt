-- ===== src/Network/FullNode/Batches.antt =====
-- The getdata messages that handleInvMsg of network/fullnode.go makes of the hashes of an inv
-- message.
use echain.Base.{
  ℕ, suc, ◌≤◌, ◌≡◌, refl, ap, sym, ◌∙◌, inl, inr, Bytes, List, [], ◌∷◌, ◌++◌, length, length-append,
  leb, Bool-cases, arith,
}
use mathlib.Core.List.{append_assoc, append-nil}
use echain.Network.Messages.{GetdataMessage}
use echain.Network.FullNode.Sync.{add_hash, getdata_messages}

-- The hashes of all messages, in order.
abbrev pub requested : List GetdataMessage → List Bytes
requested [] = []
requested (m ∷ ms) = m.hash_list ++ requested ms

-- Messages that are numbered from a position on and come from the address; each has at least one
-- and at most ten hashes, and each but the last has ten.
abbrev pub IsBatched : Bytes → ℕ → List GetdataMessage → Type 0
IsBatched addr position [] = Unit
IsBatched addr position (m ∷ []) =
    (m.index ≡ position)
    × (m.addr_from ≡ addr)
    × (1 ≤ length m.hash_list)
    × (length m.hash_list ≤ 10)
IsBatched addr position (m ∷ n ∷ ms) =
    (m.index ≡ position)
    × (m.addr_from ≡ addr)
    × (length m.hash_list ≡ 10)
    × IsBatched addr (suc position) (n ∷ ms)

add_hash-cons :
    (addr : Bytes) (position : ℕ) (n : GetdataMessage) (ms : List GetdataMessage) (hash : Bytes)
    → (first : GetdataMessage) × (rest : List GetdataMessage) × (add_hash addr position
          (n ∷ ms)
          hash
        ≡ first ∷ rest)
unfolding add_hash
add_hash-cons addr position n [] hash = elim (Bool-cases (leb 10 (length n.hash_list))) [
  | inl full ↦
      (n, record { index = suc position; hash_list = hash ∷ []; addr_from = addr } ∷ [], rw full)
  | inr room ↦ (record n { hash_list = n.hash_list ++ hash ∷ [] }, [], rw room)
]
add_hash-cons addr position n (m ∷ ms) hash = (n, add_hash addr (suc position) (m ∷ ms) hash, refl)

IsBatched-cons :
    (addr : Bytes) (position : ℕ) (m : GetdataMessage) (rest : List GetdataMessage)
    (first : GetdataMessage) (more : List GetdataMessage)
    → rest ≡ first ∷ more
    → m.index ≡ position
    → m.addr_from ≡ addr
    → length m.hash_list ≡ 10
    → IsBatched addr (suc position) rest
    → IsBatched addr position (m ∷ rest)
IsBatched-cons addr position m [] first more e i f l b = cc e
IsBatched-cons addr position m (n ∷ ms) first more e i f l b = (i, f, l, b)

add_hash-IsBatched :
    (addr : Bytes) (position : ℕ) (ms : List GetdataMessage) (hash : Bytes)
    → IsBatched addr position ms
    → IsBatched addr position (add_hash addr position ms hash)
unfolding add_hash
add_hash-IsBatched addr position [] hash b = (refl, refl, omega arith, omega arith)
add_hash-IsBatched addr position (m ∷ []) hash b =
    ground (arith, length-append m.hash_list (hash ∷ []))
add_hash-IsBatched addr position (m ∷ n ∷ ms) hash (i, f, l, b) =
    let (first, more, e) = add_hash-cons addr (suc position) n ms hash in
    IsBatched-cons addr position m (add_hash addr (suc position) (n ∷ ms) hash) first more e i f l
      (add_hash-IsBatched addr (suc position) (n ∷ ms) hash b)

requested-add_hash :
    (addr : Bytes) (position : ℕ) (ms : List GetdataMessage) (hash : Bytes)
    → requested (add_hash addr position ms hash) ≡ requested ms ++ hash ∷ []
unfolding add_hash
requested-add_hash addr position [] hash = refl
requested-add_hash addr position (m ∷ []) hash = elim (Bool-cases (leb 10 (length m.hash_list))) [
  | inl full ↦ rw full (sym (ap (λ hs. hs ++ hash ∷ []) (append-nil m.hash_list)))
  | inr room ↦ rw room (
      append-nil (m.hash_list ++ hash ∷ [])
      ∙ sym (ap (λ hs. hs ++ hash ∷ []) (append-nil m.hash_list)))
]
requested-add_hash addr position (m ∷ n ∷ ms) hash =
    ap (◌++◌ m.hash_list) (requested-add_hash addr (suc position) (n ∷ ms) hash)
    ∙ sym (append_assoc m.hash_list (requested (n ∷ ms)) (hash ∷ []))

IsBatched-from :
    (addr : Bytes) (ms : List GetdataMessage) (hashes : List Bytes)
    → IsBatched addr 0 ms
    → IsBatched addr 0 (getdata_messages addr ms hashes)
      × (requested (getdata_messages addr ms hashes) ≡ requested ms ++ hashes)
unfolding getdata_messages
IsBatched-from addr ms [] b = (b, sym (append-nil (requested ms)))
IsBatched-from addr ms (hash ∷ hashes) b =
    let (batched, same) =
      IsBatched-from addr (add_hash addr 0 ms hash) hashes (add_hash-IsBatched addr 0 ms hash b) in
    (
      batched,
      same
          ∙ ap (λ hs. hs ++ hashes) (requested-add_hash addr 0 ms hash)
          ∙ append_assoc (requested ms) (hash ∷ []) hashes,
    )

-- The getdata messages for the hashes of an inv message ask for exactly these hashes, in their
-- order. They are numbered from 0 on and carry the node's address; each asks for one to ten
-- hashes, and each but the last for ten.
pub getdata_messages-IsBatched :
    (addr : Bytes) (hashes : List Bytes)
    → IsBatched addr 0 (getdata_messages addr [] hashes)
      × (requested (getdata_messages addr [] hashes) ≡ hashes)
getdata_messages-IsBatched addr hashes = IsBatched-from addr [] hashes tt
