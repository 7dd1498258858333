-- ===== src/Network/Spv/System/Awaited.antt =====
-- Steps of a node of network/spv.go, and those of a handler that waits for a header.
use echain.Base.{
  ℕ, ◌-◌, ◌≡◌, refl, ap, sym, subst, ◌∙◌, inl, inr, true, false, Bytes, List, [], ◌∷◌, ◌++◌, Run,
  ok, panic, timeout, ◌>>=◌, length, exists, Bool-cases, if◌then◌else◌, arith,
}
use echain.Platform.{Platform, generic_deserialize, generic_deserialize-encode}
use echain.LevelDb.{LevelDb}
use echain.Blockchain.ChainHeader.{set_last_hash, check_header_existence}
use echain.Network.Messages.{
  NodeInfo, HeaderMessage, MerkleBlockMessage, headers_msg, merkleblock_msg, msg_type_length,
}
use echain.Network.Wire.{Wire}
use echain.Network.Utils.{zeros, trim_left, trim_right, get_msg_type}
use echain.Network.Spv.{SpvNode, Handled, signals, nothing, sleeps}
use echain.Network.Spv.Headers.{
  zero_header_message, last_header_hash, set_headers, on_headers, handle_headers_msg,
}
use echain.Network.Spv.MerkleBlock.{
  asks, request_header, on_merkle_block, handle_merkleblock_msg, zero_merkle_block,
  finish_merkle_block,
}
use echain.Network.Spv.Connection.{dispatch, handle_connection}
use echain.Network.Spv.System.{
  System, signal, after_effect, Step, receive, check, load, store, ask, await, resume,
}

-- What is read of a message of a type.
abbrev pub framed : Bytes → Bytes → Bytes
framed msg_type payload = (msg_type ++ zeros (msg_type_length - length msg_type)) ++ payload

-- A node none of whose handlers waits.
abbrev pub idle : {Db : Type 0} → SpvNode Db → System Db
idle node = record {
  node = node;
  sleeping = [];
  asking = [];
  waiting = [];
  woken = [];
  pending = [];
}

module _ {Db : Type 0} ⦃level_db : LevelDb Db⦄ ⦃platform : Platform⦄ ⦃wire : Wire⦄ where
  abbrev read_of : {fuel : ℕ} {s t : System Db} → Step fuel s t → List Bytes
  read_of (receive read h e) = read ∷ []
  read_of (check read h u e first) = read ∷ []
  read_of (load before u after e) = []
  read_of (store before a after e) = []
  read_of (ask before m after e) = []
  read_of (await before m after e) = []
  read_of (resume before m after h e run) = []

  -- Some steps, in which the connections were read in this order.
  pub data Steps (fuel : ℕ) (s : System Db) : List Bytes → System Db → Type 0 where
    stay : Steps fuel s [] s
    more :
        {reads : List Bytes} {t u : System Db}
        → Steps fuel s reads t
        → (st : Step fuel t u) → Steps fuel s (reads ++ read_of st) u

  handle_connection-merkleblock :
      (fuel : ℕ) (node : SpvNode Db) (payload : Bytes)
      → handle_connection fuel node (framed merkleblock_msg payload)
        ≡ handle_merkleblock_msg node payload
  unfolding handle_connection dispatch get_msg_type trim_left trim_right
  handle_connection-merkleblock fuel node payload = ground arith

  handle_connection-headers :
      (fuel : ℕ) (node : SpvNode Db) (payload : Bytes)
      → handle_connection fuel node (framed headers_msg payload) ≡ handle_headers_msg node payload
  unfolding handle_connection dispatch get_msg_type trim_left trim_right
  handle_connection-headers fuel node payload = ground arith

  request_header-asks :
      (node : SpvNode Db) (addr_from : Bytes) (peers : List NodeInfo)
      → exists (asks addr_from) peers ≡ true
      → (request_header node addr_from peers).0 ≡ record node { requesting_block_header = true }
  unfolding request_header
  request_header-asks node addr_from [] some = cc
  request_header-asks node addr_from (p ∷ ps) some = elim (Bool-cases (asks addr_from p)) [
    | inl e ↦ rw e (request_header-still (record node { requesting_block_header = true }) ps refl)
    | inr e ↦ rw e (request_header-asks node addr_from ps (ground (arith, e)))
  ]
    where
      request_header-still :
          (node : SpvNode Db) (peers : List NodeInfo)
          → node.requesting_block_header ≡ true
          → (request_header node addr_from peers).0 ≡ record node { requesting_block_header = true }
      request_header-still node [] on = ap (λ b. record node { requesting_block_header = b }) on
      request_header-still node (p ∷ ps) on = elim (Bool-cases (asks addr_from p)) [
        | inl e ↦
            rw e (request_header-still (record node { requesting_block_header = true }) ps refl)
        | inr e ↦ rw e (request_header-still node ps on)
      ]

  -- What else the handler of a headers message does.
  handled_of :
      (node : SpvNode Db) (m : HeaderMessage) (run : Run Bytes) (h : Handled Db)
      → (run >>= (λ hash. ok (record {
        node = record node {
          blockchain_header = set_last_hash (set_headers node.blockchain_header m.header_list) hash;
        };
        sent = [];
        effect = if node.requesting_block_header then signals else nothing;
      })))
        ≡ ok h
      → (h.effect ≡ (if node.requesting_block_header then signals else nothing))
        × (h.node ≡ record node { blockchain_header = h.node.blockchain_header })
  handled_of node m timeout h ran = cc
  handled_of node m panic h ran = cc
  handled_of node m (ok hash) h ran =
      let result : Handled Db = record {
        node = record node {
          blockchain_header = set_last_hash (set_headers node.blockchain_header m.header_list) hash;
        };
        sent = [];
        effect = if node.requesting_block_header then signals else nothing;
      } in
      let same : result ≡ h = cc ran in
      (
        ap (λ (x : Handled Db). x.effect) (sym same),
        ap (λ (x : Handled Db). x.node) (sym same)
            ∙ ap (λ (x : Handled Db). record node { blockchain_header = x.node.blockchain_header })
                same,
      )

  pub handle_headers_msg-only :
      (node : SpvNode Db) (payload : Bytes) (h : Handled Db)
      → handle_headers_msg node payload ≡ ok h
      → (h.effect ≡ (if node.requesting_block_header then signals else nothing))
        × (h.node ≡ record node { blockchain_header = h.node.blockchain_header })
  unfolding handle_headers_msg on_headers
  handle_headers_msg-only node payload h ran =
      let m = generic_deserialize wire.gob_header zero_header_message payload in
      handled_of node m (last_header_hash m.header_list) h ran

  handle_merkleblock_msg-sleeps :
      (node : SpvNode Db) (m : MerkleBlockMessage)
      → check_header_existence node.blockchain_header m.block_header ≡ false
      → handle_merkleblock_msg node (wire.gob_merkle_block.encode m)
        ≡ ok (record { node = node; sent = []; effect = sleeps m })
  unfolding handle_merkleblock_msg on_merkle_block
  handle_merkleblock_msg-sleeps node m unknown =
      ap (on_merkle_block node)
        (generic_deserialize-encode wire.gob_merkle_block zero_merkle_block m)
      ∙ rw unknown

  -- The steps from the receipt of the message on, when the node is asked for no header that it has.
  pub recovers :
      (fuel : ℕ) (node : SpvNode Db) (m : MerkleBlockMessage) (headers : Bytes)
      (h last : Handled Db)
      → check_header_existence node.blockchain_header m.block_header ≡ false
      → exists (asks m.addr_from) node.connected_peers ≡ true
      → handle_headers_msg (record node { requesting_block_header = true }) headers ≡ ok h
      → finish_merkle_block h.node m ≡ ok last
      → Steps fuel
          (idle node)
          (framed merkleblock_msg (wire.gob_merkle_block.encode m)
            ∷ framed headers_msg headers
            ∷ [])
          (idle last.node)
  unfolding signal
  recovers fuel node m headers h last unknown some handled finished =
      let asked : SpvNode Db = record node { requesting_block_header = true } in
      let first : List Bytes = framed merkleblock_msg (wire.gob_merkle_block.encode m) ∷ [] in
      let both : List Bytes = first ++ framed headers_msg headers ∷ [] in
      let from_node : Steps fuel (idle node) first (record (idle node) { sleeping = m ∷ [] }) =
        more stay (
          receive (framed merkleblock_msg (wire.gob_merkle_block.encode m))
            (record { node = node; sent = []; effect = sleeps m })
            (handle_connection-merkleblock fuel node (wire.gob_merkle_block.encode m)
              ∙ handle_merkleblock_msg-sleeps node m unknown)) in
      let has_asked : Steps fuel (idle node) first (record (idle asked) { asking = m ∷ [] }) =
        subst (λ n. Steps fuel (idle node) first (record (idle n) { asking = m ∷ [] }))
          (request_header-asks node m.addr_from node.connected_peers some)
          (more from_node (ask [] m [] refl)) in
      let waits : Steps fuel (idle node) first (record (idle asked) { waiting = m ∷ [] }) =
        more has_asked (await [] m [] refl) in
      let woken : Steps fuel (idle node) both (record (idle h.node) { woken = m ∷ [] }) =
        subst
          (λ e.
            Steps fuel (idle node) both
              (after_effect (record (idle h.node) { waiting = m ∷ [] }) e))
          (handle_headers_msg-only asked headers h handled).0
          (more waits (
            receive (framed headers_msg headers) h
              (handle_connection-headers fuel asked headers ∙ handled))) in
      more woken (resume [] m [] last refl finished)
