-- ===== src/Network/Spv/System/Keeps.antt =====
-- What the handlers of network/spv.go leave as it is.
use echain.Base.{
  ◌≡◌, refl, inl, inr, true, not, Bytes, List, [], ◌∷◌, Run, ok, ◌=ᵇ◌, Bool-cases, Ensures,
  Ensures-ok, Ensures-if, Ensures-bind, ◌==◌, ℕ,
}
use echain.Platform.{Platform}
use echain.LevelDb.{LevelDb}
use echain.Network.Messages.{NodeInfo, MerkleBlockMessage, HeaderMessage, VersionMessage}
use echain.Blockchain.UtxoSet.{find_utxo}
use echain.Network.Spv.Connection.{handle_get_utxo_msg}
use echain.Blockchain.Merkle.{leaf_hash, path_root}
use echain.Blockchain.ChainHeader.{check_header_existence}
use echain.Network.Wire.{Wire, Sent}
use echain.Network.Spv.{SpvNode, Handled, only}
use echain.Network.Spv.Handshake.{on_version, greet}
use echain.Network.Spv.Headers.{
  reply_getheaders, handle_getheaders_msg, on_headers, last_header_hash,
}
use echain.Network.Spv.MerkleBlock.{
  request_header, asks, accept_merkle_block, finish_merkle_block, on_merkle_block,
  inputs_of_interest,
}

-- The peers and addresses of a node and what it monitors are those of another.
pub record Keeps {Db : Type 0} (node node' : SpvNode Db) : Type 0 where
  pub p2p : node'.p2p ≡ node.p2p
  pub monitor_addr_list : node'.monitor_addr_list ≡ node.monitor_addr_list
  pub bloom_filter : node'.bloom_filter ≡ node.bloom_filter

pub Keeps-self : {Db : Type 0} (node : SpvNode Db) → Keeps node node
Keeps-self node = record { p2p = refl; monitor_addr_list = refl; bloom_filter = refl }

pub request_header-Keeps :
    {Db : Type 0} ⦃wire : Wire⦄ (node : SpvNode Db) (addr_from : Bytes) (peers : List NodeInfo)
    → Keeps node (request_header node addr_from peers).0
unfolding request_header
request_header-Keeps node addr_from [] = Keeps-self node
request_header-Keeps node addr_from (p ∷ ps) = elim (Bool-cases (asks addr_from p)) [
  | inl e ↦
      let k = request_header-Keeps (record node { requesting_block_header = true }) addr_from ps in
      rw e (record {
        p2p = k.p2p;
        monitor_addr_list = k.monitor_addr_list;
        bloom_filter = k.bloom_filter;
      })
  | inr e ↦ rw e (request_header-Keeps node addr_from ps)
]

-- The handler of an invocation that gives a value keeps these of its node.
abbrev pub KeepsNode : {Db : Type 0} → SpvNode Db → Run (Handled Db) → Type 0
KeepsNode node run = Ensures (λ h. Keeps node h.node) run

only_Keeps :
    {Db : Type 0} (node : SpvNode Db) (sent : List Sent) → KeepsNode node (ok (only node sent))
only_Keeps node sent = Ensures-ok _ (only node sent) (Keeps-self node)

module _ {Db : Type 0} ⦃level_db : LevelDb Db⦄ ⦃platform : Platform⦄ where
  pub on_headers-Keeps :
      (node : SpvNode Db) (m : HeaderMessage) → KeepsNode node (on_headers node m)
  unfolding on_headers
  on_headers-Keeps node m = Ensures-bind _ (last_header_hash m.header_list) _ λ hash e.
      Ensures-ok _ _ (record { p2p = refl; monitor_addr_list = refl; bloom_filter = refl })

module _ {Db : Type 0} ⦃level_db : LevelDb Db⦄ ⦃platform : Platform⦄ ⦃wire : Wire⦄ where
  pub reply_getheaders-Keeps :
      (fuel : ℕ) (node : SpvNode Db) (msg : Bytes)
      → KeepsNode node (handle_getheaders_msg fuel node msg)
  unfolding handle_getheaders_msg
  reply_getheaders-Keeps fuel node msg =
      Ensures-bind _ (reply_getheaders fuel node _) _ λ sent e. only_Keeps node sent

  pub on_version-Keeps :
      (fuel : ℕ) (node : SpvNode Db) (m : VersionMessage) → KeepsNode node (on_version fuel node m)
  unfolding on_version
  on_version-Keeps fuel node m =
      Ensures-if _ (node.version == m.version) _ _
        (λ same. Ensures-bind _ (greet fuel node m.addr_me) _ λ greeting e. only_Keeps node _)
        (λ other. only_Keeps node [])

  accept_merkle_block-Keeps :
      (node : SpvNode Db) (m : MerkleBlockMessage) → KeepsNode node (accept_merkle_block node m)
  unfolding accept_merkle_block
  accept_merkle_block-Keeps node m =
      Ensures-bind _ (inputs_of_interest node.monitor_addr_list m.transaction.inputs) _ λ inputs e.
        Ensures-ok _ _ (record { p2p = refl; monitor_addr_list = refl; bloom_filter = refl })

  pub finish_merkle_block-Keeps :
      (node : SpvNode Db) (m : MerkleBlockMessage) → KeepsNode node (finish_merkle_block node m)
  unfolding finish_merkle_block
  finish_merkle_block-Keeps node m =
      let calculated = path_root (leaf_hash m.transaction) m.merkle_path in
      Ensures-if _ (not (check_header_existence node.blockchain_header m.block_header)) _ _
        (λ unknown. only_Keeps node [])
        λ known.
          Ensures-if _ (not (calculated =ᵇ m.block_header.merkle_root)) _ _
            (λ wrong. only_Keeps node []) λ right. accept_merkle_block-Keeps node m

  pub on_merkle_block-Keeps :
      (node : SpvNode Db) (m : MerkleBlockMessage) → KeepsNode node (on_merkle_block node m)
  unfolding on_merkle_block
  on_merkle_block-Keeps node m =
      Ensures-if _ (check_header_existence node.blockchain_header m.block_header) _ _
        (λ known. finish_merkle_block-Keeps node m) λ unknown. Ensures-ok _ _ (Keeps-self node)

  pub get_utxo-Keeps :
      (node : SpvNode Db) (msg : Bytes) → KeepsNode node (handle_get_utxo_msg node msg)
  unfolding handle_get_utxo_msg
  get_utxo-Keeps node msg =
      Ensures-bind _ (find_utxo node.blockchain_header.data_base _) _
        λ m e. Ensures-ok _ _ (Keeps-self node)
