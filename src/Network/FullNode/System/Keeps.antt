-- ===== src/Network/FullNode/System/Keeps.antt =====
-- What the handlers of network/fullnode.go leave as it is.
use echain.Base.{
  ℕ, ◌≡◌, refl, Bytes, List, [], ◌∷◌, ok, ◌==◌, contains_bytes, Ensures, Ensures-ok, Ensures-if,
  Ensures-bind,
}
use echain.Base.GoInt
use echain.Types.{Block}
use echain.Platform.{Platform}
use echain.LevelDb.{LevelDb}
use echain.Blockchain.Block.{get_hash}
use echain.Blockchain.Chain.{set_block, get_utxos}
use echain.Blockchain.UtxoSet.{re_index}
use echain.Network.Messages.{VersionMessage, BlockdataMessage}
use echain.Network.Wire.{Wire, Sent}
use echain.Network.Peers.{get_connected_node_addresses}
use echain.Network.FullNode.{FullNode, Handled, send_version_msg, newblock_from_miner_index}
use echain.Network.FullNode.Verify.{verify_block, store_new_block}
use echain.Network.FullNode.Handshake.{on_version}
use echain.Network.FullNode.Blockdata.{
  notify_all, last_block_hash, spread_block, on_new_block, set_blocks, on_blocks, on_block_list,
  on_blockdata,
}
use echain.Network.FullNode.Inventory.{finish_inv_msg}
use echain.Network.FullNode.Connection.{handle_get_utxo_msg}

-- The peers and addresses of a node, its filters and its mempool are those of another.
pub record Keeps {Db : Type 0} (node node' : FullNode Db) : Type 0 where
  pub p2p : node'.p2p ≡ node.p2p
  pub filters : node'.connected_spv_bloom_filter_map ≡ node.connected_spv_bloom_filter_map
  pub mempool : node'.mempool ≡ node.mempool

pub Keeps-self : {Db : Type 0} (node : FullNode Db) → Keeps node node
Keeps-self node = record { p2p = refl; filters = refl; mempool = refl }

-- Handlers that keep these of the node.
abbrev pub KeepsNode : {Db : Type 0} → FullNode Db → Handled Db → Type 0
KeepsNode node run = Ensures (λ r. Keeps node r.0) run

abbrev handled : {Db : Type 0} → FullNode Db → List Sent → Handled Db
handled node sent = ok (node, sent)

abbrev same :
    {Db : Type 0} (node : FullNode Db) (sent : List Sent) → KeepsNode node (handled node sent)
same node sent = Ensures-ok _ _ (Keeps-self node)

module _ {Db : Type 0} ⦃level_db : LevelDb Db⦄ ⦃platform : Platform⦄ ⦃wire : Wire⦄ where
  pub on_version-Keeps :
      (fuel : ℕ) (node : FullNode Db) (m : VersionMessage) → KeepsNode node (on_version fuel node m)
  unfolding on_version
  on_version-Keeps fuel node m =
      Ensures-if _ (node.version == m.version) _ _
        (λ agree.
          Ensures-if _ (contains_bytes (get_connected_node_addresses node.p2p) m.addr_me) _ _
            (λ known. same node _)
            λ fresh.
              Ensures-bind _ (send_version_msg fuel node m.addr_me) _ λ version e. same node _)
        λ differ. same node []

  store_new_block-Keeps :
      (fuel : ℕ) (node : FullNode Db) (block : Block)
      → Ensures (λ r. Keeps node r.0) (store_new_block fuel node block)
  unfolding store_new_block
  store_new_block-Keeps fuel node block =
      Ensures-bind _ (set_block fuel node.blockchain block) _ λ stored e.
        Ensures-bind _ (get_hash fuel stored.1) _
          λ hashed e'. Ensures-ok _ _ (record { p2p = refl; filters = refl; mempool = refl })

  spread_block-Keeps :
      (fuel : ℕ) (node : FullNode Db) (block : Block)
      → KeepsNode node (spread_block fuel node block)
  unfolding spread_block
  spread_block-Keeps fuel node block =
      Ensures-bind _ (store_new_block fuel node block) _ λ stored e.
        Ensures-bind _
          (notify_all fuel stored.0.network_address stored.0.connected_spv_bloom_filter_map stored.1
            stored.0.connected_peers stored.1.transactions)
          _ λ notices e'. Ensures-ok _ _ ((store_new_block-Keeps fuel node block).at stored e)

  on_new_block-Keeps :
      (fuel : ℕ) (node : FullNode Db) (block : Block)
      → KeepsNode node (on_new_block fuel node block)
  unfolding on_new_block
  on_new_block-Keeps fuel node block = Ensures-bind _ (verify_block fuel node block) _ λ verified e.
      Ensures-if _ verified.0 _ _ (λ valid. spread_block-Keeps fuel node verified.1)
        λ invalid. same node []

  on_blocks-Keeps :
      (fuel : ℕ) (node : FullNode Db) (m : BlockdataMessage)
      → KeepsNode node (on_blocks fuel node m)
  unfolding on_blocks
  on_blocks-Keeps fuel node m =
      Ensures-bind _ (set_blocks fuel node.blockchain m.block_list) _ λ chain e.
        Ensures-if _ (m.index == GoInt.sub node.getdata_message_count 1) _ _
          (λ newest.
            Ensures-bind _ (last_block_hash fuel m.block_list) _
              λ hash e'. Ensures-ok _ _ (record { p2p = refl; filters = refl; mempool = refl }))
          λ other. Ensures-ok _ _ (record { p2p = refl; filters = refl; mempool = refl })

  on_block_list-Keeps :
      (fuel : ℕ) (node : FullNode Db) (m : BlockdataMessage) (blocks : List Block)
      → KeepsNode node (on_block_list fuel node m blocks)
  unfolding on_block_list
  on_block_list-Keeps fuel node m [] = on_blocks-Keeps fuel node m
  on_block_list-Keeps fuel node m (block ∷ []) =
      Ensures-if _ (m.index == newblock_from_miner_index) _ _
        (λ mined. on_new_block-Keeps fuel node block) λ asked. on_blocks-Keeps fuel node m
  on_block_list-Keeps fuel node m (b ∷ c ∷ bs) = on_blocks-Keeps fuel node m

  pub on_blockdata-Keeps :
      (fuel : ℕ) (node : FullNode Db) (m : BlockdataMessage)
      → KeepsNode node (on_blockdata fuel node m)
  unfolding on_blockdata
  on_blockdata-Keeps fuel node m = on_block_list-Keeps fuel node m m.block_list

  pub finish_inv_msg-Keeps :
      (fuel : ℕ) (node : FullNode Db) → KeepsNode node (finish_inv_msg fuel node)
  unfolding finish_inv_msg
  finish_inv_msg-Keeps fuel node =
      Ensures-bind _ (re_index fuel node.blockchain.data_base) _
        λ db e. Ensures-ok _ _ (record { p2p = refl; filters = refl; mempool = refl })

  pub get_utxo-Keeps :
      (node : FullNode Db) (msg : Bytes)
      → Ensures (λ h. Keeps node h.node) (handle_get_utxo_msg node msg)
  unfolding handle_get_utxo_msg
  get_utxo-Keeps node msg =
      Ensures-bind _ (get_utxos node.blockchain _) _ λ m e. Ensures-ok _ _ (Keeps-self node)
