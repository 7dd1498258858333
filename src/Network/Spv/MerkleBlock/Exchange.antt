-- ===== src/Network/Spv/MerkleBlock/Exchange.antt =====
-- handleMerkleblockMsg of network/spv.go at two nodes that are peers of one another.
use echain.Base.{
  ℕ, zero, suc, ◌≡◌, refl, ap, subst, ◌∙◌, true, false, Bytes, List, [], ◌∷◌, ok, ◌=ᵇ◌, has_prefix,
  Bool-cases, inl, inr,
}
use mathlib.Core.List.{Memᴰ}
use echain.Platform.{Platform, generic_deserialize-encode}
use echain.LevelDb.{LevelDb}
use echain.Blockchain.Block.{header_hash}
use echain.Blockchain.Merkle.{leaf_hash, path_root}
use echain.Blockchain.UtxoSet.{utxo_prefix}
use echain.Blockchain.ChainHeader.{check_header_existence}
use echain.Network.Messages.{NodeInfo, MerkleBlockMessage, spv}
use echain.Network.Wire.{Wire}
use echain.Network.Spv.{SpvNode, Handled, only, send_merkleblock_message}
use echain.Network.Spv.MerkleBlock.{
  zero_merkle_block, relay_merkle_block, on_merkle_block, handle_merkleblock_msg,
}
use echain.Network.Spv.MerkleBlock.Interest.{Decodes}
use echain.Network.Spv.MerkleBlock.Accepted.{
  updated, on_merkle_block-accepts, check_header_existence-updated,
}

abbrev pub spv_at : Bytes → NodeInfo
spv_at address = record { node_type = spv; address = address }

module _ ⦃wire : Wire⦄ where
  relay_merkle_block-mem :
      (peers : List NodeInfo) (address : Bytes) (m : MerkleBlockMessage)
      → Memᴰ (spv_at address) peers
      → Memᴰ (send_merkleblock_message address m) (relay_merkle_block peers m)
  unfolding relay_merkle_block
  relay_merkle_block-mem [] address m member = elim member [ ]
  relay_merkle_block-mem (p ∷ ps) address m (Memᴰ.head e) =
      subst (λ q. Memᴰ (send_merkleblock_message address m) (relay_merkle_block (q ∷ ps) m)) e
        (Memᴰ.head refl)
  relay_merkle_block-mem (p ∷ ps) address m (Memᴰ.tail later) =
      let rest = relay_merkle_block-mem ps address m later in
      elim (Bool-cases (p.node_type =ᵇ spv)) [ inl e ↦ rw e (Memᴰ.tail rest) | inr e ↦ rw e rest ]

module _ {Db : Type 0} ⦃level_db : LevelDb Db⦄ ⦃platform : Platform⦄ ⦃wire : Wire⦄ where
  -- n times, beginning with the first node and taking turns, a node handles the message that the
  -- other one sent to it, and sends it to the other one.
  abbrev pub Exchange : ℕ → SpvNode Db → SpvNode Db → MerkleBlockMessage → Type 0
  Exchange zero a b m = Unit
  Exchange (suc n) a b m =
      (h : Handled Db) × (handle_merkleblock_msg a
          (send_merkleblock_message a.network_address m).payload
        ≡ ok h)
      × Memᴰ (send_merkleblock_message b.network_address m) h.sent
      × Exchange n b h.node m

  -- What a node needs to accept a message.
  pub record Accepts (node : SpvNode Db) (m : MerkleBlockMessage) : Type 0 where
    pub owners : List Bytes
    pub decodes : Decodes node.monitor_addr_list owners
    pub known : check_header_existence node.blockchain_header m.block_header ≡ true

  -- Two SPV nodes that are among the peers of one another never stop relaying a message that both
  -- accept: for every n, the first one handles it and sends it to the second, the second handles it
  -- and sends it back, and so on, n times in all. Each has the header of the message and addresses
  -- that decode, the path of the message leads to the root in the header, and the hash of the header
  -- is no key of the UTXO set.
  pub handle_merkleblock_msg-exchanges :
      (n : ℕ) (a b : SpvNode Db) (m : MerkleBlockMessage)
      → Memᴰ (spv_at b.network_address) a.connected_peers
      → Memᴰ (spv_at a.network_address) b.connected_peers
      → Accepts a m
      → Accepts b m
      → path_root (leaf_hash m.transaction) m.merkle_path ≡ m.block_header.merkle_root
      → has_prefix utxo_prefix (header_hash m.block_header) ≡ false
      → Exchange n a b m
  unfolding handle_merkleblock_msg send_merkleblock_message
  handle_merkleblock_msg-exchanges zero a b m ab ba accepts_a accepts_b right key = tt
  handle_merkleblock_msg-exchanges (suc n) a b m ab ba accepts_a accepts_b right key =
      let owners = accepts_a.owners in
      (
        only (updated a owners m) (relay_merkle_block a.connected_peers m),
        ap (on_merkle_block a)
              (generic_deserialize-encode wire.gob_merkle_block zero_merkle_block m)
            ∙ on_merkle_block-accepts a owners m accepts_a.known right accepts_a.decodes,
        relay_merkle_block-mem a.connected_peers b.network_address m ab,
        handle_merkleblock_msg-exchanges n b (updated a owners m) m ba ab accepts_b
            (record {
              owners = owners;
              decodes = accepts_a.decodes;
              known = check_header_existence-updated a owners m key ∙ accepts_a.known;
            })
            right key,
      )
