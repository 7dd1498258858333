-- ===== src/Network/Spv/MerkleBlock/Accepted.antt =====
-- What handleMerkleblockMsg of network/spv.go accepts, and what a full node sends to it.
use echain.Base.{
  ◌≡◌, ◌⊎◌, ap, sym, ◌∙◌, inl, inr, true, false, Bytes, List, [], Run, ok, timeout, panic, ◌=ᵇ◌,
  =ᵇ_sound, =ᵇ-refl, keep, has_prefix, Bool-cases, arith,
}
use echain.Base.GoMap.{GoMap}
use echain.Types.{Transaction, Block, MerkleProofNode}
use echain.Platform.{Platform}
use echain.LevelDb.{LevelDb}
use echain.Blockchain.Block.{header_hash}
use echain.Blockchain.Merkle.{leaf_hash, path_root}
use echain.Blockchain.Merkle.Binding.{Collision, path_root-binds}
use echain.Blockchain.UtxoSet.{utxo_prefix, update_with_new_transaction}
use echain.Blockchain.Chain.Store.{get-update_with_new_transaction}
use echain.Blockchain.ChainHeader.{check_header_existence}
use echain.Blockchain.ChainHeader.Store.{check_header_existence-same}
use echain.Network.Messages.{MerkleBlockMessage}
use echain.Network.Wire.{Wire}
use echain.Network.Spv.{SpvNode, Handled, only}
use echain.Network.Spv.MerkleBlock.{
  relay_merkle_block, accept_merkle_block, finish_merkle_block, on_merkle_block,
}
use echain.Network.Spv.MerkleBlock.Interest.{Decodes, signed_by_any, inputs_of_interest-keep}

module _ ⦃platform : Platform⦄ where
  -- The transaction without the inputs that no monitored address signed.
  abbrev pub filtered : List Bytes → Transaction → Transaction
  filtered owners t = record t { inputs = keep (signed_by_any owners) t.inputs }

  -- The merkleblock message of a full node for a transaction.
  abbrev pub notice : Bytes → Block → List MerkleProofNode → Transaction → MerkleBlockMessage
  notice from block path t = record {
    block_header = block.block_header;
    merkle_path = path;
    transaction = t;
    addr_from = from;
  }

root_of : Run Block → Bytes
root_of timeout = []
root_of panic = []
root_of (ok block) = block.merkle_root

module _ {Db : Type 0} ⦃level_db : LevelDb Db⦄ ⦃platform : Platform⦄ ⦃wire : Wire⦄ where
  -- The node after it accepted a message.
  abbrev pub updated : SpvNode Db → List Bytes → MerkleBlockMessage → SpvNode Db
  updated node owners m = record node {
    blockchain_header = record node.blockchain_header {
      data_base =
          update_with_new_transaction node.blockchain_header.data_base
            (filtered owners m.transaction);
    };
  }

  pub finish_merkle_block-accepts :
      (node : SpvNode Db) (owners : List Bytes) (m : MerkleBlockMessage)
      → check_header_existence node.blockchain_header m.block_header ≡ true
      → path_root (leaf_hash m.transaction) m.merkle_path ≡ m.block_header.merkle_root
      → Decodes node.monitor_addr_list owners
      → finish_merkle_block node m
        ≡ ok (only (updated node owners m) (relay_merkle_block node.connected_peers m))
  unfolding finish_merkle_block accept_merkle_block
  finish_merkle_block-accepts node owners m known right d = rw (
    known,
    right,
    =ᵇ-refl m.block_header.merkle_root,
    inputs_of_interest-keep node.monitor_addr_list owners m.transaction.inputs d,
  )

  pub on_merkle_block-accepts :
      (node : SpvNode Db) (owners : List Bytes) (m : MerkleBlockMessage)
      → check_header_existence node.blockchain_header m.block_header ≡ true
      → path_root (leaf_hash m.transaction) m.merkle_path ≡ m.block_header.merkle_root
      → Decodes node.monitor_addr_list owners
      → on_merkle_block node m
        ≡ ok (only (updated node owners m) (relay_merkle_block node.connected_peers m))
  unfolding on_merkle_block
  on_merkle_block-accepts node owners m known right d =
      rw known (finish_merkle_block-accepts node owners m known right d)

  rejected_or_right :
      (node : SpvNode Db) (m : MerkleBlockMessage) (h : Handled Db)
      → finish_merkle_block node m ≡ ok h
      → ¬ (h ≡ only node [])
      → (check_header_existence node.blockchain_header m.block_header ≡ true)
        × (path_root (leaf_hash m.transaction) m.merkle_path ≡ m.block_header.merkle_root)
  unfolding finish_merkle_block
  rejected_or_right node m h e changed =
      let calculated = path_root (leaf_hash m.transaction) m.merkle_path in
      elim (Bool-cases (check_header_existence node.blockchain_header m.block_header)) [
        | inr unknown ↦ absurd (changed (ground (arith, e, unknown)))
        | inl known ↦ elim (Bool-cases (calculated =ᵇ m.block_header.merkle_root)) [
          | inr wrong ↦ absurd (changed (ground (arith, e, known, wrong)))
          | inl right ↦ (known, =ᵇ_sound calculated m.block_header.merkle_root right)
        ]
      ]

  -- An SPV node that does something on a merkleblock message for which it does not wait has the
  -- header. If two nodes, or one twice, do so for messages with one header and one path, either the
  -- transactions are equal or two different byte strings with one double SHA-256 hash are at hand.
  pub finish_merkle_block-binds :
      (node node' : SpvNode Db) (m m' : MerkleBlockMessage) (h h' : Handled Db)
      → finish_merkle_block node m ≡ ok h
      → finish_merkle_block node' m' ≡ ok h'
      → ¬ (h ≡ only node [])
      → ¬ (h' ≡ only node' [])
      → m.block_header ≡ m'.block_header
      → m.merkle_path ≡ m'.merkle_path
      → (check_header_existence node.blockchain_header m.block_header ≡ true)
        × (check_header_existence node'.blockchain_header m'.block_header ≡ true)
        × ((m.transaction ≡ m'.transaction) ⊎ Collision)
  finish_merkle_block-binds node node' m m' h h' e e' changed changed' same_header same_path =
      let (known, right) = rejected_or_right node m h e changed in
      let (known', right') = rejected_or_right node' m' h' e' changed' in
      (
        known,
        known',
        path_root-binds m.merkle_path m.transaction m'.transaction (
            right
            ∙ ap (λ x. x.merkle_root) same_header
            ∙ sym right'
            ∙ ap (path_root (leaf_hash m'.transaction)) (sym same_path)),
      )

  -- A header stays known to a node that accepts a message, unless its hash is a key of the UTXO set.
  pub check_header_existence-updated :
      (node : SpvNode Db) (owners : List Bytes) (m : MerkleBlockMessage)
      → has_prefix utxo_prefix (header_hash m.block_header) ≡ false
      → check_header_existence (updated node owners m).blockchain_header m.block_header
        ≡ check_header_existence node.blockchain_header m.block_header
  check_header_existence-updated node owners m key =
      check_header_existence-same node.blockchain_header (updated node owners m).blockchain_header
        m.block_header
        (get-update_with_new_transaction node.blockchain_header.data_base
          (filtered owners m.transaction) (header_hash m.block_header) key)
