-- ===== src/Tests/MerkleBlockTests.antt =====
-- Network/Spv/MerkleBlock at a concrete node.
use echain.Base.{◌≡◌, ◌⊎◌, refl, ap, true, arith, ok, Bytes, List, [], ◌∷◌, length}
use mathlib.Core.List.{Memᴰ}
use echain.Base.GoMap.{GoMap}
use echain.Types.{BlockHeader, Block, MerkleProofNode}
use echain.Blockchain.Block.{header_hash}
use echain.Blockchain.Merkle.{leaf_hash, path_root}
use echain.Blockchain.Merkle.Reference.{with_root, expected_root}
use echain.Blockchain.Merkle.Binding.{Collision}
use echain.Blockchain.ChainHeader.{check_header_existence}
use echain.Network.Messages.{NodeInfo, MerkleBlockMessage, spv}
use echain.Network.Spv
use echain.Network.Spv.{SpvNode, Handled, only, send_getheaders_msg, get_header_height}
use echain.Network.Spv.MerkleBlock.{relay_merkle_block, finish_merkle_block, on_merkle_block}
use echain.Network.Spv.MerkleBlock.Interest.{signed_by_any}
use echain.Network.Spv.MerkleBlock.Accepted.{updated, finish_merkle_block-binds}
use echain.Network.Spv.MerkleBlock.Exchange.{
  spv_at, Exchange, Accepts, handle_merkleblock_msg-exchanges,
}
use echain.Tests.ToyPlatform.{toy}
use echain.Tests.ToyDb.{ToyDb, toy_db}
use echain.Tests.ToyWire.{toy_wire}
use echain.Tests.Data.{header, two_transactions, payment, address, owner}
use echain.Tests.SpvTests.{knowing}

abbrev sealed : Block
sealed = with_root (expected_root [] two_transactions.transactions) two_transactions

abbrev watching : SpvNode ToyDb
watching = knowing sealed.block_header

abbrev filters : GoMap (List Bytes)
filters = (71 ∷ [], address ∷ []) ∷ []

abbrev spv_peer : NodeInfo
spv_peer = record { node_type = spv; address = 71 ∷ [] }

-- A message about the payment, whose path leads to the root in the header that the node has.
abbrev path : List MerkleProofNode
path = record { hash = 3 ∷ []; is_left_node = true } ∷ []

abbrev proved : BlockHeader
proved = record header { merkle_root = path_root (leaf_hash payment) path }

abbrev told : MerkleBlockMessage
told = record {
  block_header = proved;
  merkle_path = path;
  transaction = payment;
  addr_from = 60 ∷ [];
}

abbrev knower : SpvNode ToyDb
knower = knowing proved

known_header : check_header_existence knower.blockchain_header proved ≡ true
unfolding check_header_existence toy_db header_hash echain.Blockchain.Utils.get_double_sha256 toy
    path_root echain.Blockchain.Merkle.path_step leaf_hash
    echain.Blockchain.ChainHeader.current_header echain.Platform.generic_deserialize
    echain.Blockchain.Iterator.get_value
known_header = refl

-- A second SPV node, at the address of the first one's peer, with the first one as its peer.
abbrev other : SpvNode ToyDb
other = record knower {
  p2p = record knower.p2p { network_address = 72 ∷ []; connected_peers = spv_at (71 ∷ []) ∷ [] };
}

knower-Accepts : Accepts knower told
unfolding echain.Blockchain.Utils.get_pubkey_hash_from_address toy
knower-Accepts = record { owners = owner ∷ []; decodes = (refl, tt); known = known_header }

other-Accepts : Accepts other told
unfolding echain.Blockchain.Utils.get_pubkey_hash_from_address toy
other-Accepts = record { owners = owner ∷ []; decodes = (refl, tt); known = known_header }

handle_merkleblock_msg-exchanges_example : Exchange 1000 knower other told
unfolding header_hash echain.Blockchain.Utils.get_double_sha256 toy
handle_merkleblock_msg-exchanges_example =
    handle_merkleblock_msg-exchanges 1000 knower other told (Memᴰ.head refl) (Memᴰ.head refl)
      knower-Accepts other-Accepts refl refl

abbrev accepted : Handled ToyDb
accepted = only (updated knower (owner ∷ []) told) (relay_merkle_block knower.connected_peers told)

accepts : finish_merkle_block knower told ≡ ok accepted
unfolding finish_merkle_block check_header_existence toy_db header_hash
    echain.Blockchain.Utils.get_double_sha256 toy path_root echain.Blockchain.Merkle.path_step
    leaf_hash echain.Blockchain.ChainHeader.current_header echain.Platform.generic_deserialize
    echain.Blockchain.Iterator.get_value echain.Network.Spv.MerkleBlock.accept_merkle_block
    echain.Network.Spv.MerkleBlock.inputs_of_interest
    echain.Network.Spv.MerkleBlock.is_txn_input_of_interest
    echain.Blockchain.Transaction.is_signed_by echain.Blockchain.Utils.get_pubkey_hash_from_address
    echain.Blockchain.Utils.get_pubkey_hash_from_pubkey signed_by_any
accepts = refl

does_something : ¬ (accepted ≡ only knower [])
unfolding relay_merkle_block
does_something e = absurd (omega (arith, ap (λ (h : Handled ToyDb). length h.sent) e))

finish_merkle_block-binds_example :
    (check_header_existence knower.blockchain_header proved ≡ true)
    × (check_header_existence knower.blockchain_header proved ≡ true)
    × ((payment ≡ payment) ⊎ Collision)
finish_merkle_block-binds_example =
    finish_merkle_block-binds knower knower told told accepted accepted accepts accepts
      does_something does_something refl refl
