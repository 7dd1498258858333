-- ===== src/Network/FullNode/Blockdata.antt =====
-- handleBlockdataMsg of network/fullnode.go.
pub mod NewBlock
use echain.Base.{
  ℕ, Bool, true, false, ◌&&◌, Bytes, List, [], ◌∷◌, ◌++◌, Run, ok, panic, ◌>>=◌, ◌==◌, ◌=ᵇ◌, length,
  if◌then◌else◌,
}
use echain.Base.GoInt
use echain.Base.GoMap.{GoMap, find_or}
use echain.Types.{Transaction, Block}
use echain.Platform.{Platform, generic_deserialize}
use echain.LevelDb.{LevelDb}
use echain.Blockchain.Block.{get_hash}
use echain.Blockchain.Merkle.{get_merkle_proof}
use echain.Blockchain.Chain.{BlockChain, set_block, set_last_hash}
use echain.Network.Messages.{
  BlockdataMessage, MerkleBlockMessage, NodeInfo, full_node, spv, merkleblock_msg,
}
use echain.Network.Wire.{Wire, Sent}
use echain.Network.Utils.{is_transaction_of_interest}
use echain.Network.FullNode.{FullNode, Handled, send_blockdata_message, newblock_from_miner_index}
use echain.Network.FullNode.Verify.{verify_block, store_new_block}

abbrev pub zero_blockdata : BlockdataMessage
zero_blockdata = record { index = 0; block_list = [] }

module _ ⦃wire : Wire⦄ where
  unfoldable pub send_merkleblock_message : Bytes → MerkleBlockMessage → Sent
  send_merkleblock_message to_address merkle_block = record {
    to_address = to_address;
    msg_type = merkleblock_msg;
    payload = wire.gob_merkle_block.encode merkle_block;
  }

  -- Step 3: to the full nodes among the peers.
  unfoldable pub relay_blocks : List NodeInfo → List Block → List Sent
  relay_blocks [] blocks = []
  relay_blocks (p ∷ ps) blocks =
      if p.node_type =ᵇ full_node
      then send_blockdata_message p.address newblock_from_miner_index blocks
        ∷ relay_blocks ps blocks
      else relay_blocks ps blocks

module _ ⦃platform : Platform⦄ ⦃wire : Wire⦄ where
  -- Step 4 for one transaction: the SPV nodes among the peers.
  unfoldable pub notify_peers :
      ℕ → Bytes → GoMap (List Bytes) → Block → Transaction → List NodeInfo → Run (List Sent)
  notify_peers fuel from filters block t [] = ok []
  notify_peers fuel from filters block t (p ∷ ps) = do
    of_interest ←
        (if p.node_type =ᵇ spv
          then is_transaction_of_interest t (find_or [] filters p.address)
          else ok false)
    merkle_path ← (if of_interest then get_merkle_proof fuel block t else ok [])
    rest ← notify_peers fuel from filters block t ps
    ok (
        if of_interest
        then send_merkleblock_message p.address (record {
          block_header = block.block_header;
          merkle_path = merkle_path;
          transaction = t;
          addr_from = from;
        })
          ∷ rest
        else rest)

  unfoldable pub notify_all :
      ℕ → Bytes → GoMap (List Bytes) → Block → List NodeInfo → List Transaction → Run (List Sent)
  notify_all fuel from filters block peers [] = ok []
  notify_all fuel from filters block peers (t ∷ ts) = do
    first ← notify_peers fuel from filters block t peers
    rest ← notify_all fuel from filters block peers ts
    ok (first ++ rest)

module _ ⦃platform : Platform⦄ where
  -- The hash of the last block; an empty list panics.
  unfoldable pub last_block_hash : ℕ → List Block → Run Bytes
  last_block_hash fuel [] = panic
  last_block_hash fuel (b ∷ []) = get_hash fuel b >>= (λ r. ok r.0)
  last_block_hash fuel (b ∷ c ∷ bs) = last_block_hash fuel (c ∷ bs)

module _ {Db : Type 0} ⦃level_db : LevelDb Db⦄ ⦃platform : Platform⦄ ⦃wire : Wire⦄ where
  -- Steps 2 to 4, after a block has been verified.
  unfoldable pub spread_block : ℕ → FullNode Db → Block → Handled Db
  spread_block fuel node block = do
    (stored, sealed) ← store_new_block fuel node block
    notices ←
        notify_all fuel stored.network_address stored.connected_spv_bloom_filter_map sealed
          stored.connected_peers sealed.transactions
    ok (stored, relay_blocks stored.connected_peers (sealed ∷ []) ++ notices)

  unfoldable pub on_new_block : ℕ → FullNode Db → Block → Handled Db
  on_new_block fuel node block =
      verify_block fuel node block
      >>= (λ r. if r.0 then spread_block fuel node r.1 else ok (node, []))

  -- The loop over the blocks that a peer was asked for.
  unfoldable pub set_blocks : ℕ → BlockChain Db → List Block → Run (BlockChain Db)
  set_blocks fuel chain [] = ok chain
  set_blocks fuel chain (b ∷ bs) = do
    (with_block, sealed) ← set_block fuel chain b
    set_blocks fuel with_block bs

  unfoldable pub on_blocks : ℕ → FullNode Db → BlockdataMessage → Handled Db
  on_blocks fuel node m = do
    chain ← set_blocks fuel node.blockchain m.block_list
    let unchanged = record node { blockchain = chain }
    if m.index == GoInt.sub node.getdata_message_count 1
        then (last_block_hash fuel m.block_list
            >>= (λ hash. ok (record node { blockchain = set_last_hash chain hash }, [])))
        else ok (unchanged, [])

  -- A list of one block with the index of a miner's block, or any other list.
  unfoldable pub on_block_list : ℕ → FullNode Db → BlockdataMessage → List Block → Handled Db
  on_block_list fuel node m [] = on_blocks fuel node m
  on_block_list fuel node m (block ∷ []) =
      if m.index == newblock_from_miner_index
      then on_new_block fuel node block
      else on_blocks fuel node m
  on_block_list fuel node m (b ∷ c ∷ bs) = on_blocks fuel node m

  unfoldable pub on_blockdata : ℕ → FullNode Db → BlockdataMessage → Handled Db
  on_blockdata fuel node m = on_block_list fuel node m m.block_list

  unfoldable pub handle_blockdata_msg : ℕ → FullNode Db → Bytes → Handled Db
  handle_blockdata_msg fuel node msg =
      on_blockdata fuel node (generic_deserialize wire.gob_blockdata zero_blockdata msg)
