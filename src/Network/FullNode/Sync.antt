-- ===== src/Network/FullNode/Sync.antt =====
-- handleGetblocksMsg, handleGetheadersMsg, handleGetdataMsg and the batches of handleInvMsg of
-- network/fullnode.go. None of them changes the node but for getdataMessageCount.
pub mod Reply
pub mod Bounds
use echain.Base.{
  ℕ, zero, suc, Bool, true, false, ◌&&◌, not, Bytes, List, [], ◌∷◌, ◌++◌, reverse, Run, ok, ◌>>=◌,
  leb, length, if◌then◌else◌,
}
use echain.Types.{BlockHeader}
use echain.Platform.{Platform, generic_deserialize}
use echain.LevelDb.{LevelDb}
use echain.Blockchain.Chain.{get_unmatched_blocks, get_unmatched_headers, get_blocks_from_hashes}
use echain.Network.Messages.{
  GetblocksMessage, GetheadersMessage, GetdataMessage, InvMessage, max_blocks_in_transit_per_peer,
}
use echain.Network.Wire.{Wire, Sent}
use echain.Network.FullNode.{
  FullNode, send_inv_message, send_header_message, send_blockdata_message, send_get_blocks_msg,
}

-- The loop that appends to a list until it has `limit` elements.
unfoldable pub append_until {ℓ} : {A : Type ℓ} → ℕ → List A → List A → List A
append_until limit acc [] = acc
append_until limit acc (x ∷ xs) =
    let acc' = acc ++ x ∷ [] in
    let rest = append_until limit acc' xs in if leb limit (length acc') then acc' else rest

abbrev pub is_nil {ℓ} : {A : Type ℓ} → List A → Bool
is_nil [] = true
is_nil (x ∷ xs) = false

abbrev pub zero_getblocks : GetblocksMessage
zero_getblocks = record { top_block_hash = []; addr_from = [] }

abbrev pub zero_getheaders : GetheadersMessage
zero_getheaders = record { top_header_hash = []; addr_from = [] }

abbrev pub zero_getdata : GetdataMessage
zero_getdata = record { index = 0; hash_list = []; addr_from = [] }

-- One round of the loop of handleInvMsg over the hashes; `position` counts the messages before.
unfoldable pub add_hash : Bytes → ℕ → List GetdataMessage → Bytes → List GetdataMessage
add_hash addr position [] hash =
    record { index = position; hash_list = hash ∷ []; addr_from = addr } ∷ []
add_hash addr position (m ∷ []) hash =
    if leb max_blocks_in_transit_per_peer (length m.hash_list)
    then m ∷ record { index = suc position; hash_list = hash ∷ []; addr_from = addr } ∷ []
    else record m { hash_list = m.hash_list ++ hash ∷ [] } ∷ []
add_hash addr position (m ∷ n ∷ ms) hash = m ∷ add_hash addr (suc position) (n ∷ ms) hash

unfoldable pub getdata_messages : Bytes → List GetdataMessage → List Bytes → List GetdataMessage
getdata_messages addr messages [] = messages
getdata_messages addr messages (hash ∷ hashes) =
    getdata_messages addr (add_hash addr 0 messages hash) hashes

module _ {Db : Type 0} ⦃level_db : LevelDb Db⦄ ⦃platform : Platform⦄ ⦃wire : Wire⦄ where
  unfoldable pub reply_getblocks : ℕ → FullNode Db → GetblocksMessage → Run (List Sent)
  reply_getblocks fuel node getblocks = do
    (existed, unmatched) ← get_unmatched_blocks fuel node.blockchain getblocks.top_block_hash
    let hashes = append_until 500 [] (reverse unmatched)
    if existed && not (is_nil unmatched)
        then ok (send_inv_message getblocks.addr_from (record { hash_list = hashes }) ∷ [])
        else if not existed
        then ok (send_get_blocks_msg node getblocks.addr_from ∷ [])
        else ok []

  unfoldable pub handle_getblocks_msg : ℕ → FullNode Db → Bytes → Run (List Sent)
  handle_getblocks_msg fuel node msg =
      reply_getblocks fuel node (generic_deserialize wire.gob_getblocks zero_getblocks msg)

  unfoldable pub reply_getheaders : ℕ → FullNode Db → GetheadersMessage → Run (List Sent)
  reply_getheaders fuel node getheaders = do
    (existed, unmatched) ← get_unmatched_headers fuel node.blockchain getheaders.top_header_hash
    let headers = append_until 2000 [] (reverse unmatched)
    if existed && not (is_nil unmatched)
        then ok (send_header_message getheaders.addr_from (record { header_list = headers }) ∷ [])
        else ok []

  unfoldable pub handle_getheaders_msg : ℕ → FullNode Db → Bytes → Run (List Sent)
  handle_getheaders_msg fuel node msg =
      reply_getheaders fuel node (generic_deserialize wire.gob_getheaders zero_getheaders msg)

  unfoldable pub handle_getdata_msg : FullNode Db → Bytes → List Sent
  handle_getdata_msg node msg =
      let getdata = generic_deserialize wire.gob_getdata zero_getdata msg in
      send_blockdata_message getdata.addr_from getdata.index
        (get_blocks_from_hashes node.blockchain getdata.hash_list)
      ∷ []
