-- ===== src/Network/Spv/Connection.antt =====
-- handleNewAddrMsg, handeGetUTXOMsg, handleNewTxnMsg and handleConnection of network/spv.go.
use echain.Base.{
  ℕ, ◌||◌, Bytes, List, [], ◌∷◌, ◌++◌, Run, ok, panic, ◌>>=◌, ◌=ᵇ◌, ltb, length, drop,
  if◌then◌else◌,
}
use echain.Platform.{Platform, generic_deserialize}
use echain.LevelDb.{LevelDb}
use echain.Blockchain.UtxoSet.{find_utxo}
use echain.Network.Messages.{
  NodeInfo, GetUtxoMessage, NewAddrMessage, full_node, miner, version_msg, verack_msg, addr_msg,
  getheaders_msg, headers_msg, newaddr_msg, merkleblock_msg, getutxo_msg, newtxn_msg,
  msg_type_length,
}
use echain.Network.Wire.{Wire, Sent}
use echain.Network.Utils.{get_msg_type}
use echain.Network.Spv.{SpvNode, Handled, only, replies, send_filterload_msg, send_version_msg}
use echain.Network.Spv.Handshake.{handle_version_msg, handle_verack_msg, handle_addr_msg}
use echain.Network.Spv.Headers.{handle_headers_msg, handle_getheaders_msg}
use echain.Network.Spv.MerkleBlock.{handle_merkleblock_msg}

abbrev pub zero_get_utxo : GetUtxoMessage
zero_get_utxo = record { target_address = [] }

abbrev pub zero_new_addr : NewAddrMessage
zero_new_addr = record { wallet_address = [] }

unfoldable pub update_bloom_filter : {Db : Type 0} → SpvNode Db → SpvNode Db
update_bloom_filter node = record node { bloom_filter = node.monitor_addr_list }

-- The loop of handleNewTxnMsg, which passes the message on as it came.
unfoldable pub relay_txn : List NodeInfo → Bytes → List Sent
relay_txn [] msg = []
relay_txn (p ∷ ps) msg =
    if p.node_type =ᵇ miner || p.node_type =ᵇ full_node
    then record { to_address = p.address; msg_type = newtxn_msg; payload = msg } ∷ relay_txn ps msg
    else relay_txn ps msg

unfoldable pub handle_new_txn_msg : {Db : Type 0} → SpvNode Db → Bytes → Handled Db
handle_new_txn_msg node msg = only node (relay_txn node.connected_peers msg)

module _ {Db : Type 0} ⦃wire : Wire⦄ where
  unfoldable pub load_filters : SpvNode Db → List NodeInfo → List Sent
  load_filters node [] = []
  load_filters node (p ∷ ps) =
      if p.node_type =ᵇ full_node
      then send_filterload_msg node p.address ∷ load_filters node ps
      else load_filters node ps

  unfoldable pub on_new_addr : SpvNode Db → NewAddrMessage → Handled Db
  unfolding update_bloom_filter
  on_new_addr node m =
      let node' =
        update_bloom_filter
          (record node { monitor_addr_list = node.monitor_addr_list ++ m.wallet_address ∷ [] }) in
      only node' (load_filters node' node'.connected_peers)

  unfoldable pub handle_new_addr_msg : SpvNode Db → Bytes → Handled Db
  handle_new_addr_msg node msg =
      on_new_addr node (generic_deserialize wire.gob_new_addr zero_new_addr msg)

module _ {Db : Type 0} ⦃level_db : LevelDb Db⦄ ⦃platform : Platform⦄ ⦃wire : Wire⦄ where
  unfoldable pub handle_get_utxo_msg : SpvNode Db → Bytes → Run (Handled Db)
  handle_get_utxo_msg node msg = do
    let m = generic_deserialize wire.gob_get_utxo zero_get_utxo msg
    utxo_map ← find_utxo node.blockchain_header.data_base m.target_address
    ok (record { node = node; sent = []; effect = replies utxo_map })

  -- The switch of handleConnection.
  unfoldable pub dispatch : ℕ → SpvNode Db → Bytes → Bytes → Run (Handled Db)
  dispatch fuel node msg_type payload =
      if msg_type =ᵇ version_msg
      then handle_version_msg fuel node payload
      else if msg_type =ᵇ verack_msg
      then ok (handle_verack_msg node payload)
      else if msg_type =ᵇ addr_msg
      then handle_addr_msg fuel node payload
      else if msg_type =ᵇ getheaders_msg
      then handle_getheaders_msg fuel node payload
      else if msg_type =ᵇ headers_msg
      then handle_headers_msg node payload
      else if msg_type =ᵇ newaddr_msg
      then ok (handle_new_addr_msg node payload)
      else if msg_type =ᵇ merkleblock_msg
      then handle_merkleblock_msg node payload
      else if msg_type =ᵇ getutxo_msg
      then handle_get_utxo_msg node payload
      else if msg_type =ᵇ newtxn_msg
      then ok (handle_new_txn_msg node payload)
      else ok (only node [])

  -- `read` is what io.ReadAll read. data[msgTypeLength:] panics on fewer bytes than 12.
  unfoldable pub handle_connection : ℕ → SpvNode Db → Bytes → Run (Handled Db)
  handle_connection fuel node read =
      if ltb (length read) msg_type_length
      then panic
      else dispatch fuel node (get_msg_type read) (drop msg_type_length read)

  -- The loop of StartP2PNode over initialPeers.
  unfoldable pub greet_initial_peers : ℕ → SpvNode Db → List Bytes → Run (List Sent)
  greet_initial_peers fuel node [] = ok []
  greet_initial_peers fuel node (peer_addr ∷ addrs) = do
    first ←
        (if peer_addr =ᵇ node.network_address
          then ok []
          else send_version_msg fuel node peer_addr >>= (λ version. ok (version ∷ [])))
    rest ← greet_initial_peers fuel node addrs
    ok (first ++ rest)
