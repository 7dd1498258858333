-- ===== src/Network/FullNode/Connection.antt =====
-- handeGetUTXOMsg and handleConnection of network/fullnode.go.
use echain.Base.{
  ℕ, Bytes, List, [], ◌∷◌, ◌++◌, Run, ok, panic, ◌>>=◌, ◌=ᵇ◌, ltb, length, drop, if◌then◌else◌,
}
use echain.Base.GoMap.{GoMap}
use echain.Types.{TxOutputs}
use echain.Platform.{Platform, generic_deserialize}
use echain.LevelDb.{LevelDb}
use echain.Blockchain.Chain.{get_utxos}
use echain.Network.Messages.{
  GetUtxoMessage, GetdataMessage, version_msg, verack_msg, addr_msg, getblocks_msg, inv_msg,
  getdata_msg, blockdata_msg, getheaders_msg, getutxo_msg, newtxn_msg, filterload_msg,
  msg_type_length,
}
use echain.Network.Wire.{Wire, Sent}
use echain.Network.Utils.{get_msg_type}
use echain.Network.FullNode.{FullNode, Handled, send_version_msg}
use echain.Network.FullNode.Handshake.{
  handle_version_msg, handle_verack_msg, handle_addr_msg, handle_filterload_msg,
}
use echain.Network.FullNode.Sync.{handle_getblocks_msg, handle_getheaders_msg, handle_getdata_msg}
use echain.Network.FullNode.Blockdata.{handle_blockdata_msg}
use echain.Network.FullNode.NewTxn.{handle_new_txn_msg}
use echain.Network.FullNode.Inventory.{begin_inv_msg}

-- What a handler does besides changing the node and sending messages: it writes a map to the
-- connection, serialized; or it starts the goroutines of handleInvMsg and waits for them.
pub data Effect : Type 0 where
  nothing : Effect
  replies : GoMap TxOutputs → Effect
  fetches : List GetdataMessage → Effect

pub record Outcome (Db : Type 0) : Type 0 where
  pub node : FullNode Db
  pub sent : List Sent
  pub effect : Effect

abbrev pub only : {Db : Type 0} → FullNode Db → List Sent → Outcome Db
only node sent = record { node = node; sent = sent; effect = nothing }

abbrev pub zero_get_utxo : GetUtxoMessage
zero_get_utxo = record { target_address = [] }

-- A handler without such an effect.
abbrev pub plainly : {Db : Type 0} → Handled Db → Run (Outcome Db)
plainly run = run >>= (λ r. ok (only r.0 r.1))

-- A handler that only sends.
abbrev pub sending : {Db : Type 0} → FullNode Db → Run (List Sent) → Run (Outcome Db)
sending node run = run >>= (λ sent. ok (only node sent))

module _ {Db : Type 0} ⦃level_db : LevelDb Db⦄ ⦃platform : Platform⦄ ⦃wire : Wire⦄ where
  unfoldable pub handle_get_utxo_msg : FullNode Db → Bytes → Run (Outcome Db)
  handle_get_utxo_msg node msg = do
    let m = generic_deserialize wire.gob_get_utxo zero_get_utxo msg
    utxo_map ← get_utxos node.blockchain m.target_address
    ok (record { node = node; sent = []; effect = replies utxo_map })

  unfoldable pub start_inv : FullNode Db → Bytes → Outcome Db
  start_inv node msg =
      let (node', messages) = begin_inv_msg node msg in
      record { node = node'; sent = []; effect = fetches messages }

  -- The switch of handleConnection. The error of handleNewTxnMsg is dropped.
  unfoldable pub dispatch : ℕ → FullNode Db → Bytes → Bytes → Run (Outcome Db)
  dispatch fuel node msg_type payload =
      if msg_type =ᵇ version_msg
      then plainly (handle_version_msg fuel node payload)
      else if msg_type =ᵇ verack_msg
      then plainly (ok (handle_verack_msg node payload))
      else if msg_type =ᵇ addr_msg
      then plainly (handle_addr_msg fuel node payload)
      else if msg_type =ᵇ getblocks_msg
      then sending node (handle_getblocks_msg fuel node payload)
      else if msg_type =ᵇ inv_msg
      then ok (start_inv node payload)
      else if msg_type =ᵇ getdata_msg
      then sending node (ok (handle_getdata_msg node payload))
      else if msg_type =ᵇ blockdata_msg
      then plainly (handle_blockdata_msg fuel node payload)
      else if msg_type =ᵇ getheaders_msg
      then sending node (handle_getheaders_msg fuel node payload)
      else if msg_type =ᵇ getutxo_msg
      then handle_get_utxo_msg node payload
      else if msg_type =ᵇ newtxn_msg
      then (handle_new_txn_msg node payload >>= (λ r. ok (only r.0 r.1)))
      else if msg_type =ᵇ filterload_msg
      then ok (only (handle_filterload_msg node payload) [])
      else ok (only node [])

  -- `read` is what io.ReadAll read. data[msgTypeLength:] panics on fewer bytes than 12.
  unfoldable pub handle_connection : ℕ → FullNode Db → Bytes → Run (Outcome Db)
  handle_connection fuel node read =
      if ltb (length read) msg_type_length
      then panic
      else dispatch fuel node (get_msg_type read) (drop msg_type_length read)

  -- The loop of StartP2PNode over initialPeers.
  unfoldable pub greet_initial_peers : ℕ → FullNode Db → List Bytes → Run (List Sent)
  greet_initial_peers fuel node [] = ok []
  greet_initial_peers fuel node (peer_addr ∷ addrs) = do
    first ←
        (if peer_addr =ᵇ node.network_address
          then ok []
          else send_version_msg fuel node peer_addr >>= (λ version. ok (version ∷ [])))
    rest ← greet_initial_peers fuel node addrs
    ok (first ++ rest)
