-- ===== src/Network/Miner/Connection.antt =====
-- sendVerackMsg, handleVersionMsg and handleConnection of network/miner.go. All other handlers are
-- those of the full node that it embeds; a filterload message is not among them.
use echain.Base.{
  ℕ, Bytes, List, [], ◌∷◌, Run, ok, panic, ◌>>=◌, ◌==◌, ◌=ᵇ◌, ltb, length, drop, if◌then◌else◌,
}
use echain.Platform.{Platform, generic_deserialize}
use echain.LevelDb.{LevelDb}
use echain.Network.Messages.{
  VersionMessage, miner, version_msg, verack_msg, addr_msg, getblocks_msg, inv_msg, getdata_msg,
  blockdata_msg, getheaders_msg, getutxo_msg, newtxn_msg, msg_type_length,
}
use echain.Network.Wire.{Wire, Sent}
use echain.Network.Utils.{get_msg_type}
use echain.Network.FullNode.{FullNode}
use echain.Network.FullNode.Handshake.{zero_version, greet, handle_verack_msg, handle_addr_msg}
use echain.Network.FullNode.Sync.{handle_getblocks_msg, handle_getheaders_msg, handle_getdata_msg}
use echain.Network.FullNode.Blockdata.{handle_blockdata_msg}
use echain.Network.FullNode.NewTxn.{handle_new_txn_msg}
use echain.Network.FullNode.Connection.{
  Outcome, only, plainly, sending, handle_get_utxo_msg, start_inv,
}

module _ {Db : Type 0} ⦃wire : Wire⦄ where
  unfoldable pub send_verack_msg : FullNode Db → Bytes → Sent
  send_verack_msg node to_address = record {
    to_address = to_address;
    msg_type = verack_msg;
    payload =
        wire.gob_verack.encode (record { node_type = miner; addr_from = node.network_address });
  }

module _ {Db : Type 0} ⦃level_db : LevelDb Db⦄ ⦃platform : Platform⦄ ⦃wire : Wire⦄ where
  unfoldable pub on_version : ℕ → FullNode Db → VersionMessage → Run (List Sent)
  on_version fuel node m =
      if node.version == m.version
      then (greet fuel node m.addr_me
          >>= (λ greeting. ok (send_verack_msg node m.addr_me ∷ greeting)))
      else ok []

  unfoldable pub handle_version_msg : ℕ → FullNode Db → Bytes → Run (List Sent)
  handle_version_msg fuel node msg =
      on_version fuel node (generic_deserialize wire.gob_version zero_version msg)

  -- The switch of handleConnection.
  unfoldable pub dispatch : ℕ → FullNode Db → Bytes → Bytes → Run (Outcome Db)
  dispatch fuel node msg_type payload =
      if msg_type =ᵇ version_msg
      then sending node (handle_version_msg fuel node payload)
      else if msg_type =ᵇ verack_msg
      then plainly (ok (handle_verack_msg node payload))
      else if msg_type =ᵇ addr_msg
      then plainly (handle_addr_msg fuel node payload)
      else if msg_type =ᵇ getblocks_msg
      then sending node (handle_getblocks_msg fuel node payload)
      else if msg_type =ᵇ inv_msg
      then ok (start_inv node payload)
      else if msg_type =ᵇ getdata_msg
      then sending node (ok (handle_getdata_msg node payload))
      else if msg_type =ᵇ blockdata_msg
      then plainly (handle_blockdata_msg fuel node payload)
      else if msg_type =ᵇ getheaders_msg
      then sending node (handle_getheaders_msg fuel node payload)
      else if msg_type =ᵇ getutxo_msg
      then handle_get_utxo_msg node payload
      else if msg_type =ᵇ newtxn_msg
      then (handle_new_txn_msg node payload >>= (λ r. ok (only r.0 r.1)))
      else ok (only node [])

  unfoldable pub handle_connection : ℕ → FullNode Db → Bytes → Run (Outcome Db)
  handle_connection fuel node read =
      if ltb (length read) msg_type_length
      then panic
      else dispatch fuel node (get_msg_type read) (drop msg_type_length read)
