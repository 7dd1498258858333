-- ===== src/Network/FullNode/Inventory.antt =====
-- handleInvMsg of network/fullnode.go before and after its goroutines, which are in
-- FullNode/Workers.antt.
use echain.Base.{ℕ, Bytes, List, [], ◌∷◌, ok, ◌>>=◌, length}
use echain.Platform.{Platform, generic_deserialize}
use echain.LevelDb.{LevelDb}
use echain.Blockchain.UtxoSet.{re_index}
use echain.Network.Messages.{NodeInfo, InvMessage, GetdataMessage}
use echain.Network.Wire.{Wire, Sent}
use echain.Network.FullNode.{FullNode, Handled, send_get_blocks_msg}
use echain.Network.FullNode.Sync.{getdata_messages}

abbrev pub zero_inv : InvMessage
zero_inv = record { hash_list = [] }

module _ {Db : Type 0} where
  -- Up to wg.Add(messageCount): the node, and the messages that the goroutines send.
  unfoldable pub on_inv : FullNode Db → InvMessage → FullNode Db × List GetdataMessage
  on_inv node m =
      let messages = getdata_messages node.network_address [] m.hash_list in
      (record node { getdata_message_count = length messages }, messages)

module _ {Db : Type 0} ⦃wire : Wire⦄ where
  unfoldable pub begin_inv_msg : FullNode Db → Bytes → FullNode Db × List GetdataMessage
  begin_inv_msg node msg = on_inv node (generic_deserialize wire.gob_inv zero_inv msg)

module _ {Db : Type 0} ⦃level_db : LevelDb Db⦄ ⦃platform : Platform⦄ ⦃wire : Wire⦄ where
  -- The last loop.
  unfoldable pub ask_blocks : FullNode Db → List NodeInfo → List Sent
  ask_blocks node [] = []
  ask_blocks node (p ∷ ps) = send_get_blocks_msg node p.address ∷ ask_blocks node ps

  -- After wg.Wait and the sleep.
  unfoldable pub finish_inv_msg : ℕ → FullNode Db → Handled Db
  finish_inv_msg fuel node = do
    db ← re_index fuel node.blockchain.data_base
    let indexed = record node { blockchain = record node.blockchain { data_base = db } }
    ok (indexed, ask_blocks indexed indexed.connected_peers)
