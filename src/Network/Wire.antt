-- ===== src/Network/Wire.antt =====
-- What a node sends. sentData of network/fullnode.go is the message type in 12 bytes and then the
-- payload that gob writes; Network/Utils.antt has the two halves. An address that cannot be
-- reached is skipped by sendMessage.
use echain.Base.{Bytes}
use echain.Platform.{Gob}
use echain.Network.Messages.{
  VersionMessage, VerackMessage, AddrMessage, GetblocksMessage, InvMessage, HeaderMessage,
  GetdataMessage, BlockdataMessage, NewTxnMessage, MerkleBlockMessage, GetheadersMessage,
  FilterloadMessage, GetUtxoMessage, NewAddrMessage,
}

-- encoding/gob at the types of messages.
pub record Wire : Type 0 where
  pub gob_version : Gob VersionMessage
  pub gob_verack : Gob VerackMessage
  pub gob_addr : Gob AddrMessage
  pub gob_getblocks : Gob GetblocksMessage
  pub gob_inv : Gob InvMessage
  pub gob_header : Gob HeaderMessage
  pub gob_getdata : Gob GetdataMessage
  pub gob_blockdata : Gob BlockdataMessage
  pub gob_newtxn : Gob NewTxnMessage
  pub gob_merkle_block : Gob MerkleBlockMessage
  pub gob_getheaders : Gob GetheadersMessage
  pub gob_filterload : Gob FilterloadMessage
  pub gob_get_utxo : Gob GetUtxoMessage
  pub gob_new_addr : Gob NewAddrMessage

-- One call of sendMessage or sendMessageBlocking.
pub record Sent : Type 0 where
  pub to_address : Bytes
  pub msg_type : Bytes
  pub payload : Bytes
