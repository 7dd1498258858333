-- ===== src/Network/Messages.antt =====
-- network/message.go and the names of network/network.go.
use echain.Base.{ℕ, Bytes, codes, List, [], ◌∷◌}
use echain.Types.{Transaction, BlockHeader, Block, MerkleProofNode}

pub record VersionMessage : Type 0 where
  pub version : ℕ
  pub addr_you : Bytes
  pub addr_me : Bytes
  pub best_height : ℕ

pub record VerackMessage : Type 0 where
  pub node_type : Bytes
  pub addr_from : Bytes

pub record AddrMessage : Type 0 where
  pub address : Bytes

pub record GetblocksMessage : Type 0 where
  pub top_block_hash : Bytes
  pub addr_from : Bytes

pub record GetheadersMessage : Type 0 where
  pub top_header_hash : Bytes
  pub addr_from : Bytes

pub record InvMessage : Type 0 where
  pub hash_list : List Bytes

pub record HeaderMessage : Type 0 where
  pub header_list : List BlockHeader

pub record GetdataMessage : Type 0 where
  pub index : ℕ
  pub hash_list : List Bytes
  pub addr_from : Bytes

pub record BlockdataMessage : Type 0 where
  pub index : ℕ
  pub block_list : List Block

pub record GetUtxoMessage : Type 0 where
  pub target_address : Bytes

pub record NewTxnMessage : Type 0 where
  pub transaction : Transaction

pub record NewAddrMessage : Type 0 where
  pub wallet_address : Bytes

pub record FilterloadMessage : Type 0 where
  pub addr_from : Bytes
  pub bloom_filter : List Bytes

pub record MerkleBlockMessage : Type 0 where
  pub block_header : BlockHeader
  pub merkle_path : List MerkleProofNode
  pub transaction : Transaction
  pub addr_from : Bytes

abbrev pub version_msg : Bytes
version_msg = codes "version"

abbrev pub verack_msg : Bytes
verack_msg = codes "verack"

abbrev pub addr_msg : Bytes
addr_msg = codes "addr"

abbrev pub getblocks_msg : Bytes
getblocks_msg = codes "getblocks"

abbrev pub inv_msg : Bytes
inv_msg = codes "inv"

abbrev pub headers_msg : Bytes
headers_msg = codes "headers"

abbrev pub getdata_msg : Bytes
getdata_msg = codes "getdata"

abbrev pub getheaders_msg : Bytes
getheaders_msg = codes "getheaders"

abbrev pub blockdata_msg : Bytes
blockdata_msg = codes "blockdata"

abbrev pub newtxn_msg : Bytes
newtxn_msg = codes "newtxn"

abbrev pub getutxo_msg : Bytes
getutxo_msg = codes "getutxo"

abbrev pub newaddr_msg : Bytes
newaddr_msg = codes "newaddr"

abbrev pub filterload_msg : Bytes
filterload_msg = codes "filterload"

abbrev pub merkleblock_msg : Bytes
merkleblock_msg = codes "merkleblock"

abbrev pub full_node : Bytes
full_node = codes "fullnode"

abbrev pub spv : Bytes
spv = codes "spv"

abbrev pub miner : Bytes
miner = codes "miner"

abbrev pub msg_type_length : ℕ
msg_type_length = 12

abbrev pub max_blocks_in_transit_per_peer : ℕ
max_blocks_in_transit_per_peer = 10

abbrev pub initial_peers : List Bytes
initial_peers = codes "localhost:8333" ∷ codes "localhost:8334" ∷ codes "localhost:8335" ∷ []

pub record NodeInfo : Type 0 where
  pub node_type : Bytes
  pub address : Bytes

pub record P2PNode : Type 0 where
  pub version : ℕ
  pub network_address : Bytes
  pub connected_peers : List NodeInfo
  pub forwarded_addr_list : List Bytes
