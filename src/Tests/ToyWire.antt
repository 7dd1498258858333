-- ===== src/Tests/ToyWire.antt =====
-- A concrete coder for each type of message.
use echain.Base.{ℕ, zero, suc, ◌≡◌, refl, Bool, true, false}
use echain.Types.{MerkleProofNode}
use echain.Network.Messages.{
  VersionMessage, VerackMessage, AddrMessage, GetblocksMessage, GetheadersMessage, InvMessage,
  HeaderMessage, GetdataMessage, BlockdataMessage, NewTxnMessage, MerkleBlockMessage,
  FilterloadMessage, GetUtxoMessage, NewAddrMessage,
}
use echain.Network.Wire.{Wire}
use echain.Tests.Coders.{Coder, number, list_of, pair_of, coded_as, gob_of}
use echain.Tests.ToyPlatform.{bytes, transaction_code, header_code, block_code}

abbrev pub to_number : Bool → ℕ
to_number true = 1
to_number false = 0

abbrev pub of_number : ℕ → Bool
of_number zero = false
of_number (suc n) = true

pub of_number-to_number : (b : Bool) → of_number (to_number b) ≡ b
of_number-to_number true = refl
of_number-to_number false = refl

version_code : Coder VersionMessage
version_code =
    coded_as (pair_of number (pair_of bytes (pair_of bytes number)))
      (λ m. (m.version, (m.addr_you, (m.addr_me, m.best_height))))
      (λ p. record { version = p.0; addr_you = p.1.0; addr_me = p.1.1.0; best_height = p.1.1.1 })
      (λ m. refl)

verack_code : Coder VerackMessage
verack_code =
    coded_as (pair_of bytes bytes) (λ m. (m.node_type, m.addr_from))
      (λ p. record { node_type = p.0; addr_from = p.1 }) (λ m. refl)

addr_code : Coder AddrMessage
addr_code = coded_as bytes (λ m. m.address) (λ a. record { address = a }) (λ m. refl)

getblocks_code : Coder GetblocksMessage
getblocks_code =
    coded_as (pair_of bytes bytes) (λ m. (m.top_block_hash, m.addr_from))
      (λ p. record { top_block_hash = p.0; addr_from = p.1 }) (λ m. refl)

getheaders_code : Coder GetheadersMessage
getheaders_code =
    coded_as (pair_of bytes bytes) (λ m. (m.top_header_hash, m.addr_from))
      (λ p. record { top_header_hash = p.0; addr_from = p.1 }) (λ m. refl)

inv_code : Coder InvMessage
inv_code = coded_as (list_of bytes) (λ m. m.hash_list) (λ l. record { hash_list = l }) (λ m. refl)

headers_code : Coder HeaderMessage
headers_code =
    coded_as (list_of header_code) (λ m. m.header_list) (λ l. record { header_list = l })
      (λ m. refl)

getdata_code : Coder GetdataMessage
getdata_code =
    coded_as (pair_of number (pair_of (list_of bytes) bytes))
      (λ m. (m.index, (m.hash_list, m.addr_from)))
      (λ p. record { index = p.0; hash_list = p.1.0; addr_from = p.1.1 }) (λ m. refl)

blockdata_code : Coder BlockdataMessage
blockdata_code =
    coded_as (pair_of number (list_of block_code)) (λ m. (m.index, m.block_list))
      (λ p. record { index = p.0; block_list = p.1 }) (λ m. refl)

newtxn_code : Coder NewTxnMessage
newtxn_code =
    coded_as transaction_code (λ m. m.transaction) (λ t. record { transaction = t }) (λ m. refl)

filterload_code : Coder FilterloadMessage
filterload_code =
    coded_as (pair_of bytes (list_of bytes)) (λ m. (m.addr_from, m.bloom_filter))
      (λ p. record { addr_from = p.0; bloom_filter = p.1 }) (λ m. refl)

get_utxo_code : Coder GetUtxoMessage
get_utxo_code =
    coded_as bytes (λ m. m.target_address) (λ a. record { target_address = a }) (λ m. refl)

new_addr_code : Coder NewAddrMessage
new_addr_code =
    coded_as bytes (λ m. m.wallet_address) (λ a. record { wallet_address = a }) (λ m. refl)

side_code : Coder Bool
side_code = coded_as number to_number of_number of_number-to_number

proof_node_code : Coder MerkleProofNode
proof_node_code =
    coded_as (pair_of bytes side_code) (λ n. (n.hash, n.is_left_node))
      (λ p. record { hash = p.0; is_left_node = p.1 }) (λ n. refl)

merkle_block_code : Coder MerkleBlockMessage
merkle_block_code =
    coded_as
      (pair_of header_code (pair_of (list_of proof_node_code) (pair_of transaction_code bytes)))
      (λ m. (m.block_header, (m.merkle_path, (m.transaction, m.addr_from))))
      (λ p. record {
        block_header = p.0;
        merkle_path = p.1.0;
        transaction = p.1.1.0;
        addr_from = p.1.1.1;
      })
      (λ m. refl)

instance unfoldable pub toy_wire : Wire
unfolding version_code verack_code addr_code getblocks_code getheaders_code inv_code headers_code
    getdata_code blockdata_code newtxn_code filterload_code get_utxo_code new_addr_code side_code
    proof_node_code merkle_block_code number list_of pair_of coded_as gob_of transaction_code
    header_code block_code
toy_wire = record {
  gob_version = gob_of version_code;
  gob_verack = gob_of verack_code;
  gob_addr = gob_of addr_code;
  gob_getblocks = gob_of getblocks_code;
  gob_inv = gob_of inv_code;
  gob_header = gob_of headers_code;
  gob_getdata = gob_of getdata_code;
  gob_blockdata = gob_of blockdata_code;
  gob_newtxn = gob_of newtxn_code;
  gob_merkle_block = gob_of merkle_block_code;
  gob_getheaders = gob_of getheaders_code;
  gob_filterload = gob_of filterload_code;
  gob_get_utxo = gob_of get_utxo_code;
  gob_new_addr = gob_of new_addr_code;
}
