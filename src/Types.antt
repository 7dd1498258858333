-- ===== src/Types.antt =====
-- The data types of blockchain/transaction.go, blockchain/block.go, blockchain/merkle.go and
-- blockchain/utxoset.go. An int is a 64-bit pattern (Base/GoInt.antt), a string a byte string.
use echain.Base.{ℕ, Bool, Bytes, List}

pub record UnlockingScript : Type 0 where
  pub signature : Bytes
  pub pub_key : Bytes

pub record LockingScript : Type 0 where
  pub pub_key_hash : Bytes

pub record TxInput : Type 0 where
  pub tx_id : Bytes
  pub v_out : ℕ
  pub script_sig : UnlockingScript

pub record TxOutput : Type 0 where
  pub value : ℕ
  pub script_pub_key : LockingScript

pub record Transaction : Type 0 where
  pub hash : Bytes
  pub inputs : List TxInput
  pub outputs : List TxOutput
  pub locktime : ℕ

-- TxOutputWithIndex embeds TxOutput.
pub record TxOutputWithIndex : Type 0 where
  pub tx_output : TxOutput
  pub open tx_output use *
  pub index : ℕ

abbrev pub TxOutputs : Type 0
TxOutputs = List TxOutputWithIndex

pub record BlockHeader : Type 0 where
  pub prev_hash : Bytes
  pub merkle_root : Bytes
  pub timestamp : Bytes
  pub nonce : ℕ

-- Block embeds BlockHeader.
pub record Block : Type 0 where
  pub block_header : BlockHeader
  pub open block_header use *
  pub transactions : List Transaction

pub record MerkleProofNode : Type 0 where
  pub hash : Bytes
  pub is_left_node : Bool
