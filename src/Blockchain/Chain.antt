-- ===== src/Blockchain/Chain.antt =====
-- BlockChain of blockchain/blockchain.go: the blocks of a full node. The fuel of a function is the
-- number of rounds that each of its loops may make; `timeout` is a loop that makes more.
pub mod Linked
pub mod Height
pub mod Unmatched
pub mod Sealing
pub mod Store
pub mod Visit
pub mod Lookup
pub mod ReIndex
pub mod Restart
use echain.Base.{
  ℕ, zero, suc, Bool, true, false, Bytes, List, [], ◌∷◌, ◌++◌, Option, none, some, Run, ok, timeout,
  ◌>>=◌, ◌=ᵇ◌, is_empty, if◌then◌else◌,
}
use echain.Base.GoInt
use echain.Base.GoMap
use echain.Base.GoMap.{GoMap}
use echain.Types.{TxInput, TxOutputs, Transaction, BlockHeader, Block}
use echain.Platform.{Platform}
use echain.LevelDb.{LevelDb}
use echain.Blockchain.Utils.{last_hash_storage_key}
use echain.Blockchain.Block.{get_hash, generate_genesis_block, deserialize_block}
use echain.Blockchain.Iterator.{get_value, current_block}
use echain.Blockchain.UtxoSet.{find_utxo, update_with_new_block, re_index}

pub record BlockChain (Db : Type 0) : Type 0 where
  pub data_base : Db
  pub last_hash : Bytes

-- txnIDs of GetTransactionMapFromInputs
unfoldable pub input_ids : GoMap Bool → List TxInput → GoMap Bool
input_ids ids [] = ids
input_ids ids (i ∷ is) = input_ids (GoMap.set ids i.tx_id true) is

-- The loop of GetTransactionMapFromInputs over the transactions of a block.
unfoldable pub match_transactions :
    GoMap Bool → GoMap Transaction → List Transaction → GoMap Bool × GoMap Transaction
match_transactions ids m [] = (ids, m)
match_transactions ids m (t ∷ ts) = elim (GoMap.find ids t.hash) [
  | some exists ↦ match_transactions (GoMap.delete ids t.hash) (GoMap.set m t.hash t) ts
  | none ↦ match_transactions ids m ts
]

module _ {Db : Type 0} ⦃level_db : LevelDb Db⦄ ⦃platform : Platform⦄ where
  -- SetBlock; the block may get its merkle root, and is returned too.
  unfoldable pub set_block : ℕ → BlockChain Db → Block → Run (BlockChain Db × Block)
  set_block fuel chain block = do
    (hash, sealed) ← get_hash fuel block
    ok (
      record chain {
        data_base = level_db.put chain.data_base hash (platform.gob_block.encode sealed);
      },
      sealed,
    )

  unfoldable pub set_last_hash : BlockChain Db → Bytes → BlockChain Db
  set_last_hash chain hash = record {
    data_base = level_db.put chain.data_base last_hash_storage_key hash;
    last_hash = hash;
  }

  unfoldable pub store_new_block : ℕ → BlockChain Db → Block → Run (BlockChain Db)
  store_new_block fuel chain block = do
    (hash, sealed) ← get_hash fuel block
    let with_block = level_db.put chain.data_base hash (platform.gob_block.encode sealed)
    let with_last_hash = level_db.put with_block last_hash_storage_key hash
    ok (record { data_base = update_with_new_block with_last_hash sealed; last_hash = hash })

  -- The database is the one that OpenFile gave.
  unfoldable pub init_block_chain : ℕ → Db → Run (BlockChain Db)
  init_block_chain fuel db = do
    genesis ← generate_genesis_block
    (hash, sealed) ← get_hash fuel genesis
    chain ← store_new_block fuel (record { data_base = db; last_hash = hash }) sealed
    re_indexed ← re_index fuel chain.data_base
    ok (record chain { data_base = re_indexed })

  unfoldable pub height_loop : ℕ → Db → Bytes → ℕ → Run ℕ
  height_loop zero db current_hash height = timeout
  height_loop (suc fuel) db current_hash height =
      let block = current_block db current_hash in
      let height' = GoInt.add height 1 in
      let rest = height_loop fuel db block.prev_hash height' in
      if is_empty block.prev_hash then ok height' else rest

  unfoldable pub get_height : ℕ → BlockChain Db → Run ℕ
  get_height fuel chain = height_loop fuel chain.data_base chain.last_hash 0

  unfoldable pub transaction_map_loop :
      ℕ → Db → GoMap Bool → GoMap Transaction → Bytes → Run (GoMap Transaction)
  transaction_map_loop zero db ids m current_hash = timeout
  transaction_map_loop (suc fuel) db ids m current_hash =
      let block = current_block db current_hash in
      let (ids', m') = match_transactions ids m block.transactions in
      let rest = transaction_map_loop fuel db ids' m' block.prev_hash in
      if is_empty block.prev_hash then ok m' else rest

  unfoldable pub get_transaction_map_from_inputs :
      ℕ → BlockChain Db → Transaction → Run (GoMap Transaction)
  unfolding input_ids
  get_transaction_map_from_inputs fuel chain t =
      transaction_map_loop fuel chain.data_base (input_ids [] t.inputs) [] chain.last_hash

  unfoldable pub get_utxos : BlockChain Db → Bytes → Run (GoMap TxOutputs)
  get_utxos chain address = find_utxo chain.data_base address

  unfoldable pub unmatched_blocks_loop :
      ℕ → Db → Bytes → Bytes → List Bytes → Run (Bool × List Bytes)
  unmatched_blocks_loop zero db target current_hash unmatched = timeout
  unmatched_blocks_loop (suc fuel) db target current_hash unmatched = do
    (hash, block) ← get_hash (suc fuel) (current_block db current_hash)
    let rest = unmatched_blocks_loop fuel db target block.prev_hash (unmatched ++ hash ∷ [])
    if hash =ᵇ target
        then ok (true, unmatched)
        else if is_empty block.prev_hash
        then ok (false, unmatched)
        else rest

  unfoldable pub get_unmatched_blocks : ℕ → BlockChain Db → Bytes → Run (Bool × List Bytes)
  get_unmatched_blocks fuel chain target =
      unmatched_blocks_loop fuel chain.data_base target chain.last_hash []

  unfoldable pub unmatched_headers_loop :
      ℕ → Db → Bytes → Bytes → List BlockHeader → Run (Bool × List BlockHeader)
  unmatched_headers_loop zero db target current_hash unmatched = timeout
  unmatched_headers_loop (suc fuel) db target current_hash unmatched = do
    (hash, block) ← get_hash (suc fuel) (current_block db current_hash)
    let rest =
        unmatched_headers_loop fuel db target block.prev_hash (unmatched ++ block.block_header ∷ [])
    if hash =ᵇ target
        then ok (true, unmatched)
        else if is_empty block.prev_hash
        then ok (false, unmatched)
        else rest

  unfoldable pub get_unmatched_headers : ℕ → BlockChain Db → Bytes → Run (Bool × List BlockHeader)
  get_unmatched_headers fuel chain target =
      unmatched_headers_loop fuel chain.data_base target chain.last_hash []

  unfoldable pub get_blocks_from_hashes : BlockChain Db → List Bytes → List Block
  get_blocks_from_hashes chain [] = []
  get_blocks_from_hashes chain (h ∷ hs) =
      deserialize_block (get_value chain.data_base h) ∷ get_blocks_from_hashes chain hs
