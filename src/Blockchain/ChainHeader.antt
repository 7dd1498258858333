-- ===== src/Blockchain/ChainHeader.antt =====
-- BlockChainHeader of blockchain/blockchain.go: the block headers of an SPV node. The fuel of a
-- function is the number of rounds that its loop may make.
pub mod Walk
pub mod Store
pub mod Known
use echain.Base.{
  ℕ, zero, suc, Bool, true, false, Bytes, List, [], ◌∷◌, ◌++◌, Option, none, some, Run, ok, timeout,
  ◌>>=◌, ◌=ᵇ◌, not, is_empty, if◌then◌else◌,
}
use echain.Base.GoInt
use echain.Types.{BlockHeader}
use echain.Platform.{Platform, generic_deserialize}
use echain.LevelDb.{LevelDb}
use echain.Blockchain.Utils.{last_hash_storage_key}
use echain.Blockchain.Block.{header_hash, get_hash, generate_genesis_block, zero_header}
use echain.Blockchain.Iterator.{get_value}

pub record BlockChainHeader (Db : Type 0) : Type 0 where
  pub data_base : Db
  pub last_hash : Bytes

module _ {Db : Type 0} ⦃level_db : LevelDb Db⦄ ⦃platform : Platform⦄ where
  -- Get of a hash and genericDeserialize into a BlockHeader.
  unfoldable pub current_header : Db → Bytes → BlockHeader
  current_header db hash =
      generic_deserialize platform.gob_block_header zero_header (get_value db hash)

  unfoldable pub init_block_chain_header : ℕ → Db → Run (BlockChainHeader Db)
  init_block_chain_header fuel db = do
    genesis ← generate_genesis_block
    (hash, sealed) ← get_hash fuel genesis
    let with_header = level_db.put db hash (platform.gob_block_header.encode sealed.block_header)
    ok (record {
      data_base = level_db.put with_header last_hash_storage_key hash;
      last_hash = hash;
    })

  unfoldable pub header_height_loop : ℕ → Db → Bytes → ℕ → Run ℕ
  header_height_loop zero db current_hash height = timeout
  header_height_loop (suc fuel) db current_hash height =
      let header = current_header db current_hash in
      let height' = GoInt.add height 1 in
      let rest = header_height_loop fuel db header.prev_hash height' in
      if is_empty header.prev_hash then ok height' else rest

  unfoldable pub get_height : ℕ → BlockChainHeader Db → Run ℕ
  get_height fuel chain = header_height_loop fuel chain.data_base chain.last_hash 0

  unfoldable pub set_header : BlockChainHeader Db → BlockHeader → BlockChainHeader Db
  set_header chain header = record chain {
    data_base =
        level_db.put chain.data_base (header_hash header) (platform.gob_block_header.encode header);
  }

  unfoldable pub set_last_hash : BlockChainHeader Db → Bytes → BlockChainHeader Db
  set_last_hash chain last_hash = record {
    data_base = level_db.put chain.data_base last_hash_storage_key last_hash;
    last_hash = last_hash;
  }

  unfoldable pub unmatched_headers_loop :
      ℕ → Db → Bytes → Bytes → List BlockHeader → Run (Bool × List BlockHeader)
  unmatched_headers_loop zero db target current_hash unmatched = timeout
  unmatched_headers_loop (suc fuel) db target current_hash unmatched =
      let header = current_header db current_hash in
      let rest =
        unmatched_headers_loop fuel db target header.prev_hash (unmatched ++ header ∷ []) in
      if current_hash =ᵇ target
      then ok (true, unmatched)
      else if is_empty header.prev_hash
      then ok (false, unmatched)
      else rest

  unfoldable pub get_unmatched_headers :
      ℕ → BlockChainHeader Db → Bytes → Run (Bool × List BlockHeader)
  get_unmatched_headers fuel chain target =
      unmatched_headers_loop fuel chain.data_base target chain.last_hash []

  -- A failed Get gives the zero header here, whose timestamp is empty too.
  unfoldable pub check_header_existence : BlockChainHeader Db → BlockHeader → Bool
  check_header_existence chain header =
      let hash = header_hash header in
      elim (level_db.get chain.data_base hash) [
        | none ↦ false
        | some _ ↦ not (is_empty (current_header chain.data_base hash).timestamp)
      ]
