-- ===== src/Blockchain/Iterator.antt =====
-- BlockChainIterator of blockchain/blockchain.go.
use echain.Base.{Bytes, [], none, some}
use echain.Types.{Block}
use echain.Platform.{Platform}
use echain.LevelDb.{LevelDb}
use echain.Blockchain.Block.{deserialize_block}

module _ {Db : Type 0} ⦃level_db : LevelDb Db⦄ where
  -- value, _ := DataBase.Get(key, nil): a missing key gives the empty slice.
  unfoldable pub get_value : Db → Bytes → Bytes
  get_value db key = elim (level_db.get db key) [ none ↦ [] | some value ↦ value ]

  module _ ⦃platform : Platform⦄ where
    unfoldable pub current_block : Db → Bytes → Block
    current_block db current_hash = deserialize_block (get_value db current_hash)
