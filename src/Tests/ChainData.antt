-- ===== src/Tests/ChainData.antt =====
-- A chain of two blocks and a third block on top of it.
use echain.Base.{sym, subst, ◌≡◌, refl, Bytes, List, [], ◌∷◌, inl}
use echain.Types.{Transaction, Block}
use echain.Blockchain.Utils.{last_hash_storage_key, get_double_sha256}
use echain.Platform.{generic_deserialize}
use echain.Blockchain.Block.{header_hash, deserialize_block}
use echain.Blockchain.Iterator.{get_value, current_block}
use echain.Blockchain.Chain.{BlockChain}
use echain.Blockchain.Chain.Linked.{IsStored, Linked, genesis, extend}
use echain.Tests.ToyPlatform.{toy}
use echain.Tests.ToyDb.{ToyDb, toy_db}
use echain.Tests.Data.{empty_db, payment, reward, spending}

abbrev pub block_of : Bytes → List Transaction → Block
block_of prev_hash transactions = record {
  block_header = record {
    prev_hash = prev_hash;
    merkle_root = 4 ∷ [];
    timestamp = 50 ∷ [];
    nonce = 7;
  };
  transactions = transactions;
}

abbrev pub first_block : Block
first_block = block_of [] (reward ∷ [])

abbrev pub first_hash : Bytes
first_hash = header_hash first_block.block_header

abbrev pub second_block : Block
second_block = block_of first_hash (payment ∷ spending ∷ [])

abbrev pub second_hash : Bytes
second_hash = header_hash second_block.block_header

abbrev pub chain_db : ToyDb
chain_db =
    toy_db.put
      (toy_db.put (toy_db.put empty_db first_hash (toy.gob_block.encode first_block)) second_hash
        (toy.gob_block.encode second_block))
      last_hash_storage_key second_hash

pub first-IsStored : IsStored chain_db first_hash first_block
unfolding header_hash current_block deserialize_block generic_deserialize toy get_value toy_db
    get_double_sha256
first-IsStored = record { at = refl; hashed = refl; sealed = inl refl; block_key = refl }

pub second-IsStored : IsStored chain_db second_hash second_block
unfolding header_hash current_block deserialize_block generic_deserialize toy get_value toy_db
    get_double_sha256
second-IsStored = record { at = refl; hashed = refl; sealed = inl refl; block_key = refl }

pub stored_chain : Linked chain_db second_hash (second_block ∷ first_block ∷ [])
unfolding header_hash get_double_sha256 toy
stored_chain =
    extend second_hash second_block (first_block ∷ []) second-IsStored refl
      (genesis first_hash first_block first-IsStored refl)

abbrev pub chain : BlockChain ToyDb
chain = record { data_base = chain_db; last_hash = second_hash }

abbrev pub third_block : Block
third_block = block_of second_hash (record reward { hash = 13 ∷ [] } ∷ [])

abbrev pub third_hash : Bytes
third_hash = header_hash third_block.block_header

pub tip : get_value chain_db last_hash_storage_key ≡ second_hash
unfolding get_value header_hash toy_db get_double_sha256 toy
tip = refl

pub stored_tip :
    Linked chain_db (get_value chain_db last_hash_storage_key) (second_block ∷ first_block ∷ [])
stored_tip = subst (λ h. Linked chain_db h (second_block ∷ first_block ∷ [])) (sym tip) stored_chain
