-- ===== src/Blockchain/Chain/Height.antt =====
-- GetHeight of blockchain/blockchain.go.
use echain.Base.{ℕ, zero, suc, ◌+◌, ◌%◌, ◌≤◌, ◌≡◌, ap, ◌∙◌, Bytes, List, ok, length, arith}
use echain.Base.GoInt
use echain.Base.GoInt.{modulus}
use echain.Types.{Block}
use echain.Platform.{Platform}
use echain.LevelDb.{LevelDb}
use echain.Blockchain.Chain.{BlockChain, height_loop, get_height}
use echain.Blockchain.Chain.Linked.{Linked, genesis, extend, Linked-length}

module _ {Db : Type 0} ⦃level_db : LevelDb Db⦄ ⦃platform : Platform⦄ where
  height_loop-length :
      (fuel : ℕ) (db : Db) (hash : Bytes) (blocks : List Block) (height : ℕ)
      → Linked db hash blocks
      → length blocks ≤ fuel
      → height_loop fuel db hash height ≡ ok ((height + length blocks) % modulus)
  unfolding height_loop GoInt.add
  height_loop-length zero db hash blocks height l h = absurd (omega (arith, Linked-length l))
  height_loop-length (suc fuel) db hash _ height (genesis _ block s e) h = rw (s.at, e)
  height_loop-length (suc fuel) db hash _ height (extend _ block older s e l) h =
      rw
        (
          s.at,
          e,
          height_loop-length fuel db block.prev_hash older (GoInt.add height 1) l (omega arith),
        )
        (ap ok (omega arith))

  -- On a chain, GetHeight counts the blocks, and the fuel of one round for each is enough.
  pub get_height-length :
      (fuel : ℕ) (chain : BlockChain Db) (blocks : List Block)
      → Linked chain.data_base chain.last_hash blocks
      → length blocks ≤ fuel
      → get_height fuel chain ≡ ok (length blocks % modulus)
  unfolding get_height
  get_height-length fuel chain blocks l h =
      height_loop-length fuel chain.data_base chain.last_hash blocks 0 l h ∙ ap ok (omega arith)
