-- ===== src/Blockchain/Block.antt =====
-- blockchain/block.go.
use echain.Base.{ℕ, Bytes, codes, is_empty, [], ◌∷◌, Run, ok, ◌>>=◌, if◌then◌else◌}
use echain.Types.{BlockHeader, Block}
use echain.Platform.{Platform, generic_deserialize}
use echain.Blockchain.Utils.{get_double_sha256, coinbase_reward, satoshi_address}
use echain.Blockchain.Merkle.{set_merkle_root}
use echain.Blockchain.Transaction.{create_txn_output, set_hash}

abbrev pub zero_header : BlockHeader
zero_header = record { prev_hash = []; merkle_root = []; timestamp = []; nonce = 0 }

abbrev pub zero_block : Block
zero_block = record { block_header = zero_header; transactions = [] }

module _ ⦃platform : Platform⦄ where
  -- BlockHeader.GetHash
  unfoldable pub header_hash : BlockHeader → Bytes
  header_hash header = get_double_sha256 (platform.gob_block_header.encode header)

  -- Block.GetHash sets the merkle root of its block if there is none yet: the result is the hash
  -- and the block afterwards.
  unfoldable pub get_hash : ℕ → Block → Run (Bytes × Block)
  get_hash fuel block =
      if is_empty block.merkle_root
      then (do sealed ← set_merkle_root fuel block; ok (header_hash sealed.block_header, sealed))
      else ok (header_hash block.block_header, block)

  -- The date is midnight of 3 January 2009, UTC, in milliseconds and as Time.String prints it.
  unfoldable pub generate_genesis_block : Run Block
  generate_genesis_block = do
    tx_output ← create_txn_output coinbase_reward satoshi_address
    ok (record {
      block_header = record {
        timestamp = codes "2009-01-03 00:00:00 +0000 UTC";
        prev_hash = [];
        merkle_root = [];
        nonce = 4436;
      };
      transactions =
          set_hash
            (record { hash = []; inputs = []; outputs = tx_output ∷ []; locktime = 1230940800000 })
          ∷ [];
    })

  unfoldable pub deserialize_block : Bytes → Block
  deserialize_block = generic_deserialize platform.gob_block zero_block
