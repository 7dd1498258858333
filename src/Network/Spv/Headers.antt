-- ===== src/Network/Spv/Headers.antt =====
-- handleHeadersMsg and handleGetheadersMsg of network/spv.go.
pub mod Growth
pub mod Synced
use echain.Base.{ℕ, ◌&&◌, not, Bytes, List, [], ◌∷◌, reverse, Run, ok, panic, ◌>>=◌, if◌then◌else◌}
use echain.Types.{BlockHeader}
use echain.Platform.{Platform, generic_deserialize}
use echain.LevelDb.{LevelDb}
use echain.Blockchain.Block.{header_hash}
use echain.Blockchain.ChainHeader.{
  BlockChainHeader, set_header, set_last_hash, get_unmatched_headers,
}
use echain.Network.Messages.{GetheadersMessage, HeaderMessage}
use echain.Network.Wire.{Wire, Sent}
use echain.Network.FullNode.Sync.{append_until, is_nil, zero_getheaders}
use echain.Network.Spv.{
  SpvNode, Handled, only, Effect, nothing, signals, send_header_message, send_getheaders_msg,
}

abbrev pub zero_header_message : HeaderMessage
zero_header_message = record { header_list = [] }

module _ ⦃platform : Platform⦄ where
  -- HeaderList[len(HeaderList)-1].GetHash(); an empty list panics.
  unfoldable pub last_header_hash : List BlockHeader → Run Bytes
  last_header_hash [] = panic
  last_header_hash (h ∷ []) = ok (header_hash h)
  last_header_hash (h ∷ g ∷ hs) = last_header_hash (g ∷ hs)

module _ {Db : Type 0} ⦃level_db : LevelDb Db⦄ ⦃platform : Platform⦄ where
  unfoldable pub set_headers : BlockChainHeader Db → List BlockHeader → BlockChainHeader Db
  set_headers chain [] = chain
  set_headers chain (h ∷ hs) = set_headers (set_header chain h) hs

  unfoldable pub on_headers : SpvNode Db → HeaderMessage → Run (Handled Db)
  on_headers node m = do
    hash ← last_header_hash m.header_list
    ok (record {
      node = record node {
        blockchain_header = set_last_hash (set_headers node.blockchain_header m.header_list) hash;
      };
      sent = [];
      effect = if node.requesting_block_header then signals else nothing;
    })

module _ {Db : Type 0} ⦃level_db : LevelDb Db⦄ ⦃platform : Platform⦄ ⦃wire : Wire⦄ where
  unfoldable pub handle_headers_msg : SpvNode Db → Bytes → Run (Handled Db)
  handle_headers_msg node msg =
      on_headers node (generic_deserialize wire.gob_header zero_header_message msg)

  unfoldable pub reply_getheaders : ℕ → SpvNode Db → GetheadersMessage → Run (List Sent)
  reply_getheaders fuel node m = do
    (existed, unmatched) ← get_unmatched_headers fuel node.blockchain_header m.top_header_hash
    let headers = append_until 2000 [] (reverse unmatched)
    if existed && not (is_nil unmatched)
        then ok (send_header_message m.addr_from (record { header_list = headers }) ∷ [])
        else if not existed
        then ok (send_getheaders_msg node m.addr_from ∷ [])
        else ok []

  unfoldable pub handle_getheaders_msg : ℕ → SpvNode Db → Bytes → Run (Handled Db)
  handle_getheaders_msg fuel node msg =
      reply_getheaders fuel node (generic_deserialize wire.gob_getheaders zero_getheaders msg)
      >>= (λ sent. ok (only node sent))
