-- ===== src/Network/FullNode/System.antt =====
-- The node of network/fullnode.go with its goroutines: one handles each connection, and one that
-- handles an inv message waits for the goroutines that it starts. A handler runs up to where it
-- waits in one step, or stops also before and in the append of Updates.antt, where the others run
-- and no lock keeps them from it.
pub mod Keeps
pub mod Handlers
pub mod Phases
pub mod Consistent
pub mod Overlap
pub mod Fetching
use echain.Base.{ℕ, Bytes, List, [], ◌∷◌, ◌++◌, ◌≡◌, some, ok, length}
use echain.Platform.{Platform}
use echain.LevelDb.{LevelDb}
use echain.Network.Messages.{NodeInfo}
use echain.Network.Wire.{Wire, Sent}
use echain.Network.FullNode.{FullNode, new_full_node}
use echain.Network.FullNode.Connection.{
  Outcome, Effect, nothing, replies, fetches, handle_connection,
}
use echain.Network.FullNode.Inventory.{finish_inv_msg}
use echain.Network.FullNode.Updates.{
  Update, Assigned, Pending, to_read, to_write, evaluate, assign, handler_update,
}
use echain.Network.FullNode.Workers

-- The goroutines of one handler of an inv message, and to whom and of how many they send.
pub record Fetch : Type 0 where
  pub message_count : ℕ
  pub peers : List NodeInfo
  pub workers : Workers.System

pub record System (Db : Type 0) : Type 0 where
  pub node : FullNode Db
  pub fetching : List Fetch
  -- handlers before or in an append
  pub pending : List Pending

abbrev pub after_effect : {Db : Type 0} → System Db → Effect → System Db
after_effect s nothing = s
after_effect s (replies utxo_map) = s
after_effect s (fetches messages) = record s {
  fetching =
      s.fetching
      ++ record {
        message_count = length messages;
        peers = s.node.connected_peers;
        workers = Workers.init (length messages) s.node.connected_peers;
      }
        ∷ [];
}

abbrev pub after_handler : {Db : Type 0} → System Db → Outcome Db → System Db
after_handler s h = after_effect (record s { node = h.node }) h.effect

module _ {Db : Type 0} ⦃level_db : LevelDb Db⦄ ⦃platform : Platform⦄ ⦃wire : Wire⦄ where
  pub data Step (fuel : ℕ) (s : System Db) : System Db → Type 0 where
    receive :
        (read : Bytes) (h : Outcome Db)
        → handle_connection fuel s.node read ≡ ok h
        → Step fuel s (after_handler s h)
    -- A handler has made its checks, and is before its append.
    check :
        (read : Bytes) (h : Outcome Db) (u : Update)
        → handle_connection fuel s.node read ≡ ok h
        → handler_update s.node read ≡ some u
        → Step fuel s (record s { pending = s.pending ++ to_read u ∷ [] })
    load :
        (before : List Pending) (u : Update) (after : List Pending)
        → s.pending ≡ before ++ to_read u ∷ after
        → Step fuel s (record s { pending = before ++ to_write (evaluate s.node u) ∷ after })
    store :
        (before : List Pending) (a : Assigned) (after : List Pending)
        → s.pending ≡ before ++ to_write a ∷ after
        → Step fuel s (record s { node = assign s.node a; pending = before ++ after })
    work :
        (before : List Fetch) (f : Fetch) (after : List Fetch) (workers : Workers.System)
        → s.fetching ≡ before ++ f ∷ after
        → Workers.Step f.message_count f.workers workers
        → Step fuel s (record s { fetching = before ++ record f { workers = workers } ∷ after })
    -- wg.Wait returns.
    finish :
        (before : List Fetch) (f : Fetch) (after : List Fetch) (node : FullNode Db)
        (sent : List Sent)
        → s.fetching ≡ before ++ f ∷ after
        → f.workers.remaining ≡ 0
        → finish_inv_msg fuel s.node ≡ ok (node, sent)
        → Step fuel s (record s { node = node; fetching = before ++ after })

  -- The states of a node that NewFullNode made.
  pub data Reach (fuel : ℕ) (db : Db) (network_address : Bytes) : System Db → Type 0 where
    start :
        (node : FullNode Db)
        → new_full_node fuel db network_address ≡ ok node
        → Reach fuel db network_address (record { node = node; fetching = []; pending = [] })
    later :
        {s t : System Db}
        → Reach fuel db network_address s
        → Step fuel s t
        → Reach fuel db network_address t
