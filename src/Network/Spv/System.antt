-- ===== src/Network/Spv/System.antt =====
-- The node of network/spv.go with its goroutines: one handles each connection, and those that
-- handle a merkleblock message stop at the sleep and at the channel updatedBlockHeader. A handler
-- runs up to where it stops in one step, or stops also before and in the assignments of
-- Spv/Updates.antt, where the others run and no lock keeps them from it.
pub mod Keeps
pub mod Handlers
pub mod Phases
pub mod Monitoring
pub mod Overlap
pub mod Awaited
pub mod Recovered
use echain.Base.{ℕ, Bytes, List, [], ◌∷◌, ◌++◌, ◌≡◌, some, ok}
use echain.Platform.{Platform}
use echain.LevelDb.{LevelDb}
use echain.Network.Messages.{MerkleBlockMessage}
use echain.Network.Wire.{Wire}
use echain.Network.Spv.{SpvNode, Handled, Effect, nothing, replies, sleeps, signals, new_spv_node}
use echain.Network.Spv.MerkleBlock.{request_header, finish_merkle_block}
use echain.Network.Spv.Connection.{handle_connection}
use echain.Network.Spv.Updates.{
  Update, Assigned, Pending, to_read, to_write, evaluate, assign, next_update, first_update,
}

-- The messages whose handlers sleep, have asked for a header and are before the receive, are at the
-- receive (the first to come is the first to be served), and have received.
pub record System (Db : Type 0) : Type 0 where
  pub node : SpvNode Db
  pub sleeping : List MerkleBlockMessage
  pub asking : List MerkleBlockMessage
  pub waiting : List MerkleBlockMessage
  pub woken : List MerkleBlockMessage
  -- handlers before or in an assignment
  pub pending : List Pending

-- `select` with a send and a default: the send needs a handler at the receive.
unfoldable pub signal : {Db : Type 0} → System Db → List MerkleBlockMessage → System Db
signal s [] = s
signal s (m ∷ ms) = record s { waiting = ms; woken = s.woken ++ m ∷ [] }

abbrev pub after_effect : {Db : Type 0} → System Db → Effect → System Db
after_effect s nothing = s
after_effect s (replies utxo_map) = s
after_effect s (sleeps m) = record s { sleeping = s.sleeping ++ m ∷ [] }
after_effect s signals = signal s s.waiting

abbrev pub after_handler : {Db : Type 0} → System Db → Handled Db → System Db
after_handler s h = after_effect (record s { node = h.node }) h.effect

module _ {Db : Type 0} ⦃level_db : LevelDb Db⦄ ⦃platform : Platform⦄ ⦃wire : Wire⦄ where
  pub data Step (fuel : ℕ) (s : System Db) : System Db → Type 0 where
    receive :
        (read : Bytes) (h : Handled Db)
        → handle_connection fuel s.node read ≡ ok h
        → Step fuel s (after_handler s h)
    -- A handler has made its check, and is before its first assignment.
    check :
        (read : Bytes) (h : Handled Db) (u : Update)
        → handle_connection fuel s.node read ≡ ok h
        → first_update s.node read ≡ some u
        → Step fuel s (record s { pending = s.pending ++ to_read u ∷ [] })
    load :
        (before : List Pending) (u : Update) (after : List Pending)
        → s.pending ≡ before ++ to_read u ∷ after
        → Step fuel s (record s { pending = before ++ to_write (evaluate s.node u) ∷ after })
    store :
        (before : List Pending) (a : Assigned) (after : List Pending)
        → s.pending ≡ before ++ to_write a ∷ after
        → Step fuel s
            (record s { node = assign s.node a; pending = before ++ next_update a ++ after })
    ask :
        (before : List MerkleBlockMessage) (m : MerkleBlockMessage)
        (after : List MerkleBlockMessage)
        → s.sleeping ≡ before ++ m ∷ after
        → Step fuel s (record s {
          node = (request_header s.node m.addr_from s.node.connected_peers).0;
          sleeping = before ++ after;
          asking = s.asking ++ m ∷ [];
        })
    await :
        (before : List MerkleBlockMessage) (m : MerkleBlockMessage)
        (after : List MerkleBlockMessage)
        → s.asking ≡ before ++ m ∷ after
        → Step fuel s (record s { asking = before ++ after; waiting = s.waiting ++ m ∷ [] })
    resume :
        (before : List MerkleBlockMessage) (m : MerkleBlockMessage)
        (after : List MerkleBlockMessage) (h : Handled Db)
        → s.woken ≡ before ++ m ∷ after
        → finish_merkle_block s.node m ≡ ok h
        → Step fuel s (record s { node = h.node; woken = before ++ after })

  -- The states of a node that NewSPVNode made.
  pub data Reach (fuel : ℕ) (db : Db) (network_address : Bytes) : System Db → Type 0 where
    start :
        (node : SpvNode Db)
        → new_spv_node fuel db network_address ≡ ok node
        → Reach fuel db network_address (record {
          node = node;
          sleeping = [];
          asking = [];
          waiting = [];
          woken = [];
          pending = [];
        })
    later :
        {s t : System Db}
        → Reach fuel db network_address s
        → Step fuel s t
        → Reach fuel db network_address t
