-- ===== src/Network/FullNode/Workers.antt =====
-- The goroutines of handleInvMsg of network/fullnode.go, which share the getdata messages: any
-- interleaving of their steps. A worker sends to one peer, and takes the next message under the
-- mutex.
pub mod Counts
pub mod Shares
pub mod Waits
use echain.Base.{
  ℕ, suc, ◌+◌, ◌-◌, ◌≤◌, ◌<◌, ◌≡◌, Bool, true, false, Bytes, List, [], ◌∷◌, ◌++◌, map, take,
}
use echain.Network.Messages.{NodeInfo}

-- Where a worker is: before mutex.Lock(), in the critical section, before sendGetdataMessage and
-- before wg.Done() with the index of its message, and after its return.
pub data Pc : Type 0 where
  waiting holding : Pc
  sending reporting : ℕ → Pc
  ended : Pc

pub record Worker : Type 0 where
  pub to_address : Bytes
  pub pc : Pc

-- What the workers share: the mutex, messageIndex, the counter of the WaitGroup, and what has been
-- sent so far, each time an address and the index of a message.
pub record Shared : Type 0 where
  pub locked : Bool
  pub message_index : ℕ
  pub remaining : ℕ
  pub log : List (Bytes × ℕ)

-- A worker that finds no message left returns and leaves the mutex locked. A worker that sends is
-- taken to come to the end of sendMessageBlocking, which waits until the peer closes the connection;
-- a peer that never does so is outside the model.
pub data Move (message_count : ℕ) (to_address : Bytes) (s : Shared)
    : Pc → Shared → Pc → Type 0 where
  lock :
      s.locked ≡ false
      → Move message_count to_address s waiting (record s { locked = true }) holding
  leave : message_count ≤ s.message_index → Move message_count to_address s holding s ended
  next :
      s.message_index < message_count
      → Move message_count to_address s holding
          (record s { message_index = s.message_index + 1; locked = false })
          (sending s.message_index)
  send :
      (k : ℕ)
      → Move message_count to_address s
          (sending k)
          (record s { log = (to_address, k) ∷ s.log })
          (reporting k)
  done :
      (k : ℕ)
      → Move message_count to_address s
          (reporting k)
          (record s { remaining = s.remaining - 1 })
          waiting

pub record System : Type 0 where
  pub shared : Shared
  pub open shared use *
  pub workers : List Worker

pub data Step (message_count : ℕ) (s : System) : System → Type 0 where
  move :
      (before : List Worker) (to_address : Bytes) {p p' : Pc} (after : List Worker)
      {shared' : Shared}
      → s.workers ≡ before ++ record { to_address = to_address; pc = p } ∷ after
      → Move message_count to_address s.shared p shared' p'
      → Step message_count s (record {
        shared = shared';
        workers = before ++ record { to_address = to_address; pc = p' } ∷ after;
      })

-- One worker for each of the first peers, as many as there are messages at most.
abbrev pub start_workers : ℕ → List NodeInfo → List Worker
start_workers message_count peers =
    map (λ (p : NodeInfo). record { to_address = p.address; pc = waiting })
      (take message_count peers)

-- After wg.Add(messageCount).
abbrev pub init : ℕ → List NodeInfo → System
init message_count peers = record {
  shared = record { locked = false; message_index = 0; remaining = message_count; log = [] };
  workers = start_workers message_count peers;
}

pub data Reach (message_count : ℕ) (peers : List NodeInfo) : System → Type 0 where
  start : Reach message_count peers (init message_count peers)
  later :
      {s t : System}
      → Reach message_count peers s
      → Step message_count s t
      → Reach message_count peers t
