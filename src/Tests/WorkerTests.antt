-- ===== src/Tests/WorkerTests.antt =====
-- The goroutines of handleInvMsg at one peer and one message.
use echain.Base.{false, ◌*◌, ◌≤◌, ◌≡◌, ◌⊎◌, refl, arith, List, [], ◌∷◌}
use echain.Network.Messages.{NodeInfo, miner}
use echain.Network.FullNode.Workers.{
  System, Step, move, lock, next, send, done, waiting, init, start,
}
use echain.Network.FullNode.Workers.Shares.{Reach-no_peers}
use echain.Network.FullNode.Workers.Waits.{Run, begin, step, Run-wait_ends}

abbrev peers : List NodeInfo
peers = record { node_type = miner; address = 70 ∷ [] } ∷ []

-- The message was sent and reported.
abbrev over : System
over = record {
  shared = record { locked = false; message_index = 1; remaining = 0; log = (70 ∷ [], 0) ∷ [] };
  workers = record { to_address = 70 ∷ []; pc = waiting } ∷ [];
}

to_the_end : Run 1 peers 4 over
to_the_end =
    step
      (step
        (step (step begin (move [] (70 ∷ []) [] refl (lock refl)))
          (move [] (70 ∷ []) [] refl (next (omega arith))))
        (move [] (70 ∷ []) [] refl (send 0)))
      (move [] (70 ∷ []) [] refl (done 0))

Run-wait_ends_example : (4 ≤ 6 * 1) × ((over.remaining ≡ 0) ⊎ ((t : System) × Step 1 over t))
Run-wait_ends_example = Run-wait_ends 1 peers (omega arith) (omega arith) 4 over to_the_end

Reach-no_peers_example : ((init 2 []).remaining ≡ 2) × ((t : System) → ¬ Step 2 (init 2 []) t)
Reach-no_peers_example = Reach-no_peers 2 (init 2 []) start
