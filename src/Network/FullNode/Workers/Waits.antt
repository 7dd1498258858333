-- ===== src/Network/FullNode/Workers/Waits.antt =====
-- Whether wg.Wait of handleInvMsg of network/fullnode.go returns.
use echain.Base.{
  ℕ, zero, suc, ◌+◌, ◌-◌, ◌*◌, ◌≤◌, ◌≡◌, ◌⊎◌, inl, inr, refl, ap, ◌∙◌, true, false, Bytes, List, [],
  ◌∷◌, ◌++◌, length, ltb, leb, Bool-cases, arith,
}
use echain.Network.Messages.{NodeInfo}
use echain.Network.FullNode.Workers.{
  Pc, waiting, holding, sending, reporting, ended, Worker, Shared, Move, lock, leave, next, send,
  done, System, Step, move, start_workers, init, Reach, start, later,
}
use echain.Network.FullNode.Workers.Counts.{
  tally, tally_split, tally-append, tally_mono, owns, carries, has_ended, IsSharing,
  Reach-IsSharing,
}

-- A run of a number of steps from the start.
pub data Run (message_count : ℕ) (peers : List NodeInfo) : ℕ → System → Type 0 where
  begin : Run message_count peers zero (init message_count peers)
  step :
      {k : ℕ} {s t : System}
      → Run message_count peers k s
      → Step message_count s t
      → Run message_count peers (suc k) t

Run-Reach : {n : ℕ} {peers : List NodeInfo} {k : ℕ} {s : System} → Run n peers k s → Reach n peers s
Run-Reach begin = start
Run-Reach (step r st) = later (Run-Reach r) st

-- The steps that a worker has before it for its message and one more try.
abbrev effort : Pc → ℕ
effort waiting = 2
effort holding = 1
effort (sending k) = 4
effort (reporting k) = 3
effort ended = 0

abbrev one : Pc → ℕ
one p = 1

abbrev is_active : Pc → ℕ
is_active waiting = 0
is_active holding = 1
is_active (sending k) = 1
is_active (reporting k) = 1
is_active ended = 0

abbrev is_waiting : Pc → ℕ
is_waiting waiting = 1
is_waiting holding = 0
is_waiting (sending k) = 0
is_waiting (reporting k) = 0
is_waiting ended = 0

Step-effort :
    {n : ℕ} {s t : System}
    → Step n s t
    → 1 + 4 * (n - t.message_index) + tally effort t.workers
      ≤ 4 * (n - s.message_index) + tally effort s.workers
Step-effort {n} {s} (move before a {p} {p'} after e mv) =
    let was = tally_split effort s.workers before a p after e in
    let now = tally-append effort before (record { to_address = a; pc = p' }) after in
    spent mv _ was now
  where
    spent :
        {sh : Shared} {q q' : Pc} {x y : ℕ}
        → Move n a s.shared q sh q'
        → (z : ℕ) → x ≡ effort q + z
        → y ≡ effort q' + z
        → 1 + 4 * (n - sh.message_index) + y ≤ 4 * (n - s.message_index) + x
    spent (lock free) z was now = omega arith
    spent (leave h) z was now = omega arith
    spent (next h) z was now = omega arith
    spent (send k) z was now = omega arith
    spent (done k) z was now = omega arith

Step-size : {n : ℕ} {s t : System} → Step n s t → tally one t.workers ≡ tally one s.workers
Step-size {n} {s} (move before a {p} {p'} after e mv) = omega (
  arith,
  tally_split one s.workers before a p after e,
  tally-append one before (record { to_address = a; pc = p' }) after,
)

Run-effort :
    {n : ℕ} {peers : List NodeInfo} {k : ℕ} {s : System}
    → Run n peers k s
    → (k + 4 * (n - s.message_index) + tally effort s.workers
        ≤ 4 * n + tally effort (start_workers n peers))
      × (tally one s.workers ≡ tally one (start_workers n peers))
Run-effort begin = (omega arith, refl)
Run-effort (step r st) =
    let (spent, size) = Run-effort r in (omega (arith, spent, Step-effort st), Step-size st ∙ size)

-- A worker for which a weight is not zero, with the workers around it.
record Found (weight : Pc → ℕ) (ws : List Worker) : Type 0 where
  before : List Worker
  to_address : Bytes
  pc : Pc
  after : List Worker
  at : ws ≡ before ++ record { to_address = to_address; pc = pc } ∷ after
  counts : 1 ≤ weight pc

find : (weight : Pc → ℕ) (ws : List Worker) → Found weight ws ⊎ (tally weight ws ≡ 0)
find weight [] = inr refl
find weight (w ∷ ws) = first (Bool-cases (leb 1 (weight w.pc))) (find weight ws)
  where
    first :
        ((leb 1 (weight w.pc) ≡ true) ⊎ (leb 1 (weight w.pc) ≡ false))
        → Found weight ws ⊎ (tally weight ws ≡ 0)
        → Found weight (w ∷ ws) ⊎ (tally weight (w ∷ ws) ≡ 0)
    first (inl some_weight) _ = inl (record {
      before = [];
      to_address = w.to_address;
      pc = w.pc;
      after = ws;
      at = refl;
      counts = ground arith;
    })
    first (inr none) (inl f) = inl (record {
      before = w ∷ f.before;
      to_address = f.to_address;
      pc = f.pc;
      after = f.after;
      at = ap (λ xs. w ∷ xs) f.at;
      counts = f.counts;
    })
    first (inr none) (inr rest) = inr (ground (arith, rest))

one_split : (p : Pc) → 1 ≡ is_waiting p + is_active p + has_ended p
one_split waiting = refl
one_split holding = refl
one_split (sending k) = refl
one_split (reporting k) = refl
one_split ended = refl

tally-one :
    (ws : List Worker)
    → tally one ws ≡ tally is_waiting ws + tally is_active ws + tally has_ended ws
tally-one [] = refl
tally-one (w ∷ ws) = omega (arith, one_split w.pc, tally-one ws)

owns-le : (p : Pc) → owns p ≤ is_active p + has_ended p
owns-le waiting = omega arith
owns-le holding = omega arith
owns-le (sending k) = omega arith
owns-le (reporting k) = omega arith
owns-le ended = omega arith

tally-owns-le : (ws : List Worker) → tally owns ws ≤ tally is_active ws + tally has_ended ws
tally-owns-le [] = omega arith
tally-owns-le (w ∷ ws) = omega (arith, owns-le w.pc, tally-owns-le ws)

carries-le : (p : Pc) → carries p ≤ is_active p
carries-le waiting = omega arith
carries-le holding = omega arith
carries-le (sending k) = omega arith
carries-le (reporting k) = omega arith
carries-le ended = omega arith

-- A worker that has the mutex or a message can move.
act :
    (n : ℕ) (s : System) (before : List Worker) (a : Bytes) (p : Pc) (after : List Worker)
    → s.workers ≡ before ++ record { to_address = a; pc = p } ∷ after
    → 1 ≤ is_active p
    → (t : System) × Step n s t
act n s before a waiting after e h = absurd (omega arith)
act n s before a holding after e h = elim (Bool-cases (ltb s.message_index n)) [
  | inl left ↦ (_, move before a after e (next (ground arith)))
  | inr none_left ↦ (_, move before a after e (leave (ground arith)))
]
act n s before a (sending k) after e h = (_, move before a after e (send k))
act n s before a (reporting k) after e h = (_, move before a after e (done k))
act n s before a ended after e h = absurd (omega arith)

acquire :
    (n : ℕ) (s : System) (before : List Worker) (a : Bytes) (p : Pc) (after : List Worker)
    → s.workers ≡ before ++ record { to_address = a; pc = p } ∷ after
    → 1 ≤ is_waiting p
    → s.locked ≡ false
    → (t : System) × Step n s t
acquire n s before a waiting after e h free = (_, move before a after e (lock free))
acquire n s before a holding after e h free = absurd (omega arith)
acquire n s before a (sending k) after e h free = absurd (omega arith)
acquire n s before a (reporting k) after e h free = absurd (omega arith)
acquire n s before a ended after e h free = absurd (omega arith)

progress :
    (n : ℕ) (s : System)
    → IsSharing n s
    → 1 ≤ tally one s.workers
    → (s.remaining ≡ 0) ⊎ ((t : System) × Step n s t)
progress n s inv some_worker = elim (find is_active s.workers) [
  | inl f ↦ inr (act n s f.before f.to_address f.pc f.after f.at f.counts)
  | inr idle ↦ elim (find has_ended s.workers) [
    | inl f ↦
        let taken = inv.over (
          omega (
            arith,
            f.counts,
            tally_split has_ended s.workers f.before f.to_address f.pc f.after f.at,
          )) in
        inl (omega (arith, inv.counted, tally_mono carries is_active carries-le s.workers))
    | inr none_ended ↦ elim (find is_waiting s.workers) [
      | inl f ↦ inr (
          acquire n s f.before f.to_address f.pc f.after f.at f.counts
            (ground (arith, inv.owner, tally-owns-le s.workers)))
      | inr none_waits ↦ absurd (omega (arith, tally-one s.workers))
    ]
  ]
]

start_effort :
    (n : ℕ) (peers : List NodeInfo)
    → (tally effort (start_workers n peers) ≤ 2 * n)
      × (1 ≤ n → 1 ≤ length peers → 1 ≤ tally one (start_workers n peers))
start_effort zero peers = (omega arith, λ h _. absurd (omega arith))
start_effort (suc n) [] = (omega arith, λ _ h. absurd (omega arith))
start_effort (suc n) (p ∷ peers) =
    let bound = (start_effort n peers).0 in (omega (arith, bound), λ _ _. omega arith)

-- With a peer and a message, in whatever order the workers take their steps: a run has at most six
-- steps for each message, and it never stops before the counter of the WaitGroup is 0, so wg.Wait
-- returns. Each send is taken to return, which it does when the peer closes the connection.
pub Run-wait_ends :
    (message_count : ℕ) (peers : List NodeInfo)
    → 1 ≤ message_count
    → 1 ≤ length peers
    → (k : ℕ) (s : System) → Run message_count peers k s
    → (k ≤ 6 * message_count) × ((s.remaining ≡ 0) ⊎ ((t : System) × Step message_count s t))
Run-wait_ends n peers some_message some_peer k s r =
    let (spent, size) = Run-effort r in
    let (bound, workers) = start_effort n peers in
    (
      omega (arith, spent, bound),
      progress n s (Reach-IsSharing (Run-Reach r))
          (omega (arith, size, workers some_message some_peer)),
    )
