-- ===== src/Network/FullNode/Workers/Counts.antt =====
-- Sums over the workers of handleInvMsg of network/fullnode.go, and what every reachable state
-- keeps.
use echain.Base.{
  ℕ, zero, suc, ◌+◌, ◌≤◌, ◌≡◌, refl, ap, ◌∙◌, Bytes, List, [], ◌∷◌, ◌++◌, ◌==◌, ltb, if◌then◌else◌,
  arith,
}
use echain.Network.Messages.{NodeInfo}
use echain.Network.FullNode.Workers.{
  Pc, waiting, holding, sending, reporting, ended, Worker, Shared, Move, lock, leave, next, send,
  done, System, Step, move, start_workers, init, Reach, start, later,
}

abbrev pub tally : (Pc → ℕ) → List Worker → ℕ
tally weight [] = 0
tally weight (w ∷ ws) = weight w.pc + tally weight ws

pub tally-append :
    (weight : Pc → ℕ) (before : List Worker) (w : Worker) (after : List Worker)
    → tally weight (before ++ w ∷ after) ≡ weight w.pc + (tally weight before + tally weight after)
tally-append weight [] w after = omega arith
tally-append weight (v ∷ before) w after = omega (arith, tally-append weight before w after)

pub tally_mono :
    (v w : Pc → ℕ) → ((p : Pc) → v p ≤ w p) → (ws : List Worker) → tally v ws ≤ tally w ws
tally_mono v w h [] = omega arith
tally_mono v w h (x ∷ ws) = omega (arith, h x.pc, tally_mono v w h ws)

-- Who has the mutex: a worker in the critical section, or one that returned.
abbrev pub owns : Pc → ℕ
owns waiting = 0
owns holding = 1
owns (sending k) = 0
owns (reporting k) = 0
owns ended = 1

-- Who has a message that is not reported.
abbrev pub carries : Pc → ℕ
carries waiting = 0
carries holding = 0
carries (sending k) = 1
carries (reporting k) = 1
carries ended = 0

-- Who is about to send message k.
abbrev pub is_sending : ℕ → Pc → ℕ
is_sending k waiting = 0
is_sending k holding = 0
is_sending k (sending j) = if j == k then 1 else 0
is_sending k (reporting j) = 0
is_sending k ended = 0

abbrev pub has_ended : Pc → ℕ
has_ended waiting = 0
has_ended holding = 0
has_ended (sending k) = 0
has_ended (reporting k) = 0
has_ended ended = 1

-- How often message k was sent.
abbrev pub times_sent : ℕ → List (Bytes × ℕ) → ℕ
times_sent k [] = 0
times_sent k ((a, j) ∷ log) = (if j == k then 1 else 0) + times_sent k log

-- The mutex has one owner at most. Messages are taken in order; those that were taken and are not
-- reported are carried by workers; each that was taken was sent once or is about to be.
pub record IsSharing (message_count : ℕ) (s : System) : Type 0 where
  pub owner : tally owns s.workers ≡ (if s.locked then 1 else 0)
  pub in_range : s.message_index ≤ message_count
  pub counted : s.remaining + s.message_index ≡ message_count + tally carries s.workers
  pub once :
      (k : ℕ)
      → times_sent k s.log + tally (is_sending k) s.workers
        ≡ (if ltb k s.message_index then 1 else 0)
  pub over : 1 ≤ tally has_ended s.workers → s.message_index ≡ message_count

tally-start_workers :
    (weight : Pc → ℕ) (n : ℕ) (peers : List NodeInfo)
    → weight waiting ≡ 0
    → tally weight (start_workers n peers) ≡ 0
tally-start_workers weight zero peers h = refl
tally-start_workers weight (suc n) [] h = refl
tally-start_workers weight (suc n) (p ∷ peers) h =
    omega (arith, h, tally-start_workers weight n peers h)

init-IsSharing : (n : ℕ) (peers : List NodeInfo) → IsSharing n (init n peers)
init-IsSharing n peers = record {
  owner = tally-start_workers owns n peers refl;
  in_range = omega arith;
  counted = omega (arith, tally-start_workers carries n peers refl);
  once = λ k. ground (arith, tally-start_workers (is_sending k) n peers refl);
  over = λ h. absurd (omega (arith, tally-start_workers has_ended n peers refl));
}

module _ {n : ℕ} {s : System} (ws : List Worker) (others : (Pc → ℕ) → ℕ) where
  -- A move changes the sums by the worker that moves.
  Move-IsSharing :
      {a : Bytes} {p p' : Pc} {shared' : Shared}
      → Move n a s.shared p shared' p'
      → IsSharing n s
      → ((weight : Pc → ℕ) → tally weight s.workers ≡ weight p + others weight)
      → ((weight : Pc → ℕ) → tally weight ws ≡ weight p' + others weight)
      → IsSharing n (record { shared = shared'; workers = ws })
  Move-IsSharing (lock free) inv was now = record {
    owner = ground (arith, inv.owner, was owns, now owns);
    in_range = inv.in_range;
    counted = omega (arith, inv.counted, was carries, now carries);
    once = λ k. omega (arith, inv.once k, was (is_sending k), now (is_sending k));
    over = λ h. inv.over (omega (arith, was has_ended, now has_ended));
  }
  Move-IsSharing (leave h) inv was now = record {
    owner = omega (arith, inv.owner, was owns, now owns);
    in_range = inv.in_range;
    counted = omega (arith, inv.counted, was carries, now carries);
    once = λ k. omega (arith, inv.once k, was (is_sending k), now (is_sending k));
    over = λ _. omega (arith, inv.in_range);
  }
  Move-IsSharing (next h) inv was now = record {
    owner = ground (arith, inv.owner, was owns, now owns);
    in_range = omega arith;
    counted = omega (arith, inv.counted, was carries, now carries);
    once = λ k. ground (arith, inv.once k, was (is_sending k), now (is_sending k));
    over = λ e. absurd (omega (arith, inv.over (omega (arith, was has_ended, now has_ended))));
  }
  Move-IsSharing (send k) inv was now = record {
    owner = omega (arith, inv.owner, was owns, now owns);
    in_range = inv.in_range;
    counted = omega (arith, inv.counted, was carries, now carries);
    once = λ j. ground (arith, inv.once j, was (is_sending j), now (is_sending j));
    over = λ h. inv.over (omega (arith, was has_ended, now has_ended));
  }
  Move-IsSharing (done k) inv was now = record {
    owner = omega (arith, inv.owner, was owns, now owns);
    in_range = inv.in_range;
    counted = omega (arith, inv.counted, inv.in_range, was carries, now carries);
    once = λ j. omega (arith, inv.once j, was (is_sending j), now (is_sending j));
    over = λ h. inv.over (omega (arith, was has_ended, now has_ended));
  }

pub tally_split :
    (weight : Pc → ℕ) (ws before : List Worker) (a : Bytes) (p : Pc) (after : List Worker)
    → ws ≡ before ++ record { to_address = a; pc = p } ∷ after
    → tally weight ws ≡ weight p + (tally weight before + tally weight after)
tally_split weight ws before a p after e =
    ap (tally weight) e ∙ tally-append weight before (record { to_address = a; pc = p }) after

pub Step-IsSharing : {n : ℕ} {s t : System} → Step n s t → IsSharing n s → IsSharing n t
Step-IsSharing {n} {s} (move before a {p} {p'} after e mv) inv =
    let was = λ (w : Pc → ℕ). tally_split w s.workers before a p after e in
    let is = λ (w : Pc → ℕ). tally-append w before (record { to_address = a; pc = p' }) after in
    Move-IsSharing (before ++ record { to_address = a; pc = p' } ∷ after)
      (λ w. tally w before + tally w after) mv inv was is

pub Reach-IsSharing : {n : ℕ} {peers : List NodeInfo} {s : System} → Reach n peers s → IsSharing n s
Reach-IsSharing {n} {peers} start = init-IsSharing n peers
Reach-IsSharing (later r st) = Step-IsSharing st (Reach-IsSharing r)
