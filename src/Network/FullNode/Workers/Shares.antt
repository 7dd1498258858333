-- ===== src/Network/FullNode/Workers/Shares.antt =====
-- What the workers of handleInvMsg of network/fullnode.go have sent when wg.Wait returns, and which
-- of them end.
use echain.Base.{
  ℕ, ◌≤◌, zero, suc, ◌≡◌, ◌≢◌, refl, sym, ◌∙◌, List, [], ◌∷◌, ◌++◌, ltb, if◌then◌else◌, arith,
}
use echain.Network.Messages.{NodeInfo}
use echain.Network.FullNode.Workers.{
  Pc, waiting, holding, sending, reporting, ended, Worker, System, Step, move, Reach, start, later,
  start_workers,
}
use echain.Network.FullNode.Workers.Counts.{
  tally, owns, carries, is_sending, has_ended, times_sent, Reach-IsSharing, tally_mono,
}

is_sending-le-carries : (k : ℕ) (p : Pc) → is_sending k p ≤ carries p
is_sending-le-carries k waiting = omega arith
is_sending-le-carries k holding = omega arith
is_sending-le-carries k (sending j) = ground arith
is_sending-le-carries k (reporting j) = omega arith
is_sending-le-carries k ended = omega arith

has_ended-le-owns : (p : Pc) → has_ended p ≤ owns p
has_ended-le-owns waiting = omega arith
has_ended-le-owns holding = omega arith
has_ended-le-owns (sending j) = omega arith
has_ended-le-owns (reporting j) = omega arith
has_ended-le-owns ended = omega arith

-- However the workers are interleaved, no getdata message is sent twice; and when the counter of
-- the WaitGroup is 0, so that wg.Wait returns, each of the messages has been sent once and nothing
-- else has been.
pub Reach-sent_once :
    (message_count : ℕ) (peers : List NodeInfo) (s : System)
    → Reach message_count peers s
    → (k : ℕ)
    → (times_sent k s.log ≤ 1)
      × (s.remaining ≡ 0 → times_sent k s.log ≡ (if ltb k message_count then 1 else 0))
Reach-sent_once n peers s r k =
    let inv = Reach-IsSharing r in
    let few = tally_mono (is_sending k) carries (is_sending-le-carries k) s.workers in
    (
      ground (arith, inv.once k),
      λ over.
          let none_carried : tally carries s.workers ≡ 0 =
            omega (arith, inv.counted, inv.in_range) in
          let all_taken : s.message_index ≡ n = omega (arith, inv.counted, inv.in_range) in
          ground (arith, inv.once k, few, none_carried, all_taken),
    )

-- At most one of the workers ever returns, since it keeps the mutex: with two peers or more, and as
-- many messages, goroutines are left over after each inv message.
pub Reach-one_ends :
    (message_count : ℕ) (peers : List NodeInfo) (s : System)
    → Reach message_count peers s
    → tally has_ended s.workers ≤ 1
Reach-one_ends n peers s r =
    let inv = Reach-IsSharing r in
    ground (arith, inv.owner, tally_mono has_ended owns has_ended-le-owns s.workers)

cons_ne_nil : (before : List Worker) (w : Worker) (after : List Worker) → before ++ w ∷ after ≢ []
cons_ne_nil [] w after = λ e. cc e
cons_ne_nil (x ∷ before) w after = λ e. cc e

no_workers : (n : ℕ) → start_workers n [] ≡ []
no_workers zero = refl
no_workers (suc n) = refl

-- Without a peer no step is possible, and the counter of the WaitGroup stays at the number of
-- messages: wg.Wait returns only if there is none.
pub Reach-no_peers :
    (message_count : ℕ) (s : System)
    → Reach message_count [] s
    → (s.remaining ≡ message_count) × ((t : System) → ¬ Step message_count s t)
Reach-no_peers n s r = ((idle r).1, λ t st. stuck (idle r).0 st)
  where
    stuck : {s t : System} → s.workers ≡ [] → Step n s t → ⊥
    stuck none (move before a after e mv) = cons_ne_nil before _ after (sym e ∙ none)

    idle : {s : System} → Reach n [] s → (s.workers ≡ []) × (s.remaining ≡ n)
    idle start = (no_workers n, refl)
    idle (later q st) = absurd (stuck (idle q).0 st)
