-- ===== src/Network/FullNode/System/Fetching.antt =====
-- The handlers of inv messages in a running node of network/fullnode.go.
use echain.Base.{ℕ, ◌≤◌, ◌≡◌, subst, List, [], ◌∷◌, ◌++◌, ltb, if◌then◌else◌}
use echain.Platform.{Platform}
use echain.LevelDb.{LevelDb}
use echain.Network.Wire.{Wire}
use echain.Network.FullNode.Connection.{Effect, nothing, replies, fetches}
use echain.Network.FullNode.Workers
use echain.Network.FullNode.Workers.Counts.{tally, has_ended, times_sent}
use echain.Network.FullNode.Workers.Shares.{Reach-sent_once, Reach-one_ends}
use echain.Network.FullNode.System.{
  Fetch, System, after_effect, Step, receive, check, load, store, work, finish, Reach, start, later,
}

abbrev IsFetch : Fetch → Type 0
IsFetch f = Workers.Reach f.message_count f.peers f.workers

abbrev pub AllFetches {ℓ} : (Fetch → Type ℓ) → List Fetch → Type ℓ
AllFetches P [] = Unit
AllFetches P (f ∷ fs) = P f × AllFetches P fs

module _ (P : Fetch → Type 0) where
  AllFetches-append :
      (fs gs : List Fetch) → AllFetches P fs → AllFetches P gs → AllFetches P (fs ++ gs)
  AllFetches-append [] gs a b = b
  AllFetches-append (f ∷ fs) gs a b = (a.0, AllFetches-append fs gs a.1 b)

  AllFetches-split :
      (before : List Fetch) (f : Fetch) (after : List Fetch)
      → AllFetches P (before ++ f ∷ after)
      → AllFetches P before × P f × AllFetches P after
  AllFetches-split [] f after a = (tt, a.0, a.1)
  AllFetches-split (g ∷ before) f after a =
      let (left, here, right) = AllFetches-split before f after a.1 in ((a.0, left), here, right)

AllFetches-map :
    (P Q : Fetch → Type 0)
    → ((f : Fetch) → P f → Q f)
    → (fs : List Fetch) → AllFetches P fs
    → AllFetches Q fs
AllFetches-map P Q h [] a = tt
AllFetches-map P Q h (f ∷ fs) a = (h f a.0, AllFetches-map P Q h fs a.1)

-- The getdata messages of a handler are sent once at most, and once each when its wait is over; at
-- most one of its goroutines has returned.
abbrev pub SendsOnce : Fetch → Type 0
SendsOnce f =
    ((k : ℕ)
      → (times_sent k f.workers.log ≤ 1)
        × (f.workers.remaining ≡ 0
            → times_sent k f.workers.log ≡ (if ltb k f.message_count then 1 else 0)))
    × (tally has_ended f.workers.workers ≤ 1)

module _ {Db : Type 0} ⦃level_db : LevelDb Db⦄ ⦃platform : Platform⦄ ⦃wire : Wire⦄ where
  after_effect-fetching :
      (s : System Db) (e : Effect)
      → AllFetches IsFetch s.fetching
      → AllFetches IsFetch (after_effect s e).fetching
  after_effect-fetching s nothing a = a
  after_effect-fetching s (replies m) a = a
  after_effect-fetching s (fetches messages) a =
      AllFetches-append IsFetch s.fetching _ a (Workers.start, tt)

  Step-fetching :
      {fuel : ℕ} {s t : System Db}
      → Step fuel s t
      → AllFetches IsFetch s.fetching
      → AllFetches IsFetch t.fetching
  Step-fetching {fuel} {s} (receive read h e) a =
      after_effect-fetching (record s { node = h.node }) h.effect a
  Step-fetching (check read h u e first) a = a
  Step-fetching (load before u after e) a = a
  Step-fetching (store before u after e) a = a
  Step-fetching (work before f after workers e st) a =
      let (left, here, right) =
        AllFetches-split IsFetch before f after (subst (λ fs. AllFetches IsFetch fs) e a) in
      AllFetches-append IsFetch before _ left (Workers.later here st, right)
  Step-fetching (finish before f after node sent e over run) a =
      let (left, here, right) =
        AllFetches-split IsFetch before f after (subst (λ fs. AllFetches IsFetch fs) e a) in
      AllFetches-append IsFetch before after left right

  Reach-fetching :
      (fuel : ℕ) {db : Db} {network_address : List ℕ} {s : System Db}
      → Reach fuel db network_address s
      → AllFetches IsFetch s.fetching
  Reach-fetching fuel (start node e) = tt
  Reach-fetching fuel (later r st) = Step-fetching st (Reach-fetching fuel r)

  -- In every reachable state of a full node, for each handler of an inv message that has not
  -- returned: none of its getdata messages was sent twice; if its wait is over, each was sent once;
  -- and at most one of its goroutines has returned.
  pub Reach-SendsOnce :
      (fuel : ℕ) (db : Db) (network_address : List ℕ) (s : System Db)
      → Reach fuel db network_address s
      → AllFetches SendsOnce s.fetching
  Reach-SendsOnce fuel db network_address s r =
      AllFetches-map IsFetch SendsOnce
        (λ f reached. (
          Reach-sent_once f.message_count f.peers f.workers reached,
          Reach-one_ends f.message_count f.peers f.workers reached,
        ))
        s.fetching (Reach-fetching fuel r)
