-- ===== src/Blockchain/Chain/Visit.antt =====
-- The loop of ReIndex of blockchain/utxoset.go over transactions: which outputs it keeps.
use echain.Base.{
  ℕ, ◌≡◌, refl, ap, ◌∙◌, inl, inr, Bool, false, not, ◌||◌, Bytes, List, [], ◌∷◌, ◌++◌, ◌=ᵇ◌,
  =ᵇ_sound, =ᵇ-refl, keep, exists, contains, Bool-cases, if◌then◌else◌, arith,
}
use mathlib.Core.List.{append_assoc}
use echain.Base.GoMap.{GoMap, find_or}
use echain.Types.{TxOutputs, Transaction, Block}
use echain.Blockchain.UtxoSet.{collect_spent, index_outputs}
use echain.Blockchain.UtxoSet.Update.{refers_to, contains-collect_spent, keep_ext}
use echain.Blockchain.UtxoSet.Ledger.{spent_in, spends_of_not_refers}

-- The transactions of a chain in the order of ReIndex, from the newest block.
unfoldable pub visited : List Block → List Transaction
visited [] = []
visited (b ∷ bs) = b.transactions ++ visited bs

-- The outputs of an id after a visit of transactions, when others have been visited before.
unfoldable pub visited_outputs : List Transaction → List Transaction → Bytes → TxOutputs → TxOutputs
visited_outputs before [] id old = old
visited_outputs before (t ∷ ts) id old = visited_outputs (before ++ t ∷ []) ts id (
    if t.hash =ᵇ id
    then keep (λ o. not (spent_in (before ++ t ∷ []) id o.index)) (index_outputs 0 t.outputs)
    else old)

pub spent_in-append :
    (ts us : List Transaction) (id : Bytes) (x : ℕ)
    → spent_in (ts ++ us) id x ≡ (spent_in ts id x || spent_in us id x)
unfolding spent_in
spent_in-append [] us id x = refl
spent_in-append (t ∷ ts) us id x = ground (arith, spent_in-append ts us id x)

-- What spentTxnOutputs holds after a visit.
abbrev pub Recorded : GoMap (List ℕ) → List Transaction → Type 0
Recorded spent before =
    (id : Bytes) (x : ℕ) → contains (find_or [] spent id) x ≡ spent_in before id x

pub Recorded-append :
    (spent : GoMap (List ℕ)) (before : List Transaction) (t : Transaction)
    → Recorded spent before
    → Recorded (collect_spent spent t.inputs) (before ++ t ∷ [])
unfolding spent_in
Recorded-append spent before t r id x = ground (
  arith,
  contains-collect_spent spent t.inputs id x,
  r id x,
  spent_in-append before (t ∷ []) id x,
)

-- The outputs that ReIndex stores for a transaction.
abbrev pub unspent : GoMap (List ℕ) → Transaction → TxOutputs
unspent spent t =
    keep (λ o. not (contains (find_or [] spent t.hash) o.index)) (index_outputs 0 t.outputs)

pub unspent-Recorded :
    (spent : GoMap (List ℕ)) (before : List Transaction) (t : Transaction) (id : Bytes)
    (old : TxOutputs)
    → Recorded spent before
    → (if t.hash =ᵇ id then unspent spent t else old) ≡ (
        if t.hash =ᵇ id
        then keep (λ o. not (spent_in before id o.index)) (index_outputs 0 t.outputs)
        else old)
unspent-Recorded spent before t id old r = elim (Bool-cases (t.hash =ᵇ id)) [
  | inl e ↦ rw e (
      keep_ext (λ o. not (contains (find_or [] spent t.hash) o.index))
        (λ o. not (spent_in before id o.index)) (index_outputs 0 t.outputs)
        (λ o.
          ap not (r t.hash o.index ∙ ap (λ j. spent_in before j o.index) (=ᵇ_sound t.hash id e))))
  | inr e ↦ rw e
]

pub Recorded-nil : Recorded [] []
unfolding spent_in
Recorded-nil id x = refl

pub visited_outputs-none :
    (before ts : List Transaction) (id : Bytes) (old : TxOutputs)
    → exists (λ u. u.hash =ᵇ id) ts ≡ false
    → visited_outputs before ts id old ≡ old
unfolding visited_outputs
visited_outputs-none before [] id old h = refl
visited_outputs-none before (t ∷ ts) id old h =
    ground (arith, visited_outputs-none (before ++ t ∷ []) ts id old)

pub visited_outputs-last :
    (before newer : List Transaction) (t : Transaction) (older : List Transaction) (old : TxOutputs)
    → exists (λ u. u.hash =ᵇ t.hash) older ≡ false
    → visited_outputs before (newer ++ t ∷ older) t.hash old
      ≡ keep
          (λ o. not (spent_in (before ++ (newer ++ t ∷ [])) t.hash o.index))
          (index_outputs 0 t.outputs)
unfolding visited_outputs
visited_outputs-last before [] t older old h =
    visited_outputs-none (before ++ t ∷ []) older t.hash _ h
    ∙ ap
        (λ (b : Bool).
          if b
          then keep (λ o. not (spent_in (before ++ t ∷ []) t.hash o.index))
              (index_outputs 0 t.outputs)
          else old)
        (=ᵇ-refl t.hash)
visited_outputs-last before (u ∷ newer) t older old h =
    visited_outputs-last (before ++ u ∷ []) newer t older _ h
    ∙ ap (λ ts. keep (λ o. not (spent_in ts t.hash o.index)) (index_outputs 0 t.outputs))
        (append_assoc before (u ∷ []) (newer ++ t ∷ []))

pub unnamed_of_unreferenced :
    (id : Bytes) (ts : List Transaction)
    → exists (λ u. refers_to u.inputs id || (u.hash =ᵇ id)) ts ≡ false
    → exists (λ u. u.hash =ᵇ id) ts ≡ false
unnamed_of_unreferenced id [] h = refl
unnamed_of_unreferenced id (u ∷ ts) h = ground (arith, unnamed_of_unreferenced id ts)

pub spent_in_of_unreferenced :
    (id : Bytes) (x : ℕ) (ts : List Transaction)
    → exists (λ u. refers_to u.inputs id || (u.hash =ᵇ id)) ts ≡ false
    → spent_in ts id x ≡ false
unfolding spent_in
spent_in_of_unreferenced id x [] h = refl
spent_in_of_unreferenced id x (u ∷ ts) h =
    ground (arith, spends_of_not_refers u.inputs id x, spent_in_of_unreferenced id x ts)

pub spent_in-unreferenced :
    (before : List Transaction) (t : Transaction) (after : List Transaction) (x : ℕ)
    → exists (λ u. refers_to u.inputs t.hash || (u.hash =ᵇ t.hash)) after ≡ false
    → spent_in (before ++ t ∷ []) t.hash x ≡ spent_in (before ++ t ∷ after) t.hash x
unfolding spent_in
spent_in-unreferenced before t after x h = ground (
  arith,
  spent_in-append before (t ∷ []) t.hash x,
  spent_in-append before (t ∷ after) t.hash x,
  spent_in_of_unreferenced t.hash x after h,
)
