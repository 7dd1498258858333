-- ===== src/Blockchain/Chain/Lookup.antt =====
-- GetTransactionMapFromInputs of blockchain/blockchain.go, and the transactions of the chain.
use echain.Base.{
  ℕ, zero, suc, ◌≡◌, ◌≤◌, refl, ap, sym, ◌∙◌, inl, inr, Bool, true, Bytes, List, [], ◌∷◌, ◌++◌,
  Option, none, some, Option-cases, Bool-cases, ok, ◌=ᵇ◌, =ᵇ_iff, =ᵇ_sound, length, if◌then◌else◌,
  arith,
}
use mathlib.Core.List.{append-nil}
use echain.Base.GoMap.{GoMap, find, set, delete, find-set, find-delete}
use echain.Types.{TxInput, Transaction, Block}
use echain.Platform.{Platform}
use echain.LevelDb.{LevelDb}
use echain.Blockchain.UtxoSet.Update.{refers_to}
use echain.Blockchain.Chain.{
  BlockChain, input_ids, match_transactions, transaction_map_loop, get_transaction_map_from_inputs,
}
use echain.Blockchain.Chain.Linked.{Linked, genesis, extend, Linked-length}
use echain.Blockchain.Chain.Visit.{visited}

-- The first transaction with a hash.
abbrev pub transaction_of : Bytes → List Transaction → Option Transaction
transaction_of id [] = none
transaction_of id (t ∷ ts) = if t.hash =ᵇ id then some t else transaction_of id ts

abbrev or_else : Option Transaction → Option Transaction → Option Transaction
or_else none second = second
or_else (some t) second = some t

-- An id is looked for until its transaction is found.
abbrev flag : Option Transaction → Option Bool
flag none = some true
flag (some t) = none

-- What the two maps hold for an id that is looked for.
abbrev Sought : GoMap Bool → GoMap Transaction → Bytes → Option Transaction → Type 0
Sought ids m id found = (find ids id ≡ flag found) × (find m id ≡ found)

match_transactions-known :
    (ids : GoMap Bool) (m : GoMap Transaction) (t : Transaction) (ts : List Transaction) (b : Bool)
    → find ids t.hash ≡ some b
    → match_transactions ids m (t ∷ ts) ≡ match_transactions (delete ids t.hash) (set m t.hash t) ts
unfolding match_transactions
match_transactions-known ids m t ts b e = rw (match_transactions, e)

match_transactions-unknown :
    (ids : GoMap Bool) (m : GoMap Transaction) (t : Transaction) (ts : List Transaction)
    → find ids t.hash ≡ none
    → match_transactions ids m (t ∷ ts) ≡ match_transactions ids m ts
unfolding match_transactions
match_transactions-unknown ids m t ts e = rw (match_transactions, e)

-- The next transaction is found where it has the id.
Sought-known :
    (ids : GoMap Bool) (m : GoMap Transaction) (id : Bytes) (t : Transaction)
    (found : Option Transaction) (b : Bool)
    → find ids t.hash ≡ some b
    → Sought ids m id found
    → Sought (delete ids t.hash) (set m t.hash t) id (or_else found (transaction_of id (t ∷ [])))
Sought-known ids m id t none b e s =
    ground (arith, =ᵇ_iff t.hash id, find-delete ids t.hash id, find-set m t.hash id t)
Sought-known ids m id t (some u) b e s = elim (Bool-cases (t.hash =ᵇ id)) [
  | inl same ↦ cc (s.0, e, =ᵇ_sound t.hash id same)
  | inr other ↦ ground (arith, other, find-delete ids t.hash id, find-set m t.hash id t)
]

Sought-unknown :
    (ids : GoMap Bool) (m : GoMap Transaction) (id : Bytes) (t : Transaction)
    (found : Option Transaction)
    → find ids t.hash ≡ none
    → Sought ids m id found
    → Sought ids m id (or_else found (transaction_of id (t ∷ [])))
Sought-unknown ids m id t (some u) e s = s
Sought-unknown ids m id t none e s = elim (Bool-cases (t.hash =ᵇ id)) [
  | inl same ↦ cc (s.0, e, ap (find ids) (=ᵇ_sound t.hash id same))
  | inr other ↦ rw other s
]

or_else-cons :
    (found : Option Transaction) (id : Bytes) (t : Transaction) (ts : List Transaction)
    → or_else (or_else found (transaction_of id (t ∷ []))) (transaction_of id ts)
      ≡ or_else found (transaction_of id (t ∷ ts))
or_else-cons (some u) id t ts = refl
or_else-cons none id t ts = ground arith

or_else-none : (found : Option Transaction) → or_else found none ≡ found
or_else-none none = refl
or_else-none (some t) = refl

match_transactions-Sought :
    (ids : GoMap Bool) (m : GoMap Transaction) (id : Bytes) (found : Option Transaction)
    (ts : List Transaction)
    → Sought ids m id found
    → let (ids', m') = match_transactions ids m ts in
      Sought ids' m' id (or_else found (transaction_of id ts))
unfolding match_transactions
match_transactions-Sought ids m id found [] s = rw (or_else-none found) s
match_transactions-Sought ids m id found (t ∷ ts) s = elim (Option-cases (find ids t.hash)) [
  | inl e ↦
      rw (match_transactions-unknown ids m t ts e, ← or_else-cons found id t ts)
        (match_transactions-Sought ids m id _ ts (Sought-unknown ids m id t found e s))
  | inr (b, e) ↦
      rw (match_transactions-known ids m t ts b e, ← or_else-cons found id t ts)
        (match_transactions-Sought (delete ids t.hash) (set m t.hash t) id _ ts
          (Sought-known ids m id t found b e s))
]

match_transactions-append :
    (ids : GoMap Bool) (m : GoMap Transaction) (ts us : List Transaction)
    → match_transactions ids m (ts ++ us)
      ≡ (let (ids', m') = match_transactions ids m ts in match_transactions ids' m' us)
unfolding match_transactions
match_transactions-append ids m [] us = refl
match_transactions-append ids m (t ∷ ts) us = elim (Option-cases (find ids t.hash)) [
  | inl e ↦
      match_transactions-unknown ids m t (ts ++ us) e
      ∙ match_transactions-append ids m ts us
      ∙ sym (
          ap (λ (r : GoMap Bool × GoMap Transaction). match_transactions r.0 r.1 us)
            (match_transactions-unknown ids m t ts e))
  | inr (b, e) ↦
      match_transactions-known ids m t (ts ++ us) b e
      ∙ match_transactions-append (delete ids t.hash) (set m t.hash t) ts us
      ∙ sym (
          ap (λ (r : GoMap Bool × GoMap Transaction). match_transactions r.0 r.1 us)
            (match_transactions-known ids m t ts b e))
]

find-input_ids :
    (ids : GoMap Bool) (is : List TxInput) (id : Bytes)
    → find (input_ids ids is) id ≡ (if refers_to is id then some true else find ids id)
unfolding input_ids refers_to
find-input_ids ids [] id = refl
find-input_ids ids (i ∷ is) id =
    ground (arith, find-input_ids (set ids i.tx_id true) is id, find-set ids i.tx_id id true)

module _ {Db : Type 0} ⦃level_db : LevelDb Db⦄ ⦃platform : Platform⦄ where
  transaction_map_loop-visited :
      (fuel : ℕ) (db : Db) (ids : GoMap Bool) (m : GoMap Transaction) (hash : Bytes)
      (blocks : List Block)
      → Linked db hash blocks
      → length blocks ≤ fuel
      → transaction_map_loop fuel db ids m hash ≡ ok (match_transactions ids m (visited blocks)).1
  unfolding transaction_map_loop visited
  transaction_map_loop-visited zero db ids m hash blocks l h =
      absurd (omega (arith, Linked-length l))
  transaction_map_loop-visited (suc fuel) db ids m hash _ (genesis _ block s last) h =
      rw (s.at, last, append-nil)
  transaction_map_loop-visited (suc fuel) db ids m hash _ (extend _ block older s next l) h =
      let (ids', m') = match_transactions ids m block.transactions in
      rw (s.at, next)
        (transaction_map_loop-visited fuel db ids' m' block.prev_hash older l (omega arith)
          ∙ ap (λ (r : GoMap Bool × GoMap Transaction). ok r.1)
              (sym (match_transactions-append ids m block.transactions (visited older))))

  -- On a chain, the map has for each id that the inputs refer to the first transaction of the
  -- chain with that hash, from the newest block, if there is one.
  pub get_transaction_map_from_inputs-first :
      (fuel : ℕ) (chain : BlockChain Db) (blocks : List Block) (t : Transaction)
      → Linked chain.data_base chain.last_hash blocks
      → length blocks ≤ fuel
      → (m : GoMap Transaction) × (get_transaction_map_from_inputs fuel chain t ≡ ok m)
        × ((id : Bytes)
            → refers_to t.inputs id ≡ true
            → find m id ≡ transaction_of id (visited blocks))
  unfolding get_transaction_map_from_inputs
  get_transaction_map_from_inputs-first fuel chain blocks t l h =
      let ids = input_ids [] t.inputs in
      (
        _,
        transaction_map_loop-visited fuel chain.data_base ids [] chain.last_hash blocks l h,
        λ id r.
            (match_transactions-Sought ids [] id none (visited blocks) (
              find-input_ids [] t.inputs id ∙ ap (λ (b : Bool). if b then some true else none) r,
              refl,
            )).1,
      )
