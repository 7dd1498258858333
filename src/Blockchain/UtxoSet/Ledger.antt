-- ===== src/Blockchain/UtxoSet/Ledger.antt =====
-- UpdateWithNewBlock of blockchain/utxoset.go against what an unspent output is: one that was
-- created and that nobody spends.
use echain.Base.{
  ℕ, ◌≡◌, refl, ap, sym, ◌∙◌, inl, inr, Bool, true, false, not, ◌&&◌, ◌||◌, Bytes, List, [], ◌∷◌,
  ◌=ᵇ◌, =ᵇ_iff, keep, exists, Bool-cases, if◌then◌else◌, arith,
}
use echain.Types.{TxInput, TxOutputWithIndex, TxOutputs, Transaction, Block}
use echain.Platform.{Platform}
use echain.LevelDb.{LevelDb}
use echain.Blockchain.UtxoSet.{
  index_outputs, outputs_at, update_with_new_transaction, update_with_transactions,
  update_with_new_block,
}
use echain.Blockchain.UtxoSet.Update.{
  refers_to, spends, keep_ext, outputs_at-update_with_new_transaction,
}

-- Some transaction spends the output.
unfoldable pub spent_in : List Transaction → Bytes → ℕ → Bool
spent_in [] id v_out = false
spent_in (t ∷ ts) id v_out = spends t.inputs id v_out || spent_in ts id v_out

-- The outputs of the transaction with the id, or those that there were.
unfoldable pub created : List Transaction → Bytes → TxOutputs → TxOutputs
created [] id old = old
created (t ∷ ts) id old = created ts id (if t.hash =ᵇ id then index_outputs 0 t.outputs else old)

-- No transaction refers to itself or to a later one, and no two have one hash.
abbrev pub IsOrdered : List Transaction → Type 0
IsOrdered [] = Unit
IsOrdered (t ∷ ts) =
    (refers_to t.inputs t.hash ≡ false)
    × (exists (λ u. refers_to t.inputs u.hash || (u.hash =ᵇ t.hash)) ts ≡ false)
    × IsOrdered ts

pub spends_of_not_refers :
    (inputs : List TxInput) (id : Bytes) (x : ℕ)
    → refers_to inputs id ≡ false
    → spends inputs id x ≡ false
unfolding refers_to spends
spends_of_not_refers [] id x h = refl
spends_of_not_refers (i ∷ is) id x h = ground (arith, spends_of_not_refers is id x)

keep-keep :
    (p q : TxOutputWithIndex → Bool) (os : TxOutputs)
    → keep p (keep q os) ≡ keep (λ o. q o && p o) os
keep-keep p q [] = refl
keep-keep p q (o ∷ os) = ground (arith, keep-keep p q os)

keep_all : (os : TxOutputs) → keep (λ o. true) os ≡ os
keep_all [] = refl
keep_all (o ∷ os) = ap (◌∷◌ o) (keep_all os)

created_of_none :
    (inputs : List TxInput) (h : Bytes) (ts : List Transaction) (id : Bytes) (old : TxOutputs)
    → refers_to inputs id ≡ true
    → exists (λ u. refers_to inputs u.hash || (u.hash =ᵇ h)) ts ≡ false
    → created ts id old ≡ old
unfolding created
created_of_none inputs h [] id old r e = refl
created_of_none inputs h (u ∷ ts) id old r e =
    ground (arith, =ᵇ_iff u.hash id, created_of_none inputs h ts id old r)

-- The outputs after a list of transactions, one transaction after the other.
abbrev step_outputs : Transaction → Bytes → TxOutputs → TxOutputs
step_outputs t id os =
    if refers_to t.inputs id
    then keep (λ o. not (spends t.inputs id o.index)) os
    else if t.hash =ᵇ id
    then index_outputs 0 t.outputs
    else os

keep-created :
    (t : Transaction) (ts : List Transaction) (id : Bytes) (os : TxOutputs)
    → IsOrdered (t ∷ ts)
    → keep (λ o. not (spent_in ts id o.index)) (created ts id (step_outputs t id os))
      ≡ keep (λ o. not (spent_in (t ∷ ts) id o.index)) (created (t ∷ ts) id os)
unfolding created spent_in
keep-created t ts id os d = elim (Bool-cases (refers_to t.inputs id)) [
  | inl r ↦
      let other : (t.hash =ᵇ id) ≡ false = ground (arith, =ᵇ_iff t.hash id) in
      let left =
        created_of_none t.inputs t.hash ts id (keep (λ o. not (spends t.inputs id o.index)) os) r
          d.1 in
      let right = created_of_none t.inputs t.hash ts id os r d.1 in
      rw (r, other, left, right)
        (keep-keep (λ o. not (spent_in ts id o.index)) (λ o. not (spends t.inputs id o.index)) os
          ∙ keep_ext _ _ os (λ o. ground arith))
  | inr r ↦ rw r (
      keep_ext (λ o. not (spent_in ts id o.index)) (λ o. not (spent_in (t ∷ ts) id o.index))
        (created ts id (if t.hash =ᵇ id then index_outputs 0 t.outputs else os))
        (λ o. ground (arith, spends_of_not_refers t.inputs id o.index)))
]

module _ {Db : Type 0} ⦃level_db : LevelDb Db⦄ ⦃platform : Platform⦄ where
  outputs_at-update_with_transactions :
      (db : Db) (ts : List Transaction) (id : Bytes)
      → IsOrdered ts
      → outputs_at (update_with_transactions db ts) id
        ≡ keep (λ o. not (spent_in ts id o.index)) (created ts id (outputs_at db id))
  unfolding update_with_transactions
  outputs_at-update_with_transactions db [] id d = unfold created spent_in in sym (keep_all _)
  outputs_at-update_with_transactions db (t ∷ ts) id d =
      outputs_at-update_with_transactions (update_with_new_transaction db t) ts id d.2
      ∙ rw (outputs_at-update_with_new_transaction db t id)
          (keep-created t ts id (outputs_at db id) d)

  -- For a block in which no transaction refers to itself or to a later one, and no two have one
  -- hash, UpdateWithNewBlock leaves for each transaction id exactly the unspent outputs: those that
  -- the block creates under it (if it creates none, those that the set had), less those that an
  -- input of the block spends.
  pub outputs_at-update_with_new_block :
      (db : Db) (block : Block) (id : Bytes)
      → IsOrdered block.transactions
      → outputs_at (update_with_new_block db block) id
        ≡ keep
            (λ o. not (spent_in block.transactions id o.index))
            (created block.transactions id (outputs_at db id))
  unfolding update_with_new_block
  outputs_at-update_with_new_block db block id d =
      outputs_at-update_with_transactions db block.transactions id d
