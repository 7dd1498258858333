-- ===== src/Blockchain/UtxoSet/Update.antt =====
-- UpdateWithNewTransaction of blockchain/utxoset.go, as what it does to the outputs of each
-- transaction.
use echain.Base.{
  ℕ, ◌≡◌, refl, fun_ext, ap, inl, inr, Bool, true, false, not, ◌&&◌, ◌||◌, Bytes, List, [], ◌∷◌,
  ◌++◌, Option, none, some, ◌=ᵇ◌, =ᵇ_sound, =ᵇ_iff, ◌==◌, keep, exists, contains, Bool-cases,
  if◌then◌else◌, arith,
}
use echain.Base.GoMap.{
  GoMap, find, find_or, set, append_to, find_or-set, DistinctKeys, set-DistinctKeys,
}
use echain.Types.{TxInput, TxOutputWithIndex, TxOutputs, Transaction}
use echain.Platform.{Platform, generic_deserialize-encode, generic_deserialize-nil}
use echain.LevelDb.{LevelDb, BatchOp, replay}
use echain.Blockchain.Iterator.{get_value}
use echain.Blockchain.UtxoSet.{
  utxo_key, collect_spent, index_outputs, deserialize_txn_outputs, outputs_at, store_op, spend_op,
  spend_ops, update_with_new_transaction,
}

-- The inputs refer to an output of the transaction.
unfoldable pub refers_to : List TxInput → Bytes → Bool
refers_to inputs id = exists (λ i. i.tx_id =ᵇ id) inputs

-- The inputs spend the output of the transaction with the index.
unfoldable pub spends : List TxInput → Bytes → ℕ → Bool
spends inputs id v_out = exists (λ i. (i.tx_id =ᵇ id) && (i.v_out == v_out)) inputs

contains-append : (xs : List ℕ) (a x : ℕ) → contains (xs ++ a ∷ []) x ≡ (contains xs x || (a == x))
contains-append [] a x = ground arith
contains-append (y ∷ xs) a x = ground (arith, contains-append xs a x)

contains-append_to :
    (m : GoMap (List ℕ)) (k id : Bytes) (a x : ℕ)
    → contains (find_or [] (append_to m k a) id) x
      ≡ (contains (find_or [] m id) x || (k =ᵇ id && a == x))
contains-append_to m k id a x =
    rw (find_or-set [] m k id (find_or [] m k ++ a ∷ []))
      (ground (arith, =ᵇ_iff k id, contains-append (find_or [] m k) a x))

pub contains-collect_spent :
    (spent : GoMap (List ℕ)) (inputs : List TxInput) (id : Bytes) (x : ℕ)
    → contains (find_or [] (collect_spent spent inputs) id) x
      ≡ (contains (find_or [] spent id) x || spends inputs id x)
unfolding collect_spent spends
contains-collect_spent spent [] id x = ground arith
contains-collect_spent spent (i ∷ is) id x = ground (
  arith,
  contains-collect_spent (append_to spent i.tx_id i.v_out) is id x,
  contains-append_to spent i.tx_id id i.v_out x,
)

pub collect_spent-DistinctKeys :
    (spent : GoMap (List ℕ)) (inputs : List TxInput)
    → DistinctKeys spent
    → DistinctKeys (collect_spent spent inputs)
unfolding collect_spent
collect_spent-DistinctKeys spent [] d = d
collect_spent-DistinctKeys spent (i ∷ is) d =
    collect_spent-DistinctKeys (append_to spent i.tx_id i.v_out) is
      (set-DistinctKeys spent i.tx_id _ d)

-- The key is in the map.
abbrev pub has_key {ℓ} : {V : Type ℓ} → GoMap V → Bytes → Bool
has_key m k = exists (λ e. e.0 =ᵇ k) m

has_key-set :
    (m : GoMap (List ℕ)) (k id : Bytes) (v : List ℕ)
    → has_key (set m k v) id ≡ ((k =ᵇ id) || has_key m id)
has_key-set [] k id v = refl
has_key-set ((j, w) ∷ m) k id v = ground (arith, has_key-set m k id v, =ᵇ_iff j k)

has_key-collect_spent :
    (spent : GoMap (List ℕ)) (inputs : List TxInput) (id : Bytes)
    → has_key (collect_spent spent inputs) id ≡ (has_key spent id || refers_to inputs id)
unfolding collect_spent refers_to
has_key-collect_spent spent [] id = ground arith
has_key-collect_spent spent (i ∷ is) id = ground (
  arith,
  has_key-collect_spent (append_to spent i.tx_id i.v_out) is id,
  has_key-set spent i.tx_id id (find_or [] spent i.tx_id ++ i.v_out ∷ []),
)

has_key_of_none : {V : Type 0} (m : GoMap V) (k : Bytes) → find m k ≡ none → has_key m k ≡ false
has_key_of_none [] k h = refl
has_key_of_none ((j, w) ∷ m) k h = ground (arith, has_key_of_none m k)

pub keep_ext :
    {A : Type 0} (p q : A → Bool) (xs : List A) → ((a : A) → p a ≡ q a) → keep p xs ≡ keep q xs
keep_ext p q xs h = rw (fun_ext h)

utxo_key-eq : (a b : Bytes) → (utxo_key a =ᵇ utxo_key b) ≡ (a =ᵇ b)
utxo_key-eq a b = refl

module _ ⦃platform : Platform⦄ where
  -- The outputs that a stored value, or its absence, stands for.
  unfoldable pub outputs_of : Option Bytes → TxOutputs
  outputs_of none = []
  outputs_of (some value) = deserialize_txn_outputs value

  pub outputs_of-encode :
      (os : TxOutputs) → outputs_of (some (platform.gob_tx_outputs.encode os)) ≡ os
  unfolding outputs_of deserialize_txn_outputs
  outputs_of-encode os = generic_deserialize-encode platform.gob_tx_outputs [] os

  -- What a store_op leaves under its key.
  stored : TxOutputs → Option Bytes
  stored [] = none
  stored (o ∷ os) = some (platform.gob_tx_outputs.encode (o ∷ os))

  outputs_of-stored : (os : TxOutputs) → outputs_of (stored os) ≡ os
  unfolding stored
  outputs_of-stored [] = unfold outputs_of in refl
  outputs_of-stored (o ∷ os) = outputs_of-encode (o ∷ os)

  replay-store_op :
      (id k : Bytes) (os : TxOutputs) (ops : List BatchOp) (old : Option Bytes)
      → replay (store_op id os ∷ ops) (utxo_key k) old
        ≡ replay ops (utxo_key k) (if id =ᵇ k then stored os else old)
  unfolding replay store_op stored
  replay-store_op id k [] ops old = refl
  replay-store_op id k (o ∷ os) ops old = refl

module _ {Db : Type 0} ⦃level_db : LevelDb Db⦄ ⦃platform : Platform⦄ where
  pub outputs_at-get :
      (db : Db) (id : Bytes) → outputs_at db id ≡ outputs_of (level_db.get db (utxo_key id))
  unfolding outputs_at outputs_of get_value deserialize_txn_outputs
  outputs_at-get db id = ground (arith, generic_deserialize-nil platform.gob_tx_outputs [])

  -- What is left of the outputs of a transaction.
  abbrev remaining : Db → Bytes → List ℕ → TxOutputs
  remaining db id ids = keep (λ o. not (contains ids o.index)) (outputs_at db id)

  outputs_of-replay :
      (db : Db) (m : GoMap (List ℕ)) (k : Bytes) (old : Option Bytes)
      → DistinctKeys m
      → outputs_of (replay (spend_ops db m) (utxo_key k) old)
        ≡ (if has_key m k then remaining db k (find_or [] m k) else outputs_of old)
  unfolding spend_ops spend_op replay
  outputs_of-replay db [] k old d = refl
  outputs_of-replay db ((id, ids) ∷ m) k old d =
      rw (replay-store_op id k (remaining db id ids) (spend_ops db m) old) (
        rw (outputs_of-replay db m k (if id =ᵇ k then stored (remaining db id ids) else old) d.1)
          (entry (=ᵇ_sound id k) (has_key_of_none m k)))
    where
      entry :
          ((id =ᵇ k) ≡ true → id ≡ k)
          → (find m k ≡ none → has_key m k ≡ false)
          → (if has_key m k
              then remaining db k (find_or [] m k)
              else outputs_of (if id =ᵇ k then stored (remaining db id ids) else old))
            ≡ (if (id =ᵇ k) || has_key m k
                then remaining db k (if id =ᵇ k then ids else find_or [] m k)
                else outputs_of old)
      entry same absent = elim (Bool-cases (id =ᵇ k)) [
        | inl e ↦ rw (e, absent (rw (same e) at d.0)) (rw outputs_of-stored (rw (same e)))
        | inr e ↦ rw e
      ]

  -- UpdateWithNewTransaction does to the outputs that the set has for a transaction id what its
  -- order of writes says. If an input refers to the id, the outputs that no input spends are left;
  -- otherwise, the id of the new transaction gets all its outputs, numbered from 0; otherwise,
  -- nothing changes.
  pub outputs_at-update_with_new_transaction :
      (db : Db) (t : Transaction) (id : Bytes)
      → outputs_at (update_with_new_transaction db t) id ≡ (
          if refers_to t.inputs id
          then keep (λ o. not (spends t.inputs id o.index)) (outputs_at db id)
          else if t.hash =ᵇ id
          then index_outputs 0 t.outputs
          else outputs_at db id)
  unfolding update_with_new_transaction replay
  outputs_at-update_with_new_transaction db t id =
      let spent = collect_spent [] t.inputs in
      let first = platform.gob_tx_outputs.encode (index_outputs 0 t.outputs) in
      rw
        (
          outputs_at-get _ id,
          level_db.get-write,
          outputs_of-replay db spent id _ (collect_spent-DistinctKeys [] t.inputs tt),
          has_key-collect_spent [] t.inputs id,
          keep_ext (λ (o : TxOutputWithIndex). not (contains (find_or [] spent id) o.index))
              (λ o. not (spends t.inputs id o.index)) (outputs_at db id)
              (λ o. ap not (contains-collect_spent [] t.inputs id o.index)),
        )
        (ground (arith, outputs_of-encode (index_outputs 0 t.outputs), outputs_at-get db id))
