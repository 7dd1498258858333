-- ===== src/Blockchain/UtxoSet/Find/Answer.antt =====
-- Each output that FindUTXO of blockchain/utxoset.go returns is found by an input that names it.
use echain.Base.{
  ◌≡◌, refl, ap, sym, subst, ◌∙◌, inl, inr, true, false, Bytes, [], ◌∷◌, ◌++◌, none, some, ok, ◌==◌,
  ◌=ᵇ◌, =ᵇ_iff, =ᵇ_sound, exists, drop, has_prefix, append-drop_prefix, Bool-cases, arith,
}
use echain.Base.GoMap.{GoMap, find, find_or, set, append_to, DistinctKeys}
use echain.Types.{TxOutputWithIndex, TxOutputs}
use echain.Platform.{Platform}
use echain.LevelDb.{LevelDb}
use echain.Blockchain.Utils.{get_pubkey_hash_from_address}
use echain.Blockchain.UtxoSet.{
  utxo_prefix, utxo_prefix_length, deserialize_txn_outputs, find_utxo, find_output, outputs_at,
}
use echain.Blockchain.UtxoSet.Update.{outputs_of, outputs_at-get}
use echain.Blockchain.UtxoSet.Find.{
  has_owner, add_owned, add_entries, bound_entries-add_entries, AllUtxoKeys,
}

-- Every output of the map has a property, with the id of its transaction.
abbrev pub AllOf : (Bytes → TxOutputWithIndex → Type 0) → Bytes → TxOutputs → Type 0
AllOf P id [] = Unit
AllOf P id (o ∷ os) = P id o × AllOf P id os

abbrev pub AllIn : (Bytes → TxOutputWithIndex → Type 0) → GoMap TxOutputs → Type 0
AllIn P [] = Unit
AllIn P ((id, os) ∷ m) = AllOf P id os × AllIn P m

-- No two outputs have one index.
abbrev pub DistinctIndexes : TxOutputs → Type 0
DistinctIndexes [] = Unit
DistinctIndexes (o ∷ os) = (exists (λ p. p.index == o.index) os ≡ false) × DistinctIndexes os

module _ (P : Bytes → TxOutputWithIndex → Type 0) where
  AllOf-append :
      (id : Bytes) (os : TxOutputs) (o : TxOutputWithIndex)
      → AllOf P id os
      → P id o
      → AllOf P id (os ++ o ∷ [])
  AllOf-append id [] o a p = (p, tt)
  AllOf-append id (q ∷ os) o a p = (a.0, AllOf-append id os o a.1 p)

  AllIn-find_or : (m : GoMap TxOutputs) (id : Bytes) → AllIn P m → AllOf P id (find_or [] m id)
  AllIn-find_or [] id a = tt
  AllIn-find_or ((j, os) ∷ m) id a = elim (Bool-cases (j =ᵇ id)) [
    | inl e ↦ rw e (subst (λ k. AllOf P k os) (=ᵇ_sound j id e) a.0)
    | inr e ↦ rw e (AllIn-find_or m id a.1)
  ]

  AllIn-set :
      (m : GoMap TxOutputs) (id : Bytes) (os : TxOutputs)
      → AllIn P m
      → AllOf P id os
      → AllIn P (set m id os)
  AllIn-set [] id os a b = (b, tt)
  AllIn-set ((j, old) ∷ m) id os a b = elim (Bool-cases (j =ᵇ id)) [
    | inl e ↦ rw e (subst (λ k. AllOf P k os) (sym (=ᵇ_sound j id e)) b, a.1)
    | inr e ↦ rw e (a.0, AllIn-set m id os a.1 b)
  ]

  AllIn-append_to :
      (m : GoMap TxOutputs) (id : Bytes) (o : TxOutputWithIndex)
      → AllIn P m
      → P id o
      → AllIn P (append_to m id o)
  AllIn-append_to m id o a p =
      AllIn-set m id _ a (AllOf-append id (find_or [] m id) o (AllIn-find_or m id a) p)

  AllIn-add_owned :
      (owner id : Bytes) (os : TxOutputs) (m : GoMap TxOutputs)
      → AllOf (λ k o. has_owner owner o ≡ true → P k o) id os
      → AllIn P m
      → AllIn P (add_owned owner id os m)
  unfolding add_owned
  AllIn-add_owned owner id [] m b a = a
  AllIn-add_owned owner id (o ∷ os) m b a = elim (Bool-cases (has_owner owner o)) [
    | inl own ↦
        rw own
          (AllIn-add_owned owner id os (append_to m id o) b.1 (AllIn-append_to m id o a (b.0 own)))
    | inr other ↦ rw other (AllIn-add_owned owner id os m b.1 a)
  ]

module _ ⦃platform : Platform⦄ where
  AllIn-add_entries :
      (P : Bytes → TxOutputWithIndex → Type 0) (owner : Bytes) (entries : GoMap Bytes)
      (m : GoMap TxOutputs)
      → ((key value : Bytes)
          → find entries key ≡ some value
          → has_prefix utxo_prefix key ≡ true
          → AllOf
              (λ k o. has_owner owner o ≡ true → P k o)
              (drop utxo_prefix_length key)
              (deserialize_txn_outputs value))
      → AllUtxoKeys entries
      → DistinctKeys entries
      → AllIn P m
      → AllIn P (add_entries owner entries m)
  unfolding add_entries
  AllIn-add_entries P owner [] m b keys d a = a
  AllIn-add_entries P owner ((key, value) ∷ entries) m b keys d a =
      AllIn-add_entries P owner entries _ (λ k v found p. b k v (later k v found) p) keys.1 d.1
        (AllIn-add_owned P owner (drop utxo_prefix_length key) (deserialize_txn_outputs value) m
          (b key value (ground (arith, =ᵇ_iff key key)) keys.0) a)
    where
      later : (k v : Bytes) → find entries k ≡ some v → find ((key, value) ∷ entries) k ≡ some v
      later k v found = ground (arith, =ᵇ_iff key k, d.0, found)

indexed_from :
    (os : TxOutputs) (o : TxOutputWithIndex)
    → exists (λ p. p.index == o.index) os ≡ false
    → find_output o.index os ≡ none
unfolding find_output
indexed_from [] o h = refl
indexed_from (p ∷ os) o h = ground (arith, indexed_from os o)

AllOf-map :
    (P Q : Bytes → TxOutputWithIndex → Type 0) (id : Bytes) (os : TxOutputs)
    → ((o : TxOutputWithIndex) → P id o → Q id o)
    → AllOf P id os
    → AllOf Q id os
AllOf-map P Q id [] h a = tt
AllOf-map P Q id (o ∷ os) h a = (h o a.0, AllOf-map P Q id os h a.1)

found_behind :
    (p : TxOutputWithIndex) (os : TxOutputs) (o : TxOutputWithIndex)
    → exists (λ q. q.index == p.index) os ≡ false
    → find_output o.index os ≡ some o.tx_output
    → find_output o.index (p ∷ os) ≡ some o.tx_output
unfolding find_output
found_behind p os o absent found = elim (Bool-cases (p.index == o.index)) [
  | inl e ↦
      let same : p.index ≡ o.index = ground (arith, e) in
      cc (indexed_from os p absent, ap (λ i. find_output i os) same, found)
  | inr e ↦ rw e found
]

find_output-all :
    (id : Bytes) (os : TxOutputs)
    → DistinctIndexes os
    → AllOf (λ k o. find_output o.index os ≡ some o.tx_output) id os
unfolding find_output
find_output-all id [] d = tt
find_output-all id (o ∷ os) d = (
  ground arith,
  AllOf-map (λ k q. find_output q.index os ≡ some q.tx_output)
      (λ k q. find_output q.index (o ∷ os) ≡ some q.tx_output) id os
      (λ q found. found_behind o os q d.0 found) (find_output-all id os d.1),
)

module _ {Db : Type 0} ⦃level_db : LevelDb Db⦄ ⦃platform : Platform⦄ where
  -- The set has the output under its index, locked by the public key hash.
  abbrev pub IsFound : Db → Bytes → Bytes → TxOutputWithIndex → Type 0
  IsFound db owner id o =
      (find_output o.index (outputs_at db id) ≡ some o.tx_output) × (has_owner owner o ≡ true)

  outputs_at-entry :
      (db : Db) (key value : Bytes)
      → find (level_db.iterate db utxo_prefix) key ≡ some value
      → has_prefix utxo_prefix key ≡ true
      → outputs_at db (drop utxo_prefix_length key) ≡ deserialize_txn_outputs value
  outputs_at-entry db key value found p =
      outputs_at-get db (drop utxo_prefix_length key)
      ∙ ap (λ k. outputs_of (level_db.get db k)) (append-drop_prefix utxo_prefix key p)
      ∙ ap outputs_of (sym (level_db.find-iterate db utxo_prefix key p) ∙ found)
      ∙ unfold outputs_of in refl

  -- FindUTXO returns only outputs that are found by their transaction and their index, if no two
  -- outputs that the set has for one transaction have one index.
  pub find_utxo-IsFound :
      (db : Db) (address owner : Bytes) (m : GoMap TxOutputs)
      → get_pubkey_hash_from_address address ≡ ok owner
      → ((id : Bytes) → DistinctIndexes (outputs_at db id))
      → find_utxo db address ≡ ok m
      → AllIn (IsFound db owner) m
  unfolding find_utxo
  find_utxo-IsFound db address owner m valid distinct ran =
      let entries = level_db.iterate db utxo_prefix in
      let same : add_entries owner entries [] ≡ m =
        cc (bound_entries-add_entries address owner valid entries [], ran) in
      subst (AllIn (IsFound db owner)) same (
        AllIn-add_entries (IsFound db owner) owner entries [] all
          (level_db.iterate-AllKeys db utxo_prefix) (level_db.iterate-DistinctKeys db utxo_prefix)
          tt)
    where
      all :
          (key value : Bytes)
          → find (level_db.iterate db utxo_prefix) key ≡ some value
          → has_prefix utxo_prefix key ≡ true
          → AllOf
              (λ k o. has_owner owner o ≡ true → IsFound db owner k o)
              (drop utxo_prefix_length key)
              (deserialize_txn_outputs value)
      all key value found p =
          let id = drop utxo_prefix_length key in
          subst (λ os. AllOf (λ k o. has_owner owner o ≡ true → IsFound db owner k o) id os)
            (outputs_at-entry db key value found p)
            (AllOf-map (λ k o. find_output o.index (outputs_at db id) ≡ some o.tx_output)
              (λ k o. has_owner owner o ≡ true → IsFound db owner k o) id (outputs_at db id)
              (λ o at own. (at, own)) (find_output-all id (outputs_at db id) (distinct id)))
