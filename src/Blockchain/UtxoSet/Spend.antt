-- ===== src/Blockchain/UtxoSet/Spend.antt =====
-- FindSpendableOutput of blockchain/utxoset.go: enough of the outputs of one address.
use echain.Base.{
  ℕ, ◌+◌, ◌%◌, ◌≡◌, refl, ap, sym, ◌∙◌, inl, inr, true, false, not, Bytes, [], ◌∷◌, ◌++◌, ok, ◌=ᵇ◌,
  keep, drop, Bool-cases, if◌then◌else◌, arith,
}
use mathlib.Core.List.{append-nil, append_assoc}
use echain.Base.GoInt
use echain.Base.GoInt.{modulus}
use echain.Base.GoMap.{GoMap, find, find_or, set, append_to, DistinctKeys}
use echain.Types.{TxOutputWithIndex, TxOutputs}
use echain.Platform.{Platform}
use echain.LevelDb.{LevelDb}
use echain.Blockchain.Utils.{get_pubkey_hash_from_address}
use echain.Blockchain.UtxoSet.{
  Search, utxo_prefix, utxo_key, utxo_prefix_length, deserialize_txn_outputs, spend_outputs,
  spend_entries, find_spendable_output, outputs_at,
}
use echain.Blockchain.UtxoSet.Update.{outputs_of}
use echain.Blockchain.UtxoSet.Find.{
  has_owner, add_owned, add_entries, find_or-add_owned, find_or-add_entries, is_bound_to-has_owner,
  AllUtxoKeys, find_or-collected,
}

-- The value of outputs, without wrapping.
abbrev pub outputs_total : TxOutputs → ℕ
outputs_total [] = 0
outputs_total (o ∷ os) = o.tx_output.value + outputs_total os

abbrev pub map_total : GoMap TxOutputs → ℕ
map_total [] = 0
map_total ((id, os) ∷ m) = outputs_total os + map_total m

outputs_total-append :
    (os : TxOutputs) (o : TxOutputWithIndex)
    → outputs_total (os ++ o ∷ []) ≡ outputs_total os + o.tx_output.value
outputs_total-append [] o = omega arith
outputs_total-append (p ∷ os) o = omega (arith, outputs_total-append os o)

map_total-set :
    (m : GoMap TxOutputs) (id : Bytes) (os : TxOutputs)
    → map_total (set m id os) + outputs_total (find_or [] m id) ≡ map_total m + outputs_total os
map_total-set [] id os = omega arith
map_total-set ((j, ps) ∷ m) id os = ground (arith, map_total-set m id os)

map_total-append_to :
    (m : GoMap TxOutputs) (id : Bytes) (o : TxOutputWithIndex)
    → map_total (append_to m id o) ≡ map_total m + o.tx_output.value
map_total-append_to m id o = omega (
  arith,
  map_total-set m id (find_or [] m id ++ o ∷ []),
  outputs_total-append (find_or [] m id) o,
)

-- What the search has, for the amount that it looks for.
pub record IsSearch (amount : ℕ) (s : Search) : Type 0 where
  pub counted : s.accumulated_amount ≡ map_total s.utxo_map % modulus
  pub enough : s.found ≡ true → GoInt.lt s.accumulated_amount amount ≡ false

not_found :
    {amount : ℕ} {s : Search}
    → IsSearch amount s
    → GoInt.lt s.accumulated_amount amount ≡ true
    → s.found ≡ false
not_found {s = s} search short = elim (Bool-cases s.found) [
  | inl e ↦ cc (search.enough e)
  | inr e ↦ e
]

-- The search has a first part of each list of `whole`, and all of them unless it broke off.
pub record IsPartOf (whole : GoMap TxOutputs) (s : Search) : Type 0 where
  pub all : s.found ≡ false → s.utxo_map ≡ whole
  pub part :
      (id : Bytes) → (rest : TxOutputs) × (find_or [] s.utxo_map id ++ rest ≡ find_or [] whole id)

-- The body of the inner loop of FindSpendableOutput.
take_output : Bytes → Bytes → TxOutputWithIndex → Search → Search
take_output owner id o s =
    if has_owner owner o
    then record s {
      accumulated_amount = GoInt.add s.accumulated_amount o.tx_output.value;
      utxo_map = append_to s.utxo_map id o;
    }
    else s

counted-take_output :
    (owner id : Bytes) (o : TxOutputWithIndex) (s : Search)
    → s.accumulated_amount ≡ map_total s.utxo_map % modulus
    → (take_output owner id o s).accumulated_amount
      ≡ map_total (take_output owner id o s).utxo_map % modulus
unfolding take_output GoInt.add
counted-take_output owner id o s c = ground (arith, map_total-append_to s.utxo_map id o)

module _ ⦃platform : Platform⦄ (address owner : Bytes) (amount : ℕ)
    (valid : get_pubkey_hash_from_address address ≡ ok owner) where
  spend_outputs-cons :
      (id : Bytes) (o : TxOutputWithIndex) (os : TxOutputs) (s : Search)
      → spend_outputs address amount id (o ∷ os) s ≡ (
          let s' = take_output owner id o s in
          if not (GoInt.lt s'.accumulated_amount amount)
          then ok (record s' { found = true })
          else spend_outputs address amount id os s')
  unfolding spend_outputs take_output
  spend_outputs-cons id o os s = rw (is_bound_to-has_owner o address valid)

  found-take_output :
      (id : Bytes) (o : TxOutputWithIndex) (s : Search) → (take_output owner id o s).found ≡ s.found
  unfolding take_output
  found-take_output id o s = ground arith

  add_owned-take_output :
      (id : Bytes) (o : TxOutputWithIndex) (os : TxOutputs) (s : Search)
      → add_owned owner id (o ∷ os) s.utxo_map
        ≡ add_owned owner id os (take_output owner id o s).utxo_map
  unfolding add_owned take_output
  add_owned-take_output id o os s = elim (Bool-cases (has_owner owner o)) [
    | inl e ↦ rw e
    | inr e ↦ rw e
  ]

  -- What add_owned adds to a list stands at its end.
  add_owned-part :
      (id j : Bytes) (os : TxOutputs) (m : GoMap TxOutputs)
      → (rest : TxOutputs) × (find_or [] m j ++ rest ≡ find_or [] (add_owned owner id os m) j)
  add_owned-part id j os m = elim (Bool-cases (id =ᵇ j)) [
    | inl e ↦ (keep (has_owner owner) os, rw (find_or-add_owned owner id j os m, e))
    | inr e ↦ ([], rw (find_or-add_owned owner id j os m, e) (append-nil _))
  ]

  spend_outputs-IsPartOf :
      (id : Bytes) (os : TxOutputs) (s : Search)
      → s.found ≡ false
      → s.accumulated_amount ≡ map_total s.utxo_map % modulus
      → (s' : Search) × (spend_outputs address amount id os s ≡ ok s')
        × IsSearch amount s'
        × IsPartOf (add_owned owner id os s.utxo_map) s'
  spend_outputs-IsPartOf id [] s f c = (
    s,
    unfold spend_outputs in refl,
    record { counted = c; enough = λ e. cc },
    unfold add_owned in record { all = λ e. refl; part = λ j. ([], append-nil _) },
  )
  spend_outputs-IsPartOf id (o ∷ os) s f c =
      let s₁ = take_output owner id o s in
      let c₁ = counted-take_output owner id o s c in
      rw (spend_outputs-cons id o os s, add_owned-take_output id o os s)
        (elim (Bool-cases (GoInt.lt s₁.accumulated_amount amount)) [
          | inl more ↦ rw more (spend_outputs-IsPartOf id os s₁ (found-take_output id o s ∙ f) c₁)
          | inr done ↦ rw done (
            record s₁ { found = true },
            refl,
            record { counted = c₁; enough = λ e. done },
            record { all = λ e. cc; part = λ j. add_owned-part id j os s₁.utxo_map },
          )
        ])

  -- A part of what is collected so far is a part of what is collected in the end.
  extend :
      (entries : GoMap Bytes) (whole : GoMap TxOutputs) (s : Search)
      → AllUtxoKeys entries
      → DistinctKeys entries
      → ((j : Bytes) → (rest : TxOutputs) × (find_or [] s.utxo_map j ++ rest ≡ find_or [] whole j))
      → (j : Bytes)
      → (rest : TxOutputs) × (find_or [] s.utxo_map j ++ rest
          ≡ find_or [] (add_entries owner entries whole) j)
  extend entries whole s a d part j =
      let (rest, e) = part j in
      let later = keep (has_owner owner) (outputs_of (find entries (utxo_key j))) in
      (
        rest ++ later,
        sym (append_assoc (find_or [] s.utxo_map j) rest later)
            ∙ ap (λ os. os ++ later) e
            ∙ sym (find_or-add_entries owner j entries whole a d),
      )

  spend_entries-IsPartOf :
      (entries : GoMap Bytes) (s : Search)
      → AllUtxoKeys entries
      → DistinctKeys entries
      → s.found ≡ false
      → s.accumulated_amount ≡ map_total s.utxo_map % modulus
      → (s' : Search) × (spend_entries address amount entries s ≡ ok s')
        × IsSearch amount s'
        × IsPartOf (add_entries owner entries s.utxo_map) s'
  unfolding spend_entries add_entries
  spend_entries-IsPartOf [] s a d f c = (
    s,
    refl,
    record { counted = c; enough = λ e. cc },
    record { all = λ e. refl; part = λ j. ([], append-nil _) },
  )
  spend_entries-IsPartOf ((key, value) ∷ entries) s a d f c =
      let id = drop utxo_prefix_length key in
      let os = deserialize_txn_outputs value in
      let (s₁, ran, search, part) = spend_outputs-IsPartOf id os s f c in
      rw ran (elim (Bool-cases s₁.found) [
        | inl done ↦ rw done (
          s₁,
          refl,
          search,
          record { all = λ e. cc; part = extend entries _ s₁ a.1 d.1 part.part },
        )
        | inr more ↦
            rw (more, ← part.all more)
              (spend_entries-IsPartOf entries s₁ a.1 d.1 more search.counted)
      ])

module _ {Db : Type 0} ⦃level_db : LevelDb Db⦄ ⦃platform : Platform⦄ where
  -- For an address that decodes to a public key hash, FindSpendableOutput returns a map and the sum
  -- of the values in it, as a wrapping int. The list of each transaction id is a first part of the
  -- outputs of the set that are locked by the hash. If the sum is below the amount, it is all of
  -- them.
  pub find_spendable_output-part :
      (db : Db) (address owner : Bytes) (amount : ℕ)
      → get_pubkey_hash_from_address address ≡ ok owner
      → (total : ℕ) × (m : GoMap TxOutputs) × (find_spendable_output db address amount
          ≡ ok (total, m))
        × (total ≡ map_total m % modulus)
        × ((id : Bytes)
            → (rest : TxOutputs) × (find_or [] m id ++ rest
                ≡ keep (has_owner owner) (outputs_at db id)))
        × (GoInt.lt total amount ≡ true
            → (id : Bytes) → find_or [] m id ≡ keep (has_owner owner) (outputs_at db id))
  unfolding find_spendable_output
  find_spendable_output-part db address owner amount valid =
      let start : Search = record { accumulated_amount = 0; utxo_map = []; found = false } in
      let (s, ran, search, part) =
        spend_entries-IsPartOf address owner amount valid (level_db.iterate db utxo_prefix) start
          (level_db.iterate-AllKeys db utxo_prefix) (level_db.iterate-DistinctKeys db utxo_prefix)
          refl refl in
      (
        s.accumulated_amount,
        s.utxo_map,
        rw ran,
        search.counted,
        λ id. let (rest, e) = part.part id in (rest, e ∙ find_or-collected db owner id),
        λ short id.
            ap (λ (found : GoMap TxOutputs). find_or [] found id)
              (part.all (not_found search short))
            ∙ find_or-collected db owner id,
      )
