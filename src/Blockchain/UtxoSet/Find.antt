-- ===== src/Blockchain/UtxoSet/Find.antt =====
-- FindUTXO of blockchain/utxoset.go: the outputs of one address.
pub mod Answer
use echain.Base.{
  ◌≡◌, refl, ap, sym, ◌∙◌, inl, inr, Bool, true, false, Bytes, List, [], ◌∷◌, ◌++◌, Option, none,
  some, ok, ◌=ᵇ◌, =ᵇ_sound, =ᵇ_iff, keep, drop, has_prefix, has_prefix-append, append-drop_prefix,
  subst, Bool-cases, if◌then◌else◌, arith,
}
use mathlib.Core.List.{append-nil, append_assoc}
use echain.Base.GoMap.{GoMap, find, find_or, append_to, find_or-set, DistinctKeys, AllKeys}
use echain.Types.{TxOutputWithIndex, TxOutputs}
use echain.Platform.{Platform}
use echain.LevelDb.{LevelDb}
use echain.Blockchain.Utils.{get_pubkey_hash_from_address}
use echain.Blockchain.Transaction.{is_bound_to}
use echain.Blockchain.UtxoSet.{
  utxo_prefix, utxo_key, utxo_prefix_length, deserialize_txn_outputs, bound_outputs, bound_entries,
  find_utxo, outputs_at,
}
use echain.Blockchain.UtxoSet.Update.{outputs_of, outputs_at-get}

-- The output is locked by the public key hash.
unfoldable pub has_owner : Bytes → TxOutputWithIndex → Bool
has_owner pub_key_hash o = o.tx_output.script_pub_key.pub_key_hash =ᵇ pub_key_hash

-- The loops of FindUTXO for an address with a known public key hash.
unfoldable pub add_owned : Bytes → Bytes → TxOutputs → GoMap TxOutputs → GoMap TxOutputs
add_owned owner id [] m = m
add_owned owner id (o ∷ os) m =
    add_owned owner id os (if has_owner owner o then append_to m id o else m)

pub find_or-add_owned :
    (owner id j : Bytes) (os : TxOutputs) (m : GoMap TxOutputs)
    → find_or [] (add_owned owner id os m) j
      ≡ (if id =ᵇ j then find_or [] m j ++ keep (has_owner owner) os else find_or [] m j)
unfolding add_owned
find_or-add_owned owner id j [] m = ground (arith, append-nil (find_or [] m j))
find_or-add_owned owner id j (o ∷ os) m = elim (Bool-cases (has_owner owner o)) [
  | inl own ↦
      rw
        (
          own,
          find_or-add_owned owner id j os (append_to m id o),
          find_or-set [] m id j (find_or [] m id ++ o ∷ []),
        )
        (ground
          (arith, =ᵇ_iff id j, append_assoc (find_or [] m j) (o ∷ []) (keep (has_owner owner) os)))
  | inr other ↦ rw (other, find_or-add_owned owner id j os m)
]

join_entry :
    {A : Type 0} (here : Bool) (xs : List A) (f : Option Bytes → List A) (v : Bytes)
    (r : Option Bytes)
    → f none ≡ []
    → (here ≡ true → r ≡ none)
    → ((if here then xs ++ f (some v) else xs) ++ f r) ≡ xs ++ f (if here then some v else r)
join_entry true xs f v r e h = rw (h refl, e) (append-nil _)
join_entry false xs f v r e h = refl

pub key-eq-utxo_key :
    (key id : Bytes)
    → has_prefix utxo_prefix key ≡ true
    → (key =ᵇ utxo_key id) ≡ (drop utxo_prefix_length key =ᵇ id)
key-eq-utxo_key key id h =
    subst (λ k. (k =ᵇ utxo_key id) ≡ (drop utxo_prefix_length key =ᵇ id))
      (append-drop_prefix utxo_prefix key h) refl

module _ ⦃platform : Platform⦄ where
  unfoldable pub add_entries : Bytes → GoMap Bytes → GoMap TxOutputs → GoMap TxOutputs
  add_entries owner [] m = m
  add_entries owner ((key, value) ∷ entries) m =
      add_entries owner entries
        (add_owned owner (drop utxo_prefix_length key) (deserialize_txn_outputs value) m)

  pub is_bound_to-has_owner :
      (o : TxOutputWithIndex) (address : Bytes) {owner : Bytes}
      → get_pubkey_hash_from_address address ≡ ok owner
      → is_bound_to o.tx_output address ≡ ok (has_owner owner o)
  unfolding is_bound_to has_owner
  is_bound_to-has_owner o address h = rw h

  module _ (address owner : Bytes) (valid : get_pubkey_hash_from_address address ≡ ok owner) where
    bound_outputs-add_owned :
        (id : Bytes) (os : TxOutputs) (m : GoMap TxOutputs)
        → bound_outputs address id os m ≡ ok (add_owned owner id os m)
    unfolding bound_outputs add_owned
    bound_outputs-add_owned id [] m = refl
    bound_outputs-add_owned id (o ∷ os) m =
        rw (is_bound_to-has_owner o address valid) (bound_outputs-add_owned id os _)

    pub bound_entries-add_entries :
        (entries : GoMap Bytes) (m : GoMap TxOutputs)
        → bound_entries address entries m ≡ ok (add_entries owner entries m)
    unfolding bound_entries add_entries
    bound_entries-add_entries [] m = refl
    bound_entries-add_entries ((key, value) ∷ entries) m =
        rw (bound_outputs-add_owned (drop utxo_prefix_length key) (deserialize_txn_outputs value) m)
          (bound_entries-add_entries entries _)

  abbrev pub AllUtxoKeys : GoMap Bytes → Type 0
  AllUtxoKeys = AllKeys (λ k. has_prefix utxo_prefix k ≡ true)

  pub find_or-add_entries :
      (owner id : Bytes) (entries : GoMap Bytes) (m : GoMap TxOutputs)
      → AllUtxoKeys entries
      → DistinctKeys entries
      → find_or [] (add_entries owner entries m) id
        ≡ find_or [] m id ++ keep (has_owner owner) (outputs_of (find entries (utxo_key id)))
  unfolding add_entries
  find_or-add_entries owner id [] m a d = unfold outputs_of in sym (append-nil _)
  find_or-add_entries owner id ((key, value) ∷ entries) m a d =
      find_or-add_entries owner id entries _ a.1 d.1
      ∙ rw
          (
            find_or-add_owned owner (drop utxo_prefix_length key) id (deserialize_txn_outputs value)
                m,
            key-eq-utxo_key key id a.0,
          )
          (unfold outputs_of in
            join_entry (drop utxo_prefix_length key =ᵇ id) (find_or [] m id)
              (λ v. keep (has_owner owner) (outputs_of v)) value (find entries (utxo_key id)) refl
              λ e.
                subst (λ k. find entries k ≡ none)
                  (=ᵇ_sound key (utxo_key id) (key-eq-utxo_key key id a.0 ∙ e)) d.0)

module _ {Db : Type 0} ⦃level_db : LevelDb Db⦄ ⦃platform : Platform⦄ where
  -- What FindUTXO collects from the whole set.
  pub find_or-collected :
      (db : Db) (owner id : Bytes)
      → find_or [] (add_entries owner (level_db.iterate db utxo_prefix) []) id
        ≡ keep (has_owner owner) (outputs_at db id)
  find_or-collected db owner id =
      find_or-add_entries owner id (level_db.iterate db utxo_prefix) []
        (level_db.iterate-AllKeys db utxo_prefix) (level_db.iterate-DistinctKeys db utxo_prefix)
      ∙ ap (λ v. keep (has_owner owner) (outputs_of v))
          (level_db.find-iterate db utxo_prefix (utxo_key id) (has_prefix-append utxo_prefix id))
      ∙ ap (keep (has_owner owner)) (sym (outputs_at-get db id))

  -- For an address that decodes to a public key hash, FindUTXO returns a map that has, for each
  -- transaction id, exactly those outputs of the set that are locked by the hash, in their order.
  pub find_utxo-owned :
      (db : Db) (address owner : Bytes)
      → get_pubkey_hash_from_address address ≡ ok owner
      → (m : GoMap TxOutputs) × (find_utxo db address ≡ ok m)
        × ((id : Bytes) → find_or [] m id ≡ keep (has_owner owner) (outputs_at db id))
  unfolding find_utxo
  find_utxo-owned db address owner valid =
      let entries = level_db.iterate db utxo_prefix in
      (
        add_entries owner entries [],
        bound_entries-add_entries address owner valid entries [],
        find_or-collected db owner,
      )
