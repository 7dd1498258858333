-- ===== src/Network/FullNode/Verified.antt =====
-- What verifyTransaction of network/fullnode.go guarantees.
use echain.Base.{
  ℕ, ◌≡◌, refl, ap, sym, ◌∙◌, ◌↔◌, inl, inr, Bool, true, false, List, [], ◌∷◌, Option, none, some,
  Option-cases, ◌≤◌, length, Bytes, get_elem?, =ᵇ-refl, arith, Run, ok, timeout, panic, ◌>>=◌,
  if◌then◌else◌,
}
use echain.Base.GoMap.{GoMap, find}
use echain.Types.{TxInput, TxOutput, Transaction, Block}
use echain.Platform.{Platform}
use echain.LevelDb.{LevelDb}
use echain.Blockchain.Utils.{is_coinbase_transaction}
use echain.Blockchain.UtxoSet.Update.{refers_to}
use echain.Blockchain.Chain.Linked.{Linked}
use echain.Blockchain.Chain.Visit.{visited}
use echain.Blockchain.Chain.Lookup.{transaction_of, get_transaction_map_from_inputs-first}
use echain.Network.Script.{ScriptCheck, unlocked, wrong_public_key, wrong_signature, check_script}
use echain.Network.Script.Unlocked.{IsUnlocked, check_script-IsUnlocked}
use echain.Network.FullNode.{FullNode}
use echain.Network.FullNode.Verify.{
  referenced_utxo, is_unlocked, verify_inputs, verify_transaction, verify_transactions,
}

unlocked_of_is_unlocked :
    (check : Run ScriptCheck) (rest : Run Bool)
    → (check >>= (λ c. if is_unlocked c then rest else ok false)) ≡ ok true
    → (check ≡ ok unlocked) × (rest ≡ ok true)
unlocked_of_is_unlocked timeout rest h = cc
unlocked_of_is_unlocked panic rest h = cc
unlocked_of_is_unlocked (ok wrong_public_key) rest h = cc
unlocked_of_is_unlocked (ok wrong_signature) rest h = cc
unlocked_of_is_unlocked (ok unlocked) rest h = (refl, h)

both_true :
    (first rest : Run Bool)
    → (first >>= (λ valid. if valid then rest else ok false)) ≡ ok true
    → (first ≡ ok true) × (rest ≡ ok true)
both_true timeout rest h = cc
both_true panic rest h = cc
both_true (ok true) rest h = (refl, h)
both_true (ok false) rest h = cc

-- The output that an input refers to, in the first transaction with the input's transaction id.
abbrev pub output_in : List Transaction → TxInput → Option TxOutput
output_in ts i = elim (transaction_of i.tx_id ts) [
  | none ↦ none
  | some t ↦ get_elem? t.outputs i.v_out
]

referenced_utxo-output_in :
    (txn_map : GoMap Transaction) (is : List TxInput) (ts : List Transaction)
    → ((id : Bytes) → refers_to is id ≡ true → find txn_map id ≡ transaction_of id ts)
    → (i : TxInput) → refers_to is i.tx_id ≡ true
    → referenced_utxo txn_map i ≡ output_in ts i
unfolding referenced_utxo
referenced_utxo-output_in txn_map is ts first i r =
    ap
      (λ (found : Option Transaction). elim found [
        | none ↦ none
        | some t ↦ get_elem? t.outputs i.v_out
      ])
      (first i.tx_id r)

module _ ⦃platform : Platform⦄ where
  -- Every input unlocks the output that it refers to.
  abbrev pub AllUnlocked : (TxInput → Option TxOutput) → List TxInput → Type 0
  AllUnlocked referenced [] = Unit
  AllUnlocked referenced (i ∷ is) =
      ((o : TxOutput) × (referenced i ≡ some o) × IsUnlocked i o) × AllUnlocked referenced is

  AllUnlocked-same :
      (f g : TxInput → Option TxOutput) (is : List TxInput)
      → ((i : TxInput) → refers_to is i.tx_id ≡ true → f i ≡ g i)
      → AllUnlocked f is
      → AllUnlocked g is
  unfolding refers_to
  AllUnlocked-same f g [] same a = tt
  AllUnlocked-same f g (i ∷ is) same ((o, e, u), a) = (
    (o, sym (same i (ground (arith, =ᵇ-refl i.tx_id))) ∙ e, u),
    AllUnlocked-same f g is (λ j r. same j (ground (arith, r))) a,
  )

  verify_inputs-found :
      (txn_map : GoMap Transaction) (i : TxInput) (is : List TxInput) (o : TxOutput)
      → referenced_utxo txn_map i ≡ some o
      → verify_inputs txn_map (i ∷ is)
        ≡ (check_script i o >>= (λ c. if is_unlocked c then verify_inputs txn_map is else ok false))
  unfolding verify_inputs
  verify_inputs-found txn_map i is o e = rw (verify_inputs, e)

  AllUnlocked-of_verify_inputs :
      (txn_map : GoMap Transaction) (is : List TxInput)
      → verify_inputs txn_map is ≡ ok true
      → AllUnlocked (referenced_utxo txn_map) is
  unfolding verify_inputs
  AllUnlocked-of_verify_inputs txn_map [] h = tt
  AllUnlocked-of_verify_inputs txn_map (i ∷ is) h =
      elim (Option-cases (referenced_utxo txn_map i)) [
        | inl e ↦ cc (e, h)
        | inr (o, e) ↦
            let (opened, rest) =
              unlocked_of_is_unlocked (check_script i o) (verify_inputs txn_map is)
                (sym (verify_inputs-found txn_map i is o e) ∙ h) in
            (
              (o, e, (check_script-IsUnlocked i o).0 opened),
              AllUnlocked-of_verify_inputs txn_map is rest,
            )
      ]

  verify_inputs-of_AllUnlocked :
      (txn_map : GoMap Transaction) (is : List TxInput)
      → AllUnlocked (referenced_utxo txn_map) is
      → verify_inputs txn_map is ≡ ok true
  unfolding verify_inputs
  verify_inputs-of_AllUnlocked txn_map [] a = refl
  verify_inputs-of_AllUnlocked txn_map (i ∷ is) ((o, e, u), a) =
      verify_inputs-found txn_map i is o e
      ∙ ap (λ c. c >>= (λ d. if is_unlocked d then verify_inputs txn_map is else ok false))
          ((check_script-IsUnlocked i o).1 u)
      ∙ verify_inputs-of_AllUnlocked txn_map is a

module _ {Db : Type 0} ⦃level_db : LevelDb Db⦄ ⦃platform : Platform⦄ where
  -- On a chain of blocks, if the fuel is not less than their number, a transaction with inputs is
  -- verified exactly if each input unlocks the output that it refers to: the one with the input's
  -- index in the first transaction with the input's transaction id, in the order from the newest
  -- block to the oldest and, in a block, from its first transaction. The amounts, and whether the
  -- outputs are still unspent, play no part in it.
  pub verify_transaction-AllUnlocked :
      (fuel : ℕ) (node : FullNode Db) (blocks : List Block) (t : Transaction)
      → Linked node.blockchain.data_base node.blockchain.last_hash blocks
      → length blocks ≤ fuel
      → is_coinbase_transaction t ≡ false
      → (verify_transaction fuel node t ≡ ok true)
        ↔ AllUnlocked (output_in (visited blocks)) t.inputs
  unfolding verify_transaction
  verify_transaction-AllUnlocked fuel node blocks t linked enough spends =
      let (txn_map, ran, first) =
        get_transaction_map_from_inputs-first fuel node.blockchain blocks t linked enough in
      let runs : verify_transaction fuel node t ≡ verify_inputs txn_map t.inputs =
        rw (spends, ran) in
      let found = referenced_utxo-output_in txn_map t.inputs (visited blocks) first in
      (
        λ h.
            AllUnlocked-same (referenced_utxo txn_map) (output_in (visited blocks)) t.inputs found
              (AllUnlocked-of_verify_inputs txn_map t.inputs (sym runs ∙ h)),
        λ a.
            runs
            ∙ verify_inputs-of_AllUnlocked txn_map t.inputs (
                AllUnlocked-same (output_in (visited blocks)) (referenced_utxo txn_map) t.inputs
                  (λ i r. sym (found i r)) a),
      )

  -- Every transaction of the list is verified.
  abbrev pub AllVerified : ℕ → FullNode Db → List Transaction → Type 0
  AllVerified fuel node [] = Unit
  AllVerified fuel node (t ∷ ts) =
      (verify_transaction fuel node t ≡ ok true) × AllVerified fuel node ts

  pub AllVerified-of_verify_transactions :
      (fuel : ℕ) (node : FullNode Db) (ts : List Transaction)
      → verify_transactions fuel node ts ≡ ok true
      → AllVerified fuel node ts
  unfolding verify_transactions
  AllVerified-of_verify_transactions fuel node [] h = tt
  AllVerified-of_verify_transactions fuel node (t ∷ ts) h =
      let (first, rest) =
        both_true (verify_transaction fuel node t) (verify_transactions fuel node ts) h in
      (first, AllVerified-of_verify_transactions fuel node ts rest)
