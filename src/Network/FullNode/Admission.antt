-- ===== src/Network/FullNode/Admission.antt =====
-- handleNewTxnMsg of network/fullnode.go: which transactions get into the mempool.
use echain.Base.{
  ℕ, ◌≡◌, refl, ap, sym, subst, ◌∙◌, ◌↔◌, inl, inr, Bool, true, false, List, [], ◌∷◌, ◌++◌, Option,
  none, some, Option-cases, Run, ok, timeout, panic, ◌>>=◌, ◌=ᵇ◌, exists, Bool-cases, if◌then◌else◌,
  arith,
}
use echain.Base.GoInt
use echain.Types.{TxInput, TxOutput, Transaction}
use echain.Platform.{Platform}
use echain.LevelDb.{LevelDb}
use echain.Blockchain.UtxoSet.{get_tx_output_from_tx_input}
use echain.Network.Wire.{Wire, Sent}
use echain.Network.Script.{ScriptCheck, unlocked, wrong_public_key, wrong_signature, check_script}
use echain.Network.Script.Unlocked.{IsUnlocked, check_script-IsUnlocked}
use echain.Network.FullNode.{FullNode}
use echain.Network.FullNode.NewTxn.{
  TxnError, InputCheck, rejected, paid, exceeds_input_amount, spent_amount, next_input,
  check_inputs, relay_new_txn, admit, handle_new_txn,
}

unlocked_of_next_input :
    (check : Run ScriptCheck) (rest : Run InputCheck) (total : ℕ)
    → (check >>= (λ c. next_input c rest)) ≡ ok (paid total)
    → (check ≡ ok unlocked) × (rest ≡ ok (paid total))
unlocked_of_next_input timeout rest total h = cc
unlocked_of_next_input panic rest total h = cc
unlocked_of_next_input (ok wrong_public_key) rest total h = cc
unlocked_of_next_input (ok wrong_signature) rest total h = cc
unlocked_of_next_input (ok unlocked) rest total h = (refl, h)

second_of_if :
    {Db : Type 0} (less : Bool) (x y result : FullNode Db × List Sent × Option TxnError)
    (error : TxnError)
    → ok (if less then x else y) ≡ ok result
    → x.2 ≡ some error
    → result.2 ≡ none
    → (less ≡ false) × (result ≡ y)
second_of_if true x y result error h bad good = cc (h, bad, good)
second_of_if false x y result error h bad good = (refl, cc h)

module _ {Db : Type 0} ⦃level_db : LevelDb Db⦄ ⦃platform : Platform⦄ where
  -- Every input unlocks an output of the UTXO set, and the outputs' values add up from one amount
  -- to another.
  pub data Pays (db : Db) : List TxInput → ℕ → ℕ → Type 0 where
    done : (total : ℕ) → Pays db [] total total
    spend :
        (i : TxInput) (is : List TxInput) (o : TxOutput) (start total : ℕ)
        → get_tx_output_from_tx_input db i ≡ some o
        → IsUnlocked i o
        → Pays db is (GoInt.add start o.value) total
        → Pays db (i ∷ is) start total

  check_inputs-found :
      (db : Db) (i : TxInput) (is : List TxInput) (start : ℕ) (o : TxOutput)
      → get_tx_output_from_tx_input db i ≡ some o
      → check_inputs db (i ∷ is) start
        ≡ (check_script i o >>= (λ c. next_input c (check_inputs db is (GoInt.add start o.value))))
  unfolding check_inputs
  check_inputs-found db i is start o e = rw (check_inputs, e)

  Pays-of_check_inputs :
      (db : Db) (is : List TxInput) (start total : ℕ)
      → check_inputs db is start ≡ ok (paid total)
      → Pays db is start total
  unfolding check_inputs
  Pays-of_check_inputs db [] start total h = subst (Pays db [] start) (cc h) (done start)
  Pays-of_check_inputs db (i ∷ is) start total h =
      elim (Option-cases (get_tx_output_from_tx_input db i)) [
        | inl e ↦ cc (e, h)
        | inr (o, e) ↦
            let (opened, rest) =
              unlocked_of_next_input (check_script i o)
                (check_inputs db is (GoInt.add start o.value)) total
                (sym (check_inputs-found db i is start o e) ∙ h) in
            spend i is o start total e ((check_script-IsUnlocked i o).0 opened)
              (Pays-of_check_inputs db is (GoInt.add start o.value) total rest)
      ]

  check_inputs-of_Pays :
      (db : Db) (is : List TxInput) (start total : ℕ)
      → Pays db is start total
      → check_inputs db is start ≡ ok (paid total)
  unfolding check_inputs
  check_inputs-of_Pays db _ _ _ (done total) = refl
  check_inputs-of_Pays db _ _ _ (spend i is o start total e u p) =
      check_inputs-found db i is start o e
      ∙ ap (λ c. c >>= (λ s. next_input s (check_inputs db is (GoInt.add start o.value))))
          ((check_script-IsUnlocked i o).1 u)
      ∙ check_inputs-of_Pays db is (GoInt.add start o.value) total p

module _ {Db : Type 0} ⦃level_db : LevelDb Db⦄ ⦃platform : Platform⦄ ⦃wire : Wire⦄ where
  -- A result of handle_new_txn without an error.
  abbrev pub admitted : FullNode Db → Transaction → FullNode Db × List Sent × Option TxnError
  admitted node t =
      (record node { mempool = node.mempool ++ t ∷ [] }, relay_new_txn node.connected_peers t, none)

  total_of_admit :
      (node : FullNode Db) (t : Transaction) (check : Run InputCheck)
      (result : FullNode Db × List Sent × Option TxnError)
      → (check >>= (λ c. ok (admit node t c))) ≡ ok result
      → result.2 ≡ none
      → (total : ℕ) × (check ≡ ok (paid total))
        × (GoInt.lt total (spent_amount 0 t.outputs) ≡ false)
        × (result ≡ admitted node t)
  unfolding admit
  total_of_admit node t timeout result h e = cc
  total_of_admit node t panic result h e = cc
  total_of_admit node t (ok (rejected error)) result h e = cc
  total_of_admit node t (ok (paid total)) result h e =
      let (enough, same) =
        second_of_if (GoInt.lt total (spent_amount 0 t.outputs))
          (node, [], some exceeds_input_amount) (admitted node t) result exceeds_input_amount h refl
          e in
      (total, refl, enough, same)

  -- A transaction whose hash the mempool does not have is admitted, that is added to the mempool
  -- and relayed to the full nodes and miners among the peers without an error, exactly if each
  -- input refers to an output of the UTXO set and unlocks it, by a key with the output's hash and
  -- a valid signature of the input, and the total of those outputs' values is not less than the total
  -- of the transaction's. Both totals are the code's: signed 64-bit sums that wrap around.
  pub handle_new_txn-Pays :
      (node : FullNode Db) (t : Transaction)
      → exists (λ txn. txn.hash =ᵇ t.hash) node.mempool ≡ false
      → (handle_new_txn node t ≡ ok (admitted node t)) ↔ (
          (total : ℕ) × Pays node.blockchain.data_base t.inputs 0 total
          × (GoInt.lt total (spent_amount 0 t.outputs) ≡ false))
  unfolding handle_new_txn admit
  handle_new_txn-Pays node t fresh =
      let check = check_inputs node.blockchain.data_base t.inputs 0 in
      let runs : handle_new_txn node t ≡ (check >>= (λ c. ok (admit node t c))) = rw fresh in
      (
        λ ran.
            let (total, paid_for, enough, same) =
              total_of_admit node t check (admitted node t) (sym runs ∙ ran) refl in
            (
              total,
              Pays-of_check_inputs node.blockchain.data_base t.inputs 0 total paid_for,
              enough,
            ),
        λ (total, pays, enough).
            runs
            ∙ ap (λ c. c >>= (λ d. ok (admit node t d)))
                (check_inputs-of_Pays node.blockchain.data_base t.inputs 0 total pays)
            ∙ rw (admit, enough),
      )

  sent_of_admit :
      (node : FullNode Db) (t : Transaction) (check : Run InputCheck) (node' : FullNode Db)
      (sent : List Sent) (error : TxnError)
      → (check >>= (λ c. ok (admit node t c))) ≡ ok (node', sent, some error)
      → (node' ≡ node) × (sent ≡ [])
  unfolding admit
  sent_of_admit node t timeout node' sent error h = cc
  sent_of_admit node t panic node' sent error h = cc
  sent_of_admit node t (ok (rejected e)) node' sent error h = (cc h, cc h)
  sent_of_admit node t (ok (paid total)) node' sent error h = ground arith

  -- A transaction that is rejected with an error leaves the node as it was, and nothing is sent.
  pub handle_new_txn-rejected :
      (node : FullNode Db) (t : Transaction) (node' : FullNode Db) (sent : List Sent)
      (error : TxnError)
      → handle_new_txn node t ≡ ok (node', sent, some error)
      → (node' ≡ node) × (sent ≡ [])
  unfolding handle_new_txn
  handle_new_txn-rejected node t node' sent error h =
      let check = check_inputs node.blockchain.data_base t.inputs 0 in
      elim (Bool-cases (exists (λ txn. txn.hash =ᵇ t.hash) node.mempool)) [
        | inl known ↦ cc (known, h)
        | inr fresh ↦
            let runs : handle_new_txn node t ≡ (check >>= (λ c. ok (admit node t c))) = rw fresh in
            sent_of_admit node t check node' sent error (sym runs ∙ h)
      ]

  -- A transaction that spends one output once is admitted also when it has that input twice, and
  -- may then pay out the output's value twice: the inputs are not compared with each other.
  pub handle_new_txn-twice :
      (node : FullNode Db) (t : Transaction) (i : TxInput) (o : TxOutput)
      → exists (λ txn. txn.hash =ᵇ t.hash) node.mempool ≡ false
      → get_tx_output_from_tx_input node.blockchain.data_base i ≡ some o
      → IsUnlocked i o
      → t.inputs ≡ i ∷ i ∷ []
      → GoInt.lt (GoInt.add (GoInt.add 0 o.value) o.value) (spent_amount 0 t.outputs) ≡ false
      → handle_new_txn node t ≡ ok (admitted node t)
  handle_new_txn-twice node t i o fresh found u twice enough =
      let db = node.blockchain.data_base in
      let once = GoInt.add 0 o.value in
      let total = GoInt.add once o.value in
      (handle_new_txn-Pays node t fresh).1 (
        total,
        subst (λ is. Pays db is 0 total) (sym twice)
            (spend i (i ∷ []) o 0 total found u (spend i [] o once total found u (done total))),
        enough,
      )
