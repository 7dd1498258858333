-- ===== src/Wallet/Transfer/Admitted.antt =====
-- Transfer of wallet/wallets.go against handleNewTxnMsg of network/fullnode.go.
use echain.Base.{
  ℕ, ◌<◌, ◌≡◌, refl, ap, sym, subst, ◌∙◌, true, false, Bytes, List, [], ◌∷◌, ◌++◌, map, some, ok,
  ◌=ᵇ◌, =ᵇ_sound, exists, arith,
}
use mathlib.Core.List.{Permᴰ}
use echain.Base.GoInt
use echain.Base.GoInt.{half}
use echain.Base.GoMap.{GoMap}
use echain.Types.{TxInput, TxOutput, TxOutputWithIndex, TxOutputs, Transaction}
use echain.Platform.{Platform, generic_deserialize-encode}
use echain.LevelDb.{LevelDb}
use echain.Blockchain.Utils.{
  get_pubkey_hash_from_address, get_pubkey_hash_from_pubkey,
  get_ecdsa_pubkey_from_uncompressed_pubkey,
}
use echain.Blockchain.Transaction.{tx_input_hash}
use echain.Blockchain.UtxoSet.{find_utxo, get_tx_output_from_tx_input, outputs_at}
use echain.Blockchain.UtxoSet.Find.{has_owner}
use echain.Blockchain.UtxoSet.Find.Answer.{
  AllOf, AllIn, DistinctIndexes, IsFound, find_utxo-IsFound,
}
use echain.Network.Wire.{Wire}
use echain.Network.Script.{signature_s}
use echain.Network.Script.Unlocked.{IsUnlocked}
use echain.Network.FullNode.{FullNode}
use echain.Network.FullNode.NewTxn.{
  zero_transaction, spent_amount, handle_new_txn, handle_new_txn_msg,
}
use echain.Network.FullNode.Admission.{Pays, done, spend, admitted, handle_new_txn-Pays}
use echain.Wallet.Address.{Wallet}
use echain.Wallet.Keys.Halves.{IsBalanced, halves_of_joined}
use echain.Wallet.Transfer.{sent, join_signature, create_txn_input, sign_inputs, transfer_from}
use echain.Wallet.Transfer.Picked.{tagged, available, input_of, chosen_total}
use echain.Wallet.Transfer.Balanced.{total_value, transfer_from-balanced}

spent_amount-total_value :
    (total : ℕ) (os : List TxOutput) → spent_amount total os ≡ total_value total os
unfolding spent_amount
spent_amount-total_value total [] = refl
spent_amount-total_value total (o ∷ os) = spent_amount-total_value (GoInt.add total o.value) os

lt_self : (a : ℕ) → GoInt.lt a a ≡ false
unfolding GoInt.lt
lt_self a = ground arith

abbrev AllTagged : (Bytes → TxOutputWithIndex → Type 0) → List (Bytes × TxOutputWithIndex) → Type 0
AllTagged P [] = Unit
AllTagged P (c ∷ cs) = P c.0 c.1 × AllTagged P cs

module _ (P : Bytes → TxOutputWithIndex → Type 0) where
  AllTagged-append :
      (cs ds : List (Bytes × TxOutputWithIndex))
      → AllTagged P cs
      → AllTagged P ds
      → AllTagged P (cs ++ ds)
  AllTagged-append [] ds a b = b
  AllTagged-append (c ∷ cs) ds a b = (a.0, AllTagged-append cs ds a.1 b)

  AllTagged-first :
      (cs ds : List (Bytes × TxOutputWithIndex)) → AllTagged P (cs ++ ds) → AllTagged P cs
  AllTagged-first [] ds a = tt
  AllTagged-first (c ∷ cs) ds a = (a.0, AllTagged-first cs ds a.1)

  AllTagged-tagged : (id : Bytes) (os : TxOutputs) → AllOf P id os → AllTagged P (tagged id os)
  AllTagged-tagged id [] a = tt
  AllTagged-tagged id (o ∷ os) a = (a.0, AllTagged-tagged id os a.1)

  AllTagged-available : (m : GoMap TxOutputs) → AllIn P m → AllTagged P (available m)
  AllTagged-available [] a = tt
  AllTagged-available ((id, os) ∷ m) a =
      AllTagged-append (tagged id os) (available m) (AllTagged-tagged id os a.0)
        (AllTagged-available m a.1)

AllIn-Perm :
    (P : Bytes → TxOutputWithIndex → Type 0) (m m' : GoMap TxOutputs)
    → Permᴰ m m'
    → AllIn P m
    → AllIn P m'
AllIn-Perm P [] [] Permᴰ.nil a = tt
AllIn-Perm P (e ∷ m) (e' ∷ m') (Permᴰ.cons same p) a =
    (subst (λ (c : Bytes × TxOutputs). AllOf P c.0 c.1) same a.0, AllIn-Perm P m m' p a.1)
AllIn-Perm P (e ∷ f ∷ m) (e' ∷ f' ∷ _) (Permᴰ.swap first second) a = (
  subst (λ (c : Bytes × TxOutputs). AllOf P c.0 c.1) second a.1.0,
  (subst (λ (c : Bytes × TxOutputs). AllOf P c.0 c.1) first a.0, a.1.1),
)
AllIn-Perm P m m' (Permᴰ.trans {l₂ = middle} p q) a =
    AllIn-Perm P middle m' q (AllIn-Perm P m middle p a)

module _ ⦃platform : Platform⦄ where
  -- The key has the two coordinates, and ecdsa.Verify accepts with it what ecdsa.Sign makes of any
  -- hash.
  pub record Signs (sign : Bytes → ℕ × ℕ) (public_key : Bytes) : Type 0 where
    pub x : ℕ
    pub y : ℕ
    pub has_key : get_ecdsa_pubkey_from_uncompressed_pubkey public_key ≡ ok (x, y)
    pub accepts : (hash : Bytes) → platform.ecdsa_verify x y hash (sign hash).0 (sign hash).1 ≡ true

  -- For each input, the two numbers of its signature have equally many bytes, or the second has one
  -- more.
  abbrev pub AllBalanced : (Bytes → ℕ × ℕ) → List TxInput → Type 0
  AllBalanced sign [] = Unit
  AllBalanced sign (i ∷ is) =
      IsBalanced (sign (tx_input_hash i)).0 (sign (tx_input_hash i)).1 × AllBalanced sign is

  signed : (Bytes → ℕ × ℕ) → Bytes → Bytes × TxOutputWithIndex → TxInput
  signed sign public_key c = record (input_of public_key c) {
    script_sig = record {
      signature = join_signature (sign (tx_input_hash (input_of public_key c)));
      pub_key = public_key;
    };
  }

  signed-IsUnlocked :
      (sign : Bytes → ℕ × ℕ) (public_key : Bytes) (c : Bytes × TxOutputWithIndex)
      → Signs sign public_key
      → IsBalanced
          (sign (tx_input_hash (signed sign public_key c))).0
          (sign (tx_input_hash (signed sign public_key c))).1
      → has_owner (get_pubkey_hash_from_pubkey public_key) c.1 ≡ true
      → IsUnlocked (signed sign public_key c) c.1.tx_output
  unfolding signed create_txn_input tx_input_hash has_owner join_signature
  signed-IsUnlocked sign public_key c s b own =
      let hash = tx_input_hash (input_of public_key c) in
      let (first, second) = halves_of_joined (sign hash).0 (sign hash).1 b in
      (
        sym (=ᵇ_sound _ _ own),
        s.x,
        s.y,
        s.has_key,
        ap (λ r. platform.ecdsa_verify s.x s.y hash r (signature_s (join_signature (sign hash))))
              first
            ∙ ap (platform.ecdsa_verify s.x s.y hash (sign hash).0) second
            ∙ s.accepts hash,
      )

module _ {Db : Type 0} ⦃level_db : LevelDb Db⦄ ⦃platform : Platform⦄ where
  get_tx_output-signed :
      (db : Db) (sign : Bytes → ℕ × ℕ) (public_key owner : Bytes) (c : Bytes × TxOutputWithIndex)
      → IsFound db owner c.0 c.1
      → get_tx_output_from_tx_input db (signed sign public_key c) ≡ some c.1.tx_output
  unfolding get_tx_output_from_tx_input signed create_txn_input
  get_tx_output-signed db sign public_key owner c f = f.0

  sign_inputs-Pays :
      (db : Db) (sign : Bytes → ℕ × ℕ) (public_key : Bytes) (cs : List (Bytes × TxOutputWithIndex))
      (start : ℕ)
      → Signs sign public_key
      → AllBalanced sign (sign_inputs sign (map (input_of public_key) cs))
      → AllTagged (IsFound db (get_pubkey_hash_from_pubkey public_key)) cs
      → Pays db (sign_inputs sign (map (input_of public_key) cs)) start (chosen_total start cs)
  unfolding sign_inputs signed create_txn_input
  sign_inputs-Pays db sign public_key [] start s b a = done start
  sign_inputs-Pays db sign public_key (c ∷ cs) start s b a =
      spend (signed sign public_key c) _ c.1.tx_output start _
        (get_tx_output-signed db sign public_key (get_pubkey_hash_from_pubkey public_key) c a.0)
        (signed-IsUnlocked sign public_key c s b.0 a.0.1)
        (sign_inputs-Pays db sign public_key cs (GoInt.add start c.1.tx_output.value) s b.1 a.1)

module _ {Db : Type 0} ⦃level_db : LevelDb Db⦄ ⦃platform : Platform⦄ ⦃wire : Wire⦄ where
  -- A transaction that Transfer of a non-negative amount makes from the answer of FindUTXO, in
  -- whatever order it runs through that map, is admitted by a full node that has the same UTXO set
  -- and that does not have the transaction's hash in its mempool: it is added to the mempool and
  -- relayed to the full nodes and miners among the peers, without an error. The address is to be that
  -- of the wallet's key, ecdsa.Verify is to accept with the key what ecdsa.Sign makes, in each
  -- signature of the transaction s is to have as many bytes as r or one more, leading zeros not
  -- counted, and no two outputs that the set has for one transaction may have one index.
  pub transfer_from-admitted :
      (sign : Bytes → ℕ × ℕ) (now : ℕ) (wallet : Wallet) (answer utxo_map : GoMap TxOutputs)
      (from to : Bytes) (amount : ℕ) (t : Transaction) (node : FullNode Db)
      → amount < half
      → Signs sign wallet.public_key
      → AllBalanced sign t.inputs
      → get_pubkey_hash_from_address from ≡ ok (get_pubkey_hash_from_pubkey wallet.public_key)
      → ((id : Bytes) → DistinctIndexes (outputs_at node.blockchain.data_base id))
      → find_utxo node.blockchain.data_base from ≡ ok answer
      → Permᴰ answer utxo_map
      → transfer_from sign now wallet utxo_map from to amount ≡ ok (sent t)
      → exists (λ txn. txn.hash =ᵇ t.hash) node.mempool ≡ false
      → handle_new_txn_msg node (platform.gob_transaction.encode t) ≡ ok (admitted node t)
  unfolding handle_new_txn_msg
  transfer_from-admitted sign now wallet answer utxo_map from to amount t node small s balanced
        valid distinct answered reordered made fresh =
      let db = node.blockchain.data_base in
      let owner = get_pubkey_hash_from_pubkey wallet.public_key in
      let (chosen, rest, all, inputs, balance) =
        transfer_from-balanced sign now wallet utxo_map from to amount t small made in
      let in_map : AllIn (IsFound db owner) utxo_map =
        AllIn-Perm (IsFound db owner) answer utxo_map reordered
          (find_utxo-IsFound db from owner answer valid distinct answered) in
      let found = AllTagged-first (IsFound db owner) chosen rest (
        subst (AllTagged (IsFound db owner)) all
          (AllTagged-available (IsFound db owner) utxo_map in_map)) in
      let pays =
        subst (λ is. Pays db is 0 (chosen_total 0 chosen)) (sym inputs)
          (sign_inputs-Pays db sign wallet.public_key chosen 0 s
            (subst (AllBalanced sign) inputs balanced) found) in
      let enough : GoInt.lt (chosen_total 0 chosen) (spent_amount 0 t.outputs) ≡ false =
        ap (GoInt.lt (chosen_total 0 chosen)) (spent_amount-total_value 0 t.outputs ∙ balance)
        ∙ lt_self (chosen_total 0 chosen) in
      ap (handle_new_txn node)
        (generic_deserialize-encode platform.gob_transaction zero_transaction t)
      ∙ (handle_new_txn-Pays node t fresh).1 (chosen_total 0 chosen, pays, enough)
