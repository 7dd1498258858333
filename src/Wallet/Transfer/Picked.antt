-- ===== src/Wallet/Transfer/Picked.antt =====
-- The loops of Transfer of wallet/wallets.go, which pick the outputs to spend.
use echain.Base.{
  ℕ, ◌≡◌, refl, ap, sym, subst, ◌∙◌, inl, inr, Bool, true, false, not, Bytes, List, [], ◌∷◌, ◌++◌,
  map, Bool-cases, if◌then◌else◌,
}
use mathlib.Core.List.{append_assoc, append-nil, map-append}
use echain.Base.GoInt
use echain.Base.GoInt.{modulus, half}
use echain.Base.GoMap.{GoMap}
use echain.Types.{TxInput, TxOutputWithIndex, TxOutputs}
use echain.Wallet.Transfer.{Selection, create_txn_input, select_outputs, select_entries}

-- The outputs of a map, with the ids of their transactions, in the order of the loops.
abbrev pub tagged : Bytes → TxOutputs → List (Bytes × TxOutputWithIndex)
tagged id [] = []
tagged id (o ∷ os) = (id, o) ∷ tagged id os

abbrev pub available : GoMap TxOutputs → List (Bytes × TxOutputWithIndex)
available [] = []
available ((id, os) ∷ m) = tagged id os ++ available m

abbrev pub input_of : Bytes → Bytes × TxOutputWithIndex → TxInput
input_of pubkey c = create_txn_input c.0 c.1.index pubkey

abbrev pub chosen_total : ℕ → List (Bytes × TxOutputWithIndex) → ℕ
chosen_total total [] = total
chosen_total total (c ∷ cs) = chosen_total (GoInt.add total c.1.tx_output.value) cs

-- A selection grew by the first of the outputs, by all if it is not enough.
abbrev pub Picks : Bytes → List (Bytes × TxOutputWithIndex) → Selection → Selection → Type 0
Picks pubkey outputs s s' =
    (chosen : List (Bytes × TxOutputWithIndex)) × (rest : List (Bytes × TxOutputWithIndex))
    × (outputs ≡ chosen ++ rest)
    × (s'.new_txn_inputs ≡ s.new_txn_inputs ++ map (input_of pubkey) chosen)
    × (s'.transfer_amount ≡ chosen_total s.transfer_amount chosen)
    × (s'.enough ≡ false → rest ≡ [])

abbrev picked : Bytes → ℕ → Bytes → TxOutputWithIndex → Selection → Selection
picked pubkey amount id o s = record {
  transfer_amount = GoInt.add s.transfer_amount o.tx_output.value;
  new_txn_inputs = s.new_txn_inputs ++ create_txn_input id o.index pubkey ∷ [];
  enough = not (GoInt.lt (GoInt.add s.transfer_amount o.tx_output.value) amount);
}

chosen_total-append :
    (total : ℕ) (cs ds : List (Bytes × TxOutputWithIndex))
    → chosen_total total (cs ++ ds) ≡ chosen_total (chosen_total total cs) ds
chosen_total-append total [] ds = refl
chosen_total-append total (c ∷ cs) ds =
    chosen_total-append (GoInt.add total c.1.tx_output.value) cs ds

Picks-append :
    (pubkey : Bytes) (before after : List (Bytes × TxOutputWithIndex)) (s s' s'' : Selection)
    → Picks pubkey before s s'
    → s'.enough ≡ false
    → Picks pubkey after s' s''
    → Picks pubkey (before ++ after) s s''
Picks-append pubkey before after s s' s'' (cs, rest, all, ins, total, none_left) short
      (ds, rest', all', ins', total', none_left') =
    (
      cs ++ ds,
      rest',
      ap (λ b. b ++ after) (all ∙ ap (◌++◌ cs) (none_left short) ∙ append-nil cs)
          ∙ ap (◌++◌ cs) all'
          ∙ sym (append_assoc cs ds rest'),
      ins'
          ∙ ap (λ is. is ++ map (input_of pubkey) ds) ins
          ∙ append_assoc s.new_txn_inputs (map (input_of pubkey) cs) (map (input_of pubkey) ds)
          ∙ ap (◌++◌ s.new_txn_inputs) (sym (map-append (input_of pubkey) cs ds)),
      total'
          ∙ ap (λ t. chosen_total t ds) total
          ∙ sym (chosen_total-append s.transfer_amount cs ds),
      none_left',
    )

Picks-one :
    (pubkey : Bytes) (amount : ℕ) (id : Bytes) (o : TxOutputWithIndex) (os : TxOutputs)
    (s : Selection)
    → (picked pubkey amount id o s).enough ≡ true
    → Picks pubkey (tagged id (o ∷ os)) s (picked pubkey amount id o s)
Picks-one pubkey amount id o os s enough =
    ((id, o) ∷ [], tagged id os, refl, refl, refl, λ short. cc (enough, short))

select_outputs-Picks :
    (pubkey : Bytes) (amount : ℕ) (id : Bytes) (os : TxOutputs) (s : Selection)
    → Picks pubkey (tagged id os) s (select_outputs pubkey amount id os s)
unfolding select_outputs
select_outputs-Picks pubkey amount id [] s =
    ([], [], refl, sym (append-nil s.new_txn_inputs), refl, λ short. refl)
select_outputs-Picks pubkey amount id (o ∷ os) s =
    let s' = picked pubkey amount id o s in
    elim (Bool-cases s'.enough) [
      | inl e ↦
          subst (Picks pubkey (tagged id (o ∷ os)) s)
            (sym (ap (λ (b : Bool). if b then s' else select_outputs pubkey amount id os s') e))
            (Picks-one pubkey amount id o os s e)
      | inr e ↦
          subst (Picks pubkey (tagged id (o ∷ os)) s)
            (sym (ap (λ (b : Bool). if b then s' else select_outputs pubkey amount id os s') e))
            (Picks-append pubkey ((id, o) ∷ []) (tagged id os) s s'
              (select_outputs pubkey amount id os s')
              ((id, o) ∷ [], [], refl, refl, refl, λ short. refl) e
              (select_outputs-Picks pubkey amount id os s'))
    ]

pub select_entries-Picks :
    (pubkey : Bytes) (amount : ℕ) (m : GoMap TxOutputs) (s : Selection)
    → Picks pubkey (available m) s (select_entries pubkey amount m s)
unfolding select_entries
select_entries-Picks pubkey amount [] s =
    ([], [], refl, sym (append-nil s.new_txn_inputs), refl, λ short. refl)
select_entries-Picks pubkey amount ((id, os) ∷ m) s =
    let s' = select_outputs pubkey amount id os s in
    let (cs, rest, all, ins, total, none_left) = select_outputs-Picks pubkey amount id os s in
    let step = λ (b : Bool). if b then s' else select_entries pubkey amount m s' in
    elim (Bool-cases s'.enough) [
      | inl e ↦ subst (Picks pubkey (tagged id os ++ available m) s) (sym (ap step e)) (
        cs,
        rest ++ available m,
        ap (λ b. b ++ available m) all ∙ append_assoc cs rest (available m),
        ins,
        total,
        λ short. cc (e, short),
      )
      | inr e ↦ subst (Picks pubkey (tagged id os ++ available m) s) (sym (ap step e)) (
          Picks-append pubkey (tagged id os) (available m) s s' (select_entries pubkey amount m s')
            (cs, rest, all, ins, total, none_left) e (select_entries-Picks pubkey amount m s'))
    ]
