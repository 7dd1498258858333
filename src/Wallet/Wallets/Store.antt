-- ===== src/Wallet/Wallets/Store.antt =====
-- The key store of wallet/wallets.go, and the wait of getUTXOs.
use echain.Base.{
  ℕ, zero, suc, ◌+◌, ◌≤◌, ◌<◌, ◌≡◌, ◌⊎◌, refl, ap, ◌∙◌, inl, inr, Bytes, [], ◌∷◌, Option, none,
  some, Option-cases, Bool-cases, ◌==◌, ◌=ᵇ◌, if◌then◌else◌, arith,
}
use echain.Base.GoMap
use echain.Base.GoMap.{GoMap, find, find_or, find-set}
use echain.Types.{TxOutputs}
use echain.Platform.{Platform}
use echain.Wallet.Address.{Wallet, address}
use echain.Wallet.Wallets.{
  Wallets, zero_wallet, Json, get_wallet, add_new_wallet, save_file, load_wallets, poll, get_utxos,
}

find_or-find :
    (wallets : GoMap Wallet) (k : Bytes)
    → find_or zero_wallet wallets k ≡ (elim (find wallets k) [ none ↦ zero_wallet | some w ↦ w ])
find_or-find [] k = refl
find_or-find ((j, w) ∷ wallets) k = ground (arith, find_or-find wallets k)

module _ ⦃platform : Platform⦄ where
  -- A wallet that AddNewWallet made is in the file that SaveFile writes: in what LoadWallets reads
  -- of it, GetWallet gives that wallet for its address, and for any other address the wallet that
  -- was there before. The connected nodes are not saved.
  pub load_wallets-save_file :
      (json : Json) (ws : Wallets) (new_wallet : Wallet) (wallet_address : Bytes)
      → let (grown, new_address) = add_new_wallet ws new_wallet in
        let loaded = load_wallets json (some (save_file json grown)) in
        (new_address ≡ address new_wallet)
        × (get_wallet loaded wallet_address
            ≡ (if new_address =ᵇ wallet_address then new_wallet else get_wallet ws wallet_address))
        × (loaded.connected_nodes ≡ [])
  unfolding add_new_wallet load_wallets save_file get_wallet
  load_wallets-save_file json ws new_wallet wallet_address =
      let grown = GoMap.set ws.wallets (address new_wallet) new_wallet in
      (
        refl,
        find_or-find (json.unmarshal (json.marshal grown)) wallet_address
            ∙ ap (λ w. elim w [ none ↦ zero_wallet | some v ↦ v ])
                (json.find-unmarshal grown wallet_address
                  ∙ find-set ws.wallets (address new_wallet) wallet_address new_wallet)
            ∙ ground (arith, find_or-find ws.wallets wallet_address),
        refl,
      )

none_before :
    (arrived : ℕ → Option (GoMap TxOutputs)) (counter k : ℕ)
    → arrived counter ≡ none
    → ((j : ℕ) → suc counter ≤ j → j < k → arrived j ≡ none)
    → (j : ℕ) → counter ≤ j
    → j < k
    → arrived j ≡ none
none_before arrived counter k here later j le lt = elim (Bool-cases (j == counter)) [
  | inl e ↦ let same : j ≡ counter = ground (arith, e) in rw same here
  | inr e ↦ later j (ground (arith, e)) lt
]

-- The first answer of some rounds, or none.
abbrev pub FirstAnswer : (ℕ → Option (GoMap TxOutputs)) → ℕ → ℕ → Option (GoMap TxOutputs) → Type 0
FirstAnswer arrived counter limit result =
    ((result ≡ none) × ((j : ℕ) → counter ≤ j → j < limit → arrived j ≡ none))
    ⊎ ((k : ℕ) × (m : GoMap TxOutputs) × (counter ≤ k)
        × (k < limit)
        × (arrived k ≡ some m)
        × (result ≡ some m)
        × ((j : ℕ) → counter ≤ j → j < k → arrived j ≡ none))

poll-FirstAnswer :
    (rounds : ℕ) (arrived : ℕ → Option (GoMap TxOutputs)) (counter : ℕ)
    → FirstAnswer arrived counter (counter + rounds) (poll rounds arrived counter)
unfolding poll
poll-FirstAnswer zero arrived counter = inl (refl, λ k le lt. absurd (omega arith))
poll-FirstAnswer (suc rounds) arrived counter =
    now (Option-cases (arrived counter)) (poll-FirstAnswer rounds arrived (suc counter))
  where
    now :
        ((arrived counter ≡ none) ⊎ ((m : GoMap TxOutputs) × (arrived counter ≡ some m)))
        → FirstAnswer arrived
            (suc counter)
            (suc counter + rounds)
            (poll rounds arrived (suc counter))
        → FirstAnswer arrived counter (counter + suc rounds) (poll (suc rounds) arrived counter)
    now (inr (m, e)) _ =
        inr (counter, m, omega arith, omega arith, e, rw (poll, e), λ j le lt. absurd (omega arith))
    now (inl e) (inl (none_later, later)) = inl (
      rw (poll, e) none_later,
      none_before arrived counter (counter + suc rounds) e λ j le lt. later j le (omega arith),
    )
    now (inl e) (inr (k, m, le, lt, at, result, later)) = inr (
      k,
      m,
      omega arith,
      omega arith,
      at,
      rw (poll, e) result,
      none_before arrived counter k e later,
    )

-- getUTXOs returns the answer of the first of 11 rounds in which one has come, and an error exactly
-- if none has come in any of them.
pub get_utxos-FirstAnswer :
    (arrived : ℕ → Option (GoMap TxOutputs)) → FirstAnswer arrived 0 11 (get_utxos arrived)
unfolding get_utxos
get_utxos-FirstAnswer arrived = poll-FirstAnswer 11 arrived 0
