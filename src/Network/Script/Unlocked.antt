-- ===== src/Network/Script/Unlocked.antt =====
-- What it takes to spend an output, independently of the order of the checks of
-- network/fullnode.go.
use echain.Base.{
  ℕ, ◌≡◌, refl, sym, ap, ◌∙◌, not, ◌↔◌, inl, inr, Bool, true, Run, ok, panic, timeout, ◌>>=◌, ◌=ᵇ◌,
  =ᵇ_sound, =ᵇ_iff, Bool-cases, if◌then◌else◌, arith,
}
use echain.Types.{TxInput, TxOutput}
use echain.Platform.{Platform}
use echain.Blockchain.Utils.{get_pubkey_hash_from_pubkey, get_ecdsa_pubkey_from_uncompressed_pubkey}
use echain.Network.Script.{
  ScriptCheck, unlocked, wrong_signature, wrong_public_key, signature_valid, check_script,
}

key_of_unlocked :
    (valid : ℕ → ℕ → Bool) (key : Run (ℕ × ℕ))
    → (key >>= (λ k. if valid k.0 k.1 then ok unlocked else ok wrong_signature)) ≡ ok unlocked
    → (x : ℕ) × (y : ℕ) × (key ≡ ok (x, y)) × (valid x y ≡ true)
key_of_unlocked valid timeout h = cc
key_of_unlocked valid panic h = cc
key_of_unlocked valid (ok (x, y)) h = (x, y, refl, ground arith)

module _ ⦃platform : Platform⦄ where
  -- The input has the key that the output is locked to, and a signature of itself by that key.
  abbrev pub IsUnlocked : TxInput → TxOutput → Type 0
  IsUnlocked i o =
      (get_pubkey_hash_from_pubkey i.script_sig.pub_key ≡ o.script_pub_key.pub_key_hash)
      × (x : ℕ) × (y : ℕ) × (get_ecdsa_pubkey_from_uncompressed_pubkey i.script_sig.pub_key
          ≡ ok (x, y))
      × (signature_valid i x y ≡ true)

  pub check_script-IsUnlocked :
      (i : TxInput) (o : TxOutput) → (check_script i o ≡ ok unlocked) ↔ IsUnlocked i o
  unfolding check_script
  check_script-IsUnlocked i o =
      let key = get_ecdsa_pubkey_from_uncompressed_pubkey i.script_sig.pub_key in
      let checked : Run ScriptCheck =
        key >>= (λ k. if signature_valid i k.0 k.1 then ok unlocked else ok wrong_signature) in
      (
        λ e.
            elim (Bool-cases
              (get_pubkey_hash_from_pubkey i.script_sig.pub_key =ᵇ o.script_pub_key.pub_key_hash)) [
                | inl same ↦
                    let (x, y, has_key, valid) = key_of_unlocked (signature_valid i) key (
                      sym (ap (λ (b : Bool). if not b then ok wrong_public_key else checked) same)
                      ∙ e) in
                    (=ᵇ_sound _ _ same, x, y, has_key, valid)
                | inr other ↦ cc (other, e)
              ],
        λ u.
            let (same, x, y, has_key, valid) = u in
            ground (
              arith,
              =ᵇ_iff (get_pubkey_hash_from_pubkey i.script_sig.pub_key)
                  o.script_pub_key.pub_key_hash,
              same,
              has_key,
              valid,
            ),
      )
