-- ===== src/Network/Script.antt =====
-- The check of an input against the output that it spends, which verifyTransaction and
-- handleNewTxnMsg of network/fullnode.go both have.
pub mod Unlocked
use echain.Base.{
  ℕ, Bool, true, false, Bytes, Run, ok, ◌>>=◌, ◌=ᵇ◌, not, length, take, drop, ◌/◌, if◌then◌else◌,
}
use echain.Types.{TxInput, TxOutput}
use echain.Platform.{Platform}
use echain.Blockchain.Utils.{
  set_bytes, get_pubkey_hash_from_pubkey, get_ecdsa_pubkey_from_uncompressed_pubkey,
}
use echain.Blockchain.Transaction.{tx_input_hash}

pub data ScriptCheck : Type 0 where
  wrong_public_key wrong_signature unlocked : ScriptCheck

-- r and s are the two halves of the signature.
abbrev pub signature_r : Bytes → ℕ
signature_r signature = set_bytes (take (length signature / 2) signature)

abbrev pub signature_s : Bytes → ℕ
signature_s signature = set_bytes (drop (length signature / 2) signature)

module _ ⦃platform : Platform⦄ where
  abbrev pub signature_valid : TxInput → ℕ → ℕ → Bool
  signature_valid i x y =
      platform.ecdsa_verify x y (tx_input_hash i) (signature_r i.script_sig.signature)
        (signature_s i.script_sig.signature)

  unfoldable pub check_script : TxInput → TxOutput → Run ScriptCheck
  check_script i referenced =
      if not
        (get_pubkey_hash_from_pubkey i.script_sig.pub_key =ᵇ referenced.script_pub_key.pub_key_hash)
      then ok wrong_public_key
      else (do
        (x, y) ← get_ecdsa_pubkey_from_uncompressed_pubkey i.script_sig.pub_key
        if signature_valid i x y then ok unlocked else ok wrong_signature)
