-- ===== src/Wallet/Address.antt =====
-- wallet/wallet.go: the keys of a wallet and its address.
use echain.Base.{
  ℕ, ◌-◌, Bool, false, not, Bytes, [], ◌∷◌, ◌++◌, Run, ok, panic, ◌=ᵇ◌, length, take, drop, ltb,
  if◌then◌else◌,
}
use echain.Platform.{Platform}

-- The private key is used by ecdsa alone; its number stands for it.
pub record Wallet : Type 0 where
  pub private_key : ℕ
  pub public_key : Bytes

abbrev pub checksum_length : ℕ
checksum_length = 4

module _ ⦃platform : Platform⦄ where
  unfoldable pub pub_key_hash : Wallet → Bytes
  pub_key_hash wallet = platform.ripemd160 (platform.sha256 wallet.public_key)

  unfoldable pub get_checksum : Bytes → Bytes
  get_checksum versioned_hash =
      take checksum_length (platform.sha256 (platform.sha256 versioned_hash))

  unfoldable pub address : Wallet → Bytes
  address wallet =
      let versioned_hash : Bytes = 0 ∷ pub_key_hash wallet in
      platform.base58_encode (versioned_hash ++ get_checksum versioned_hash)

  -- The slice expressions panic if nothing is decoded, and if less than a checksum is.
  unfoldable pub is_address_valid : Bytes → Run Bool
  is_address_valid address =
      let decoded : Bytes = platform.base58_decode address in
      let payload_last_index : ℕ = length decoded - checksum_length in
      if ltb (length decoded) 1
      then panic
      else if not (take 1 decoded =ᵇ 0 ∷ [])
      then ok false
      else if ltb (length decoded) checksum_length
      then panic
      else ok (get_checksum (take payload_last_index decoded) =ᵇ drop payload_last_index decoded)
