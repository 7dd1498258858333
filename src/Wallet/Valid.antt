-- ===== src/Wallet/Valid.antt =====
-- The address of a wallet before IsAddressValid of wallet/wallet.go and getPubkeyHashFromAddress of
-- blockchain/utils.go.
use echain.Base.{
  ℕ, zero, suc, ◌-◌, ◌≤◌, ◌≡◌, refl, ap, ◌∙◌, Bool, true, false, not, Bytes, [], ◌∷◌, ◌++◌, Run, ok,
  panic, ◌=ᵇ◌, =ᵇ-refl, length, length-append, take, drop, take-length, drop-length, ltb,
  if◌then◌else◌, arith,
}
use echain.Platform.{Platform}
use echain.Blockchain.Utils
use echain.Blockchain.Utils.{
  get_address_from_pubkey, get_address_from_pubkey_hash, get_pubkey_hash_from_pubkey,
  get_pubkey_hash_from_address,
}
use echain.Wallet.Address.{Wallet, pub_key_hash, get_checksum, address, is_address_valid}

length-take : (n : ℕ) (b : Bytes) → n ≤ length b → length (take n b) ≡ n
length-take zero b h = refl
length-take (suc n) [] h = absurd (omega arith)
length-take (suc n) (x ∷ b) h = ap suc (length-take n b (omega arith))

module _ ⦃platform : Platform⦄ where
  length-get_checksum : (b : Bytes) → length (get_checksum b) ≡ 4
  unfolding get_checksum
  length-get_checksum b =
      length-take 4 (platform.sha256 (platform.sha256 b))
        (omega (arith, platform.length-sha256 (platform.sha256 b)))

  -- What base58 encodes in the address.
  abbrev decoded_address : Wallet → Bytes
  decoded_address wallet = (0 ∷ pub_key_hash wallet) ++ get_checksum (0 ∷ pub_key_hash wallet)

  base58_decode-address :
      (wallet : Wallet) → platform.base58_decode (address wallet) ≡ decoded_address wallet
  unfolding address
  base58_decode-address wallet = platform.base58_decode-encode (decoded_address wallet)

  decoded_address-length :
      (wallet : Wallet) → length (decoded_address wallet) - 4 ≡ length (0 ∷ pub_key_hash wallet)
  decoded_address-length wallet = omega (
    arith,
    length-append (0 ∷ pub_key_hash wallet) (get_checksum (0 ∷ pub_key_hash wallet)),
    length-get_checksum (0 ∷ pub_key_hash wallet),
  )

  decoded_address-long : (wallet : Wallet) → 5 ≤ length (decoded_address wallet)
  decoded_address-long wallet = omega (
    arith,
    length-append (0 ∷ pub_key_hash wallet) (get_checksum (0 ∷ pub_key_hash wallet)),
    length-get_checksum (0 ∷ pub_key_hash wallet),
  )

  checksum_start :
      (wallet : Wallet)
      → (take (length (decoded_address wallet) - 4) (decoded_address wallet)
          ≡ 0 ∷ pub_key_hash wallet)
        × (drop (length (decoded_address wallet) - 4) (decoded_address wallet)
            ≡ get_checksum (0 ∷ pub_key_hash wallet))
  checksum_start wallet =
      let hash = 0 ∷ pub_key_hash wallet in
      (
        ap (λ n. take n (decoded_address wallet)) (decoded_address-length wallet)
            ∙ take-length hash (get_checksum hash),
        ap (λ n. drop n (decoded_address wallet)) (decoded_address-length wallet)
            ∙ drop-length hash (get_checksum hash),
      )

  -- IsAddressValid and getPubkeyHashFromAddress after the decoding.
  abbrev valid_decoded : Bytes → Run Bool
  valid_decoded decoded =
      if ltb (length decoded) 1
      then panic
      else if not (take 1 decoded =ᵇ 0 ∷ [])
      then ok false
      else if ltb (length decoded) 4
      then panic
      else ok
          (get_checksum (take (length decoded - 4) decoded) =ᵇ drop (length decoded - 4) decoded)

  valid_decoded-decoded_address :
      (wallet : Wallet) → valid_decoded (decoded_address wallet) ≡ ok true
  valid_decoded-decoded_address wallet =
      let hash = 0 ∷ pub_key_hash wallet in
      let long = decoded_address-long wallet in
      let filled : ltb (length (decoded_address wallet)) 1 ≡ false = ground (arith, long) in
      let long_enough : ltb (length (decoded_address wallet)) 4 ≡ false = ground (arith, long) in
      let (start, end) = checksum_start wallet in
      rw (filled, long_enough, start, end, =ᵇ-refl (get_checksum hash))

  abbrev hash_of_decoded : Bytes → Run Bytes
  hash_of_decoded decoded =
      if ltb (length decoded) 5 then panic else ok (drop 1 (take (length decoded - 4) decoded))

  hash_of_decoded-decoded_address :
      (wallet : Wallet) → hash_of_decoded (decoded_address wallet) ≡ ok (pub_key_hash wallet)
  hash_of_decoded-decoded_address wallet =
      let long = decoded_address-long wallet in
      let long_enough : ltb (length (decoded_address wallet)) 5 ≡ false = ground (arith, long) in
      let (start, _) = checksum_start wallet in rw (long_enough, start)

  -- The address of a wallet is valid, the block chain makes the same address of the public key, and
  -- what the block chain reads out of the address is the hash of the public key.
  pub is_address_valid-address :
      (wallet : Wallet)
      → (is_address_valid (address wallet) ≡ ok true)
        × (get_address_from_pubkey wallet.public_key ≡ address wallet)
        × (get_pubkey_hash_from_address (address wallet)
            ≡ ok (get_pubkey_hash_from_pubkey wallet.public_key))
  unfolding is_address_valid get_pubkey_hash_from_address get_address_from_pubkey
      get_address_from_pubkey_hash Utils.get_checksum get_pubkey_hash_from_pubkey address
      get_checksum pub_key_hash
  is_address_valid-address wallet = (
    ap valid_decoded (base58_decode-address wallet) ∙ valid_decoded-decoded_address wallet,
    refl,
    ap hash_of_decoded (base58_decode-address wallet) ∙ hash_of_decoded-decoded_address wallet,
  )
