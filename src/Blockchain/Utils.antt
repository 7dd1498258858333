-- ===== src/Blockchain/Utils.antt =====
-- blockchain/utils.go: hashing, public keys and addresses.
use echain.Base.{
  codes, ℕ, ◌+◌, ◌-◌, ◌/◌, ◌*◌, Bool, true, false, Bytes, [], ◌∷◌, ◌++◌, Run, ok, panic, length,
  take, drop, ltb, if◌then◌else◌,
}
use echain.Types.{Transaction}
use echain.Platform.{Platform}

abbrev pub pub_key_checksum_length : ℕ
pub_key_checksum_length = 4

abbrev pub version_byte : ℕ
version_byte = 0

-- satoshi
abbrev pub coinbase_reward : ℕ
coinbase_reward = 1000

-- LAST_HASH_STOGAGE_KEY, "LAST_HASH"
abbrev pub last_hash_storage_key : Bytes
last_hash_storage_key = codes "LAST_HASH"

abbrev pub satoshi_address : Bytes
satoshi_address = codes "1G78MhhtATZoRZ69qhNNqeSJ2LY1NjQQSV"

-- TARGET_HASH, 1 << (256 - 12)
abbrev pub target_hash : ℕ
target_hash = 28269553036454149273332760011886696253239742350009903329945699220681916416

-- IsCoinbaseTransaction
unfoldable pub is_coinbase_transaction : Transaction → Bool
is_coinbase_transaction transaction = elim transaction.inputs [ [] ↦ true | _ ∷ _ ↦ false ]

-- big.Int.SetBytes: the bytes as a big-endian number.
unfoldable pub set_bytes_from : ℕ → Bytes → ℕ
set_bytes_from n [] = n
set_bytes_from n (b ∷ bs) = set_bytes_from (n * 256 + b) bs

abbrev pub set_bytes : Bytes → ℕ
set_bytes = set_bytes_from 0

module _ ⦃platform : Platform⦄ where
  unfoldable pub get_double_sha256 : Bytes → Bytes
  get_double_sha256 b = platform.sha256 (platform.sha256 b)

  unfoldable pub get_pubkey_hash_from_pubkey : Bytes → Bytes
  get_pubkey_hash_from_pubkey pubkey = platform.ripemd160 (platform.sha256 pubkey)

  unfoldable pub get_checksum : Bytes → Bytes
  get_checksum versioned_hash =
      take pub_key_checksum_length (platform.sha256 (platform.sha256 versioned_hash))

  unfoldable pub get_address_from_pubkey_hash : Bytes → Bytes
  get_address_from_pubkey_hash pubkey_hash =
      let versioned_hash : Bytes = version_byte ∷ pubkey_hash in
      platform.base58_encode (versioned_hash ++ get_checksum versioned_hash)

  unfoldable pub get_address_from_pubkey : Bytes → Bytes
  get_address_from_pubkey pubkey = get_address_from_pubkey_hash (get_pubkey_hash_from_pubkey pubkey)

  -- decoded[1 : len(decoded) - 4]; the slice expression panics below five bytes.
  unfoldable pub get_pubkey_hash_from_address : Bytes → Run Bytes
  get_pubkey_hash_from_address address =
      let decoded : Bytes = platform.base58_decode address in
      if ltb (length decoded) (pub_key_checksum_length + 1)
      then panic
      else ok (drop 1 (take (length decoded - pub_key_checksum_length) decoded))

-- The coordinates of an uncompressed key: the first byte dropped, the rest cut in the middle.
-- The slice expression panics on the empty key.
unfoldable pub get_ecdsa_pubkey_from_uncompressed_pubkey : Bytes → Run (ℕ × ℕ)
get_ecdsa_pubkey_from_uncompressed_pubkey [] = panic
get_ecdsa_pubkey_from_uncompressed_pubkey (prefix ∷ coordinates) =
    let middle : ℕ = length coordinates / 2 in
    ok (set_bytes (take middle coordinates), set_bytes (drop middle coordinates))
