-- ===== src/Platform.antt =====
-- What the program takes from outside the repository and from Go's cryptographic and encoding
-- packages: SHA-256, RIPEMD-160, base58, ECDSA verification and gob. Each is a field, with the
-- documented behaviour that the code relies on as laws. The laws are stated for every value of
-- the model's types; those that no Go value has (a byte of 256, an int of 2 ^ 64) do not arise.
use echain.Base.{ℕ, Bool, Bytes, Option, some, none, [], length, ◌≡◌, sym, ap, ◌∙◌}
use mathlib.Core.Option.{some-injective}
use echain.Types.{TxInput, Transaction, TxOutputs, BlockHeader, Block}

-- encoding/gob at one type: Decode gives back what Encode wrote. `none` is an error of Decode,
-- after which the target keeps its zero value.
pub record Gob (A : Type 0) : Type 0 where
  pub encode : A → Bytes
  pub decode : Bytes → Option A
  pub decode-encode : (a : A) → decode (encode a) ≡ some a
  pub decode-nil : decode [] ≡ none

pub record Platform : Type 0 where
  pub sha256 : Bytes → Bytes
  pub ripemd160 : Bytes → Bytes
  pub base58_encode : Bytes → Bytes
  pub base58_decode : Bytes → Bytes
  -- the coordinates of the key, the hash, r and s
  pub ecdsa_verify : ℕ → ℕ → Bytes → ℕ → ℕ → Bool
  pub gob_tx_input : Gob TxInput
  pub gob_transaction : Gob Transaction
  pub gob_tx_outputs : Gob TxOutputs
  pub gob_block_header : Gob BlockHeader
  pub gob_block : Gob Block
  pub length-sha256 : (b : Bytes) → length (sha256 b) ≡ 32
  pub length-ripemd160 : (b : Bytes) → length (ripemd160 b) ≡ 20
  pub base58_decode-encode : (b : Bytes) → base58_decode (base58_encode b) ≡ b

-- genericDeserialize and the other decoders: an error is dropped, and leaves the zero value.
unfoldable pub generic_deserialize : {A : Type 0} → Gob A → A → Bytes → A
generic_deserialize gob zero_value bytes = elim (gob.decode bytes) [
  | none ↦ zero_value
  | some a ↦ a
]

pub generic_deserialize-encode :
    {A : Type 0} (gob : Gob A) (zero_value a : A)
    → generic_deserialize gob zero_value (gob.encode a) ≡ a
unfolding generic_deserialize
generic_deserialize-encode gob zero_value a = rw (gob.decode-encode a, generic_deserialize)

pub generic_deserialize-nil :
    {A : Type 0} (gob : Gob A) (zero_value : A) → generic_deserialize gob zero_value [] ≡ zero_value
unfolding generic_deserialize
generic_deserialize-nil gob zero_value = rw (gob.decode-nil, generic_deserialize)

pub encode_injective : {A : Type 0} (gob : Gob A) (a b : A) → gob.encode a ≡ gob.encode b → a ≡ b
encode_injective gob a b h =
    some-injective a b (sym (gob.decode-encode a) ∙ ap gob.decode h ∙ gob.decode-encode b)
