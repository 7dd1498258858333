-- ===== src/Tests/ToyPlatform.antt =====
-- A concrete platform, which shows that the laws of Platform.antt can be met and runs the model.
-- The hash is a number below 2 ^ 60 that depends on every byte; base58 is the identity.
use echain.Base.{ℕ, ◌+◌, ◌*◌, ◌%◌, ◌≡◌, refl, Bytes, [], ◌∷◌, length, ◌==◌}
use echain.Types.{TxInput, TxOutput, TxOutputWithIndex, TxOutputs, Transaction, BlockHeader, Block}
use echain.Platform.{Platform}
use echain.Tests.Coders.{Coder, number, list_of, pair_of, coded_as, gob_of}

abbrev pub bytes : Coder Bytes
bytes = list_of number

input_code : Coder TxInput
unfolding coded_as
input_code =
    coded_as (pair_of bytes (pair_of number (pair_of bytes bytes)))
      (λ i. (i.tx_id, (i.v_out, (i.script_sig.signature, i.script_sig.pub_key))))
      (λ p. record {
        tx_id = p.0;
        v_out = p.1.0;
        script_sig = record { signature = p.1.1.0; pub_key = p.1.1.1 };
      })
      (λ i. refl)

output_code : Coder TxOutput
unfolding coded_as
output_code =
    coded_as (pair_of number bytes) (λ o. (o.value, o.script_pub_key.pub_key_hash))
      (λ p. record { value = p.0; script_pub_key = record { pub_key_hash = p.1 } }) (λ o. refl)

unfoldable pub transaction_code : Coder Transaction
unfolding coded_as input_code output_code
transaction_code =
    coded_as (pair_of bytes (pair_of (list_of input_code) (pair_of (list_of output_code) number)))
      (λ t. (t.hash, (t.inputs, (t.outputs, t.locktime))))
      (λ p. record { hash = p.0; inputs = p.1.0; outputs = p.1.1.0; locktime = p.1.1.1 })
      (λ t. refl)

outputs_code : Coder TxOutputs
unfolding coded_as output_code
outputs_code = list_of (
    coded_as (pair_of output_code number) (λ (o : TxOutputWithIndex). (o.tx_output, o.index))
      (λ p. record { tx_output = p.0; index = p.1 }) (λ o. refl))

unfoldable pub header_code : Coder BlockHeader
unfolding coded_as
header_code =
    coded_as (pair_of bytes (pair_of bytes (pair_of bytes number)))
      (λ h. (h.prev_hash, (h.merkle_root, (h.timestamp, h.nonce))))
      (λ p. record { prev_hash = p.0; merkle_root = p.1.0; timestamp = p.1.1.0; nonce = p.1.1.1 })
      (λ h. refl)

unfoldable pub block_code : Coder Block
unfolding coded_as header_code transaction_code
block_code =
    coded_as (pair_of header_code (list_of transaction_code))
      (λ b. (b.block_header, b.transactions))
      (λ p. record { block_header = p.0; transactions = p.1 }) (λ b. refl)

pub digest : ℕ → Bytes → ℕ
digest n [] = n
digest n (b ∷ bs) = digest ((n * 1000003 + b + 1) % 1152921504606846976) bs

abbrev pub zeros_19 : Bytes → Bytes
zeros_19 end = 0 ∷ 0 ∷ 0 ∷ 0 ∷ 0 ∷ 0 ∷ 0 ∷ 0 ∷ 0 ∷ 0 ∷ 0 ∷ 0 ∷ 0 ∷ 0 ∷ 0 ∷ 0 ∷ 0 ∷ 0 ∷ 0 ∷ end

pub hash_20 : Bytes → Bytes
unfolding digest
hash_20 b = zeros_19 (digest 7 b ∷ [])

pub hash_32 : Bytes → Bytes
unfolding digest
hash_32 b = zeros_19 (0 ∷ 0 ∷ 0 ∷ 0 ∷ 0 ∷ 0 ∷ 0 ∷ 0 ∷ 0 ∷ 0 ∷ 0 ∷ 0 ∷ digest 5 b ∷ [])

pub length-hash_20 : (b : Bytes) → length (hash_20 b) ≡ 20
unfolding hash_20
length-hash_20 b = refl

pub length-hash_32 : (b : Bytes) → length (hash_32 b) ≡ 32
unfolding hash_32
length-hash_32 b = refl

pub same_bytes : (b : Bytes) → ◌≡◌ {A = Bytes} b b
same_bytes b = refl

instance unfoldable pub toy : Platform
unfolding hash_20 hash_32 gob_of input_code transaction_code outputs_code header_code block_code
    number list_of pair_of coded_as
toy = record {
  sha256 = hash_32;
  ripemd160 = hash_20;
  base58_encode = λ b. b;
  base58_decode = λ b. b;
  ecdsa_verify = λ x y hash r s. r == x;
  gob_tx_input = gob_of input_code;
  gob_transaction = gob_of transaction_code;
  gob_tx_outputs = gob_of outputs_code;
  gob_block_header = gob_of header_code;
  gob_block = gob_of block_code;
  length-sha256 = length-hash_32;
  length-ripemd160 = length-hash_20;
  base58_decode-encode = same_bytes;
}
