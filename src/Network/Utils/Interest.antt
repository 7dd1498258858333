-- ===== src/Network/Utils/Interest.antt =====
-- isTransactionOfInterest of network/utils.go for addresses that decode.
use echain.Base.{◌≡◌, refl, Bool, ◌||◌, Bytes, List, [], ◌∷◌, ok, ◌=ᵇ◌, exists, arith}
use echain.Types.{TxInput, TxOutput, Transaction}
use echain.Platform.{Platform}
use echain.Blockchain.Utils.{get_pubkey_hash_from_address, get_pubkey_hash_from_pubkey}
use echain.Blockchain.Transaction.{is_signed_by, is_bound_to}
use echain.Network.Utils.{input_of_interest, output_of_interest, is_transaction_of_interest}
use echain.Network.Spv.MerkleBlock.Interest.{Decodes}

module _ ⦃platform : Platform⦄ where
  -- An input has a key with the hash, or an output is locked by it.
  abbrev pub names_owner : Transaction → Bytes → Bool
  names_owner t owner =
      exists (λ i. get_pubkey_hash_from_pubkey i.script_sig.pub_key =ᵇ owner) t.inputs
      || exists (λ o. o.script_pub_key.pub_key_hash =ᵇ owner) t.outputs

  module _ (address owner : Bytes) (valid : get_pubkey_hash_from_address address ≡ ok owner) where
    input_of_interest-exists :
        (is : List TxInput)
        → input_of_interest is address
          ≡ ok (exists (λ i. get_pubkey_hash_from_pubkey i.script_sig.pub_key =ᵇ owner) is)
    unfolding input_of_interest is_signed_by
    input_of_interest-exists [] = refl
    input_of_interest-exists (i ∷ is) = rw valid (ground (arith, input_of_interest-exists is))

    output_of_interest-exists :
        (os : List TxOutput)
        → output_of_interest os address
          ≡ ok (exists (λ o. o.script_pub_key.pub_key_hash =ᵇ owner) os)
    unfolding output_of_interest is_bound_to
    output_of_interest-exists [] = refl
    output_of_interest-exists (o ∷ os) = rw valid (ground (arith, output_of_interest-exists os))

  -- For a filter of addresses that decode, isTransactionOfInterest tells whether the transaction
  -- has, for one of their public key hashes, an input with such a key or an output locked by it.
  pub is_transaction_of_interest-names_owner :
      (addresses owners : List Bytes) (t : Transaction)
      → Decodes addresses owners
      → is_transaction_of_interest t addresses ≡ ok (exists (names_owner t) owners)
  unfolding is_transaction_of_interest
  is_transaction_of_interest-names_owner [] [] t d = refl
  is_transaction_of_interest-names_owner [] (owner ∷ owners) t d = absurd d
  is_transaction_of_interest-names_owner (address ∷ addresses) [] t d = absurd d
  is_transaction_of_interest-names_owner (address ∷ addresses) (owner ∷ owners) t d = ground (
    arith,
    input_of_interest-exists address owner d.0 t.inputs,
    output_of_interest-exists address owner d.0 t.outputs,
    is_transaction_of_interest-names_owner addresses owners t d.1,
  )
