-- ===== src/Network/Spv/MerkleBlock/Interest.antt =====
-- isTxnInputOfInterest of network/spv.go for addresses that decode.
use echain.Base.{◌≡◌, refl, Bool, Bytes, List, [], ◌∷◌, ok, =ᵇ_iff, keep, contains_bytes, arith}
use echain.Types.{TxInput}
use echain.Platform.{Platform}
use echain.Blockchain.Utils.{get_pubkey_hash_from_address, get_pubkey_hash_from_pubkey}
use echain.Blockchain.Transaction.{is_signed_by}
use echain.Network.Spv.MerkleBlock.{is_txn_input_of_interest, inputs_of_interest}

module _ ⦃platform : Platform⦄ where
  -- The addresses decode to the public key hashes.
  abbrev pub Decodes : List Bytes → List Bytes → Type 0
  Decodes [] [] = Unit
  Decodes (address ∷ addresses) (owner ∷ owners) =
      (get_pubkey_hash_from_address address ≡ ok owner) × Decodes addresses owners
  Decodes _ _ = ⊥

  -- One of the public key hashes is that of the key of the input.
  unfoldable pub signed_by_any : List Bytes → TxInput → Bool
  signed_by_any owners i = contains_bytes owners (get_pubkey_hash_from_pubkey i.script_sig.pub_key)

  is_txn_input_of_interest-any :
      (addresses owners : List Bytes) (i : TxInput)
      → Decodes addresses owners
      → is_txn_input_of_interest addresses i ≡ ok (signed_by_any owners i)
  unfolding is_txn_input_of_interest signed_by_any is_signed_by
  is_txn_input_of_interest-any [] [] i d = refl
  is_txn_input_of_interest-any [] (owner ∷ owners) i d = absurd d
  is_txn_input_of_interest-any (address ∷ addresses) [] i d = absurd d
  is_txn_input_of_interest-any (address ∷ addresses) (owner ∷ owners) i d =
      let hash = get_pubkey_hash_from_pubkey i.script_sig.pub_key in
      rw d.0 (
        ground (
          arith,
          is_txn_input_of_interest-any addresses owners i d.1,
          =ᵇ_iff hash owner,
          =ᵇ_iff owner hash,
        ))

  pub inputs_of_interest-keep :
      (addresses owners : List Bytes) (inputs : List TxInput)
      → Decodes addresses owners
      → inputs_of_interest addresses inputs ≡ ok (keep (signed_by_any owners) inputs)
  unfolding inputs_of_interest
  inputs_of_interest-keep addresses owners [] d = refl
  inputs_of_interest-keep addresses owners (i ∷ is) d = rw (
    is_txn_input_of_interest-any addresses owners i d,
    inputs_of_interest-keep addresses owners is d,
  )
