-- ===== src/Network/Utils.antt =====
-- network/utils.go: the message type in front of each message, and the transactions of interest.
pub mod Prefix
pub mod Interest
use echain.Base.{
  ℕ, zero, suc, ◌-◌, Bool, true, false, ◌&&◌, Bytes, List, [], ◌∷◌, ◌++◌, Run, ok, panic, ◌>>=◌,
  ◌==◌, ltb, is_empty, length, take, if◌then◌else◌,
}
use echain.Types.{TxInput, TxOutput, Transaction}
use echain.Platform.{Platform}
use echain.Blockchain.Transaction.{is_signed_by, is_bound_to}
use echain.Network.Messages.{msg_type_length}

abbrev pub zeros : ℕ → Bytes
zeros zero = []
zeros (suc n) = 0 ∷ zeros n

-- An array of 12 zeros, in which the type is written; a longer type is out of its range.
unfoldable pub msg_type_to_bytes : Bytes → Run Bytes
msg_type_to_bytes msg_type =
    if ltb msg_type_length (length msg_type)
    then panic
    else ok (msg_type ++ zeros (msg_type_length - length msg_type))

-- bytes.Trim(b, "\x00")
unfoldable pub trim_left : Bytes → Bytes
trim_left [] = []
trim_left (b ∷ bs) = if b == 0 then trim_left bs else b ∷ bs

unfoldable pub trim_right : Bytes → Bytes
trim_right [] = []
trim_right (b ∷ bs) = let rest = trim_right bs in if b == 0 && is_empty rest then [] else b ∷ rest

-- The bytes come from io.ReadAll, whose slice has room for 12 bytes: where fewer were read, the
-- others are zeros, which Trim drops.
unfoldable pub get_msg_type : Bytes → Bytes
get_msg_type msg = trim_left (trim_right (take msg_type_length msg))

module _ ⦃platform : Platform⦄ where
  unfoldable pub input_of_interest : List TxInput → Bytes → Run Bool
  input_of_interest [] target_addr = ok false
  input_of_interest (i ∷ is) target_addr = do
    signed ← is_signed_by i target_addr
    let rest = input_of_interest is target_addr
    if signed then ok true else rest

  unfoldable pub output_of_interest : List TxOutput → Bytes → Run Bool
  output_of_interest [] target_addr = ok false
  output_of_interest (o ∷ os) target_addr = do
    bound ← is_bound_to o target_addr
    let rest = output_of_interest os target_addr
    if bound then ok true else rest

  unfoldable pub is_transaction_of_interest : Transaction → List Bytes → Run Bool
  is_transaction_of_interest transaction [] = ok false
  is_transaction_of_interest transaction (target_addr ∷ bloom_filter) = do
    signed ← input_of_interest transaction.inputs target_addr
    bound ← (if signed then ok true else output_of_interest transaction.outputs target_addr)
    let rest = is_transaction_of_interest transaction bloom_filter
    if bound then ok true else rest
