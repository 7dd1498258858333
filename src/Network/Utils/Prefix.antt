-- ===== src/Network/Utils/Prefix.antt =====
-- msgTypeToBytes and getMsgType of network/utils.go, on the two sides of a connection.
use echain.Base.{
  ℕ, zero, suc, ◌-◌, ◌≤◌, ◌≡◌, refl, ap, sym, ◌∙◌, false, Bytes, [], ◌∷◌, ◌++◌, ok, length,
  length-append, take, drop, take-length, drop-length, contains, arith,
}
use echain.Network.Messages.{msg_type_length}
use echain.Network.Utils.{zeros, msg_type_to_bytes, trim_left, trim_right, get_msg_type}

length-zeros : (n : ℕ) → length (zeros n) ≡ n
length-zeros zero = refl
length-zeros (suc n) = ap suc (length-zeros n)

trim_right-zeros : (n : ℕ) → trim_right (zeros n) ≡ []
unfolding trim_right
trim_right-zeros zero = refl
trim_right-zeros (suc n) = ground (arith, trim_right-zeros n)

trim_right-padded : (b : Bytes) (n : ℕ) → contains b 0 ≡ false → trim_right (b ++ zeros n) ≡ b
unfolding trim_right
trim_right-padded [] n h = trim_right-zeros n
trim_right-padded (x ∷ b) n h = ground (arith, trim_right-padded b n)

trim_left-full : (b : Bytes) → contains b 0 ≡ false → trim_left b ≡ b
unfolding trim_left
trim_left-full [] h = refl
trim_left-full (x ∷ b) h = ground arith

-- A message type of at most 12 bytes and without a zero byte is put in front of a payload by
-- msgTypeToBytes, and the receiver gets both back: getMsgType gives the type, and what follows the
-- first 12 bytes is the payload.
pub msg_type_to_bytes-get_msg_type :
    (msg_type payload : Bytes)
    → length msg_type ≤ 12
    → contains msg_type 0 ≡ false
    → (prefix : Bytes) × (msg_type_to_bytes msg_type ≡ ok prefix)
      × (get_msg_type (prefix ++ payload) ≡ msg_type)
      × (drop msg_type_length (prefix ++ payload) ≡ payload)
unfolding msg_type_to_bytes get_msg_type
msg_type_to_bytes-get_msg_type msg_type payload short full =
    let prefix : Bytes = msg_type ++ zeros (12 - length msg_type) in
    let long : length prefix ≡ 12 =
      length-append msg_type (zeros (12 - length msg_type))
      ∙ omega (arith, length-zeros (12 - length msg_type)) in
    let taken : take 12 (prefix ++ payload) ≡ prefix =
      ap (λ n. take n (prefix ++ payload)) (sym long) ∙ take-length prefix payload in
    (
      prefix,
      ground arith,
      ap (λ b. trim_left (trim_right b)) taken
          ∙ ap trim_left (trim_right-padded msg_type (12 - length msg_type) full)
          ∙ trim_left-full msg_type full,
      ap (λ n. drop n (prefix ++ payload)) (sym long) ∙ drop-length prefix payload,
    )
