-- ===== src/Wallet/Keys.antt =====
-- createWallet of wallet/wallet.go, and Bytes of math/big. What ecdsa.GenerateKey gives is an
-- argument: the private key and the coordinates of the public key.
pub mod Halves
use echain.Base.{ℕ, zero, suc, ◌/◌, ◌%◌, Bytes, [], ◌∷◌, ◌++◌, ◌==◌, if◌then◌else◌}
use echain.Wallet.Address.{Wallet}

abbrev pub pub_key_constant_prefix : ℕ
pub_key_constant_prefix = 4

-- The bytes of a number, the most significant first and none of them a leading zero. A number has
-- fewer digits than its value, which is the fuel.
unfoldable pub int_bytes_from : ℕ → ℕ → Bytes → Bytes
int_bytes_from zero n bytes = bytes
int_bytes_from (suc fuel) n bytes =
    let rest = int_bytes_from fuel (n / 256) (n % 256 ∷ bytes) in if n == 0 then bytes else rest

unfoldable pub int_bytes : ℕ → Bytes
unfolding int_bytes_from
int_bytes n = int_bytes_from n n []

unfoldable pub create_wallet : ℕ → ℕ → ℕ → Wallet
create_wallet private_key x y = record {
  private_key = private_key;
  public_key = pub_key_constant_prefix ∷ int_bytes x ++ int_bytes y;
}
