-- ===== src/Base/GoInt.antt =====
-- Go's int and int64 as 64-bit patterns: a number below 2 ^ 64 that stands for itself if it is
-- below 2 ^ 63, and for itself less 2 ^ 64 otherwise.
use Prim.Native.Nat.{ℕ, ◌+◌, ◌-◌, ◌≤◌, ◌<◌, ◌%◌}
use mathlib.Core.Path.{◌≡◌}
use mathlib.Core.Bool.{Bool}
use native.Mathlib.Omega.{arith}
use echain.Base.Tests.{ltb}

abbrev pub modulus : ℕ
modulus = 18446744073709551616

abbrev pub half : ℕ
half = 9223372036854775808

-- a + b and a - b, which wrap.
unfoldable pub add : ℕ → ℕ → ℕ
add a b = (a + b) % modulus

unfoldable pub sub : ℕ → ℕ → ℕ
sub a b = (a + (modulus - b)) % modulus

-- a < b, signed.
unfoldable pub lt : ℕ → ℕ → Bool
lt a b = ltb ((a + half) % modulus) ((b + half) % modulus)

-- -1
abbrev pub minus_one : ℕ
minus_one = 18446744073709551615

pub add_small : (a b : ℕ) → a + b < modulus → add a b ≡ a + b
unfolding add
add_small a b h = omega arith

pub add-sub : (a b : ℕ) → a < modulus → b ≤ modulus → add b (sub a b) ≡ a
unfolding add sub
add-sub a b h k = omega arith

pub lt_small : (a b : ℕ) → a < half → b < half → lt a b ≡ ltb a b
unfolding lt
lt_small a b h k = ground arith
