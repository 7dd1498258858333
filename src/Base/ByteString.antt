-- ===== src/Base/ByteString.antt =====
-- Go's []byte and string: a list of numbers. A nil slice and an empty one are both [].
use Prim.Native.Nat.{ℕ}
use mathlib.Core.Path.{◌≡◌, refl}
use mathlib.Core.Logic.{◌↔◌}
use mathlib.Core.Bool.{Bool, true, false, ◌&&◌}
use Prim.Native.Char.{code}
use Prim.Native.String.{String}
use mathlib.Core.List.{◌++◌, List, [], ◌∷◌}
use native.Mathlib.Omega.{arith}
use echain.Base.Tests.{◌==◌}
use echain.Base.Lists.{length, drop, exists}

abbrev pub Bytes : Type 0
Bytes = List ℕ

-- bytes.Equal, slices.Equal, and == on strings.
infix 50 ◌=ᵇ◌
abbrev pub ◌=ᵇ◌ : Bytes → Bytes → Bool
[] =ᵇ [] = true
(x ∷ xs) =ᵇ (y ∷ ys) = x == y && xs =ᵇ ys
_ =ᵇ _ = false

pub =ᵇ-refl : (a : Bytes) → (a =ᵇ a) ≡ true
=ᵇ-refl [] = refl
=ᵇ-refl (x ∷ xs) = ground (arith, =ᵇ-refl xs)

pub =ᵇ_sound : (a b : Bytes) → (a =ᵇ b) ≡ true → a ≡ b
=ᵇ_sound [] [] h = refl
=ᵇ_sound [] (y ∷ ys) h = cc
=ᵇ_sound (x ∷ xs) [] h = cc
=ᵇ_sound (x ∷ xs) (y ∷ ys) h = ground (arith, =ᵇ_sound xs ys)

pub =ᵇ_iff : (a b : Bytes) → ((a =ᵇ b) ≡ true) ↔ (a ≡ b)
=ᵇ_iff a b = (=ᵇ_sound a b, λ e. ground (arith, =ᵇ-refl a))

-- len(b) == 0
abbrev pub is_empty : Bytes → Bool
is_empty [] = true
is_empty (x ∷ xs) = false

-- slices.Contains
abbrev pub contains_bytes : List Bytes → Bytes → Bool
contains_bytes xs a = exists (λ x. x =ᵇ a) xs

abbrev pub contains : List ℕ → ℕ → Bool
contains xs a = exists (λ x. x == a) xs

-- A Go string literal: the bytes of an ASCII text.
abbrev pub codes : String → Bytes
codes String.[] = []
codes (String.◌∷◌ c s) = code c ∷ codes s

-- bytes.HasPrefix(b, prefix)
abbrev pub has_prefix : Bytes → Bytes → Bool
has_prefix [] b = true
has_prefix (x ∷ prefix) [] = false
has_prefix (x ∷ prefix) (y ∷ b) = x == y && has_prefix prefix b

pub has_prefix-append : (p b : Bytes) → has_prefix p (p ++ b) ≡ true
has_prefix-append [] b = refl
has_prefix-append (x ∷ p) b = ground (arith, has_prefix-append p b)

pub append-drop_prefix : (p b : Bytes) → has_prefix p b ≡ true → p ++ drop (length p) b ≡ b
append-drop_prefix [] b h = refl
append-drop_prefix (x ∷ p) [] h = cc
append-drop_prefix (x ∷ p) (y ∷ b) h = ground (arith, append-drop_prefix p b)
