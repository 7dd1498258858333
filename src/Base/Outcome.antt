-- ===== src/Base/Outcome.antt =====
-- The result of Go code: a value, a run-time panic, or a loop that is still running when the fuel
-- that the model gives it is used up.
use mathlib.Core.Path.{◌≡◌, refl, subst}
use mathlib.Core.Bool.{Bool, true, false}
use echain.Base.Tests.{if◌then◌else◌}

pub data Run {ℓ} (A : Type ℓ) : Type ℓ where
  timeout panic : Run A
  ok : A → Run A

module _ {ℓ κ} {A : Type ℓ} {B : Type κ} where
  -- Code goes on only after a value.
  infixl 5 ◌>>=◌
  abbrev pub ◌>>=◌ : Run A → (A → Run B) → Run B
  run >>= next = elim run [ timeout ↦ timeout | panic ↦ panic | ok a ↦ next a ]

-- A value that the code comes to has the property.
pub record Ensures {ℓ κ} {A : Type ℓ} (P : A → Type κ) (run : Run A) : Type (ℓ ⊔ κ) where
  pub at : (a : A) → run ≡ ok a → P a

module _ {ℓ κ} {A : Type ℓ} (P : A → Type κ) where
  pub Ensures-ok : (a : A) → P a → Ensures P (ok a)
  Ensures-ok a p = record { at = λ b e. subst P (cc) p }

  pub Ensures-panic : Ensures P panic
  Ensures-panic = record { at = λ b e. cc }

  pub Ensures-if :
      (b : Bool) (x y : Run A)
      → (b ≡ true → Ensures P x)
      → (b ≡ false → Ensures P y)
      → Ensures P (if b then x else y)
  Ensures-if true x y f g = f refl
  Ensures-if false x y f g = g refl

module _ {ℓ κ ι} {A : Type ℓ} {B : Type κ} (P : B → Type ι) where
  pub Ensures-bind :
      (run : Run A) (next : A → Run B)
      → ((a : A) → run ≡ ok a → Ensures P (next a))
      → Ensures P (run >>= next)
  Ensures-bind timeout next h = record { at = λ b e. cc }
  Ensures-bind panic next h = record { at = λ b e. cc }
  Ensures-bind (ok a) next h = h a refl
