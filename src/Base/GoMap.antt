-- ===== src/Base/GoMap.antt =====
-- Go's map[string]V: an association list over byte strings, one entry for each key that was set.
-- Go iterates over a map in an unspecified order; the model's order is that of the list.

use mathlib.Core.Path.{◌≡◌, refl}
use mathlib.Core.List.{◌++◌, List, [], ◌∷◌}
use mathlib.Core.Option.{Option, none, some}
use native.Mathlib.Omega.{arith}
use echain.Base.Tests.{if◌then◌else◌}
use echain.Base.ByteString.{Bytes, ◌=ᵇ◌, =ᵇ_iff}

abbrev pub GoMap {ℓ} : Type ℓ → Type ℓ
GoMap V = List (Bytes × V)

module _ {ℓ} {V : Type ℓ} where
  -- v, ok := m[k]
  abbrev pub find : GoMap V → Bytes → Option V
  find [] k = none
  find ((j, v) ∷ m) k = if j =ᵇ k then some v else find m k

  -- m[k] with the zero value of V
  abbrev pub find_or : V → GoMap V → Bytes → V
  find_or d [] k = d
  find_or d ((j, v) ∷ m) k = if j =ᵇ k then v else find_or d m k

  -- m[k] = v
  abbrev pub set : GoMap V → Bytes → V → GoMap V
  set [] k v = (k, v) ∷ []
  set ((j, w) ∷ m) k v = if j =ᵇ k then (j, v) ∷ m else (j, w) ∷ set m k v

  -- delete(m, k)
  abbrev pub delete : GoMap V → Bytes → GoMap V
  delete [] k = []
  delete ((j, w) ∷ m) k = if j =ᵇ k then delete m k else (j, w) ∷ delete m k

  pub find-set :
      (m : GoMap V) (k j : Bytes) (v : V)
      → find (set m k v) j ≡ (if k =ᵇ j then some v else find m j)
  find-set [] k j v = refl
  find-set ((i, w) ∷ m) k j v = ground (arith, =ᵇ_iff k j, =ᵇ_iff i k, =ᵇ_iff i j, find-set m k j v)

  pub find_or-set :
      (d : V) (m : GoMap V) (k j : Bytes) (v : V)
      → find_or d (set m k v) j ≡ (if k =ᵇ j then v else find_or d m j)
  find_or-set d [] k j v = refl
  find_or-set d ((i, w) ∷ m) k j v =
      ground (arith, =ᵇ_iff k j, =ᵇ_iff i k, =ᵇ_iff i j, find_or-set d m k j v)

  pub find-delete :
      (m : GoMap V) (k j : Bytes) → find (delete m k) j ≡ (if k =ᵇ j then none else find m j)
  find-delete [] k j = ground arith
  find-delete ((i, w) ∷ m) k j =
      ground (arith, =ᵇ_iff k j, =ᵇ_iff i k, =ᵇ_iff i j, find-delete m k j)

  abbrev pub AllKeys {κ} : (Bytes → Type κ) → GoMap V → Type κ
  AllKeys P [] = Unit
  AllKeys P ((k, v) ∷ m) = P k × AllKeys P m

  -- No key stands twice.
  abbrev pub DistinctKeys : GoMap V → Type ℓ
  DistinctKeys [] = Unit
  DistinctKeys ((k, v) ∷ m) = (find m k ≡ none) × DistinctKeys m

  pub set-DistinctKeys :
      (m : GoMap V) (k : Bytes) (v : V) → DistinctKeys m → DistinctKeys (set m k v)
  set-DistinctKeys [] k v d = (refl, tt)
  set-DistinctKeys ((j, w) ∷ m) k v d =
      ground (arith, =ᵇ_iff j k, =ᵇ_iff k j, find-set m k j v, set-DistinctKeys m k v d.1)

-- m[k] = append(m[k], a)
abbrev pub append_to {ℓ} : {A : Type ℓ} → GoMap (List A) → Bytes → A → GoMap (List A)
append_to m k a = set m k (find_or [] m k ++ a ∷ [])

module _ {ℓ} {V : Type ℓ} where
  pub delete-AllKeys {κ} :
      (P : Bytes → Type κ) (m : GoMap V) (k : Bytes) → AllKeys P m → AllKeys P (delete m k)
  delete-AllKeys P [] k a = tt
  delete-AllKeys P ((j, w) ∷ m) k a = ground (arith, delete-AllKeys P m k a.1)

  pub delete-DistinctKeys : (m : GoMap V) (k : Bytes) → DistinctKeys m → DistinctKeys (delete m k)
  delete-DistinctKeys [] k d = tt
  delete-DistinctKeys ((j, w) ∷ m) k d =
      ground (arith, delete-DistinctKeys m k d.1, find-delete m k j)
