-- ===== src/Tests/Coders.antt =====
-- Simple codes of values in byte strings, to have a concrete gob in the tests.
use echain.Base.{ℕ, zero, suc, ◌≡◌, refl, Bytes, List, [], ◌∷◌, Option, none, some, length}
use echain.Platform.{Gob}

-- `push` puts the code of a value in front of a rest, `pull` takes it off.
pub record Coder (A : Type 0) : Type 0 where
  pub push : A → Bytes → Bytes
  pub pull : Bytes → Option (A × Bytes)
  pub pull-push : (a : A) (rest : Bytes) → pull (push a rest) ≡ some (a, rest)
  pub pull-nil : pull [] ≡ none

pub pull_number : Bytes → Option (ℕ × Bytes)
pull_number [] = none
pull_number (n ∷ rest) = some (n, rest)

pub pull_number-cons : (n : ℕ) (rest : Bytes) → pull_number (n ∷ rest) ≡ some (n, rest)
unfolding pull_number
pull_number-cons n rest = refl

pub pull_number-nil : pull_number [] ≡ none
unfolding pull_number
pull_number-nil = refl

unfoldable pub number : Coder ℕ
unfolding pull_number
number = record {
  push = λ n rest. n ∷ rest;
  pull = pull_number;
  pull-push = pull_number-cons;
  pull-nil = pull_number-nil;
}

module _ {A : Type 0} (code : Coder A) where
  pub push_all : List A → Bytes → Bytes
  push_all [] rest = rest
  push_all (a ∷ vs) rest = code.push a (push_all vs rest)

  pull_more : Option (A × Bytes) → (Bytes → Option (List A × Bytes)) → Option (List A × Bytes)
  pull_more none f = none
  pull_more (some (a, rest)) f = elim (f rest) [
    | none ↦ none
    | some (vs, rest') ↦ some (a ∷ vs, rest')
  ]

  pub pull_all : ℕ → Bytes → Option (List A × Bytes)
  unfolding pull_more
  pull_all zero b = some ([], b)
  pull_all (suc n) b = pull_more (code.pull b) (pull_all n)

  pub pull_list : Bytes → Option (List A × Bytes)
  unfolding pull_all
  pull_list [] = none
  pull_list (n ∷ rest) = pull_all n rest

  pub push_list : List A → Bytes → Bytes
  unfolding push_all
  push_list vs rest = length vs ∷ push_all vs rest

  pull_all-push_all :
      (vs : List A) (rest : Bytes) → pull_all (length vs) (push_all vs rest) ≡ some (vs, rest)
  unfolding pull_all push_all
  pull_all-push_all [] rest = refl
  pull_all-push_all (a ∷ vs) rest =
      rw (code.pull-push a (push_all vs rest), pull_more, pull_all-push_all vs rest)

  pub pull_list-push_list :
      (vs : List A) (rest : Bytes) → pull_list (push_list vs rest) ≡ some (vs, rest)
  unfolding pull_list push_list
  pull_list-push_list vs rest = pull_all-push_all vs rest

  pub pull_list-nil : pull_list [] ≡ none
  unfolding pull_list
  pull_list-nil = refl

  unfoldable pub list_of : Coder (List A)
  unfolding pull_list push_list
  list_of = record {
    push = push_list;
    pull = pull_list;
    pull-push = pull_list-push_list;
    pull-nil = pull_list-nil;
  }

module _ {A B : Type 0} (code : Coder A) (code' : Coder B) where
  pub push_pair : A × B → Bytes → Bytes
  push_pair (a, b) rest = code.push a (code'.push b rest)

  pull_second : Option (A × Bytes) → Option ((A × B) × Bytes)
  pull_second none = none
  pull_second (some (a, rest)) = elim (code'.pull rest) [
    | none ↦ none
    | some (b, rest') ↦ some ((a, b), rest')
  ]

  pub pull_pair : Bytes → Option ((A × B) × Bytes)
  unfolding pull_second
  pull_pair b = pull_second (code.pull b)

  pub pull_pair-push_pair :
      (p : A × B) (rest : Bytes) → pull_pair (push_pair p rest) ≡ some (p, rest)
  unfolding pull_pair push_pair
  pull_pair-push_pair (a, b) rest =
      rw (code.pull-push a (code'.push b rest), pull_second, code'.pull-push b rest)

  pub pull_pair-nil : pull_pair [] ≡ none
  unfolding pull_pair
  pull_pair-nil = rw (code.pull-nil, pull_second)

  unfoldable pub pair_of : Coder (A × B)
  unfolding pull_pair push_pair
  pair_of = record {
    push = push_pair;
    pull = pull_pair;
    pull-push = pull_pair-push_pair;
    pull-nil = pull_pair-nil;
  }

module _ {A B : Type 0} (code : Coder A) (to : B → A) (from : A → B)
    (same : (b : B) → from (to b) ≡ b) where
  pull_first : Option (A × Bytes) → Option (B × Bytes)
  pull_first none = none
  pull_first (some (a, rest)) = some (from a, rest)

  pub pull_as : Bytes → Option (B × Bytes)
  unfolding pull_first
  pull_as b = pull_first (code.pull b)

  pub pull_as-push : (b : B) (rest : Bytes) → pull_as (code.push (to b) rest) ≡ some (b, rest)
  unfolding pull_as
  pull_as-push b rest = rw (code.pull-push (to b) rest, pull_first, same b)

  pub pull_as-nil : pull_as [] ≡ none
  unfolding pull_as
  pull_as-nil = rw (code.pull-nil, pull_first)

  unfoldable pub coded_as : Coder B
  unfolding pull_as
  coded_as = record {
    push = λ b. code.push (to b);
    pull = pull_as;
    pull-push = pull_as-push;
    pull-nil = pull_as-nil;
  }

module _ {A : Type 0} (code : Coder A) where
  value_of : Option (A × Bytes) → Option A
  value_of none = none
  value_of (some (a, rest)) = some a

  pub decode : Bytes → Option A
  unfolding value_of
  decode b = value_of (code.pull b)

  pub decode-push : (a : A) → decode (code.push a []) ≡ some a
  unfolding decode
  decode-push a = rw (code.pull-push a [], value_of)

  pub decode-nil : decode [] ≡ none
  unfolding decode
  decode-nil = rw (code.pull-nil, value_of)

  unfoldable pub gob_of : Gob A
  unfolding decode
  gob_of = record {
    encode = λ a. code.push a [];
    decode = decode;
    decode-encode = decode-push;
    decode-nil = decode-nil;
  }
