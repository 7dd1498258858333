-- ===== src/Wallet/Keys/Halves.antt =====
-- createWallet of wallet/wallet.go against getECDSAPubkeyFromUncompressedPubkey, which cuts the key
-- in the middle.
use echain.Base.{
  ℕ, zero, suc, ◌+◌, ◌*◌, ◌/◌, ◌%◌, ◌≤◌, ◌≡◌, ◌⊎◌, ◌↔◌, refl, ap, sym, ◌∙◌, inl, inr, true, Bytes,
  [], ◌∷◌, ◌++◌, Run, ok, length, length-append, take, drop, take-length, drop-length, ◌==◌,
  Bool-cases, if◌then◌else◌, arith,
}
use echain.Blockchain.Utils.{set_bytes_from, set_bytes, get_ecdsa_pubkey_from_uncompressed_pubkey}
use echain.Wallet.Keys.{pub_key_constant_prefix, int_bytes_from, int_bytes, create_wallet}

set_bytes-int_bytes_from :
    (fuel n : ℕ) (bytes : Bytes)
    → n ≤ fuel
    → set_bytes_from 0 (int_bytes_from fuel n bytes) ≡ set_bytes_from n bytes
unfolding int_bytes_from set_bytes_from
set_bytes-int_bytes_from zero n bytes h = ap (λ k. set_bytes_from k bytes) (omega arith)
set_bytes-int_bytes_from (suc fuel) n bytes h = elim (Bool-cases (n == 0)) [
  | inl e ↦ rw e (ap (λ k. set_bytes_from k bytes) (ground (arith, e)))
  | inr e ↦ rw e (
      set_bytes-int_bytes_from fuel (n / 256) (n % 256 ∷ bytes) (ground (arith, e))
      ∙ ap (λ k. set_bytes_from k bytes) (omega arith))
]

set_bytes-int_bytes : (n : ℕ) → set_bytes (int_bytes n) ≡ n
unfolding int_bytes set_bytes_from
set_bytes-int_bytes n = set_bytes-int_bytes_from n n [] (omega arith)

-- More bytes make a number larger, except for leading zeros.
set_bytes_from-at_least : (n : ℕ) (bytes : Bytes) → n ≤ set_bytes_from n bytes
unfolding set_bytes_from
set_bytes_from-at_least n [] = omega arith
set_bytes_from-at_least n (b ∷ bytes) = omega (arith, set_bytes_from-at_least (n * 256 + b) bytes)

set_bytes_from-cons_ne :
    (n b : ℕ) (bytes : Bytes) → 1 ≤ n + b → ¬ (set_bytes_from n (b ∷ bytes) ≡ n)
unfolding set_bytes_from
set_bytes_from-cons_ne n b bytes some e =
    absurd (omega (arith, set_bytes_from-at_least (n * 256 + b) bytes))

set_bytes_from-append :
    (n : ℕ) (a b : Bytes) → set_bytes_from n (a ++ b) ≡ set_bytes_from (set_bytes_from n a) b
unfolding set_bytes_from
set_bytes_from-append n [] b = refl
set_bytes_from-append n (c ∷ a) b = set_bytes_from-append (n * 256 + c) a b

int_bytes_from-cons :
    (fuel n : ℕ) (bytes : Bytes)
    → 1 ≤ n
    → n ≤ fuel
    → (b : ℕ) × (rest : Bytes) × (int_bytes_from fuel n bytes ≡ b ∷ rest) × (1 ≤ b)
unfolding int_bytes_from
int_bytes_from-cons zero n bytes some h = absurd (omega arith)
int_bytes_from-cons (suc fuel) n bytes some h = elim (Bool-cases (n / 256 == 0)) [
  | inl e ↦ (n % 256, bytes, last fuel e, ground (arith, e))
  | inr e ↦
      let (b, rest, same, lead) =
        int_bytes_from-cons fuel (n / 256) (n % 256 ∷ bytes) (ground (arith, e)) (omega arith) in
      (b, rest, ground (arith, same), lead)
]
  where
    last :
        (k : ℕ)
        → (n / 256 == 0) ≡ true
        → (if n == 0 then bytes else int_bytes_from k (n / 256) (n % 256 ∷ bytes)) ≡ n % 256 ∷ bytes
    last zero e = ground arith
    last (suc k) e = ground (arith, e)

int_bytes-cons : (n : ℕ) → 1 ≤ n → (b : ℕ) × (rest : Bytes) × (int_bytes n ≡ b ∷ rest) × (1 ≤ b)
unfolding int_bytes
int_bytes-cons n some = int_bytes_from-cons n n [] some (omega arith)

int_bytes-nil : int_bytes 0 ≡ []
unfolding int_bytes int_bytes_from
int_bytes-nil = refl

take-append-drop : (m : ℕ) (a : Bytes) → take m a ++ drop m a ≡ a
take-append-drop zero a = refl
take-append-drop (suc m) [] = refl
take-append-drop (suc m) (c ∷ a) = ap (◌∷◌ c) (take-append-drop m a)

-- Where a cut of two joined byte strings is: between them, in the first or in the second.
take_cases :
    (m : ℕ) (a b : Bytes)
    → m ≤ length (a ++ b)
    → (m ≡ length a)
      ⊎ (((p : Bytes) × (c : ℕ) × (q : Bytes) × (a ≡ p ++ c ∷ q) × (take m (a ++ b) ≡ p))
          ⊎ ((c : ℕ) × (q : Bytes) × (r : Bytes) × (b ≡ c ∷ q ++ r)
              × (take m (a ++ b) ≡ a ++ c ∷ q)))
take_cases zero [] b h = inl refl
take_cases zero (x ∷ a) b h = inr (inl ([], x, a, refl, refl))
take_cases (suc m) [] [] h = absurd (omega arith)
take_cases (suc m) [] (c ∷ b) h =
    inr (inr (c, take m b, drop m b, ap (◌∷◌ c) (sym (take-append-drop m b)), refl))
take_cases (suc m) (x ∷ a) b h = elim (take_cases m a b (omega arith)) [
  | inl e ↦ inl (omega arith)
  | inr (inl (p, c, q, split, cut)) ↦ inr (inl (x ∷ p, c, q, ap (◌∷◌ x) split, ap (◌∷◌ x) cut))
  | inr (inr (c, q, r, split, cut)) ↦ inr (inr (c, q, r, split, ap (◌∷◌ x) cut))
]

-- Neither a shorter nor a longer byte string is the same number.
cut_in_first :
    (x : ℕ) (p : Bytes) (c : ℕ) (q : Bytes) → int_bytes x ≡ p ++ c ∷ q → ¬ (set_bytes p ≡ x)
cut_in_first zero p c q split same =
    absurd (omega (arith, length-append p (c ∷ q), ap length (sym int_bytes-nil ∙ split)))
cut_in_first (suc x) p c q split same = set_bytes_from-cons_ne (suc x) c q (omega arith) (
    ap (λ n. set_bytes_from n (c ∷ q)) (sym same)
    ∙ sym (set_bytes_from-append 0 p (c ∷ q))
    ∙ ap set_bytes (sym split)
    ∙ set_bytes-int_bytes (suc x))

lead_of_second : (y c : ℕ) (rest : Bytes) → int_bytes y ≡ c ∷ rest → 1 ≤ c
lead_of_second zero c rest split = absurd (omega (arith, ap length (sym int_bytes-nil ∙ split)))
lead_of_second (suc y) c rest split =
    let (b, more, same, lead) = int_bytes-cons (suc y) (omega arith) in
    let heads : c ≡ b = head_eq c b rest more (sym split ∙ same) in omega arith
  where
    head_eq : (c b : ℕ) (xs ys : Bytes) → ◌≡◌ {A = Bytes} (c ∷ xs) (b ∷ ys) → c ≡ b
    head_eq c b xs ys e = cc

cut_in_second :
    (x y c : ℕ) (q r : Bytes) → int_bytes y ≡ c ∷ q ++ r → ¬ (set_bytes (int_bytes x ++ c ∷ q) ≡ x)
cut_in_second x y c q r split same =
    set_bytes_from-cons_ne x c q (omega (arith, lead_of_second y c (q ++ r) split)) (
      ap (λ n. set_bytes_from n (c ∷ q)) (sym (set_bytes-int_bytes x))
      ∙ sym (set_bytes_from-append 0 (int_bytes x) (c ∷ q))
      ∙ same)

-- The coordinates that a key decodes to.
decoded : (a b : Bytes) → Run (ℕ × ℕ)
decoded a b = get_ecdsa_pubkey_from_uncompressed_pubkey (pub_key_constant_prefix ∷ a ++ b)

first_of : Run (ℕ × ℕ) → ℕ
first_of (ok p) = p.0
first_of _ = 0

first_of-decoded :
    (a b : Bytes) → first_of (decoded a b) ≡ set_bytes (take (length (a ++ b) / 2) (a ++ b))
unfolding decoded get_ecdsa_pubkey_from_uncompressed_pubkey first_of
first_of-decoded a b = refl

-- The numbers have equally many bytes, or the second has one more.
abbrev pub IsBalanced : ℕ → ℕ → Type 0
IsBalanced a b =
    (length (int_bytes a) ≡ length (int_bytes b))
    ⊎ (length (int_bytes a) + 1 ≡ length (int_bytes b))

middle_of_balanced :
    (a b : Bytes)
    → (length a ≡ length b) ⊎ (length a + 1 ≡ length b)
    → length (a ++ b) / 2 ≡ length a
middle_of_balanced a b (inl e) = omega (arith, length-append a b)
middle_of_balanced a b (inr e) = omega (arith, length-append a b)

-- Two balanced numbers that were joined are found again in the halves.
pub halves_of_joined :
    (a b : ℕ)
    → IsBalanced a b
    → let joined = int_bytes a ++ int_bytes b in
      (set_bytes (take (length joined / 2) joined) ≡ a)
      × (set_bytes (drop (length joined / 2) joined) ≡ b)
halves_of_joined a b h =
    let middle = middle_of_balanced (int_bytes a) (int_bytes b) h in
    (
      rw (middle, take-length (int_bytes a) (int_bytes b)) (set_bytes-int_bytes a),
      rw (middle, drop-length (int_bytes a) (int_bytes b)) (set_bytes-int_bytes b),
    )

decoded_halves :
    (a b : Bytes)
    → (length a ≡ length b) ⊎ (length a + 1 ≡ length b)
    → decoded a b ≡ ok (set_bytes a, set_bytes b)
unfolding decoded get_ecdsa_pubkey_from_uncompressed_pubkey
decoded_halves a b h = rw (middle_of_balanced a b h) (rw (take-length a b, drop-length a b))

balanced_if_decoded :
    (x y : ℕ)
    → decoded (int_bytes x) (int_bytes y) ≡ ok (x, y)
    → (length (int_bytes x) ≡ length (int_bytes y))
      ⊎ (length (int_bytes x) + 1 ≡ length (int_bytes y))
unfolding first_of
balanced_if_decoded x y e =
    let a = int_bytes x in
    let b = int_bytes y in
    let m = length (a ++ b) / 2 in
    let first : set_bytes (take m (a ++ b)) ≡ x = sym (first_of-decoded a b) ∙ ap first_of e in
    elim (take_cases m a b (omega arith)) [
      | inl middle ↦ half_way (length a) (length b) (omega (arith, length-append a b))
      | inr (inl (p, c, q, split, cut)) ↦
          absurd (cut_in_first x p c q split (ap set_bytes (sym cut) ∙ first))
      | inr (inr (c, q, r, split, cut)) ↦
          absurd (cut_in_second x y c q r split (ap set_bytes (sym cut) ∙ first))
    ]
  where
    half_way : (la lb : ℕ) → (la + lb) / 2 ≡ la → (la ≡ lb) ⊎ (la + 1 ≡ lb)
    half_way la lb h = elim (Bool-cases (la == lb)) [
      | inl e ↦ inl (ground (arith, e))
      | inr e ↦ inr (ground (arith, e))
    ]

-- createWallet drops leading zero bytes of the coordinates. The key in the wallet decodes to them
-- exactly if they have equally many bytes without these, or the second has one more.
pub create_wallet-decodes :
    (private_key x y : ℕ)
    → (get_ecdsa_pubkey_from_uncompressed_pubkey (create_wallet private_key x y).public_key
        ≡ ok (x, y))
      ↔ ((length (int_bytes x) ≡ length (int_bytes y))
          ⊎ (length (int_bytes x) + 1 ≡ length (int_bytes y)))
unfolding create_wallet decoded
create_wallet-decodes private_key x y = (
  balanced_if_decoded x y,
  λ h.
      decoded_halves (int_bytes x) (int_bytes y) h
      ∙ ap (λ (a : ℕ). ok (a, set_bytes (int_bytes y))) (set_bytes-int_bytes x)
      ∙ ap (λ (b : ℕ). ok (x, b)) (set_bytes-int_bytes y),
)
