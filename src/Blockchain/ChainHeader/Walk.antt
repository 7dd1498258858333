-- ===== src/Blockchain/ChainHeader/Walk.antt =====
-- The loops of BlockChainHeader of blockchain/blockchain.go on a chain of headers.
use echain.Base.{
  ℕ, zero, suc, ◌+◌, ◌%◌, ◌≤◌, ◌≡◌, refl, ap, ◌∙◌, inl, inr, Bool, true, false, Bytes, List, [],
  ◌∷◌, ◌++◌, map, ok, ◌=ᵇ◌, =ᵇ-refl, exists, length, is_empty, Bool-cases, if◌then◌else◌, arith,
}
use mathlib.Core.List.{append_assoc, append-nil}
use echain.Base.GoInt
use echain.Base.GoInt.{modulus}
use echain.Base.GoMap.{GoMap}
use echain.Types.{BlockHeader}
use echain.Platform.{Platform}
use echain.LevelDb.{LevelDb}
use echain.Blockchain.ChainHeader.{
  BlockChainHeader, current_header, header_height_loop, get_height, unmatched_headers_loop,
  get_unmatched_headers,
}

-- The header stands under the hash.
abbrev pub has_key : Bytes → GoMap BlockHeader → Bool
has_key hash headers = exists (λ entry. entry.0 =ᵇ hash) headers

abbrev pub headers_of : GoMap BlockHeader → List BlockHeader
headers_of entries = map (λ entry. entry.1) entries

-- All entries but the last.
abbrev pub newer_than_last : GoMap BlockHeader → GoMap BlockHeader
newer_than_last [] = []
newer_than_last (x ∷ []) = []
newer_than_last (x ∷ y ∷ xs) = x ∷ newer_than_last (y ∷ xs)

-- The headers that the loop of GetUnmatchedHeaders passes: up to the target, or up to the last.
abbrev passed : Bytes → GoMap BlockHeader → Bool × List BlockHeader
passed target [] = (false, [])
passed target ((hash, header) ∷ []) = (hash =ᵇ target, [])
passed target ((hash, header) ∷ entry ∷ older) =
    let (found, rest) = passed target (entry ∷ older) in
    if hash =ᵇ target then (true, []) else (found, header ∷ rest)

passed-found :
    (target : Bytes) (header : BlockHeader) (newer older : GoMap BlockHeader)
    → has_key target newer ≡ false
    → passed target (newer ++ (target, header) ∷ older) ≡ (true, headers_of newer)
passed-found target header [] [] h = rw (=ᵇ-refl target)
passed-found target header [] (entry ∷ older) h = rw (=ᵇ-refl target)
passed-found target header (x ∷ []) older h =
    ground (arith, passed-found target header [] older refl)
passed-found target header (x ∷ y ∷ newer) older h =
    ground (arith, passed-found target header (y ∷ newer) older)

passed-missing :
    (target : Bytes) (headers : GoMap BlockHeader)
    → has_key target headers ≡ false
    → passed target headers ≡ (false, headers_of (newer_than_last headers))
passed-missing target [] h = refl
passed-missing target (x ∷ []) h = ground arith
passed-missing target (x ∷ y ∷ headers) h = ground (arith, passed-missing target (y ∷ headers))

module _ {Db : Type 0} ⦃level_db : LevelDb Db⦄ ⦃platform : Platform⦄ where
  -- The database has, from a hash on, the headers under their keys, the newest first; only the
  -- last has no previous hash.
  pub data LinkedHeaders (db : Db) : Bytes → GoMap BlockHeader → Type 0 where
    genesis :
        (hash : Bytes) (header : BlockHeader)
        → current_header db hash ≡ header
        → is_empty header.prev_hash ≡ true
        → LinkedHeaders db hash ((hash, header) ∷ [])
    extend :
        (hash : Bytes) (header : BlockHeader) (older : GoMap BlockHeader)
        → current_header db hash ≡ header
        → is_empty header.prev_hash ≡ false
        → LinkedHeaders db header.prev_hash older
        → LinkedHeaders db hash ((hash, header) ∷ older)

  LinkedHeaders-length :
      {db : Db} {hash : Bytes} {headers : GoMap BlockHeader}
      → LinkedHeaders db hash headers
      → 1 ≤ length headers
  LinkedHeaders-length (genesis hash header s e) = omega arith
  LinkedHeaders-length (extend hash header older s e l) = omega arith

  header_height_loop-length :
      (fuel : ℕ) (db : Db) (hash : Bytes) (headers : GoMap BlockHeader) (height : ℕ)
      → LinkedHeaders db hash headers
      → length headers ≤ fuel
      → header_height_loop fuel db hash height ≡ ok ((height + length headers) % modulus)
  unfolding header_height_loop GoInt.add
  header_height_loop-length zero db hash headers height l h =
      absurd (omega (arith, LinkedHeaders-length l))
  header_height_loop-length (suc fuel) db hash _ height (genesis _ header s e) h = rw (s, e)
  header_height_loop-length (suc fuel) db hash _ height (extend _ header older s e l) h =
      rw
        (
          s,
          e,
          header_height_loop-length fuel db header.prev_hash older (GoInt.add height 1) l
              (omega arith),
        )
        (ap ok (omega arith))

  -- On a chain of headers, GetHeight counts the headers.
  pub get_height-headers :
      (fuel : ℕ) (chain : BlockChainHeader Db) (headers : GoMap BlockHeader)
      → LinkedHeaders chain.data_base chain.last_hash headers
      → length headers ≤ fuel
      → get_height fuel chain ≡ ok (length headers % modulus)
  unfolding get_height
  get_height-headers fuel chain headers l h =
      header_height_loop-length fuel chain.data_base chain.last_hash headers 0 l h
      ∙ ap ok (omega arith)

  unmatched_headers_loop-passed :
      (fuel : ℕ) (db : Db) (target hash : Bytes) (headers : GoMap BlockHeader)
      (unmatched : List BlockHeader)
      → LinkedHeaders db hash headers
      → length headers ≤ fuel
      → unmatched_headers_loop fuel db target hash unmatched
        ≡ ok ((passed target headers).0, unmatched ++ (passed target headers).1)
  unfolding unmatched_headers_loop
  unmatched_headers_loop-passed zero db target hash headers unmatched l h =
      absurd (omega (arith, LinkedHeaders-length l))
  unmatched_headers_loop-passed (suc fuel) db target hash _ unmatched (genesis _ header s e) h =
      elim (Bool-cases (hash =ᵇ target)) [
        | inl same ↦ rw (s, e, same, append-nil)
        | inr other ↦ rw (s, e, other, append-nil)
      ]
  unmatched_headers_loop-passed (suc fuel) db target hash _ unmatched (extend _ header [] s e l) h =
      absurd (omega (arith, LinkedHeaders-length l))
  unmatched_headers_loop-passed (suc fuel) db target hash _ unmatched
        (extend _ header (entry ∷ older) s e l) h =
      let rest =
        unmatched_headers_loop-passed fuel db target header.prev_hash (entry ∷ older)
          (unmatched ++ header ∷ []) l (omega arith) in
      elim (Bool-cases (hash =ᵇ target)) [
        | inl same ↦ rw (s, e, same, append-nil)
        | inr other ↦
            rw (s, e, other)
              (rest
                ∙ ap (λ r. ok ((passed target (entry ∷ older)).0, r))
                    (append_assoc unmatched (header ∷ []) _))
      ]

  -- On a chain of headers that has the target hash as a key (the newest such entry is taken),
  -- GetUnmatchedHeaders reports it as found and returns the newer headers, the newest first.
  pub get_unmatched_headers-newer :
      (fuel : ℕ) (chain : BlockChainHeader Db) (target : Bytes) (header : BlockHeader)
      (newer older : GoMap BlockHeader)
      → LinkedHeaders chain.data_base chain.last_hash (newer ++ (target, header) ∷ older)
      → has_key target newer ≡ false
      → length (newer ++ (target, header) ∷ older) ≤ fuel
      → get_unmatched_headers fuel chain target ≡ ok (true, headers_of newer)
  unfolding get_unmatched_headers
  get_unmatched_headers-newer fuel chain target header newer older l fresh h =
      unmatched_headers_loop-passed fuel chain.data_base target chain.last_hash _ [] l h
      ∙ ap ok (passed-found target header newer older fresh)

  -- On a chain of headers that has the target hash as no key, GetUnmatchedHeaders reports that and
  -- returns all headers but the genesis header.
  pub get_unmatched_headers-missing :
      (fuel : ℕ) (chain : BlockChainHeader Db) (target : Bytes) (headers : GoMap BlockHeader)
      → LinkedHeaders chain.data_base chain.last_hash headers
      → has_key target headers ≡ false
      → length headers ≤ fuel
      → get_unmatched_headers fuel chain target ≡ ok (false, headers_of (newer_than_last headers))
  unfolding get_unmatched_headers
  get_unmatched_headers-missing fuel chain target headers l absent h =
      unmatched_headers_loop-passed fuel chain.data_base target chain.last_hash headers [] l h
      ∙ ap ok (passed-missing target headers absent)
