-- ===== src/LevelDb.antt =====
-- goleveldb, which is not part of the repository: what the program calls of it, with its
-- documented behaviour. Get returns `none` where the library returns an error, which the program
-- drops; an open database has no other error than a missing key.
use echain.Base.{
  true, Bytes, Option, none, some, List, [], ◌∷◌, ◌≡◌, ◌=ᵇ◌, has_prefix, if◌then◌else◌,
}
use echain.Base.GoMap.{GoMap, find, DistinctKeys, AllKeys}

-- An entry of a Batch.
pub data BatchOp : Type 0 where
  put : Bytes → Bytes → BatchOp
  delete : Bytes → BatchOp

-- What the entries of a batch, in order, make of the value under one key.
unfoldable pub replay : List BatchOp → Bytes → Option Bytes → Option Bytes
replay [] k old = old
replay (put j v ∷ ops) k old = replay ops k (if j =ᵇ k then some v else old)
replay (delete j ∷ ops) k old = replay ops k (if j =ᵇ k then none else old)

pub record LevelDb (Db : Type 0) : Type 0 where
  pub get : Db → Bytes → Option Bytes
  pub put : Db → Bytes → Bytes → Db
  pub write : Db → List BatchOp → Db
  -- the entries that an iterator over BytesPrefix(prefix) passes
  pub iterate : Db → Bytes → GoMap Bytes
  pub get-put :
      (db : Db) (k j v : Bytes) → get (put db k v) j ≡ (if k =ᵇ j then some v else get db j)
  pub get-write :
      (db : Db) (ops : List BatchOp) (k : Bytes) → get (write db ops) k ≡ replay ops k (get db k)
  pub find-iterate :
      (db : Db) (prefix k : Bytes)
      → has_prefix prefix k ≡ true
      → find (iterate db prefix) k ≡ get db k
  pub iterate-AllKeys :
      (db : Db) (prefix : Bytes) → AllKeys (λ k. has_prefix prefix k ≡ true) (iterate db prefix)
  pub iterate-DistinctKeys : (db : Db) (prefix : Bytes) → DistinctKeys (iterate db prefix)
