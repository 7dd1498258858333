-- ===== src/Tests/ToyDb.antt =====
-- A concrete database, which shows that the laws of LevelDb.antt can be met and runs the model.
use echain.Base.{
  ◌≡◌, refl, ap, ◌∙◌, true, Bytes, List, [], ◌∷◌, some, ◌=ᵇ◌, =ᵇ_iff, =ᵇ-refl, has_prefix,
  if◌then◌else◌, arith,
}
use echain.Base.GoMap
use echain.Base.GoMap.{
  GoMap, find, AllKeys, DistinctKeys, find-set, find-delete, delete-AllKeys, delete-DistinctKeys,
}
use echain.LevelDb.{LevelDb, BatchOp, replay}

pub record ToyDb : Type 0 where
  pub entries : GoMap Bytes

pub write : GoMap Bytes → List BatchOp → GoMap Bytes
write m [] = m
write m (BatchOp.put k v ∷ ops) = write (GoMap.set m k v) ops
write m (BatchOp.delete k ∷ ops) = write (GoMap.delete m k) ops

find-write :
    (m : GoMap Bytes) (ops : List BatchOp) (k : Bytes)
    → find (write m ops) k ≡ replay ops k (find m k)
unfolding write replay
find-write m [] k = refl
find-write m (BatchOp.put j v ∷ ops) k =
    find-write (GoMap.set m j v) ops k ∙ ap (replay ops k) (find-set m j k v)
find-write m (BatchOp.delete j ∷ ops) k =
    find-write (GoMap.delete m j) ops k ∙ ap (replay ops k) (find-delete m j k)

pub iterate : Bytes → GoMap Bytes → GoMap Bytes
iterate p [] = []
iterate p ((k, v) ∷ m) =
    if has_prefix p k then (k, v) ∷ GoMap.delete (iterate p m) k else iterate p m

find-iterate_lem :
    (p k : Bytes) (m : GoMap Bytes) → has_prefix p k ≡ true → find (iterate p m) k ≡ find m k
unfolding iterate
find-iterate_lem p k [] h = refl
find-iterate_lem p k ((j, v) ∷ m) h =
    ground (arith, find-iterate_lem p k m h, =ᵇ_iff j k, find-delete (iterate p m) j k)

iterate-AllKeys_lem :
    (p : Bytes) (m : GoMap Bytes) → AllKeys (λ k. has_prefix p k ≡ true) (iterate p m)
unfolding iterate
iterate-AllKeys_lem p [] = tt
iterate-AllKeys_lem p ((k, v) ∷ m) =
    ground
      (arith, iterate-AllKeys_lem p m, delete-AllKeys (λ k. has_prefix p k ≡ true) (iterate p m) k)

iterate-DistinctKeys_lem : (p : Bytes) (m : GoMap Bytes) → DistinctKeys (iterate p m)
unfolding iterate
iterate-DistinctKeys_lem p [] = tt
iterate-DistinctKeys_lem p ((k, v) ∷ m) = ground (
  arith,
  iterate-DistinctKeys_lem p m,
  delete-DistinctKeys (iterate p m) k,
  find-delete (iterate p m) k k,
  =ᵇ-refl k,
)

pub put_lem :
    (db : ToyDb) (k j v : Bytes)
    → find (GoMap.set db.entries k v) j ≡ (if k =ᵇ j then some v else find db.entries j)
put_lem db k j v = find-set db.entries k j v

pub write_lem :
    (db : ToyDb) (ops : List BatchOp) (k : Bytes)
    → find (write db.entries ops) k ≡ replay ops k (find db.entries k)
write_lem db ops k = find-write db.entries ops k

pub iterate_find :
    (db : ToyDb) (p k : Bytes)
    → has_prefix p k ≡ true
    → find (iterate p db.entries) k ≡ find db.entries k
iterate_find db p k h = find-iterate_lem p k db.entries h

pub iterate_all :
    (db : ToyDb) (p : Bytes) → AllKeys (λ k. has_prefix p k ≡ true) (iterate p db.entries)
iterate_all db p = iterate-AllKeys_lem p db.entries

pub iterate_distinct : (db : ToyDb) (p : Bytes) → DistinctKeys (iterate p db.entries)
iterate_distinct db p = iterate-DistinctKeys_lem p db.entries

instance unfoldable pub toy_db : LevelDb ToyDb
unfolding write iterate
toy_db = record {
  get = λ db. find db.entries;
  put = λ db k v. record { entries = GoMap.set db.entries k v };
  write = λ db ops. record { entries = write db.entries ops };
  iterate = λ db p. iterate p db.entries;
  get-put = put_lem;
  get-write = write_lem;
  find-iterate = iterate_find;
  iterate-AllKeys = iterate_all;
  iterate-DistinctKeys = iterate_distinct;
}
