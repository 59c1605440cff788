-- ===== src/Object/Client.antt =====
-- crates/storage/src/object/store.rs and mem.rs: the object client that the backend is written
-- against, and the in-memory one. An object's key is the data that the key helpers of
-- crates/storage/src/object/mod.rs print and parse, below the prefix of one database; an ETag is
-- the number in the text "e{n}". What a client lists, the backend sorts, puts in a map or takes the
-- greatest of, so that the order of the in-memory map's keys is not part of the model.
use bydesigns_db.Base.{
  ℕ, ◌+◌, Bool, true, false, ◌&&◌, ◌==◌, bytes_eq, if◌then◌else◌, Option, none, some, List, [], ◌∷◌,
}

pub data Key : Type 0 where
  lease : Key
  retention : Key
  log : ℕ → Key
  delta : ℕ → ℕ → Key
  image : ℕ → Key
  branch_ptr : ℕ → Key
  overlay : ℕ → List ℕ → Key

-- The prefixes that the backend lists.
pub data Prefix : Type 0 where
  all_logs : Prefix
  all_deltas : Prefix
  all_images : Prefix
  all_branches : Prefix
  overlay_of : ℕ → Prefix

abbrev pub key_eq : Key → Key → Bool
key_eq lease lease = true
key_eq retention retention = true
key_eq (log n) (log m) = n == m
key_eq (delta lo hi) (delta lo' hi') = lo == lo' && hi == hi'
key_eq (image n) (image m) = n == m
key_eq (branch_ptr n) (branch_ptr m) = n == m
key_eq (overlay n xs) (overlay m ys) = n == m && bytes_eq xs ys
key_eq _ _ = false

abbrev pub starts_with : Prefix → Key → Bool
starts_with all_logs (log n) = true
starts_with all_deltas (delta lo hi) = true
starts_with all_images (image n) = true
starts_with all_branches (branch_ptr n) = true
starts_with all_branches (overlay n xs) = true
starts_with (overlay_of id) (overlay n xs) = id == n
starts_with _ _ = false

pub data ObjectError : Type 0 where
  not_found precondition transient : ObjectError

pub data Answer (A : Type 0) : Type 0 where
  done : A → Answer A
  failed : ObjectError → Answer A

abbrev pub Etag : Type 0
Etag = ℕ

pub record GetResult : Type 0 where
  pub bytes : List ℕ
  pub etag : Etag

-- The trait `ObjectStore`, on the state of a client.
pub record ObjectStore (S : Type 0) : Type 0 where
  pub get : Key → S → Answer (Option GetResult) × S
  pub put_if_absent : Key → List ℕ → S → Answer Etag × S
  pub put_if_match : Key → List ℕ → Etag → S → Answer Etag × S
  pub put : Key → List ℕ → S → Answer Etag × S
  pub delete : Key → S → Answer (Unit {0}) × S
  pub list : Prefix → S → Answer (List Key) × S

-- `MemObjectStore`: its map and the next ETag.
pub record MemStore : Type 0 where
  pub map : List (Key × GetResult)
  pub etag_seq : ℕ

abbrev pub empty_store : MemStore
empty_store = record { map = []; etag_seq = 0 }

unfoldable pub find : Key → List (Key × GetResult) → Option GetResult
find k [] = none
find k ((j, v) ∷ m) = if key_eq j k then some v else find k m

unfoldable pub store_at : Key → GetResult → List (Key × GetResult) → List (Key × GetResult)
store_at k v [] = (k, v) ∷ []
store_at k v ((j, w) ∷ m) = if key_eq j k then (k, v) ∷ m else (j, w) ∷ store_at k v m

unfoldable pub erase : Key → List (Key × GetResult) → List (Key × GetResult)
erase k [] = []
erase k ((j, w) ∷ m) = let rest = erase k m in if key_eq j k then rest else (j, w) ∷ rest

unfoldable pub keys_under : Prefix → List (Key × GetResult) → List Key
keys_under p [] = []
keys_under p ((j, w) ∷ m) = let rest = keys_under p m in if starts_with p j then j ∷ rest else rest

-- `map.insert` under a fresh ETag.
unfoldable pub write : Key → List ℕ → MemStore → Answer Etag × MemStore
unfolding store_at
write k bytes s = (
  done s.etag_seq,
  record {
    map = store_at k (record { bytes = bytes; etag = s.etag_seq }) s.map;
    etag_seq = s.etag_seq + 1;
  },
)

unfoldable pub write_if_match :
    Option GetResult → Key → List ℕ → Etag → MemStore → Answer Etag × MemStore
unfolding write
write_if_match none k bytes etag s = (failed precondition, s)
write_if_match (some g) k bytes etag s =
    if g.etag == etag then write k bytes s else (failed precondition, s)

unfoldable pub write_if_absent : Option GetResult → Key → List ℕ → MemStore → Answer Etag × MemStore
unfolding write
write_if_absent none k bytes s = write k bytes s
write_if_absent (some g) k bytes s = (failed precondition, s)

unfoldable pub mem_store : ObjectStore MemStore
unfolding find write write_if_absent write_if_match erase keys_under
mem_store = record {
  get = λ k s. (done (find k s.map), s);
  put_if_absent = λ k bytes s. write_if_absent (find k s.map) k bytes s;
  put_if_match = λ k bytes etag s. write_if_match (find k s.map) k bytes etag s;
  put = write;
  delete = λ k s. (done tt, record s { map = erase k s.map });
  list = λ p s. (done (keys_under p s.map), s);
}
