-- ===== src/Object/State.antt =====
-- The state of the backend of crates/storage/src/object/mod.rs, and its calls of the object client.
-- A method is an action on the state: the fields behind the lock, the cache of parsed layers and
-- the client. The hash map of the cache is an association list, and the memtable, a BTreeMap from a
-- page and an LSN to an image, is the list of its records in the order of its keys.
use bydesigns_db.Base.{
  ℕ, Bool, ◌==◌, leb, not, if◌then◌else◌, Option, none, some, List, ◌++◌, length, take,
}
use bydesigns_db.Base.Bytes.{to_le, from_le}
use bydesigns_db.Base.Assoc.{Assoc}
use bydesigns_db.Types.{
  StorageError, not_found, fenced, contended, transient, Result, ok, err, BranchRef, FenceToken,
}
use bydesigns_db.Codec.{PageRecord}
use bydesigns_db.Object.Client.{
  Key, Prefix, ObjectError, Answer, done, failed, GetResult, Etag, ObjectStore,
}
use bydesigns_db.Object.Client

pub record Config : Type 0 where
  pub flush_threshold_bytes : ℕ
  pub cas_max_retries : ℕ

pub record DeltaMeta : Type 0 where
  pub lo : ℕ
  pub hi : ℕ
  pub key : Key

pub record ImageMeta : Type 0 where
  pub image_lsn : ℕ
  pub key : Key

pub record Inner : Type 0 where
  pub next_seq : ℕ
  pub next_lsn : ℕ
  pub durable_lsn : ℕ
  pub commit_lsn : ℕ
  pub epoch : ℕ
  pub retention_floor : ℕ
  pub memtable : List PageRecord
  pub memtable_bytes : ℕ
  pub flushed_hw : ℕ
  pub deltas : List DeltaMeta
  pub image : Option ImageMeta
  pub branches : Assoc BranchRef
  pub next_branch_id : ℕ

-- `ObjectStorage`, with the client's state.
pub record Db (S : Type 0) : Type 0 where
  pub inner : Inner
  pub cache : List (Key × List PageRecord)
  pub objects : S

abbrev pub Action : Type 0 → Type 0 → Type 0
Action S A = Db S → Result A × Db S

module _ {S A : Type 0} where
  abbrev pub pure : A → Action S A
  pure a d = (ok a, d)

  abbrev pub fail : StorageError → Action S A
  fail e d = (err e, d)

  abbrev pub lift : Result A → Action S A
  lift r d = (r, d)

  abbrev pub or_fail : Option A → StorageError → Action S A
  or_fail none e = fail e
  or_fail (some a) e = pure a

abbrev pub then_do : {S A B : Type 0} → Result A × Db S → (A → Action S B) → Result B × Db S
then_do (ok a, d) f = f a d
then_do (err e, d) f = (err e, d)

infixl 5 ◌>>=◌ ◌>>◌
abbrev pub ◌>>=◌ : {S A B : Type 0} → Action S A → (A → Action S B) → Action S B
◌>>=◌ m f d = then_do (m d) f

abbrev pub ◌>>◌ : {S A B : Type 0} → Action S A → Action S B → Action S B
◌>>◌ m k d = then_do (m d) (λ _. k)

module _ {S : Type 0} where
  abbrev pub state : Action S Inner
  state d = (ok d.inner, d)

  abbrev pub set_state : Inner → Action S (Unit {0})
  set_state g d = (ok tt, record d { inner = g })

  abbrev pub fail_if : Bool → StorageError → Action S (Unit {0})
  fail_if c e d = (if c then err e else ok tt, d)

-- `map_obj_err`.
abbrev pub map_obj_err : ObjectError → StorageError
map_obj_err Client.not_found = not_found
map_obj_err Client.precondition = contended
map_obj_err Client.transient = transient

abbrev pub mapped : {A : Type 0} → Answer A → Result A
mapped (done a) = ok a
mapped (failed e) = err (map_obj_err e)

module _ {S : Type 0} (store : ObjectStore S) where
  -- A call of the client, with its errors as the client gives them, and mapped.
  abbrev pub raw : {A : Type 0} → (S → Answer A × S) → Action S (Answer A)
  raw call d = let (r, s) = call d.objects in (ok r, record d { objects = s })

  abbrev pub call : {A : Type 0} → (S → Answer A × S) → Action S A
  call f d = let (r, s) = f d.objects in (mapped r, record d { objects = s })

  abbrev pub obj_get : Key → Action S (Option GetResult)
  obj_get k = call (store.get k)

  abbrev pub obj_put : Key → List ℕ → Action S Etag
  obj_put k bytes = call (store.put k bytes)

  abbrev pub obj_delete : Key → Action S (Unit {0})
  obj_delete k = call (store.delete k)

  abbrev pub obj_list : Prefix → Action S (List Key)
  obj_list p = call (store.list p)

-- The epoch in a lease object: its first eight bytes, or 0 in a shorter one.
unfoldable pub lease_epoch : Option GetResult → ℕ × Option Etag
lease_epoch none = (0, none)
lease_epoch (some g) = (if leb 8 (length g.bytes) then from_le (take 8 g.bytes) else 0, some g.etag)

-- `encode_lease`; `owner` is a u128.
unfoldable pub encode_lease : ℕ → ℕ → ℕ → List ℕ
encode_lease epoch owner expires_ms = to_le 8 epoch ++ (to_le 16 owner ++ to_le 8 expires_ms)

module _ {S : Type 0} (store : ObjectStore S) where
  unfoldable pub durable_epoch : Action S (ℕ × Option Etag)
  unfolding lease_epoch
  durable_epoch = do got ← obj_get store Client.lease; pure (lease_epoch got)

  -- The test of `check_fence`, on the epoch that the bucket holds.
  unfoldable pub check_epoch : FenceToken → ℕ → Action S (Unit {0})
  check_epoch token current = fail_if (not (token.epoch == current)) (fenced token.epoch current)

  unfoldable pub check_fence : FenceToken → Action S (Unit {0})
  unfolding durable_epoch check_epoch
  check_fence token = do (current, etag) ← durable_epoch; check_epoch token current
