-- ===== src/Object/Lease.antt =====
-- The writer's lease of crates/storage/src/object/mod.rs: an object whose epoch each acquire raises
-- by a conditional write. `expires` is the clock's reading with the time to live, which only the
-- lease object keeps.
use bydesigns_db.Base.{ℕ, zero, suc, ◌+◌, ◌==◌, if◌then◌else◌, Option, none, some, List}
use bydesigns_db.Types.{contended, FenceToken}
use bydesigns_db.Object.Client.{
  lease, ObjectError, Answer, done, failed, precondition, Etag, ObjectStore,
}
use bydesigns_db.Object.Client
use bydesigns_db.Object.State.{
  Config, Action, pure, fail, ◌>>=◌, ◌>>◌, state, set_state, raw, map_obj_err, durable_epoch,
  check_epoch, encode_lease,
}

module _ {S : Type 0} (store : ObjectStore S) where
  -- The conditional write of the lease, by whether one is there.
  abbrev pub put_lease : Option Etag → List ℕ → S → Answer Etag × S
  put_lease none bytes = store.put_if_absent lease bytes
  put_lease (some etag) bytes = store.put_if_match lease bytes etag

  -- A won write, a lost one, and the other failures.
  abbrev pub settle : Answer Etag → Action S FenceToken → Action S FenceToken → Action S FenceToken
  settle (done etag) won again = won
  settle (failed Client.precondition) won again = again
  settle (failed e) won again = fail (map_obj_err e)

  abbrev pub acquired : ℕ → ℕ → Action S FenceToken
  acquired epoch owner = do
    g ← state
    set_state (record g { epoch = epoch })
    pure (record { epoch = epoch; owner = owner })

  unfoldable pub acquire_loop : ℕ → ℕ → ℕ → Action S FenceToken
  acquire_loop zero owner expires = do
    (current, etag) ← durable_epoch store
    put ← raw store (put_lease etag (encode_lease (current + 1) owner expires))
    settle put (acquired (current + 1) owner) (fail contended)
  acquire_loop (suc n) owner expires = do
    (current, etag) ← durable_epoch store
    put ← raw store (put_lease etag (encode_lease (current + 1) owner expires))
    settle put (acquired (current + 1) owner) (acquire_loop n owner expires)

  unfoldable pub acquire_fence : Config → ℕ → ℕ → Action S FenceToken
  unfolding acquire_loop
  acquire_fence config owner expires = acquire_loop config.cas_max_retries owner expires

  unfoldable pub renew_loop : ℕ → FenceToken → ℕ → Action S FenceToken
  renew_loop zero token expires = do
    (current, etag) ← durable_epoch store
    check_epoch store token current
    put ← raw store (put_lease etag (encode_lease token.epoch token.owner expires))
    settle put (pure token) (fail contended)
  renew_loop (suc n) token expires = do
    (current, etag) ← durable_epoch store
    check_epoch store token current
    put ← raw store (put_lease etag (encode_lease token.epoch token.owner expires))
    settle put (pure token) (renew_loop n token expires)

  unfoldable pub renew_fence : Config → FenceToken → ℕ → Action S FenceToken
  unfolding renew_loop
  renew_fence config token expires = renew_loop config.cas_max_retries token expires

  -- The expired stamp that a release writes, whose outcome the code ignores.
  abbrev pub put_expired : Option Etag → FenceToken → Action S (Unit {0})
  put_expired none token = pure tt
  put_expired (some etag) token = do
    put ← raw store (store.put_if_match lease (encode_lease token.epoch token.owner 0) etag)
    pure tt

  unfoldable pub release_fence : FenceToken → Action S (Unit {0})
  release_fence token = do
    (current, etag) ← durable_epoch store
    if token.epoch == current then put_expired etag token else pure tt
