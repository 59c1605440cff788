-- ===== src/Object/Fencing.antt =====
-- The writer's lease of crates/storage/src/object/mod.rs on the in-memory client: the newest acquire
-- fences every other token.
use bydesigns_db.Base.{
  ℕ, zero, suc, ◌+◌, ◌<◌, ◌^◌, ◌≡◌, ◌≢◌, refl, false, ap, ◌∙◌, if◌then◌else◌, ◌==◌, ==_refl,
  Bool-cases, inl, inr, Option, none, some, List, [], ◌∷◌, arith,
}
use bydesigns_db.Base.Bytes.{to_le, from_le-to_le}
use bydesigns_db.Types.{ok, err, fenced, FenceToken}
use bydesigns_db.Codec.{LogItem}
use bydesigns_db.Object.Client.{
  Key, lease, key_eq, GetResult, MemStore, mem_store, find, store_at, write, write_if_absent,
  write_if_match,
}
use bydesigns_db.Object.State.{
  Config, Db, lease_epoch, encode_lease, durable_epoch, check_epoch, check_fence,
}
use bydesigns_db.Object.Log.{append_segment}
use bydesigns_db.Object.Lease.{acquire_loop, acquire_fence}
use bydesigns_db.Object.Keys.{key_eq_refl}
use bydesigns_db.Object.Synced.{Map}

-- What is written at a key is there.
find-store_at : (k : Key) (v : GetResult) (m : Map) → find k (store_at k v m) ≡ some v
unfolding find store_at
find-store_at k v [] = rw (key_eq_refl k) refl
find-store_at k v ((j, w) ∷ m) = elim (Bool-cases (key_eq j k)) [
  | inl same ↦ rw (same, key_eq_refl k) refl
  | inr other ↦ rw (other, other) (find-store_at k v m)
]

lease_epoch-encode_lease :
    (epoch owner expires etag : ℕ)
    → epoch < 2 ^ 64
    → (lease_epoch (some (record { bytes = encode_lease epoch owner expires; etag = etag }))).0
      ≡ epoch
unfolding lease_epoch encode_lease to_le
lease_epoch-encode_lease epoch owner expires etag h = from_le-to_le 8 epoch h

-- The epoch that a bucket holds.
abbrev epoch_of : Db MemStore → ℕ
epoch_of d = (lease_epoch (find lease d.objects.map)).0

-- The lease that an acquire writes, and the state that it leaves.
abbrev lease_object : ℕ → ℕ → ℕ → Db MemStore → GetResult
lease_object epoch owner expires d = record {
  bytes = encode_lease epoch owner expires;
  etag = d.objects.etag_seq;
}

abbrev leased : ℕ → ℕ → ℕ → Db MemStore → Db MemStore
leased epoch owner expires d = record d {
  inner = record d.inner { epoch = epoch };
  objects = record {
    map = store_at lease (lease_object epoch owner expires d) d.objects.map;
    etag_seq = d.objects.etag_seq + 1;
  };
}

acquire_loop_lem :
    (n owner expires : ℕ) (d : Db MemStore) (got : Option GetResult)
    → find lease d.objects.map ≡ got
    → let next = (lease_epoch got).0 + 1 in
      acquire_loop mem_store n owner expires d
      ≡ (ok (record { epoch = next; owner = owner }), leased next owner expires d)
unfolding acquire_loop durable_epoch mem_store write_if_absent write_if_match write lease_epoch
acquire_loop_lem zero owner expires d none e = rw (e, e) refl
acquire_loop_lem zero owner expires d (some g) e = rw (e, e, ==_refl g.etag) refl
acquire_loop_lem (suc n) owner expires d none e = rw (e, e) refl
acquire_loop_lem (suc n) owner expires d (some g) e = rw (e, e, ==_refl g.etag) refl

-- The fence on the lease that an acquire left.
check_fence_leased :
    (epoch owner expires : ℕ) (d later : Db MemStore) (token : FenceToken)
    → epoch < 2 ^ 64
    → find lease later.objects.map ≡ some (lease_object epoch owner expires d)
    → check_fence mem_store token later
      ≡ (if token.epoch == epoch then ok tt else err (fenced token.epoch epoch), later)
unfolding durable_epoch check_fence check_epoch mem_store
check_fence_leased epoch owner expires d later token h stands =
    rw (stands, lease_epoch-encode_lease epoch owner expires d.objects.etag_seq h)
      (elim (Bool-cases (token.epoch == epoch)) [
        | inl same ↦ rw same refl
        | inr other ↦ rw other refl
      ])

-- On the in-memory client, an acquire succeeds at the next epoch, whatever the bucket holds. If that
-- epoch fits its field, then in every later state whose lease object is the one that the acquire
-- left, the fence lets through the tokens of that epoch and refuses all others, naming the new epoch;
-- and an append by a token of another epoch fails alike and changes nothing.
pub check_fence-acquire_fence :
    (config : Config) (owner expires : ℕ) (d later : Db MemStore) (token other : FenceToken)
    (items : List LogItem)
    → epoch_of d + 1 < 2 ^ 64
    → find lease later.objects.map
      ≡ find lease (acquire_fence mem_store config owner expires d).1.objects.map
    → other.epoch ≢ epoch_of d + 1
    → ((acquire_fence mem_store config owner expires d).0
        ≡ ok (record { epoch = epoch_of d + 1; owner = owner }))
      × (check_fence mem_store token later ≡ (
        if token.epoch == epoch_of d + 1 then ok tt else err (fenced token.epoch (epoch_of d + 1)),
        later,
      ))
      × (append_segment mem_store config other items later
          ≡ (err (fenced other.epoch (epoch_of d + 1)), later))
unfolding acquire_fence append_segment
check_fence-acquire_fence config owner expires d later token other items h kept differs =
    let next = epoch_of d + 1 in
    let run = acquire_loop_lem config.cas_max_retries owner expires d _ refl in
    let stands : find lease later.objects.map ≡ some (lease_object next owner expires d) =
      kept
      ∙ ap (λ r. find lease r.1.objects.map) run
      ∙ find-store_at lease (lease_object next owner expires d) d.objects.map in
    let not_held : (other.epoch == next) ≡ false = ground (arith, differs) in
    let refused : check_fence mem_store other later ≡ (err (fenced other.epoch next), later) =
      check_fence_leased next owner expires d later other h stands ∙ rw not_held refl in
    (
      ap (λ r. r.0) run,
      check_fence_leased next owner expires d later token h stands,
      rw refused refl,
    )
