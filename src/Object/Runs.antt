-- ===== src/Object/Runs.antt =====
-- Runs of the object-storage backend on the in-memory client, and its theorems at concrete inputs.
use bydesigns_db.Base.{ℕ, ◌≡◌, refl, none, some, List, [], ◌∷◌, arith}
use bydesigns_db.Base.Bytes.{to_le, from_le}
use bydesigns_db.Types.{ok, err, fenced, FenceToken}
use bydesigns_db.Codec.{LogItem, wal, page, encode_segment}
use bydesigns_db.Codec.RoundTrip.{decode_segment-encode_segment}
use bydesigns_db.Object.Client.{
  log, all_logs, GetResult, MemStore, mem_store, empty_store, find, keys_under, store_at, write,
  write_if_absent, write_if_match,
}
use bydesigns_db.Object.State.{
  Config, Db, lease_epoch, check_fence, check_epoch, durable_epoch, encode_lease,
}
use bydesigns_db.Object.Log.{
  max_seq, sorted_seqs, after_segment, apply_items, has_wal, claim, refresh, scan_next_seq,
  append_segment,
}
use bydesigns_db.Object.Layers.{flush, cached, get_page, memtable_insert}
use bydesigns_db.Object.Lease.{acquire_loop, acquire_fence}
use bydesigns_db.Object.Recover.{
  new_inner, deltas_of, image_of, flushed_of, image_hw, floor_of, open_store,
}
use bydesigns_db.Object.Synced.{IsSynced, replay_map, pointers_map}
use bydesigns_db.Object.Append.{open_store-append_segment, after_segment-IsSynced}
use bydesigns_db.Object.Flush.{open_store-flush, flushed}
use bydesigns_db.Object.FlushReads.{get_page-flush}
use bydesigns_db.Object.Fencing.{check_fence-acquire_fence}

abbrev config : Config
config = record { flush_threshold_bytes = 100; cas_max_retries = 2 }

abbrev holder : FenceToken
holder = record { epoch = 0; owner = 0 }

abbrev greeting : List ℕ
greeting = b'h' ∷ b'i' ∷ []

abbrev items : List LogItem
items = wal greeting ∷ page 5 greeting ∷ []

-- A backend on an empty bucket.
abbrev opened : Db MemStore
opened = record { inner = new_inner; cache = []; objects = empty_store }

opened-IsSynced : IsSynced opened.inner []
unfolding new_inner keys_under deltas_of image_of flushed_of image_hw max_seq replay_map sorted_seqs
    pointers_map lease_epoch find floor_of
opened-IsSynced = record {
  deltas_eq = refl;
  image_eq = refl;
  hw_le = omega arith;
  hw_eq = refl;
  seq_eq = refl;
  log_eq = refl;
  branches_eq = refl;
  epoch_eq = refl;
  floor_eq = refl;
}

open_store-append_segment_example :
    let (res, d') = append_segment mem_store config holder items opened in
    (res ≡ ok 2)
    × (open_store mem_store d'.objects
        ≡ (ok tt, record { inner = d'.inner; cache = []; objects = d'.objects }))
unfolding new_inner after_segment apply_items
open_store-append_segment_example =
    open_store-append_segment config holder items opened opened-IsSynced refl (omega arith)
      (omega arith, ((omega arith, omega arith), tt)) (omega arith)

-- The backend once the segment is in the bucket.
abbrev segment : GetResult
segment = record { bytes = encode_segment items; etag = 0 }

abbrev filled : Db MemStore
filled = record {
  inner = after_segment items opened.inner;
  cache = [];
  objects = record { map = store_at (log opened.inner.next_seq) segment []; etag_seq = 1 };
}

filled-IsSynced : IsSynced filled.inner filled.objects.map
filled-IsSynced = after_segment-IsSynced opened.inner [] items segment opened-IsSynced (
    decode_segment-encode_segment items (omega arith)
      (omega arith, ((omega arith, omega arith), tt)))

open_store-flush_example :
    let (res, d') = flush mem_store filled in
    (res ≡ ok tt)
    × (d'.inner ≡ flushed filled.inner)
    × (open_store mem_store d'.objects
        ≡ (ok tt, record { inner = d'.inner; cache = []; objects = d'.objects }))
unfolding new_inner after_segment apply_items memtable_insert
open_store-flush_example =
    open_store-flush (record { page_id = 5; lsn = 2; image = greeting }) [] filled filled-IsSynced
      refl (omega arith)

get_page-flush_example :
    (get_page mem_store 5 2 (flush mem_store filled).1).0 ≡ (get_page mem_store 5 2 filled).0
unfolding new_inner after_segment apply_items memtable_insert cached
get_page-flush_example =
    get_page-flush (record { page_id = 5; lsn = 2; image = greeting }) [] 5 2 filled filled-IsSynced
      (λ k recs hit. absurd (none_some hit)) refl (omega arith) (omega arith)
      ((omega arith, omega arith, omega arith), tt)
  where
    none_some : {A : Type 0} {a : A} → none ≡ some a → ⊥
    none_some h = cc

-- What the first writer has when a second one has taken the lease: its memory with the old epoch, and
-- the bucket with the new one. Its token is refused.
abbrev overtaken : Db MemStore
overtaken = record filled { objects = (acquire_fence mem_store config 9 1000 filled).1.objects }

check_fence-acquire_fence_example :
    ((acquire_fence mem_store config 9 1000 filled).0 ≡ ok (record { epoch = 1; owner = 9 }))
    × (check_fence mem_store holder overtaken ≡ (err (fenced 0 1), overtaken))
    × (append_segment mem_store config holder items overtaken ≡ (err (fenced 0 1), overtaken))
unfolding new_inner lease_epoch find store_at
check_fence-acquire_fence_example =
    check_fence-acquire_fence config 9 1000 filled overtaken holder holder items (omega arith) refl
      (λ e. omega arith)

-- Two writers that opened the same empty bucket. The first appends; the second takes the lease, and
-- then appends: its record goes to the second slot, and the LSN that it is given is that of the
-- first one's record.
abbrev second_writer : Db MemStore
second_writer = record opened {
  objects = (append_segment mem_store config holder (wal greeting ∷ []) opened).1.objects;
}

lsn_given_twice :
    let (res, d') =
      append_segment mem_store config
        (record { epoch = 1; owner = 9 })
        (wal greeting ∷ [])
        (acquire_fence mem_store config 9 1000 second_writer).1 in
    (res ≡ ok 1)
    × (append_segment mem_store config holder (wal greeting ∷ []) opened).0 ≡ ok 1
    × (keys_under all_logs d'.objects.map ≡ log 1 ∷ log 2 ∷ [])
unfolding append_segment acquire_fence mem_store new_inner lease_epoch find store_at keys_under
    after_segment apply_items write write_if_absent write_if_match max_seq claim refresh
    scan_next_seq check_fence check_epoch durable_epoch acquire_loop encode_lease to_le from_le
    has_wal
lsn_given_twice = (refl, refl, refl)
