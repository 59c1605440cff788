-- ===== src/Object/Append.antt =====
-- A segment that crates/storage/src/object/mod.rs appends keeps the state what the opening of the
-- bucket rebuilds.
use bydesigns_db.Base.{
  ℕ, zero, suc, ◌+◌, ◌<◌, ◌≡◌, refl, sym, ap, ◌∙◌, false, leb, ==_refl, none, some, List, [], ◌∷◌,
  length, All, arith,
}
use bydesigns_db.Base.Bytes.{IsU32}
use bydesigns_db.Base.Assoc.{Assoc}
use bydesigns_db.Types.{ok, FenceToken, BranchRef}
use bydesigns_db.Codec.{LogItem, wal, page, encode_segment, decode_segment}
use bydesigns_db.Codec.RoundTrip.{Fits, decode_segment-encode_segment}
use bydesigns_db.Object.Client.{
  Key, lease, retention, log, delta, image, branch_ptr, overlay, all_logs, all_deltas, all_images,
  all_branches, key_eq, GetResult, MemStore, mem_store, find, store_at, keys_under, write,
  write_if_absent,
}
use bydesigns_db.Object.State.{
  Config, Inner, Db, check_fence, check_epoch, durable_epoch, lease_epoch,
}
use bydesigns_db.Object.Layers.{memtable_insert}
use bydesigns_db.Object.Log.{
  max_seq, sorted_seqs, apply_items, after_segment, claim, append_segment,
}
use bydesigns_db.Object.Recover.{no_replay, open_store}
use bydesigns_db.Object.MemLaws.{
  find-store_at_new, keys_under-store_at_new, find_same, keys_under_same, free_slot,
}
use bydesigns_db.Object.Synced.{
  Map, replay_map, pointers_map, replay_of, IsSynced, open_store-IsSynced,
}
use bydesigns_db.Object.Replaying.{
  sorted_seqs-snoc, max_seq-snoc, Extends, replay_map-Extends, replay_map-append,
  replay_segment-after_segment, IsSynced-counted,
}

-- The items leave the layers, the branches, the lease and the floor alone.
apply_items-rest :
    (items : List LogItem) (g : Inner)
    → apply_items items g ≡ record g {
      next_lsn = (apply_items items g).next_lsn;
      memtable = (apply_items items g).memtable;
      memtable_bytes = (apply_items items g).memtable_bytes;
    }
unfolding apply_items
apply_items-rest [] g = refl
apply_items-rest (wal bytes ∷ items) g = apply_items-rest items _
apply_items-rest (page page_id bytes ∷ items) g = apply_items-rest items _

pub apply_items-next_lsn :
    (items : List LogItem) (g : Inner) → (apply_items items g).next_lsn ≡ g.next_lsn + length items
unfolding apply_items
apply_items-next_lsn [] g = omega arith
apply_items-next_lsn (wal bytes ∷ items) g =
    let ih = apply_items-next_lsn items (record g { next_lsn = g.next_lsn + 1 }) in omega arith
apply_items-next_lsn (page page_id bytes ∷ items) g =
    let g1 : Inner = record g {
      next_lsn = g.next_lsn + 1;
      memtable =
          memtable_insert (record { page_id = page_id; lsn = g.next_lsn; image = bytes })
            g.memtable;
      memtable_bytes = g.memtable_bytes + length bytes;
    } in
    let ih = apply_items-next_lsn items g1 in omega arith

pub pointers_map_same :
    (k : Key) (v : GetResult) (m : Map) (ks : List Key) (acc : Assoc BranchRef × ℕ)
    → ((id : ℕ) → find (branch_ptr id) (store_at k v m) ≡ find (branch_ptr id) m)
    → pointers_map ks acc (store_at k v m) ≡ pointers_map ks acc m
unfolding pointers_map
pointers_map_same k v m [] acc same = refl
pointers_map_same k v m (branch_ptr id ∷ ks) acc same =
    rw (same id) (pointers_map_same k v m ks _ same)
pointers_map_same k v m (lease ∷ ks) acc same = pointers_map_same k v m ks acc same
pointers_map_same k v m (retention ∷ ks) acc same = pointers_map_same k v m ks acc same
pointers_map_same k v m (log n ∷ ks) acc same = pointers_map_same k v m ks acc same
pointers_map_same k v m (delta lo hi ∷ ks) acc same = pointers_map_same k v m ks acc same
pointers_map_same k v m (image n ∷ ks) acc same = pointers_map_same k v m ks acc same
pointers_map_same k v m (overlay n xs ∷ ks) acc same = pointers_map_same k v m ks acc same

pub store_at-Extends :
    (k : Key) (v : GetResult) (m : Map) → find k m ≡ none → Extends m (store_at k v m)
store_at-Extends k v m free seq g there = rw (find-store_at_new k (log seq) v m free, there) refl

module _ (g : Inner) (m : Map) (items : List LogItem) (v : GetResult) (h : IsSynced g m)
    (good : decode_segment v.bytes ≡ ok items) where
  abbrev slot : Key
  slot = log g.next_seq

  abbrev grown : Map
  grown = store_at slot v m

  bound : max_seq (keys_under all_logs m) < g.next_seq
  bound = let seq_eq = h.seq_eq in omega arith

  pub free : find slot m ≡ none
  free = free_slot g.next_seq m bound

  same_find : (j : Key) → key_eq slot j ≡ false → find j grown ≡ find j m
  same_find j other = find_same slot j v m other free

  new_log :
      replay_map g.flushed_hw (sorted_seqs (keys_under all_logs grown)) no_replay grown
      ≡ ok (replay_of (after_segment items g))
  unfolding replay_map
  new_log =
      let hw_le = h.hw_le in
      let counted = IsSynced-counted g m h in
      let below : g.flushed_hw < g.next_lsn = omega arith in
      let listed = keys_under-store_at_new all_logs slot v m free in
      let sorted = sorted_seqs-snoc (keys_under all_logs m) g.next_seq bound in
      let old =
        replay_map-Extends g.flushed_hw (sorted_seqs (keys_under all_logs m)) no_replay
          (replay_of g) m grown (store_at-Extends slot v m free) h.log_eq in
      let there : find slot grown ≡ some v =
        rw (find-store_at_new slot slot v m free, free, ==_refl g.next_seq) refl in
      rw (listed, sorted)
        (replay_map-append g.flushed_hw (sorted_seqs (keys_under all_logs m)) (g.next_seq ∷ [])
            no_replay (replay_of g) grown old
          ∙ rw (there, good)
              (ap ok (replay_segment-after_segment g.flushed_hw items g below counted)))

  -- The state after a durable segment is what its bucket gives.
  pub after_segment-IsSynced : IsSynced (after_segment items g) grown
  unfolding after_segment
  after_segment-IsSynced =
      let rest = apply_items-rest items g in
      let next_eq = apply_items-next_lsn items g in
      let counted = IsSynced-counted g m h in
      let hw_le = h.hw_le in
      let hw_same : (apply_items items g).flushed_hw ≡ g.flushed_hw = ap (λ x. x.flushed_hw) rest in
      record {
        deltas_eq =
            rw (keys_under_same all_deltas slot v m refl free) h.deltas_eq
            ∙ sym (ap (λ x. x.deltas) rest);
        image_eq =
            rw (keys_under_same all_images slot v m refl free) h.image_eq
            ∙ sym (ap (λ x. x.image) rest);
        hw_le = omega arith;
        hw_eq = rw (ap (λ x. x.deltas) rest, ap (λ x. x.image) rest, hw_same) h.hw_eq;
        seq_eq =
            rw (keys_under-store_at_new all_logs slot v m free)
              (ap (λ n. n + 1) (max_seq-snoc (keys_under all_logs m) g.next_seq bound));
        log_eq = rw hw_same new_log;
        branches_eq =
            rw
              (
                keys_under_same all_branches slot v m refl free,
                ap (λ x. x.branches) rest,
                ap (λ x. x.next_branch_id) rest,
              )
              (pointers_map_same slot v m (keys_under all_branches m) ([], 1)
                  (λ id. same_find (branch_ptr id) refl)
                ∙ h.branches_eq);
        epoch_eq = rw (same_find lease refl) h.epoch_eq ∙ sym (ap (λ x. x.epoch) rest);
        floor_eq =
            rw (same_find retention refl) h.floor_eq ∙ sym (ap (λ x. x.retention_floor) rest);
      }

last :
    (items : List LogItem) (g : Inner)
    → g.next_lsn ≡ g.durable_lsn + 1
    → (after_segment items g).durable_lsn ≡ g.durable_lsn + length items
unfolding after_segment
last items g counted = let next_eq = apply_items-next_lsn items g in omega arith

claim_free :
    (n : ℕ) (token : FenceToken) (bytes : List ℕ) (d : Db MemStore)
    → find (log d.inner.next_seq) d.objects.map ≡ none
    → claim mem_store n token bytes d
      ≡ (ok tt, record d { objects = (write (log d.inner.next_seq) bytes d.objects).1 })
unfolding claim mem_store write_if_absent write
claim_free zero token bytes d h = rw h refl
claim_free (suc n) token bytes d h = rw h refl

check_fence_held :
    (token : FenceToken) (d : Db MemStore)
    → (lease_epoch (find lease d.objects.map)).0 ≡ token.epoch
    → check_fence mem_store token d ≡ (ok tt, d)
unfolding check_fence durable_epoch check_epoch mem_store
check_fence_held token d h = rw (h, ==_refl token.epoch) refl

-- An append by the holder of the lease, on a state that is what its bucket gives, is acknowledged
-- at the LSN of its last item.
append_segment_held :
    (config : Config) (token : FenceToken) (items : List LogItem) (d : Db MemStore)
    → IsSynced d.inner d.objects.map
    → token.epoch ≡ d.inner.epoch
    → (after_segment items d.inner).memtable_bytes < config.flush_threshold_bytes
    → append_segment mem_store config token items d ≡ (
      ok ((after_segment items d.inner).durable_lsn),
      record d {
        inner = after_segment items d.inner;
        objects = (write (log d.inner.next_seq) (encode_segment items) d.objects).1;
      },
    )
unfolding append_segment write
append_segment_held config token items d h held small =
    let seq_eq = h.seq_eq in
    let bound : max_seq (keys_under all_logs d.objects.map) < d.inner.next_seq = omega arith in
    let no_flush : leb config.flush_threshold_bytes (after_segment items d.inner).memtable_bytes
        ≡ false =
      ground arith in
    rw
      (
        check_fence_held token d (h.epoch_eq ∙ sym held),
        claim_free config.cas_max_retries token (encode_segment items) d
            (free_slot d.inner.next_seq d.objects.map bound),
        no_flush,
      )
      refl

-- On a state that is what its bucket gives, an append of the holder of the lease that does not
-- fill the memtable is acknowledged at the LSN of its last item, and the bucket that it leaves,
-- opened afresh after a crash, gives the very state that the writer has in memory.
pub open_store-append_segment :
    (config : Config) (token : FenceToken) (items : List LogItem) (d : Db MemStore)
    → IsSynced d.inner d.objects.map
    → token.epoch ≡ d.inner.epoch
    → IsU32 (length items)
    → All Fits items
    → (after_segment items d.inner).memtable_bytes < config.flush_threshold_bytes
    → let (res, d') = append_segment mem_store config token items d in
      (res ≡ ok (d.inner.durable_lsn + length items))
      × (open_store mem_store d'.objects
          ≡ (ok tt, record { inner = d'.inner; cache = []; objects = d'.objects }))
unfolding write
open_store-append_segment config token items d h held count fits small =
    let counted = IsSynced-counted d.inner d.objects.map h in
    let next_eq = apply_items-next_lsn items d.inner in
    rw (append_segment_held config token items d h held small) (
      ap ok (last items d.inner counted),
      open_store-IsSynced (after_segment items d.inner) _ (
          after_segment-IsSynced d.inner d.objects.map items
            (record { bytes = encode_segment items; etag = d.objects.etag_seq }) h
            (decode_segment-encode_segment items count fits)),
    )
