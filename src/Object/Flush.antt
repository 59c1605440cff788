-- ===== src/Object/Flush.antt =====
-- The flush of the memtable to a delta layer in crates/storage/src/object/mod.rs keeps the state
-- what the opening of the bucket rebuilds.
use bydesigns_db.Base.{
  ℕ, ◌+◌, ◌≤◌, ◌<◌, ◌≡◌, refl, ap, subst, ◌∙◌, false, ltb, inl, inr, Option, none, List, [], ◌∷◌,
  ◌++◌, arith,
}
use bydesigns_db.Types.{Result-cases, ok, err}
use bydesigns_db.Codec.{PageRecord, LogItem, wal, page, encode_delta}
use bydesigns_db.Object.Client.{
  Key, lease, retention, log, delta, image, branch_ptr, overlay, all_logs, all_deltas, all_images,
  all_branches, key_eq, GetResult, MemStore, mem_store, find, store_at, keys_under, write,
  write_if_absent,
}
use bydesigns_db.Object.State.{DeltaMeta, ImageMeta, Inner, Db}
use bydesigns_db.Object.Layers.{flush, flush_records}
use bydesigns_db.Object.Log.{sorted_seqs}
use bydesigns_db.Object.Recover.{
  Replay, no_replay, replay_items, replay_segment, insert_asc, deltas_of, flushed_of, open_store,
}
use bydesigns_db.Object.MemLaws.{
  find_same, keys_under_same, keys_under-store_at_new, free_delta, flushed_of-insert_asc,
}
use bydesigns_db.Object.Synced.{
  Map, segment_of, replay_map, replay_of, IsSynced, open_store-IsSynced,
}
use bydesigns_db.Object.Replaying.{replay_map-Extends, IsSynced-counted, ok_inj}
use bydesigns_db.Object.Append.{pointers_map_same, store_at-Extends}

insert_asc-snoc :
    (d new : DeltaMeta) (ds : List DeltaMeta)
    → d.hi < new.hi
    → insert_asc d (ds ++ (new ∷ [])) ≡ insert_asc d ds ++ (new ∷ [])
unfolding insert_asc
insert_asc-snoc d new [] h = ground arith
insert_asc-snoc d new (c ∷ ds) h = let ih = insert_asc-snoc d new ds h in ground arith

abbrev pub meta : ℕ → ℕ → DeltaMeta
meta lo hi = record { lo = lo; hi = hi; key = delta lo hi }

deltas_of-snoc :
    (ks : List Key) (lo hi : ℕ) (top : Option ImageMeta)
    → flushed_of (deltas_of ks) top < hi
    → deltas_of (ks ++ (delta lo hi ∷ [])) ≡ deltas_of ks ++ (meta lo hi ∷ [])
unfolding deltas_of insert_asc
deltas_of-snoc [] lo hi top h = refl
deltas_of-snoc (delta l u ∷ ks) lo hi top h =
    let most = flushed_of-insert_asc (meta l u) (deltas_of ks) top in
    rw (deltas_of-snoc ks lo hi top (omega arith))
      (insert_asc-snoc (meta l u) (meta lo hi) (deltas_of ks) (omega arith))
deltas_of-snoc (lease ∷ ks) lo hi top h = deltas_of-snoc ks lo hi top h
deltas_of-snoc (retention ∷ ks) lo hi top h = deltas_of-snoc ks lo hi top h
deltas_of-snoc (log n ∷ ks) lo hi top h = deltas_of-snoc ks lo hi top h
deltas_of-snoc (image n ∷ ks) lo hi top h = deltas_of-snoc ks lo hi top h
deltas_of-snoc (branch_ptr n ∷ ks) lo hi top h = deltas_of-snoc ks lo hi top h
deltas_of-snoc (overlay n xs ∷ ks) lo hi top h = deltas_of-snoc ks lo hi top h

flushed_of-snoc :
    (ds : List DeltaMeta) (d : DeltaMeta) (top : Option ImageMeta)
    → flushed_of ds top < d.hi
    → flushed_of (ds ++ (d ∷ [])) top ≡ d.hi
unfolding flushed_of
flushed_of-snoc [] d top h = omega arith
flushed_of-snoc (c ∷ ds) d top h = let ih = flushed_of-snoc ds d top (omega arith) in omega arith

-- A replay without its memtable.
abbrev wiped : Replay → Replay
wiped r = record r { memtable = []; memtable_bytes = 0 }

replay_items-grows :
    (hw : ℕ) (items : List LogItem) (r : Replay) → r.next_lsn ≤ (replay_items hw items r).next_lsn
unfolding replay_items
replay_items-grows hw [] r = omega arith
replay_items-grows hw (wal bytes ∷ items) r =
    let r1 : Replay = record r { next_lsn = r.next_lsn + 1; durable_lsn = r.next_lsn } in
    let ih = replay_items-grows hw items r1 in omega arith
replay_items-grows hw (page page_id bytes ∷ items) r = grows (replay_items-grows hw items _)
  where
    grows : {a b : ℕ} → a + 1 ≤ b → a ≤ b
    grows h = omega arith

-- Where all that is replayed is flushed, the replay leaves no memtable.
replay_items-wiped :
    (hw hw' : ℕ) (items : List LogItem) (r : Replay)
    → (replay_items hw items r).next_lsn ≤ hw' + 1
    → replay_items hw' items (wiped r) ≡ wiped (replay_items hw items r)
unfolding replay_items
replay_items-wiped hw hw' [] r h = refl
replay_items-wiped hw hw' (wal bytes ∷ items) r h = replay_items-wiped hw hw' items _ h
replay_items-wiped hw hw' (page page_id bytes ∷ items) r h =
    let reached : r.next_lsn + 1 ≤ hw' + 1 = reach (replay_items-grows hw items _) h in
    let old : ltb hw' r.next_lsn ≡ false = ground arith in
    rw old (replay_items-wiped hw hw' items _ h)
  where
    reach : {a b c : ℕ} → a ≤ b → b ≤ c → a ≤ c
    reach h k = omega arith

replay_segment-wiped :
    (hw hw' : ℕ) (items : List LogItem) (r : Replay)
    → (replay_segment hw items r).next_lsn ≤ hw' + 1
    → replay_segment hw' items (wiped r) ≡ wiped (replay_segment hw items r)
unfolding replay_segment
replay_segment-wiped hw hw' items r h = rw (replay_items-wiped hw hw' items r h) refl

replay_map-grows :
    (hw : ℕ) (seqs : List ℕ) (r r' : Replay) (m : Map)
    → replay_map hw seqs r m ≡ ok r'
    → r.next_lsn ≤ r'.next_lsn
unfolding replay_map replay_segment
replay_map-grows hw [] r r' m e = subst (λ r1. r.next_lsn ≤ r1.next_lsn) (ok_inj e) (omega arith)
replay_map-grows hw (seq ∷ seqs) r r' m e = elim (Result-cases (segment_of (find (log seq) m))) [
  | inl (items, good) ↦
      let step = replay_items-grows hw items r in
      let ih = replay_map-grows hw seqs _ r' m (rw good at e) in omega arith
  | inr (w, bad) ↦ let no : err w ≡ ok r' = rw bad at e in cc
]

replay_map-wiped :
    (hw hw' : ℕ) (seqs : List ℕ) (r r' : Replay) (m : Map)
    → r'.next_lsn ≤ hw' + 1
    → replay_map hw seqs r m ≡ ok r'
    → replay_map hw' seqs (wiped r) m ≡ ok (wiped r')
unfolding replay_map
replay_map-wiped hw hw' [] r r' m h e = ap (λ r1. ok (wiped r1)) (ok_inj e)
replay_map-wiped hw hw' (seq ∷ seqs) r r' m h e =
    elim (Result-cases (segment_of (find (log seq) m))) [
      | inl (items, good) ↦
          let more = rw good at e in
          let grown = replay_map-grows hw seqs _ r' m more in
          rw (good, replay_segment-wiped hw hw' items r (omega arith))
            (replay_map-wiped hw hw' seqs _ r' m h more)
      | inr (w, bad) ↦ let no : err w ≡ ok r' = rw bad at e in cc
    ]

-- The state after a flush.
abbrev pub flushed : Inner → Inner
flushed g = record g {
  deltas = g.deltas ++ (meta (g.flushed_hw + 1) g.durable_lsn ∷ []);
  flushed_hw = g.durable_lsn;
  memtable = [];
  memtable_bytes = 0;
}

module _ (g : Inner) (m : Map) (v : GetResult) (h : IsSynced g m)
    (unflushed : g.flushed_hw < g.durable_lsn) where
  abbrev layer : Key
  layer = delta (g.flushed_hw + 1) g.durable_lsn

  top_below : flushed_of (deltas_of (keys_under all_deltas m)) g.image < g.durable_lsn
  top_below = let hw_eq = h.hw_eq in rw (h.deltas_eq, hw_eq) unflushed

  pub free : find layer m ≡ none
  free = free_delta (g.flushed_hw + 1) g.durable_lsn m g.image top_below

  pub same_find : (j : Key) → key_eq layer j ≡ false → find j (store_at layer v m) ≡ find j m
  same_find j other = find_same layer j v m other free

  pub flushed-IsSynced : IsSynced (flushed g) (store_at layer v m)
  flushed-IsSynced =
      let counted = IsSynced-counted g m h in
      let hw_eq = h.hw_eq in
      record {
        deltas_eq =
            rw
              (
                keys_under-store_at_new all_deltas layer v m free,
                deltas_of-snoc (keys_under all_deltas m) (g.flushed_hw + 1) g.durable_lsn g.image
                    top_below,
                h.deltas_eq,
              )
              refl;
        image_eq = rw (keys_under_same all_images layer v m refl free) h.image_eq;
        hw_le = omega arith;
        hw_eq =
            flushed_of-snoc g.deltas (meta (g.flushed_hw + 1) g.durable_lsn) g.image
              (rw hw_eq unflushed);
        seq_eq = rw (keys_under_same all_logs layer v m refl free) h.seq_eq;
        log_eq = rw (keys_under_same all_logs layer v m refl free) (
            replay_map-Extends g.durable_lsn (sorted_seqs (keys_under all_logs m)) no_replay
              (wiped (replay_of g)) m (store_at layer v m) (store_at-Extends layer v m free)
              (replay_map-wiped g.flushed_hw g.durable_lsn (sorted_seqs (keys_under all_logs m))
                no_replay (replay_of g) m (omega arith) h.log_eq));
        branches_eq = rw (keys_under_same all_branches layer v m refl free) (
            pointers_map_same layer v m (keys_under all_branches m) ([], 1)
              (λ id. same_find (branch_ptr id) refl)
            ∙ h.branches_eq);
        epoch_eq = rw (same_find lease refl) h.epoch_eq;
        floor_eq = rw (same_find retention refl) h.floor_eq;
      }

-- A flush on a state that is what its bucket gives succeeds, and the bucket that it leaves, opened
-- afresh, gives the state in memory: the new layer, and no memtable.
pub open_store-flush :
    (r : PageRecord) (records : List PageRecord) (d : Db MemStore)
    → IsSynced d.inner d.objects.map
    → d.inner.memtable ≡ r ∷ records
    → d.inner.flushed_hw < d.inner.durable_lsn
    → let (res, d') = flush mem_store d in
      (res ≡ ok tt)
      × (d'.inner ≡ flushed d.inner)
      × (open_store mem_store d'.objects
          ≡ (ok tt, record { inner = d'.inner; cache = []; objects = d'.objects }))
unfolding flush flush_records mem_store write_if_absent write
open_store-flush r records d h filled unflushed =
    rw (filled, free d.inner d.objects.map (record { bytes = []; etag = 0 }) h unflushed)
      (
        refl,
        refl,
        open_store-IsSynced (flushed d.inner) _ (
            flushed-IsSynced d.inner d.objects.map
              (record { bytes = encode_delta (r ∷ records); etag = d.objects.etag_seq }) h
              unflushed),
      )
