-- ===== src/Object/Recover.antt =====
-- The opening of a bucket by crates/storage/src/object/mod.rs: the layers that are there, the
-- replay of the log, the branch pointers, the lease and the retention floor.
use bydesigns_db.Base.{
  ℕ, ◌+◌, max, Bool, true, ltb, leb, if◌then◌else◌, Option, none, some, List, [], ◌∷◌, length, take,
  drop,
}
use bydesigns_db.Base.Bytes.{from_le}
use bydesigns_db.Base.Assoc.{Assoc, insert}
use bydesigns_db.Types.{Result, BranchRef}
use bydesigns_db.Codec.{PageRecord, LogItem, wal, page}
use bydesigns_db.Object.Client.{
  Key, retention, delta, image, branch_ptr, all_deltas, all_images, all_logs, all_branches,
  GetResult, ObjectStore,
}
use bydesigns_db.Object.State.{
  DeltaMeta, ImageMeta, Inner, Db, Action, pure, ◌>>=◌, set_state, obj_get, obj_list, durable_epoch,
}
use bydesigns_db.Object.Layers.{memtable_insert}
use bydesigns_db.Object.Log.{has_wal, max_seq, sorted_seqs, read_segment}

-- `sort_by_key(|d| d.hi)`, a stable sort.
unfoldable pub insert_asc : DeltaMeta → List DeltaMeta → List DeltaMeta
insert_asc d [] = d ∷ []
insert_asc d (c ∷ cs) =
    let rest = insert_asc d cs in if ltb c.hi d.hi then c ∷ rest else d ∷ (c ∷ cs)

unfoldable pub deltas_of : List Key → List DeltaMeta
unfolding insert_asc
deltas_of [] = []
deltas_of (delta lo hi ∷ ks) =
    insert_asc (record { lo = lo; hi = hi; key = delta lo hi }) (deltas_of ks)
deltas_of (k ∷ ks) = deltas_of ks

abbrev pub newer_image : ℕ → Option ImageMeta → Bool
newer_image n none = true
newer_image n (some i) = ltb i.image_lsn n

-- The loop that keeps the image of the greatest LSN.
unfoldable pub image_of : List Key → Option ImageMeta → Option ImageMeta
image_of [] best = best
image_of (image n ∷ ks) best =
    image_of ks
      (if newer_image n best then some (record { image_lsn = n; key = image n }) else best)
image_of (k ∷ ks) best = image_of ks best

unfoldable pub image_hw : Option ImageMeta → ℕ
image_hw none = 0
image_hw (some i) = i.image_lsn

unfoldable pub flushed_of : List DeltaMeta → Option ImageMeta → ℕ
unfolding image_hw
flushed_of [] i = image_hw i
flushed_of (d ∷ ds) i = max d.hi (flushed_of ds i)

-- `LogReplay` without its greatest slot.
pub record Replay : Type 0 where
  pub next_lsn : ℕ
  pub durable_lsn : ℕ
  pub commit_lsn : ℕ
  pub memtable : List PageRecord
  pub memtable_bytes : ℕ

abbrev pub no_replay : Replay
no_replay = record {
  next_lsn = 1;
  durable_lsn = 0;
  commit_lsn = 0;
  memtable = [];
  memtable_bytes = 0;
}

-- The loop over the items of a segment.
unfoldable pub replay_items : ℕ → List LogItem → Replay → Replay
unfolding memtable_insert
replay_items flushed_hw [] r = r
replay_items flushed_hw (wal bytes ∷ items) r =
    replay_items flushed_hw items (record r { next_lsn = r.next_lsn + 1; durable_lsn = r.next_lsn })
replay_items flushed_hw (page page_id bytes ∷ items) r =
    let unflushed = ltb flushed_hw r.next_lsn in
    replay_items flushed_hw items (record r {
      next_lsn = r.next_lsn + 1;
      durable_lsn = r.next_lsn;
      memtable =
          if unflushed
          then memtable_insert (record { page_id = page_id; lsn = r.next_lsn; image = bytes })
              r.memtable
          else r.memtable;
      memtable_bytes = if unflushed then r.memtable_bytes + length bytes else r.memtable_bytes;
    })

unfoldable pub replay_segment : ℕ → List LogItem → Replay → Replay
unfolding replay_items has_wal
replay_segment flushed_hw items r =
    let r1 = replay_items flushed_hw items r in
    record r1 { commit_lsn = if has_wal items then r1.durable_lsn else r1.commit_lsn }

-- The pointer in a branch object.
unfoldable pub branch_of : List ℕ → BranchRef
branch_of bytes = record {
  id = from_le (take 8 bytes);
  base_lsn = from_le (take 8 (drop 8 bytes));
  parent = from_le (take 8 (drop 16 bytes));
  head_lsn = from_le (take 8 (drop 8 bytes));
}

unfoldable pub add_branch : Option GetResult → Assoc BranchRef × ℕ → Assoc BranchRef × ℕ
unfolding branch_of
add_branch none acc = acc
add_branch (some g) (branches, next) =
    let b = branch_of g.bytes in
    if leb 24 (length g.bytes)
    then (insert branches b.id b, max next (b.id + 1))
    else (branches, next)

unfoldable pub floor_of : Option GetResult → ℕ
floor_of none = 0
floor_of (some g) = if leb 8 (length g.bytes) then from_le (take 8 g.bytes) else 0

unfoldable pub new_inner : Inner
new_inner = record {
  next_seq = 1;
  next_lsn = 1;
  durable_lsn = 0;
  commit_lsn = 0;
  epoch = 0;
  retention_floor = 0;
  memtable = [];
  memtable_bytes = 0;
  flushed_hw = 0;
  deltas = [];
  image = none;
  branches = [];
  next_branch_id = 1;
}

module _ {S : Type 0} (store : ObjectStore S) where
  unfoldable pub discover_layers : Action S (List DeltaMeta × Option ImageMeta × ℕ)
  unfolding deltas_of image_of flushed_of
  discover_layers = do
    delta_keys ← obj_list store all_deltas
    image_keys ← obj_list store all_images
    pure (
      deltas_of delta_keys,
      image_of image_keys none,
      flushed_of (deltas_of delta_keys) (image_of image_keys none),
    )

  unfoldable pub replay_segments : ℕ → List ℕ → Replay → Action S Replay
  unfolding replay_segment
  replay_segments flushed_hw [] r = pure r
  replay_segments flushed_hw (seq ∷ seqs) r = do
    items ← read_segment store seq
    replay_segments flushed_hw seqs (replay_segment flushed_hw items r)

  -- The replay, and the greatest slot.
  unfoldable pub replay_log : ℕ → Action S (Replay × ℕ)
  unfolding replay_segments
  replay_log flushed_hw = do
    keys ← obj_list store all_logs
    r ← replay_segments flushed_hw (sorted_seqs keys) no_replay
    pure (r, max_seq keys)

  unfoldable pub load_pointers : List Key → Assoc BranchRef × ℕ → Action S (Assoc BranchRef × ℕ)
  unfolding add_branch
  load_pointers [] acc = pure acc
  load_pointers (branch_ptr id ∷ ks) acc = do
    found ← obj_get store (branch_ptr id)
    load_pointers ks (add_branch found acc)
  load_pointers (k ∷ ks) acc = load_pointers ks acc

  unfoldable pub load_branches : Action S (Assoc BranchRef × ℕ)
  unfolding load_pointers
  load_branches = do keys ← obj_list store all_branches; load_pointers keys ([], 1)

  unfoldable pub recover : Action S (Unit {0})
  unfolding discover_layers replay_log load_branches floor_of
  recover = do
    (deltas, top, flushed_hw) ← discover_layers
    (replay, seq) ← replay_log flushed_hw
    (branches, next_branch_id) ← load_branches
    (epoch, etag) ← durable_epoch store
    floor ← obj_get store retention
    set_state (record {
      next_seq = seq + 1;
      next_lsn = replay.next_lsn;
      durable_lsn = replay.durable_lsn;
      commit_lsn = replay.commit_lsn;
      epoch = epoch;
      retention_floor = floor_of floor;
      memtable = replay.memtable;
      memtable_bytes = replay.memtable_bytes;
      flushed_hw = flushed_hw;
      deltas = deltas;
      image = top;
      branches = branches;
      next_branch_id = next_branch_id;
    })

  -- `with_store`.
  unfoldable pub open_store : S → Result (Unit {0}) × Db S
  unfolding recover
  open_store s = recover (record { inner = new_inner; cache = []; objects = s })
