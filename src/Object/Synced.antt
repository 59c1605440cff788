-- ===== src/Object/Synced.antt =====
-- When the state of the backend of crates/storage/src/object/mod.rs is what opening its bucket
-- would rebuild, on the in-memory client.
use bydesigns_db.Base.{
  ℕ, ◌+◌, ◌≤◌, ◌≡◌, refl, inl, inr, Option, none, some, Option-cases, List, [], ◌∷◌,
}
use bydesigns_db.Base.Assoc.{Assoc}
use bydesigns_db.Types.{Result-cases, Result, ok, err, corruption, BranchRef}
use bydesigns_db.Codec.{LogItem, decode_segment}
use bydesigns_db.Object.Client.{
  Key, lease, retention, log, delta, image, branch_ptr, overlay, all_deltas, all_images, all_logs,
  all_branches, GetResult, MemStore, mem_store, find, keys_under,
}
use bydesigns_db.Object.State.{Inner, Db, lease_epoch, durable_epoch}
use bydesigns_db.Object.Log.{max_seq, sorted_seqs, read_segment}
use bydesigns_db.Object.Recover.{
  Replay, no_replay, replay_segment, deltas_of, image_of, flushed_of, add_branch, floor_of,
  discover_layers, replay_segments, replay_log, load_pointers, load_branches, recover, open_store,
}

abbrev pub Map : Type 0
Map = List (Key × GetResult)

-- The items of a slot, as the bucket has them.
abbrev pub segment_of : Option GetResult → Result (List LogItem)
segment_of none = err corruption
segment_of (some g) = decode_segment g.bytes

-- The replay of slots of a bucket.
abbrev pub onward : Result (List LogItem) → (List LogItem → Result Replay) → Result Replay
onward (ok items) k = k items
onward (err e) k = err e

unfoldable pub replay_map : ℕ → List ℕ → Replay → Map → Result Replay
replay_map hw [] r m = ok r
replay_map hw (seq ∷ seqs) r m =
    onward (segment_of (find (log seq) m))
      (λ items. replay_map hw seqs (replay_segment hw items r) m)

-- The branch pointers of a bucket.
unfoldable pub pointers_map : List Key → Assoc BranchRef × ℕ → Map → Assoc BranchRef × ℕ
pointers_map [] acc m = acc
pointers_map (branch_ptr id ∷ ks) acc m =
    pointers_map ks (add_branch (find (branch_ptr id) m) acc) m
pointers_map (k ∷ ks) acc m = pointers_map ks acc m

abbrev pub replay_of : Inner → Replay
replay_of g = record {
  next_lsn = g.next_lsn;
  durable_lsn = g.durable_lsn;
  commit_lsn = g.commit_lsn;
  memtable = g.memtable;
  memtable_bytes = g.memtable_bytes;
}

-- Every field of the state is what the bucket gives.
pub record IsSynced (g : Inner) (m : Map) : Type 0 where
  pub deltas_eq : deltas_of (keys_under all_deltas m) ≡ g.deltas
  pub image_eq : image_of (keys_under all_images m) none ≡ g.image
  pub hw_le : g.flushed_hw ≤ g.durable_lsn
  pub hw_eq : flushed_of g.deltas g.image ≡ g.flushed_hw
  pub seq_eq : max_seq (keys_under all_logs m) + 1 ≡ g.next_seq
  pub log_eq :
      replay_map g.flushed_hw (sorted_seqs (keys_under all_logs m)) no_replay m ≡ ok (replay_of g)
  pub branches_eq :
      pointers_map (keys_under all_branches m) ([], 1) m ≡ (g.branches, g.next_branch_id)
  pub epoch_eq : (lease_epoch (find lease m)).0 ≡ g.epoch
  pub floor_eq : floor_of (find retention m) ≡ g.retention_floor

abbrev carried : Result Replay → Db MemStore → Result Replay × Db MemStore
carried r d = (r, d)

replay_segments-map :
    (hw : ℕ) (seqs : List ℕ) (r : Replay) (d : Db MemStore)
    → replay_segments mem_store hw seqs r d ≡ (replay_map hw seqs r d.objects.map, d)
unfolding replay_segments replay_map read_segment mem_store
replay_segments-map hw [] r d = refl
replay_segments-map hw (seq ∷ seqs) r d = elim (Option-cases (find (log seq) d.objects.map)) [
  | inl gone ↦ rw gone refl
  | inr (g, there) ↦ rw there (elim (Result-cases (decode_segment g.bytes)) [
    | inl (items, good) ↦ rw good (replay_segments-map hw seqs (replay_segment hw items r) d)
    | inr (e, bad) ↦ rw bad refl
  ])
]

load_pointers-map :
    (ks : List Key) (acc : Assoc BranchRef × ℕ) (d : Db MemStore)
    → load_pointers mem_store ks acc d ≡ (ok (pointers_map ks acc d.objects.map), d)
unfolding load_pointers pointers_map mem_store
load_pointers-map [] acc d = refl
load_pointers-map (lease ∷ ks) acc d = load_pointers-map ks acc d
load_pointers-map (retention ∷ ks) acc d = load_pointers-map ks acc d
load_pointers-map (log n ∷ ks) acc d = load_pointers-map ks acc d
load_pointers-map (delta lo hi ∷ ks) acc d = load_pointers-map ks acc d
load_pointers-map (image n ∷ ks) acc d = load_pointers-map ks acc d
load_pointers-map (branch_ptr id ∷ ks) acc d = load_pointers-map ks _ d
load_pointers-map (overlay n xs ∷ ks) acc d = load_pointers-map ks acc d

-- Opening the bucket of a synced state gives back the state.
pub open_store-IsSynced :
    (g : Inner) (s : MemStore)
    → IsSynced g s.map
    → open_store mem_store s ≡ (ok tt, record { inner = g; cache = []; objects = s })
unfolding open_store recover discover_layers replay_log load_branches durable_epoch mem_store
open_store-IsSynced g s h =
    rw
      (
        h.deltas_eq, h.image_eq, h.hw_eq, replay_segments-map, h.log_eq, load_pointers-map,
        h.branches_eq, h.epoch_eq, h.floor_eq, h.seq_eq,
      )
      refl
