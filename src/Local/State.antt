-- ===== src/Local/State.antt =====
-- crates/storage/src/local.rs: `Inner`, and `recover`. The fields that recovery rebuilds from the
-- frames are a record of their own, `View`, opened in `Inner`; the file is its bytes.
use bydesigns_db.Base.{
  ℕ, ◌+◌, ◌==◌, max, if◌then◌else◌, List, [], ◌∷◌, ◌++◌, ltb, length, take, drop,
}
use bydesigns_db.Base.Assoc.{Assoc, insert, remove}
use bydesigns_db.Types.{Result, ok, fit_page, StorageStats, no_stats, BranchRef, ◌>>=◌}
use bydesigns_db.Local.Format.{
  Frame, wal, page, fence, retention, branch, branch_del, header, header_size, read_log,
}

-- `(version_lsn, image)` in ascending order of the LSN.
abbrev pub PageChain : Type 0
PageChain = List (ℕ × List ℕ)

pub record View : Type 0 where
  pub durable_lsn : ℕ
  pub commit_lsn : ℕ
  pub epoch : ℕ
  pub retention_floor : ℕ
  pub pages : Assoc PageChain
  pub branches : Assoc BranchRef
  pub next_branch_id : ℕ

pub record Inner : Type 0 where
  pub file : List ℕ
  pub end : ℕ
  pub next_lsn : ℕ
  pub view : View
  pub open view use *
  pub stats : StorageStats

abbrev pub empty_view : View
empty_view = record {
  durable_lsn = 0;
  commit_lsn = 0;
  epoch = 0;
  retention_floor = 0;
  pages = [];
  branches = [];
  next_branch_id = 1;
}

-- `pages.entry(id).or_default().push(version)`.
unfoldable pub push_version : Assoc PageChain → ℕ → ℕ × List ℕ → Assoc PageChain
push_version [] id v = (id, v ∷ []) ∷ []
push_version ((j, chain) ∷ m) id v =
    if j == id then (j, chain ++ (v ∷ [])) ∷ m else (j, chain) ∷ push_version m id v

-- One round of the loop of `recover`.
unfoldable pub apply_frame : View → Frame → View
apply_frame v (wal records c) = record v {
  durable_lsn = max v.durable_lsn c;
  commit_lsn = max v.commit_lsn c;
}
apply_frame v (page lsn page_id image) = record v {
  durable_lsn = max v.durable_lsn lsn;
  pages = push_version v.pages page_id (lsn, fit_page image);
}
apply_frame v (fence e) = record v { epoch = max v.epoch e }
apply_frame v (retention floor) = record v { retention_floor = max v.retention_floor floor }
apply_frame v (branch id base_lsn parent) = record v {
  branches =
      insert v.branches id
        (record { id = id; parent = parent; base_lsn = base_lsn; head_lsn = base_lsn });
  next_branch_id = max v.next_branch_id (id + 1);
}
apply_frame v (branch_del id) = record v { branches = remove v.branches id }

unfoldable pub replay : View → List Frame → View
replay v [] = v
replay v (f ∷ fs) = replay (apply_frame v f) fs

unfoldable pub recover : List ℕ → Result Inner
recover file = do
  (frames, end, next_lsn) ← read_log file
  ok (record {
    file = file;
    end = end;
    next_lsn = next_lsn;
    view = replay empty_view frames;
    stats = no_stats;
  })

-- The state of a file that was just created.
unfoldable pub fresh : Inner
unfolding header
fresh = record {
  file = header;
  end = header_size;
  next_lsn = 1;
  view = empty_view;
  stats = no_stats;
}

-- `LocalFileStorage::open` on the bytes of the file, where the calls of the operating system
-- succeed: an empty file gets a header, another is recovered and cut behind its last good frame.
unfoldable pub open_file : List ℕ → Result Inner
open_file [] = ok fresh
open_file (b ∷ rest) = do
  s ← recover (b ∷ rest)
  ok (if ltb s.end (length s.file) then record s { file = take s.end s.file } else s)

-- What the operating system answers to the three calls of `append_frame`: all succeed, or the
-- first that fails is the seek, the write, after so many bytes, or the sync.
pub data Io : Type 0 where
  done : Io
  seek_failed : Io
  write_failed : ℕ → Io
  sync_failed : Io

-- `write_all` at an offset of the file: what stood there is overwritten.
unfoldable pub overwrite : List ℕ → ℕ → List ℕ → List ℕ
overwrite file at buf = take at file ++ (buf ++ drop (at + length buf) file)
