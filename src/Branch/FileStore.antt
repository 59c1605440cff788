-- ===== src/Branch/FileStore.antt =====
-- The file backend of crates/storage/src/local.rs as an implementation of the interface of a
-- branch's backends, and the log that it shows.
use bydesigns_db.Base.{ℕ, true, ◌≡◌, refl, sym, List, [], ◌∷◌, ◌++◌}
use bydesigns_db.Types.{ok, LogEntry}
use bydesigns_db.Local.Format.{Frame, wal, page, fence, retention, branch, branch_del, read_log}
use bydesigns_db.Local.State.{Inner, done}
use bydesigns_db.Local.Ops
use bydesigns_db.Local.Ops.{entries_after, wal_entries}
use bydesigns_db.Branch.{Storage}
use bydesigns_db.Branch.Splice.{Shows, IsLog-Shows, entries_after-append}

-- The file backend as a backend, on an operating system whose calls succeed.
unfoldable pub local_storage : Storage Inner
local_storage = record {
  get_page = Ops.get_page;
  append_wal = Ops.append_wal done;
  put_page = Ops.put_page done;
  scan_wal = λ after s. (Ops.scan_wal after s, s);
  flush = Ops.flush true;
  durable_lsn = λ s. (ok s.durable_lsn, s);
  get_commit_lsn = λ s. (ok s.commit_lsn, s);
  acquire_fence = Ops.acquire_fence done;
  renew_fence = λ token s. (Ops.renew_fence token s, s);
  release_fence = λ token s. (ok tt, s);
  create_branch = Ops.create_branch done;
  resolve_branch = λ id s. (Ops.resolve_branch id s, s);
  list_branches = λ s. (ok (Ops.list_branches s), s);
  delete_branch = Ops.delete_branch done;
  set_retention_floor = Ops.set_retention_floor done;
  pitr_floor = λ s. (ok s.retention_floor, s);
  stats = λ s. s.stats;
}

-- The records of all the frames of a log.
abbrev pub log_of : List Frame → List LogEntry
log_of [] = []
log_of (wal records c ∷ frames) = records ++ log_of frames
log_of (f ∷ frames) = log_of frames

wal_entries-log_of :
    (after : ℕ) (frames : List Frame)
    → wal_entries after frames ≡ entries_after after (log_of frames)
unfolding wal_entries
wal_entries-log_of after [] = refl
wal_entries-log_of after (wal records c ∷ frames) =
    rw (wal_entries-log_of after frames) (sym (entries_after-append after records (log_of frames)))
wal_entries-log_of after (page a b c ∷ frames) = wal_entries-log_of after frames
wal_entries-log_of after (fence e ∷ frames) = wal_entries-log_of after frames
wal_entries-log_of after (retention f ∷ frames) = wal_entries-log_of after frames
wal_entries-log_of after (branch a b c ∷ frames) = wal_entries-log_of after frames
wal_entries-log_of after (branch_del i ∷ frames) = wal_entries-log_of after frames

-- A file that recovery can read shows the records of its frames.
pub local_storage-Shows :
    (s : Inner) (frames : List Frame) (end next : ℕ)
    → read_log s.file ≡ ok (frames, end, next)
    → Shows local_storage (log_of frames) s
unfolding local_storage Ops.scan_wal
local_storage-Shows s frames end next h =
    IsLog-Shows local_storage (log_of frames) s
      (λ after. rw (h, wal_entries-log_of after frames) refl)
