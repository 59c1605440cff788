-- ===== src/Mvcc/Runs.antt =====
-- The row versions of crates/engine/src/store.rs at concrete tables.
use Prim.Native.String.{String}
use bydesigns_db.Base.{◌↔◌, inl, true, ℕ, ◌≡◌, refl, List, [], ◌∷◌, arith}
use bydesigns_db.Mvcc.{
  check_no_conflict, RowVersion, Table, RowOp, insert, delete, pending, append_version, supersede,
  replay_ops, finalize_rows, rollback_rows, pending_snapshot, rollback_to_savepoint,
}
use bydesigns_db.Mvcc.Snapshot.{
  read_rows, write_rows, read_rows-finalize_rows, read_rows_after_commit,
}
use bydesigns_db.Mvcc.Undo.{check_no_conflict-live, rollback_rows-run_changes}
use bydesigns_db.Mvcc.Rollback.{rollback_rows_unseen}
use bydesigns_db.Mvcc.Replay.{
  Change, append, remove, run_changes, committed, replay_ops-run_changes,
  recovered_reader_sees_writer,
}

abbrev version : ℕ → String → ℕ → ℕ → ℕ → RowVersion String
version vid text create_lsn delete_lsn owner = record {
  vid = vid;
  values = text;
  create_lsn = create_lsn;
  delete_lsn = delete_lsn;
  owner = owner;
}

-- A table in which writer 7 has replaced one committed row and writer 8 has added one.
abbrev rows : List (RowVersion String)
rows =
    version 1 "a" 3 0 0
    ∷ version 2 "b" 4 pending 7
    ∷ version 3 "c" pending 0 7
    ∷ version 4 "d" pending 0 8
    ∷ []

abbrev start : Table String
start = record { rows = version 1 "a" 3 0 0 ∷ version 2 "b" 4 0 0 ∷ []; next_vid = 3 }

abbrev changes : List (Change String)
changes = remove 2 ∷ append "c" ∷ append "e" ∷ remove 3 ∷ []

read_rows-finalize_rows_example : read_rows 9 (finalize_rows 7 10 rows) ≡ read_rows 9 rows
read_rows-finalize_rows_example = read_rows-finalize_rows rows 7 10 9 (omega arith) (omega arith)

read_rows_after_commit_example : read_rows 12 (finalize_rows 7 10 rows) ≡ write_rows 12 7 rows
read_rows_after_commit_example =
    read_rows_after_commit rows 7 10 12 (omega arith) (omega arith) (omega arith)

write_rows_run : write_rows 12 7 rows ≡ (1, "a") ∷ (3, "c") ∷ []
unfolding write_rows bydesigns_db.Mvcc.visible_to_writer
write_rows_run = refl

rollback_rows_unseen_example :
    (read_rows 12 (rollback_rows 7 rows) ≡ read_rows 12 rows)
    × (write_rows 12 8 (rollback_rows 7 rows) ≡ write_rows 12 8 rows)
rollback_rows_unseen_example = rollback_rows_unseen rows 7 12 8 (omega arith) (λ e. omega arith)

replay_ops-run_changes_example :
    let (live, wal) = run_changes 7 changes (start, []) in
    replay_ops 10 wal start ≡ committed 7 10 live
replay_ops-run_changes_example =
    replay_ops-run_changes 7 10 changes start (λ e. omega arith)
      ((refl, λ e. omega arith), ((refl, λ e. omega arith), tt))

recovered_reader_sees_writer_example :
    let (live, wal) = run_changes 7 changes (start, []) in
    read_rows 11 (replay_ops 10 wal start).rows ≡ write_rows 11 7 live.rows
recovered_reader_sees_writer_example =
    recovered_reader_sees_writer 7 10 11 changes start (λ e. omega arith) (omega arith)
      (omega arith) (omega arith) ((refl, λ e. omega arith), ((refl, λ e. omega arith), tt))

check_no_conflict-live_example :
    (check_no_conflict (version 2 "b" 4 0 0) 6 7 ≡ true) ↔ ((version 2 "b" 4 0 0).delete_lsn ≡ 0)
unfolding bydesigns_db.Mvcc.visible_to_writer
check_no_conflict-live_example = check_no_conflict-live (version 2 "b" 4 0 0) 6 7 refl

rollback_rows-run_changes_example :
    rollback_rows 7 (run_changes 7 changes (start, [])).0.rows ≡ start.rows
rollback_rows-run_changes_example =
    rollback_rows-run_changes 7 changes start (λ e. omega arith)
      ((refl, λ e. omega arith, inl refl), ((refl, λ e. omega arith, inl refl), tt))

-- Two tables allocate their vids on their own. The savepoint stands after the insert of vid 1 in
-- the first one: the later insert of vid 1 in the second one outlives the rollback to it.
abbrev at_savepoint : List (String × Table String)
at_savepoint =
    ("t", record { rows = version 1 "kept" pending 0 7 ∷ []; next_vid = 2 })
    ∷ ("u", record { rows = []; next_vid = 1 })
    ∷ []

abbrev later : List (String × Table String)
later =
    ("t", record { rows = version 1 "kept" pending 0 7 ∷ []; next_vid = 2 })
    ∷ ("u", record { rows = version 1 "late" pending 0 7 ∷ []; next_vid = 2 })
    ∷ []

rollback_to_savepoint_keeps_later_insert :
    let (ins, del) = pending_snapshot 7 at_savepoint in
    rollback_to_savepoint 7 ins del later ≡ later
unfolding pending_snapshot rollback_to_savepoint
rollback_to_savepoint_keeps_later_insert = refl
