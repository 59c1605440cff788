-- ===== src/Txn/Recovered.antt =====
-- What the COMMIT, the recovery and the ROLLBACK of a transaction of crates/engine/src/conn.rs make of
-- the rows of a table, after any course of statements and savepoints.
use bydesigns_db.Base.{
  ℕ, ◌≡◌, ◌≢◌, refl, sym, ap, ◌∙◌, false, Bool-cases, inl, inr, none, some, List, [], ◌∷◌, ◌++◌,
  map, All, arith,
}
use bydesigns_db.Group.{Outcome}
use bydesigns_db.Group
use bydesigns_db.Mvcc.{
  RowVersion, Table, RowOp, pending, contains, finalize_rows, replay_ops, rollback_rows,
  rollback_rows_to,
}
use bydesigns_db.Mvcc.Replay.{finalize_rows_start}
use bydesigns_db.Txn.{
  Txn, Db, Connection, returned, LogRecord, operation, marker, next_owner, new_txn, begin,
  log_records, commit_writer, settle, finish_commit, commit, tear_down, rollback,
}
use bydesigns_db.Txn.Pending.{live}
use bydesigns_db.Txn.Undone.{Fits, Keeps, live_undone}
use bydesigns_db.Txn.Sets.{IsSound, bound}
use bydesigns_db.Txn.Fitting.{replay_ops-live}
use bydesigns_db.Txn.Trace.{Steps, Inside, Steps-Inside}

next_owner_positive : (n : ℕ) → (next_owner n).0 ≢ 0
unfolding next_owner
next_owner_positive n e = ground arith

module _ {V : Type 0} where
  rollback_rows_none :
      (owner : ℕ) (rows : List (RowVersion V))
      → rollback_rows owner rows ≡ rollback_rows_to owner [] [] rows
  unfolding rollback_rows rollback_rows_to contains
  rollback_rows_none owner [] = refl
  rollback_rows_none owner (r ∷ rows) = let ih = rollback_rows_none owner rows in ground arith

  start_kept :
      (owner : ℕ) (rows : List (RowVersion V))
      → owner ≢ 0
      → All (λ r. (r.owner ≡ 0) × (r.create_lsn ≢ pending)) rows
      → (rollback_rows_to owner [] [] rows ≡ rows) × All (Keeps owner []) rows
  unfolding rollback_rows_to contains
  start_kept owner [] o h = (refl, h)
  start_kept owner (r ∷ rows) o (here, h) =
      let (same, kept) = start_kept owner rows o h in (ground arith, ((λ e. absurd (cc)), kept))

  begin-Inside :
      (db : Db V) (c : Connection V)
      → c.txn ≡ none
      → Inside db.table.next_vid db.table.rows (next_owner db.next_owner).0 (begin (db, c)).0
  unfolding begin new_txn live bound
  begin-Inside db c e = rw e (_, refl, refl, (refl, tt, omega arith, omega arith, λ h. refl))

  -- The log of a transaction replayed, and its rows rolled back, when its log makes the rows.
  replayed :
      (t : Txn V) (commit_lsn : ℕ) (start : Table V) (now : List (RowVersion V))
      → t.owner ≢ 0
      → All (λ r. (r.owner ≡ 0) × (r.create_lsn ≢ pending)) start.rows
      → now ≡ live t.owner t.wal_ops start.rows
      → (replay_ops commit_lsn t.wal_ops start).rows ≡ finalize_rows t.owner commit_lsn now
  replayed t commit_lsn start now nonzero clean rows =
      let (kept, free) = finalize_rows_start t.owner commit_lsn start.rows nonzero clean in
      ap
        (λ rs.
          (replay_ops commit_lsn t.wal_ops record { rows = rs; next_vid = start.next_vid }).rows)
        (sym kept)
      ∙ replay_ops-live t.owner commit_lsn start.next_vid t.wal_ops start.rows free
      ∙ ap (finalize_rows t.owner commit_lsn) (sym rows)

  undone :
      (t : Txn V) (start : Table V) (now : List (RowVersion V))
      → t.owner ≢ 0
      → All (λ r. (r.owner ≡ 0) × (r.create_lsn ≢ pending)) start.rows
      → now ≡ live t.owner t.wal_ops start.rows
      → Fits t.owner start.next_vid t.wal_ops start.rows
      → rollback_rows t.owner now ≡ start.rows
  unfolding contains
  undone t start now nonzero clean rows fits =
      let (same, keeps) = start_kept t.owner start.rows nonzero clean in
      ap (rollback_rows t.owner) rows
      ∙ rollback_rows_none t.owner (live t.owner t.wal_ops start.rows)
      ∙ live_undone t.owner start.next_vid [] [] t.wal_ops start.rows nonzero (λ v h. refl)
          (λ v h. refl) fits keeps
      ∙ same

  -- What the commit of a transaction asks the log to make durable: its operations, and the marker.
  abbrev pub asked : List (RowOp V) → List (LogRecord V)
  asked ops = map operation ops ++ (marker ∷ [])

  log_records-asked : (ops : List (RowOp V)) → log_records ops ≡ asked ops
  unfolding log_records
  log_records-asked [] = refl
  log_records-asked (op ∷ ops) = ap (λ rs. operation op ∷ rs) (log_records-asked ops)

  writer_committed :
      (answer : List (LogRecord V) → Outcome) (stamp : List (RowOp V) → ℕ) (ops : List (RowOp V))
      (owner : ℕ) (start : Table V) (h : Db V × Connection V)
      → ((os : List (RowOp V)) → answer (asked os) ≡ Group.committed (stamp os))
      → (ops ≡ [] → h.0.table.rows ≡ start.rows)
      → (replay_ops (stamp ops) ops start).rows ≡ finalize_rows owner (stamp ops) h.0.table.rows
      → ((commit_writer answer ops owner h).1 ≡ returned)
        × ((commit_writer answer ops owner h).0.0.table.rows
            ≡ (replay_ops (stamp ops) ops start).rows)
  unfolding commit_writer settle replay_ops
  writer_committed answer stamp [] owner start (db, c) each none_logged replayed =
      (refl, none_logged refl)
  writer_committed answer stamp (op ∷ ops) owner start (db, c) each none_logged replayed =
      rw (log_records-asked (op ∷ ops), each (op ∷ ops)) (refl, sym replayed)

  txn_committed :
      (answer : List (LogRecord V) → Outcome) (stamp : List (RowOp V) → ℕ) (t : Txn V)
      (start : Table V) (h : Db V × Connection V)
      → ((os : List (RowOp V)) → answer (asked os) ≡ Group.committed (stamp os))
      → (t.writer ≡ false → t.wal_ops ≡ [])
      → (t.wal_ops ≡ [] → h.0.table.rows ≡ start.rows)
      → (replay_ops (stamp t.wal_ops) t.wal_ops start).rows
        ≡ finalize_rows t.owner (stamp t.wal_ops) h.0.table.rows
      → ((finish_commit answer t h).1 ≡ returned)
        × ((finish_commit answer t h).0.0.table.rows
            ≡ (replay_ops (stamp t.wal_ops) t.wal_ops start).rows)
  unfolding finish_commit replay_ops
  txn_committed answer stamp t start (db, c) each idle none_logged replayed =
      elim (Bool-cases t.writer) [
        | inl e ↦ rw e (
            writer_committed answer stamp t.wal_ops t.owner start (db, c) each none_logged replayed)
        | inr e ↦ rw (e, idle e) (refl, none_logged (idle e))
      ]

  torn_down :
      (t : Txn V) (start : List (RowVersion V)) (db : Db V)
      → (t.writer ≡ false → db.table.rows ≡ start)
      → rollback_rows t.owner db.table.rows ≡ start
      → (tear_down t db).table.rows ≡ start
  unfolding tear_down
  torn_down t start db idle undone = elim (Bool-cases t.writer) [
    | inl e ↦ rw e undone
    | inr e ↦ rw e (idle e)
  ]

  -- In a database of one table, a transaction of any course of SAVEPOINT, RELEASE, ROLLBACK TO and
  -- statements, of which each inserts new vids and supersedes versions that are open to the
  -- transaction, or fails with nothing changed; begun while all rows of the table are committed, with
  -- distinct vids below the next one. If the log makes any operations with a marker behind them
  -- durable, at an LSN that may depend on the operations, then COMMIT returns, and the rows that it
  -- leaves in memory are the very rows that the replay of the operations logged, at their LSN, makes
  -- of the table of the start. ROLLBACK in place of it returns and gives back the rows of the start.
  pub Steps-committed :
      (answer : List (LogRecord V) → Outcome) (stamp : List (RowOp V) → ℕ) (db after : Db V)
      (c told : Connection V)
      → ((os : List (RowOp V)) → answer (asked os) ≡ Group.committed (stamp os))
      → c.txn ≡ none
      → IsSound db.table.next_vid db.table.rows
      → All (λ r. (r.owner ≡ 0) × (r.create_lsn ≢ pending)) db.table.rows
      → Steps (begin (db, c)).0 (after, told)
      → (t : Txn V) × (told.txn ≡ some t)
        × ((commit answer (after, told)).1 ≡ returned)
        × ((commit answer (after, told)).0.0.table.rows
            ≡ (replay_ops (stamp t.wal_ops) t.wal_ops db.table).rows)
        × ((rollback (after, told)).1 ≡ returned)
        × ((rollback (after, told)).0.0.table.rows ≡ db.table.rows)
  unfolding commit rollback live
  Steps-committed answer stamp db after c told each idle sound clean steps =
      let (t, is, mine, history) =
        Steps-Inside db.table.next_vid db.table.rows (next_owner db.next_owner).0 (begin (db, c)).0
          (after, told) (next_owner_positive db.next_owner) sound steps (begin-Inside db c idle) in
      let (rows, fits, rest, saved, wrote) = history in
      let nonzero : t.owner ≢ 0 = λ e. next_owner_positive db.next_owner (sym mine ∙ e) in
      let unlogged : t.wal_ops ≡ [] → after.table.rows ≡ db.table.rows =
        λ e. rows ∙ ap (λ ops. live t.owner ops db.table.rows) e in
      let (done, committed_rows) =
        txn_committed answer stamp t db.table (after, record told { txn = none }) each wrote
          unlogged (replayed t (stamp t.wal_ops) db.table after.table.rows nonzero clean rows) in
      (
        t,
        is,
        rw is done,
        rw is committed_rows,
        rw is refl,
        rw is (
            torn_down t db.table.rows after (λ e. unlogged (wrote e))
              (undone t db.table after.table.rows nonzero clean rows fits)),
      )
