-- ===== src/Txn.antt =====
-- crates/engine/src/conn.rs: the transactions of a connection, and the write lane of
-- crates/engine/src/db.rs. A database is here one table, with the highest commit LSN, the lane and
-- the next owner id; the functions of the store are those of Mvcc for the rows of one table. What a
-- statement computes before it writes is given by the statement, as a function of the rows that it
-- reads. The answer of the group commit is given with each commit. A name is its bytes.
pub mod Names
pub mod Statements
pub mod Handoff
pub mod Lane
pub mod Pending
pub mod Undone
pub mod Sets
pub mod Fitting
pub mod Saved
pub mod History
pub mod Trace
pub mod Recovered
pub mod Return
mod Runs
use bydesigns_db.Base.{
  ℕ, ◌+◌, ◌%◌, max, Bool, true, false, ◌==◌, if◌then◌else◌, Option, none, some, List, [], ◌∷◌, ◌++◌,
  length, take,
}
use bydesigns_db.Group.{EngineStatus, err_txn, Outcome}
use bydesigns_db.Group
use bydesigns_db.Mvcc.{
  RowVersion, Table, RowOp, finalize_rows, rollback_rows, pending_rows, rollback_rows_to,
}
use bydesigns_db.Txn.Names.{Text, Savepoint, last_named}

pub record Txn (V : Type 0) : Type 0 where
  pub snapshot : ℕ
  pub writer : Bool
  pub wal_ops : List (RowOp V)
  pub owner : ℕ
  pub savepoints : List Savepoint

pub record Db (V : Type 0) : Type 0 where
  pub table : Table V
  pub committed_lsn : ℕ
  pub locked : Bool
  pub next_owner : ℕ

pub record Connection (V : Type 0) : Type 0 where
  pub txn : Option (Txn V)
  pub last_changes : ℕ
  pub last_lsn : ℕ

-- `Ok(())`, or the status of the error.
pub data Reply : Type 0 where
  returned : Reply
  refused : EngineStatus → Reply

-- The records of a commit: the operations in order, and the marker.
pub data LogRecord (V : Type 0) : Type 0 where
  operation : RowOp V → LogRecord V
  marker : LogRecord V

-- `u64` wrap-around.
abbrev pub next_u64 : ℕ → ℕ
next_u64 n = (n + 1) % 18446744073709551616

-- The id taken from the counter, and the counter after it: 0 is skipped.
unfoldable pub next_owner : ℕ → ℕ × ℕ
next_owner n = if n == 0 then (next_u64 n, next_u64 (next_u64 n)) else (n, next_u64 n)

module _ {V : Type 0} where
  unfoldable pub log_records : List (RowOp V) → List (LogRecord V)
  log_records [] = marker ∷ []
  log_records (op ∷ ops) = operation op ∷ log_records ops

  abbrev pub with_rows : List (RowVersion V) → Db V → Db V
  with_rows rows db = record db { table = record db.table { rows = rows } }

  abbrev pub with_txn : Option (Txn V) → Connection V → Connection V
  with_txn t c = record c { txn = t }

  abbrev pub release_lane : Db V → Db V
  release_lane db = record db { locked = false }

  -- The transaction that BEGIN, or a statement outside of one, starts.
  unfoldable pub new_txn : Db V → Txn V × Db V
  unfolding next_owner
  new_txn db =
      let (id, after) = next_owner db.next_owner in
      (
        record {
          snapshot = db.committed_lsn;
          writer = false;
          wal_ops = [];
          owner = id;
          savepoints = [];
        },
        record db { next_owner = after },
      )

  -- `read_snapshot`: the snapshot of a SELECT, and the owner if it sees its own pending rows.
  unfoldable pub read_snapshot : Db V → Connection V → ℕ × Option ℕ
  read_snapshot db c = elim c.txn [
    | none ↦ (db.committed_lsn, none)
    | some t ↦ if t.writer then (t.snapshot, some t.owner) else (t.snapshot, none)
  ]

  unfoldable pub begin : Db V × Connection V → (Db V × Connection V) × Reply
  unfolding new_txn
  begin (db, c) = elim c.txn [
    | some t ↦ ((db, c), refused err_txn)
    | none ↦ let (t, after) = new_txn db in ((after, with_txn (some t) c), returned)
  ]

  -- What the group commit leaves of one member, and gives the connection.
  unfoldable pub settle : Outcome → ℕ → Db V × Connection V → (Db V × Connection V) × Reply
  settle (Group.committed lsn) owner (db, c) = (
    (
      record (release_lane (with_rows (finalize_rows owner lsn db.table.rows) db)) {
        committed_lsn = max db.committed_lsn lsn;
      },
      record c { last_lsn = lsn },
    ),
    returned,
  )
  settle (Group.failed e) owner (db, c) =
      ((release_lane (with_rows (rollback_rows owner db.table.rows) db), c), refused e)

  -- The commit of a writer with its operations: nothing durable for none.
  unfoldable pub commit_writer :
      (List (LogRecord V) → Outcome)
      → List (RowOp V)
      → ℕ
      → Db V × Connection V
      → (Db V × Connection V) × Reply
  unfolding settle log_records
  commit_writer answer [] owner (db, c) = ((release_lane db, c), returned)
  commit_writer answer (op ∷ ops) owner (db, c) =
      settle (answer (log_records (op ∷ ops))) owner (db, c)

  -- `finish_commit` of a transaction that has left the connection.
  unfoldable pub finish_commit :
      (List (LogRecord V) → Outcome) → Txn V → Db V × Connection V → (Db V × Connection V) × Reply
  unfolding commit_writer
  finish_commit answer t (db, c) =
      if t.writer then commit_writer answer t.wal_ops t.owner (db, c) else ((db, c), returned)

  unfoldable pub commit :
      (List (LogRecord V) → Outcome) → Db V × Connection V → (Db V × Connection V) × Reply
  unfolding finish_commit
  commit answer (db, c) = elim c.txn [
    | none ↦ ((db, c), refused err_txn)
    | some t ↦ finish_commit answer t (db, with_txn none c)
  ]

  -- The end of a transaction that is not committed: of ROLLBACK, of a failed statement outside of
  -- a transaction, and of a connection that is dropped.
  unfoldable pub tear_down : Txn V → Db V → Db V
  tear_down t db =
      if t.writer then release_lane (with_rows (rollback_rows t.owner db.table.rows) db) else db

  unfoldable pub rollback : Db V × Connection V → (Db V × Connection V) × Reply
  unfolding tear_down
  rollback (db, c) = elim c.txn [
    | none ↦ ((db, c), refused err_txn)
    | some t ↦ ((tear_down t db, with_txn none c), returned)
  ]

  -- The savepoint that SAVEPOINT pushes.
  unfoldable pub new_savepoint : Text → ℕ → List (RowVersion V) → List (RowOp V) → Savepoint
  new_savepoint name owner rows ops =
      let (ins, del) = pending_rows owner rows ([], []) in
      record { name = name; inserted = ins; deleted = del; wal_len = length ops }

  unfoldable pub savepoint : Text → Db V × Connection V → (Db V × Connection V) × Reply
  unfolding new_savepoint
  savepoint name (db, c) = elim c.txn [
    | none ↦ ((db, c), refused err_txn)
    | some t ↦
        let sp = new_savepoint name t.owner db.table.rows t.wal_ops in
        ((db, with_txn (some (record t { savepoints = t.savepoints ++ (sp ∷ []) })) c), returned)
  ]

  unfoldable pub release_at :
      Option (ℕ × Savepoint) → Txn V → Db V × Connection V → (Db V × Connection V) × Reply
  release_at none t (db, c) = ((db, c), refused err_txn)
  release_at (some (i, sp)) t (db, c) =
      ((db, with_txn (some (record t { savepoints = take i t.savepoints })) c), returned)

  unfoldable pub release_savepoint : Text → Db V × Connection V → (Db V × Connection V) × Reply
  unfolding release_at last_named
  release_savepoint name (db, c) = elim c.txn [
    | none ↦ ((db, c), refused err_txn)
    | some t ↦ release_at (last_named name t.savepoints) t (db, c)
  ]

  -- `rollback_to` at a savepoint: the rows, and the transaction.
  unfoldable pub rows_to : Savepoint → Txn V → Db V → Db V
  rows_to sp t db =
      if t.writer
      then with_rows (rollback_rows_to t.owner sp.inserted sp.deleted db.table.rows) db
      else db

  unfoldable pub txn_to : ℕ → Savepoint → Txn V → Txn V
  txn_to i sp t = record t {
    wal_ops = take sp.wal_len t.wal_ops;
    savepoints = take (i + 1) t.savepoints;
  }

  unfoldable pub roll_to :
      Option (ℕ × Savepoint) → Txn V → Db V × Connection V → (Db V × Connection V) × Reply
  unfolding rows_to txn_to
  roll_to none t (db, c) = ((db, c), refused err_txn)
  roll_to (some (i, sp)) t (db, c) =
      ((rows_to sp t db, with_txn (some (txn_to i sp t)) c), returned)

  unfoldable pub rollback_to : Text → Db V × Connection V → (Db V × Connection V) × Reply
  unfolding roll_to last_named
  rollback_to name (db, c) = elim c.txn [
    | none ↦ ((db, c), refused err_txn)
    | some t ↦ roll_to (last_named name t.savepoints) t (db, c)
  ]
