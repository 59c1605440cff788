-- ===== src/Txn/Statements.antt =====
-- INSERT, UPDATE and DELETE on a connection: exec_dml of crates/engine/src/conn.rs. A statement is
-- given by what it does to the rows that it finds. Before it waits for the write lane it opens its
-- transaction, and it goes on when the lane is free. Also the connections of one database, of which
-- one takes a step at a time.
use bydesigns_db.Base.{
  ℕ, zero, suc, Bool, true, false, ◌&&◌, not, if◌then◌else◌, Option, none, some, List, [], ◌∷◌,
  ◌++◌,
}
use bydesigns_db.Group.{EngineStatus, Outcome}
use bydesigns_db.Mvcc.{RowVersion, Table}
use bydesigns_db.Mvcc.Replay.{Change, run_changes}
use bydesigns_db.Txn.{
  Txn, Db, Connection, Reply, returned, refused, LogRecord, with_txn, new_txn, begin, finish_commit,
  commit, tear_down, rollback, savepoint, release_savepoint, rollback_to,
}
use bydesigns_db.Txn.Names.{Text}

-- The result of a statement: its changes to the rows and their number, or an error with the changes
-- that it has made before it.
pub data Mutation (V : Type 0) : Type 0 where
  mutated : List (Change V) → ℕ → Mutation V
  broken : List (Change V) → EngineStatus → Mutation V

-- A statement: its mutation from the rows of the table, the snapshot and the owner, and the answer
-- of the group commit if it ends its own transaction.
pub record Statement (V : Type 0) : Type 0 where
  pub mutation : List (RowVersion V) → ℕ → ℕ → Mutation V
  pub answer : List (LogRecord V) → Outcome

module _ {V : Type 0} where
  -- Before the lane: the transaction of the statement, and whether the statement has opened it.
  unfoldable pub open_implicit : Db V × Connection V → (Db V × Connection V) × Bool
  unfolding new_txn
  open_implicit (db, c) = elim c.txn [
    | some t ↦ ((db, c), false)
    | none ↦ let (t, after) = new_txn db in ((after, with_txn (some t) c), true)
  ]

  -- `ensure_writer`, where the lane is free or the transaction holds it.
  abbrev pub with_lane : Txn V → Db V → Db V
  with_lane t db = record db { locked = true }

  unfoldable pub as_writer : Txn V → Txn V
  as_writer t = record t { writer = true }

  abbrev pub with_table : Table V → Db V → Db V
  with_table table db = record db { table = table }

  -- After the statement has run.
  unfoldable pub conclude :
      (List (LogRecord V) → Outcome)
      → Bool
      → Mutation V
      → Txn V
      → Db V × Connection V
      → (Db V × Connection V) × Reply
  unfolding finish_commit tear_down run_changes
  conclude answer implicit (mutated cs changes) t (db, c) =
      let (table, ops) = run_changes t.owner cs (db.table, []) in
      let after = record t { wal_ops = t.wal_ops ++ ops } in
      let told = record c { last_changes = changes } in
      if implicit
      then finish_commit answer after (with_table table db, with_txn none told)
      else ((with_table table db, with_txn (some after) told), returned)
  conclude answer implicit (broken cs e) t (db, c) =
      let (table, ops) = run_changes t.owner cs (db.table, []) in
      if implicit
      then ((tear_down t (with_table table db), with_txn none c), refused e)
      else ((with_table table db, with_txn (some t) c), refused e)

  -- `exec_dml` from the acquisition of the lane on.
  unfoldable pub run_dml :
      Statement V → Bool → Txn V → Db V × Connection V → (Db V × Connection V) × Reply
  unfolding as_writer conclude
  run_dml s implicit t (db, c) =
      let w = as_writer t in
      conclude s.answer implicit (s.mutation db.table.rows w.snapshot w.owner) w (with_lane t db, c)

-- A handle in use: its connection, and the statement with which it stands before the lane, with
-- whether the statement has opened its transaction.
pub record Session (V : Type 0) : Type 0 where
  pub connection : Connection V
  pub waiting : Option (Statement V × Bool)

-- What a thread does with its handle; `close` is the drop of the connection.
pub data Call (V : Type 0) : Type 0 where
  begin_txn : Call V
  commit_txn : (List (LogRecord V) → Outcome) → Call V
  rollback_txn : Call V
  set_savepoint : Text → Call V
  drop_savepoint : Text → Call V
  return_to : Text → Call V
  modify : Statement V → Call V
  close : Call V

module _ {V : Type 0} where
  unfoldable pub drop_connection : Db V × Connection V → Db V × Connection V
  unfolding tear_down
  drop_connection (db, c) = elim c.txn [
    | none ↦ (db, c)
    | some t ↦ (tear_down t db, with_txn none c)
  ]

  -- A call on a connection; a statement is left standing before the lane.
  unfoldable pub perform : Call V → Db V × Connection V → Db V × Session V
  unfolding begin commit rollback savepoint release_savepoint rollback_to drop_connection
      open_implicit
  perform begin_txn at =
      let ((db, c), reply) = begin at in (db, record { connection = c; waiting = none })
  perform (commit_txn answer) at =
      let ((db, c), reply) = commit answer at in (db, record { connection = c; waiting = none })
  perform rollback_txn at =
      let ((db, c), reply) = rollback at in (db, record { connection = c; waiting = none })
  perform (set_savepoint name) at =
      let ((db, c), reply) = savepoint name at in (db, record { connection = c; waiting = none })
  perform (drop_savepoint name) at =
      let ((db, c), reply) = release_savepoint name at in
      (db, record { connection = c; waiting = none })
  perform (return_to name) at =
      let ((db, c), reply) = rollback_to name at in (db, record { connection = c; waiting = none })
  perform (modify s) at =
      let ((db, c), implicit) = open_implicit at in
      (db, record { connection = c; waiting = some (s, implicit) })
  perform close at =
      let (db, c) = drop_connection at in (db, record { connection = c; waiting = none })

  -- The statement before the lane goes on if its transaction holds the lane or the lane is free.
  unfoldable pub pass_lane :
      Statement V → Bool → Option (Txn V) → Db V × Session V → Db V × Session V
  unfolding run_dml
  pass_lane s implicit none (db, session) = (db, session)
  pass_lane s implicit (some t) (db, session) =
      let ((after, c), reply) = run_dml s implicit t (db, session.connection) in
      if db.locked && not t.writer
      then (db, session)
      else (after, record { connection = c; waiting = none })

  -- One step of the thread of a session: it goes on with what it waits with, or takes up `call`.
  unfoldable pub step : Call V → Db V × Session V → Db V × Session V
  unfolding perform pass_lane
  step call (db, session) = elim session.waiting [
    | none ↦ perform call (db, session.connection)
    | some (s, implicit) ↦ pass_lane s implicit session.connection.txn (db, session)
  ]

  -- One step of the session at a position.
  unfoldable pub step_at : ℕ → Call V → Db V × List (Session V) → Db V × List (Session V)
  unfolding step
  step_at i call (db, []) = (db, [])
  step_at zero call (db, x ∷ sessions) = let (after, y) = step call (db, x) in (after, y ∷ sessions)
  step_at (suc i) call (db, x ∷ sessions) =
      let (after, rest) = step_at i call (db, sessions) in (after, x ∷ rest)

  -- The schedule: which session takes a step, with which call.
  unfoldable pub run_schedule :
      List (ℕ × Call V) → Db V × List (Session V) → Db V × List (Session V)
  unfolding step_at
  run_schedule [] at = at
  run_schedule ((i, call) ∷ moves) at = run_schedule moves (step_at i call at)
