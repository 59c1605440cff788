-- ===== src/Txn/Handoff.antt =====
-- What each operation of a connection of crates/engine/src/conn.rs does to the write lane of
-- crates/engine/src/db.rs.
use bydesigns_db.Base.{
  ℕ, ◌+◌, ◌≤◌, ◌≡◌, refl, ap, ◌∙◌, Bool, true, false, if◌then◌else◌, Option, none, some,
  Option-cases, Bool-cases, inl, inr, List, [], ◌∷◌, ◌++◌, arith,
}
use bydesigns_db.Group.{Outcome}
use bydesigns_db.Group
use bydesigns_db.Mvcc.{RowOp}
use bydesigns_db.Mvcc.Replay.{run_changes}
use bydesigns_db.Txn.{
  Txn, Db, Connection, LogRecord, log_records, new_txn, begin, commit_writer, settle, finish_commit,
  commit, tear_down, rollback, savepoint, release_at, release_savepoint, roll_to, rows_to, txn_to,
  rollback_to,
}
use bydesigns_db.Txn.Names.{Text, Savepoint, last_named}
use bydesigns_db.Txn.Statements.{
  Mutation, mutated, broken, Statement, open_implicit, as_writer, conclude, run_dml, Session,
  drop_connection, pass_lane,
}

-- 1 for the lane that is held, and for a transaction and a connection that write.
unfoldable pub held : Bool → ℕ
held b = if b then 1 else 0

module _ {V : Type 0} where
  unfoldable pub writes : Option (Txn V) → ℕ
  writes none = 0
  writes (some t) = held t.writer

  unfoldable pub writers : List (Session V) → ℕ
  writers [] = 0
  writers (x ∷ sessions) = writes x.connection.txn + writers sessions

  -- The lane and the transaction after a step of a connection: the lane moves with the transaction.
  abbrev pub Moves : Db V → Option (Txn V) → Db V → Option (Txn V) → Type 0
  Moves db t after t' = held after.locked + writes t ≡ held db.locked + writes t'

  settle_frees :
      (o : Outcome) (owner : ℕ) (db : Db V) (c : Connection V)
      → let ((after, told), reply) = settle o owner (db, c) in
        (after.locked ≡ false) × (told.txn ≡ c.txn)
  unfolding settle
  settle_frees (Group.committed lsn) owner db c = (refl, refl)
  settle_frees (Group.failed e) owner db c = (refl, refl)

  commit_writer_frees :
      (answer : List (LogRecord V) → Outcome) (ops : List (RowOp V)) (owner : ℕ) (db : Db V)
      (c : Connection V)
      → let ((after, told), reply) = commit_writer answer ops owner (db, c) in
        (after.locked ≡ false) × (told.txn ≡ c.txn)
  unfolding commit_writer
  commit_writer_frees answer [] owner db c = (refl, refl)
  commit_writer_frees answer (op ∷ ops) owner db c =
      settle_frees (answer (log_records (op ∷ ops))) owner db c

  finish_commit-Moves :
      (answer : List (LogRecord V) → Outcome) (t : Txn V) (db : Db V) (c : Connection V)
      → held t.writer ≤ held db.locked
      → let ((after, told), reply) = finish_commit answer t (db, c) in
        (told.txn ≡ c.txn) × (held after.locked + held t.writer ≡ held db.locked)
  unfolding finish_commit held
  finish_commit-Moves answer t db c h =
      let (free, same) = commit_writer_frees answer t.wal_ops t.owner db c in
      elim (Bool-cases t.writer) [
        | inl e ↦ rw e (same, ground arith)
        | inr e ↦ rw e (refl, omega arith)
      ]

  tear_down-Moves :
      (t : Txn V) (db : Db V)
      → held t.writer ≤ held db.locked
      → held (tear_down t db).locked + held t.writer ≡ held db.locked
  unfolding tear_down held
  tear_down-Moves t db h = ground arith

  -- The step of a connection that begins with `t`.
  abbrev pub StepMoves : Option (Txn V) → Db V → Db V × Connection V → Type 0
  StepMoves t db (after, c) = Moves db t after c.txn

  pub begin-Moves :
      (t : Option (Txn V)) (db : Db V) (c : Connection V)
      → c.txn ≡ t
      → StepMoves t db (begin (db, c)).0
  unfolding begin new_txn writes held
  begin-Moves none db c e = rw e refl
  begin-Moves (some t) db c e = rw e refl

  pub commit-Moves :
      (answer : List (LogRecord V) → Outcome) (t : Option (Txn V)) (db : Db V) (c : Connection V)
      → c.txn ≡ t
      → writes t ≤ held db.locked
      → StepMoves t db (commit answer (db, c)).0
  unfolding commit writes
  commit-Moves answer none db c e h = rw e refl
  commit-Moves answer (some t) db c e h =
      let (gone, moved) = finish_commit-Moves answer t db (record c { txn = none }) h in
      rw (e, gone) (moved ∙ omega arith)

  pub rollback-Moves :
      (t : Option (Txn V)) (db : Db V) (c : Connection V)
      → c.txn ≡ t
      → writes t ≤ held db.locked
      → StepMoves t db (rollback (db, c)).0
  unfolding rollback writes
  rollback-Moves none db c e h = rw e refl
  rollback-Moves (some t) db c e h = rw e (tear_down-Moves t db h ∙ omega arith)

  pub drop_connection-Moves :
      (t : Option (Txn V)) (db : Db V) (c : Connection V)
      → c.txn ≡ t
      → writes t ≤ held db.locked
      → StepMoves t db (drop_connection (db, c))
  unfolding drop_connection writes
  drop_connection-Moves none db c e h = rw e refl
  drop_connection-Moves (some t) db c e h = rw e (tear_down-Moves t db h ∙ omega arith)

  pub savepoint-Moves :
      (name : Text) (t : Option (Txn V)) (db : Db V) (c : Connection V)
      → c.txn ≡ t
      → StepMoves t db (savepoint name (db, c)).0
  unfolding savepoint writes
  savepoint-Moves name none db c e = rw e refl
  savepoint-Moves name (some t) db c e = rw e refl

  pub release_savepoint-Moves :
      (name : Text) (t : Option (Txn V)) (db : Db V) (c : Connection V)
      → c.txn ≡ t
      → StepMoves t db (release_savepoint name (db, c)).0
  unfolding release_savepoint release_at writes
  release_savepoint-Moves name none db c e = rw e refl
  release_savepoint-Moves name (some t) db c e =
      elim (Option-cases (last_named name t.savepoints)) [
        | inl missing ↦ rw (e, missing) refl
        | inr (found, at) ↦ rw (e, at) refl
      ]

  rows_to_locked : (sp : Savepoint) (t : Txn V) (db : Db V) → (rows_to sp t db).locked ≡ db.locked
  unfolding rows_to
  rows_to_locked sp t db = ground arith

  pub rollback_to-Moves :
      (name : Text) (t : Option (Txn V)) (db : Db V) (c : Connection V)
      → c.txn ≡ t
      → StepMoves t db (rollback_to name (db, c)).0
  unfolding rollback_to roll_to txn_to writes
  rollback_to-Moves name none db c e = rw e refl
  rollback_to-Moves name (some t) db c e = elim (Option-cases (last_named name t.savepoints)) [
    | inl missing ↦ rw (e, missing) refl
    | inr ((i, sp), at) ↦ rw (e, at) (ap (λ b. held b + held t.writer) (rows_to_locked sp t db))
  ]

  pub open_implicit-Moves :
      (t : Option (Txn V)) (db : Db V) (c : Connection V)
      → c.txn ≡ t
      → StepMoves t db (open_implicit (db, c)).0
  unfolding open_implicit new_txn writes held
  open_implicit-Moves none db c e = rw e refl
  open_implicit-Moves (some t) db c e = rw e refl

  -- What follows a statement, whose transaction holds the lane.
  conclude-Moves :
      (answer : List (LogRecord V) → Outcome) (implicit : Bool) (m : Mutation V) (t : Txn V)
      (db : Db V) (c : Connection V)
      → held t.writer ≤ held db.locked
      → StepMoves (some t) db (conclude answer implicit m t (db, c)).0
  unfolding conclude writes
  conclude-Moves answer true (mutated cs changes) t db c h =
      let (table, ops) = run_changes t.owner cs (db.table, []) in
      let after = record t { wal_ops = t.wal_ops ++ ops } in
      let (gone, moved) =
        finish_commit-Moves answer after (record db { table = table })
          (record c { txn = none; last_changes = changes }) h in
      rw gone (moved ∙ omega arith)
  conclude-Moves answer false (mutated cs changes) t db c h = refl
  conclude-Moves answer true (broken cs e) t db c h =
      let (table, ops) = run_changes t.owner cs (db.table, []) in
      tear_down-Moves t (record db { table = table }) h ∙ omega arith
  conclude-Moves answer false (broken cs e) t db c h = refl

  -- A statement whose transaction holds the lane, or finds it free.
  pub pass_lane-Moves :
      (s : Statement V) (implicit : Bool) (t : Option (Txn V)) (db : Db V) (x : Session V)
      → x.connection.txn ≡ t
      → writes t ≤ held db.locked
      → let (after, y) = pass_lane s implicit t (db, x) in Moves db t after y.connection.txn
  unfolding pass_lane run_dml as_writer writes held
  pass_lane-Moves s implicit none db x e h = rw e refl
  pass_lane-Moves s implicit (some t) db x e h =
      let w = record t { writer = true } in
      let moved =
        conclude-Moves s.answer implicit (s.mutation db.table.rows w.snapshot w.owner) w
          (record db { locked = true }) x.connection (omega arith) in
      elim (Bool-cases db.locked) [
        | inl held_by ↦ elim (Bool-cases t.writer) [
          | inl mine ↦ rw (held_by, mine) moved
          | inr other ↦ rw (held_by, other, e, other) refl
        ]
        | inr free ↦ elim (Bool-cases t.writer) [
          | inl mine ↦ absurd (ground arith)
          | inr other ↦ rw (free, other) (omega arith)
        ]
      ]
