-- ===== src/Txn/Lane.antt =====
-- The write lane of crates/engine/src/db.rs while the connections of a database take their steps in
-- any order.
use bydesigns_db.Base.{
  ℕ, zero, suc, ◌+◌, ◌≤◌, ◌≡◌, refl, some, Option-cases, inl, inr, List, [], ◌∷◌, arith,
}
use bydesigns_db.Txn.{Db, Connection}
use bydesigns_db.Txn.Statements.{
  Session, Call, begin_txn, commit_txn, rollback_txn, set_savepoint, drop_savepoint, return_to,
  modify, close, perform, step, step_at, run_schedule,
}
use bydesigns_db.Txn.Handoff.{
  held, writes, Moves, begin-Moves, commit-Moves, rollback-Moves, drop_connection-Moves,
  savepoint-Moves, release_savepoint-Moves, rollback_to-Moves, open_implicit-Moves, pass_lane-Moves,
}

module _ {V : Type 0} where
  unfoldable pub writers : List (Session V) → ℕ
  writers [] = 0
  writers (x ∷ sessions) = writes x.connection.txn + writers sessions

  perform-Moves :
      (call : Call V) (db : Db V) (c : Connection V)
      → writes c.txn ≤ held db.locked
      → let (after, y) = perform call (db, c) in Moves db c.txn after y.connection.txn
  unfolding perform
  perform-Moves begin_txn db c h = begin-Moves c.txn db c refl
  perform-Moves (commit_txn answer) db c h = commit-Moves answer c.txn db c refl h
  perform-Moves rollback_txn db c h = rollback-Moves c.txn db c refl h
  perform-Moves (set_savepoint name) db c h = savepoint-Moves name c.txn db c refl
  perform-Moves (drop_savepoint name) db c h = release_savepoint-Moves name c.txn db c refl
  perform-Moves (return_to name) db c h = rollback_to-Moves name c.txn db c refl
  perform-Moves (modify s) db c h = open_implicit-Moves c.txn db c refl
  perform-Moves close db c h = drop_connection-Moves c.txn db c refl h

  step-Moves :
      (call : Call V) (db : Db V) (x : Session V)
      → writes x.connection.txn ≤ held db.locked
      → let (after, y) = step call (db, x) in Moves db x.connection.txn after y.connection.txn
  unfolding step
  step-Moves call db x h = elim (Option-cases x.waiting) [
    | inl idle ↦ rw idle (perform-Moves call db x.connection h)
    | inr ((s, implicit), e) ↦ rw e (
        pass_lane-Moves s implicit x.connection.txn db (record x { waiting = some (s, implicit) })
          refl h)
  ]

  step_at-writers :
      (i : ℕ) (call : Call V) (db : Db V) (sessions : List (Session V))
      → writers sessions ≤ held db.locked
      → let (after, ys) = step_at i call (db, sessions) in
        held after.locked + writers sessions ≡ held db.locked + writers ys
  unfolding step_at writers
  step_at-writers i call db [] h = refl
  step_at-writers zero call db (x ∷ sessions) h =
      let moved = step-Moves call db x (omega arith) in omega arith
  step_at-writers (suc i) call db (x ∷ sessions) h =
      let ih = step_at-writers i call db sessions (omega arith) in omega arith

  -- Whatever the connections of a database do, in any order and with any answers of the group
  -- commit: if at the start the transactions that write are as many as the lane is held, one or
  -- none, then so they are at the end. So two transactions never write at once, and the lane is
  -- never held with no transaction that writes.
  pub run_schedule-writers :
      (moves : List (ℕ × Call V)) (db : Db V) (sessions : List (Session V))
      → writers sessions ≡ held db.locked
      → let (after, ys) = run_schedule moves (db, sessions) in
        (writers ys ≡ held after.locked) × (writers ys ≤ 1)
  unfolding run_schedule held
  run_schedule-writers [] db sessions h = (h, ground arith)
  run_schedule-writers ((i, call) ∷ moves) db sessions h =
      let moved = step_at-writers i call db sessions (omega arith) in
      let (after, ys) = step_at i call (db, sessions) in
      run_schedule-writers moves after ys (omega arith)
