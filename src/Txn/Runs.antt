-- ===== src/Txn/Runs.antt =====
-- Runs of the transactions of crates/engine/src/conn.rs.
use Prim.Native.String.{String}
use bydesigns_db.Base.{ℕ, ◌≤◌, ◌≡◌, refl, false, none, some, List, [], ◌∷◌, ◌++◌, inr, arith}
use bydesigns_db.Group.{Outcome, err_sql}
use bydesigns_db.Group
use bydesigns_db.Mvcc.{
  RowVersion, Table, RowOp, pending, finalize_rows, replay_ops, rollback_rows, update_version,
  supersede,
}
use bydesigns_db.Mvcc.Replay.{append, remove, apply_change, run_changes}
use bydesigns_db.Txn.{
  Txn, Db, Connection, returned, LogRecord, begin, new_savepoint, savepoint, rollback_to, rollback,
  commit, finish_commit, commit_writer,
}
use bydesigns_db.Txn.Names.{Text, eq_ignore_ascii_case}
use bydesigns_db.Txn.Pending.{logged}
use bydesigns_db.Txn.Statements.{
  mutated, broken, Statement, as_writer, conclude, run_dml, Session, Call, begin_txn, commit_txn,
  modify, run_schedule,
}
use bydesigns_db.Txn.Handoff.{held}
use bydesigns_db.Txn.Lane.{writers, run_schedule-writers}
use bydesigns_db.Txn.Trace.{statement, set, Steps, stay, go_on}
use bydesigns_db.Txn.Recovered.{Steps-committed}
use bydesigns_db.Txn.Return.{rollback_to-savepoint}

abbrev version : ℕ → String → RowVersion String
version vid text = record { vid = vid; values = text; create_lsn = 3; delete_lsn = 0; owner = 0 }

abbrev db : Db String
db = record {
  table = record { rows = version 1 "a" ∷ version 2 "b" ∷ []; next_vid = 3 };
  committed_lsn = 4;
  locked = false;
  next_owner = 7;
}

abbrev idle : Connection String
idle = record { txn = none; last_changes = 0; last_lsn = 0 }

abbrev session : Session String
session = record { connection = idle; waiting = none }

-- DELETE of vid 2 and INSERT.
abbrev replace : Statement String
replace = record {
  mutation = λ rows s me. mutated (remove 2 ∷ append "c" ∷ []) 2;
  answer = λ records. Group.committed 6;
}

abbrev schedule : List (ℕ × Call String)
schedule =
    (0, begin_txn)
    ∷ (0, modify replace)
    ∷ (1, modify replace)
    ∷ (0, begin_txn)
    ∷ (1, begin_txn)
    ∷ (0, commit_txn (λ records. Group.committed 6))
    ∷ []

run_schedule-writers_example :
    let (after, ys) = run_schedule schedule (db, session ∷ session ∷ []) in
    (writers ys ≡ held after.locked) × (writers ys ≤ 1)
unfolding writers held bydesigns_db.Txn.Handoff.writes
run_schedule-writers_example = run_schedule-writers schedule db (session ∷ session ∷ []) refl

abbrev txn : Txn String
txn = record { snapshot = 4; writer = false; wal_ops = []; owner = 7; savepoints = [] }

abbrev started : Db String
started = record db { next_owner = 8 }

abbrev inside : Connection String
inside = record idle { txn = some txn }

abbrev name : Text
name = b's' ∷ []

abbrev again : Text
again = b'S' ∷ []

abbrev with_savepoint : Txn String
with_savepoint = record txn {
  savepoints = record { name = name; inserted = []; deleted = []; wal_len = 0 } ∷ [];
}

abbrev saved : Connection String
saved = record idle { txn = some with_savepoint }

abbrev changed : Db String × Connection String
changed = (run_dml replace false with_savepoint (started, saved)).0

-- One statement after the savepoint.
replaced : Steps (started, saved) changed
unfolding logged
replaced =
    go_on
      (statement replace with_savepoint started saved (remove 2 ∷ append "c" ∷ []) 2 refl refl (
        ((λ e. absurd (omega arith)), (λ e. inr (refl, (λ h. omega arith), refl), tt)),
        (omega arith, tt),
      ))
      (stay changed)

rollback_to-savepoint_example :
    let ((after, back), reply) = rollback_to again changed in
    (after.table.rows ≡ started.table.rows)
    × ((t' : Txn String) × (back.txn ≡ some t')
        × (t'.wal_ops ≡ [])
        × (t'.savepoints ≡ [] ++ (new_savepoint name 7 started.table.rows [] ∷ [])))
unfolding savepoint new_savepoint bydesigns_db.Mvcc.pending_rows eq_ignore_ascii_case
    bydesigns_db.Txn.Pending.live bydesigns_db.Txn.Sets.bound replaced
rollback_to-savepoint_example =
    rollback_to-savepoint 3 7 started.table.rows name again txn started changed.0 inside changed.1
      replaced (λ e. omega arith)
      ((omega arith, (omega arith, tt)), (((λ e. omega arith), tt), (tt, tt))) refl refl
      (refl, tt, omega arith, omega arith, λ e. refl) refl (tt, tt)

Steps-committed_example :
    (t : Txn String) × (changed.1.txn ≡ some t)
    × ((commit (λ records. Group.committed 9) changed).1 ≡ returned)
    × ((commit (λ records. Group.committed 9) changed).0.0.table.rows
        ≡ (replay_ops 9 t.wal_ops db.table).rows)
    × ((rollback changed).1 ≡ returned)
    × ((rollback changed).0.0.table.rows ≡ db.table.rows)
unfolding begin savepoint new_savepoint bydesigns_db.Mvcc.pending_rows
Steps-committed_example =
    Steps-committed (λ records. Group.committed 9) (λ ops. 9) db changed.0 idle changed.1
      (λ ops. refl) refl ((omega arith, (omega arith, tt)), (((λ e. omega arith), tt), (tt, tt)))
      ((refl, λ e. omega arith), ((refl, λ e. omega arith), tt))
      (go_on (set name started inside) replaced)

-- DELETE of vid 2 with a RETURNING list that divides by zero, after which the COMMIT returns and leaves
-- the row superseded by the transaction that is gone.
abbrev divides : Statement String
divides = record {
  mutation = λ rows s me. broken (remove 2 ∷ []) err_sql;
  answer = λ records. Group.committed 6;
}

broken_commit_run :
    let (failed, refusal) = run_dml divides false txn (started, inside) in
    let ((after, told), reply) = commit (λ records. Group.committed 6) failed in
    (reply ≡ returned)
    × (after.locked ≡ false)
    × (after.committed_lsn ≡ started.committed_lsn)
    × (after.table.rows
        ≡ update_version 2 (λ r. record r { delete_lsn = pending; owner = 7 }) started.table.rows)
unfolding run_dml as_writer conclude run_changes apply_change supersede update_version commit
    finish_commit commit_writer
broken_commit_run = (refl, refl, refl, refl)
