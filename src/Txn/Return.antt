-- ===== src/Txn/Return.antt =====
-- SAVEPOINT and ROLLBACK TO of crates/engine/src/conn.rs around any statements, in a database of one
-- table. The code keeps the pending vids of all tables in one set, and vids are numbered in each table
-- from the beginning: with several tables a savepoint can keep what is to be undone in another one.
use bydesigns_db.Base.{
  ℕ, ◌+◌, ◌≡◌, ◌≢◌, refl, sym, ap, ◌∙◌, true, some, List, [], ◌∷◌, ◌++◌, append-nil, append_assoc,
  length, length-append, take, take-append, take_all, arith,
}
use bydesigns_db.Mvcc.{RowVersion, RowOp}
use bydesigns_db.Mvcc.Replay.{run_changes}
use bydesigns_db.Txn.{Txn, Db, Connection, new_savepoint, savepoint, txn_to, roll_to, rollback_to}
use bydesigns_db.Txn.Names.{Text, Savepoint, eq_ignore_ascii_case, found_behind, last_named}
use bydesigns_db.Txn.Statements.{as_writer, conclude, run_dml}
use bydesigns_db.Txn.Pending.{live, logged, run_changes-live}
use bydesigns_db.Txn.Sets.{IsSound}
use bydesigns_db.Txn.Saved.{last_named-At}
use bydesigns_db.Txn.History.{IsHistory, rows_to-live}
use bydesigns_db.Txn.Trace.{
  Step, statement, failure, set, release, return, Steps, stay, go_on, Steps-Inside, set-Inside,
}

-- A savepoint that was set last is the one that its name finds, in any case of its letters.
last_named_new :
    (name : Text) (savepoints : List Savepoint) (sp : Savepoint)
    → eq_ignore_ascii_case sp.name name ≡ true
    → last_named name (savepoints ++ (sp ∷ [])) ≡ some (length savepoints, sp)
unfolding last_named found_behind
last_named_new name [] sp e = rw e refl
last_named_new name (s ∷ savepoints) sp e = rw (last_named_new name savepoints sp e) refl

module _ {V : Type 0} where
  -- Statements alone, of which some may fail.
  abbrev pub IsStatement : {h k : Db V × Connection V} → Step h k → Type 0
  IsStatement (statement s t db c cs n at does fits) = Unit {0}
  IsStatement (failure s t db c e at does) = Unit {0}
  IsStatement (set name db c) = ⊥
  IsStatement (release name db c) = ⊥
  IsStatement (return name db c) = ⊥

  abbrev pub AreStatements : {h k : Db V × Connection V} → Steps h k → Type 0
  AreStatements (stay h) = Unit {0}
  AreStatements (go_on step steps) = IsStatement step × AreStatements steps

  -- The transaction has these savepoints and has logged these operations first.
  abbrev Continues : List Savepoint → List (RowOp V) → Db V × Connection V → Type 0
  Continues savepoints ops (db, c) =
      (t : Txn V) × (c.txn ≡ some t)
      × (t.savepoints ≡ savepoints)
      × ((more : List (RowOp V)) × (t.wal_ops ≡ ops ++ more))

  step-Continues :
      (savepoints : List Savepoint) (ops : List (RowOp V)) (h k : Db V × Connection V)
      (step : Step h k)
      → IsStatement step
      → Continues savepoints ops h
      → Continues savepoints ops k
  unfolding run_dml as_writer conclude run_changes
  step-Continues savepoints ops h k (statement s t db c cs n at does fits) alone
        (t', is, saved, (more, log)) =
      let same : t' ≡ t = cc in
      rw (does, run_changes-live t.owner cs db.table [])
        (
          _,
          refl,
          ap (λ x. x.savepoints) (sym same) ∙ saved,
          (
            more ++ logged db.table.next_vid cs,
            ap (λ x. x ++ logged db.table.next_vid cs) (ap (λ x. x.wal_ops) (sym same) ∙ log)
                ∙ append_assoc ops more (logged db.table.next_vid cs),
          ),
        )
  step-Continues savepoints ops h k (failure s t db c e at does) alone
        (t', is, saved, (more, log)) =
      let same : t' ≡ t = cc in
      rw does (
        _,
        refl,
        ap (λ x. x.savepoints) (sym same) ∙ saved,
        (more, ap (λ x. x.wal_ops) (sym same) ∙ log),
      )
  step-Continues savepoints ops h k (set name db c) alone at = elim alone [ ]
  step-Continues savepoints ops h k (release name db c) alone at = elim alone [ ]
  step-Continues savepoints ops h k (return name db c) alone at = elim alone [ ]

  steps-Continues :
      (savepoints : List Savepoint) (ops : List (RowOp V)) (h k : Db V × Connection V)
      (steps : Steps h k)
      → AreStatements steps
      → Continues savepoints ops h
      → Continues savepoints ops k
  steps-Continues savepoints ops h k (stay x) alone at = at
  steps-Continues savepoints ops h k (go_on {h = x} {k = y} {l = z} step steps) (one, alone) at =
      steps-Continues savepoints ops y z steps alone (step-Continues savepoints ops x y step one at)

  -- In a database of one table, inside of a transaction whose log makes the rows of the table from
  -- rows with distinct vids, and whose savepoints stand in that log: SAVEPOINT, then any statements, of which each inserts new
  -- vids and supersedes versions that are open to the transaction, or fails with nothing changed,
  -- then ROLLBACK TO the same name in any case of its letters. Then the rows of the table are those
  -- at the savepoint, the log is the log at the savepoint, and the savepoint stands, last of those
  -- that stood then.
  pub rollback_to-savepoint :
      (next owner : ℕ) (start : List (RowVersion V)) (name again : Text) (t : Txn V)
      (db later : Db V) (c told : Connection V)
      (steps : Steps (savepoint name (db, c)).0 (later, told))
      → owner ≢ 0
      → IsSound next start
      → c.txn ≡ some t
      → t.owner ≡ owner
      → IsHistory next start t db.table
      → eq_ignore_ascii_case name again ≡ true
      → AreStatements steps
      → let ((after, back), reply) = rollback_to again (later, told) in
        (after.table.rows ≡ db.table.rows)
        × ((t' : Txn V) × (back.txn ≡ some t')
            × (t'.wal_ops ≡ t.wal_ops)
            × (t'.savepoints
                ≡ t.savepoints ++ (new_savepoint name t.owner db.table.rows t.wal_ops ∷ [])))
  unfolding savepoint rollback_to roll_to txn_to new_savepoint
  rollback_to-savepoint next owner start name again t db later c told steps o sound is mine history
        same alone =
      let sp = new_savepoint name t.owner db.table.rows t.wal_ops in
      let begun : Continues (t.savepoints ++ (sp ∷ [])) t.wal_ops (savepoint name (db, c)).0 =
        rw is (_, refl, refl, ([], sym (append-nil t.wal_ops))) in
      let (w, wis, wsaved, (more, wlog)) =
        steps-Continues (t.savepoints ++ (sp ∷ [])) t.wal_ops (savepoint name (db, c)).0
          (later, told) steps alone begun in
      let (u, uis, umine, uhistory) =
        Steps-Inside next start owner (savepoint name (db, c)).0 (later, told) o sound steps
          (set-Inside next start owner name db c (t, is, mine, history)) in
      let one : u ≡ w = cc in
      let saved : u.savepoints ≡ t.savepoints ++ (sp ∷ []) = ap (λ x. x.savepoints) one ∙ wsaved in
      let kept : take (length t.wal_ops) u.wal_ops ≡ t.wal_ops =
        ap (λ x. take (length t.wal_ops) x.wal_ops) one
        ∙ ap (take (length t.wal_ops)) wlog
        ∙ take-append (length t.wal_ops) t.wal_ops more refl in
      let found : last_named again u.savepoints ≡ some (length t.savepoints, sp) =
        ap (last_named again) saved ∙ last_named_new again t.savepoints sp same in
      let back =
        rows_to-live next (length t.savepoints) start sp u later (λ e. o (sym umine ∙ e)) sound
          (last_named-At again u.savepoints (length t.savepoints, sp) found) uhistory in
      let whole : take (length t.savepoints + 1) u.savepoints ≡ t.savepoints ++ (sp ∷ []) =
        ap (take (length t.savepoints + 1)) saved
        ∙ take_all (length t.savepoints + 1) (t.savepoints ++ (sp ∷ []))
            (omega (arith, length-append t.savepoints (sp ∷ []))) in
      rw (uis, found)
        (
          back
              ∙ ap (λ ops. live u.owner ops start) kept
              ∙ ap (λ id. live id t.wal_ops start) (umine ∙ sym mine)
              ∙ sym history.0,
          (_, refl, kept, whole),
        )
