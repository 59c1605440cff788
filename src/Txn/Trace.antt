-- ===== src/Txn/Trace.antt =====
-- A transaction of crates/engine/src/conn.rs step by step, from BEGIN to what its COMMIT and its
-- ROLLBACK make of the rows of the table.
use bydesigns_db.Base.{
  ℕ, ◌≡◌, ◌≢◌, refl, sym, ap, subst, ◌∙◌, false, some, Option-cases, List, [], inl, inr,
}
use bydesigns_db.Group.{EngineStatus}
use bydesigns_db.Mvcc.{RowVersion}
use bydesigns_db.Mvcc.Replay.{Change, run_changes}
use bydesigns_db.Txn.{
  Txn, Db, Connection, savepoint, release_at, release_savepoint, roll_to, rollback_to,
}
use bydesigns_db.Txn.Names.{Text, last_named}
use bydesigns_db.Txn.Statements.{Statement, mutated, broken, as_writer, conclude, run_dml}
use bydesigns_db.Txn.Pending.{logged, run_changes-live}
use bydesigns_db.Txn.Undone.{Fits}
use bydesigns_db.Txn.Sets.{IsSound}
use bydesigns_db.Txn.Saved.{last_named-At}
use bydesigns_db.Txn.History.{
  IsHistory, statement-IsHistory, writer-IsHistory, savepoint-IsHistory, release-IsHistory,
  back-IsHistory,
}

-- One step inside of a transaction. The changes of a statement insert new vids and supersede
-- versions that are open to the transaction; a statement that fails has changed nothing.
pub data Step {V : Type 0} : Db V × Connection V → Db V × Connection V → Type 0 where
  statement :
      (s : Statement V) (t : Txn V) (db : Db V) (c : Connection V) (cs : List (Change V)) (n : ℕ)
      → c.txn ≡ some t
      → s.mutation db.table.rows t.snapshot t.owner ≡ mutated cs n
      → Fits t.owner db.table.next_vid (logged db.table.next_vid cs) db.table.rows
      → Step (db, c) (run_dml s false t (db, c)).0
  failure :
      (s : Statement V) (t : Txn V) (db : Db V) (c : Connection V) (e : EngineStatus)
      → c.txn ≡ some t
      → s.mutation db.table.rows t.snapshot t.owner ≡ broken [] e
      → Step (db, c) (run_dml s false t (db, c)).0
  set : (name : Text) (db : Db V) (c : Connection V) → Step (db, c) (savepoint name (db, c)).0
  release :
      (name : Text) (db : Db V) (c : Connection V) → Step (db, c) (release_savepoint name (db, c)).0
  return : (name : Text) (db : Db V) (c : Connection V) → Step (db, c) (rollback_to name (db, c)).0

pub data Steps {V : Type 0} : Db V × Connection V → Db V × Connection V → Type 0 where
  stay : (h : Db V × Connection V) → Steps h h
  go_on : {h k l : Db V × Connection V} → Step h k → Steps k l → Steps h l

module _ {V : Type 0} where
  -- In the middle of a transaction.
  abbrev pub Inside : ℕ → List (RowVersion V) → ℕ → Db V × Connection V → Type 0
  Inside next start owner (db, c) =
      (t : Txn V) × (c.txn ≡ some t) × (t.owner ≡ owner) × IsHistory next start t db.table

  statement-Inside :
      (next : ℕ) (start : List (RowVersion V)) (owner : ℕ) (s : Statement V) (t : Txn V) (db : Db V)
      (c : Connection V) (cs : List (Change V)) (n : ℕ)
      → s.mutation db.table.rows t.snapshot t.owner ≡ mutated cs n
      → Fits t.owner db.table.next_vid (logged db.table.next_vid cs) db.table.rows
      → t.owner ≡ owner
      → IsHistory next start t db.table
      → Inside next start owner (run_dml s false t (db, c)).0
  unfolding run_dml as_writer conclude
  statement-Inside next start owner s t db c cs n does fits mine history =
      rw (does, run_changes-live t.owner cs db.table [])
        (_, refl, mine, statement-IsHistory next start cs t db.table fits history)

  failure-Inside :
      (next : ℕ) (start : List (RowVersion V)) (owner : ℕ) (s : Statement V) (t : Txn V) (db : Db V)
      (c : Connection V) (e : EngineStatus)
      → s.mutation db.table.rows t.snapshot t.owner ≡ broken [] e
      → t.owner ≡ owner
      → IsHistory next start t db.table
      → Inside next start owner (run_dml s false t (db, c)).0
  unfolding run_dml as_writer conclude run_changes
  failure-Inside next start owner s t db c e does mine history =
      rw does (_, refl, mine, writer-IsHistory next start t db.table history)

  pub set-Inside :
      (next : ℕ) (start : List (RowVersion V)) (owner : ℕ) (name : Text) (db : Db V)
      (c : Connection V)
      → Inside next start owner (db, c)
      → Inside next start owner (savepoint name (db, c)).0
  unfolding savepoint
  set-Inside next start owner name db c (t, is, mine, history) =
      rw is (_, refl, mine, savepoint-IsHistory next start name t db.table history)

  release-Inside :
      (next : ℕ) (start : List (RowVersion V)) (owner : ℕ) (name : Text) (db : Db V)
      (c : Connection V)
      → Inside next start owner (db, c)
      → Inside next start owner (release_savepoint name (db, c)).0
  unfolding release_savepoint release_at
  release-Inside next start owner name db c (t, is, mine, history) =
      elim (Option-cases (last_named name t.savepoints)) [
        | inl missing ↦ rw (is, missing) (t, refl, mine, history)
        | inr ((i, sp), found) ↦
            rw (is, found) (_, refl, mine, release-IsHistory next start i t db.table history)
      ]

  return-Inside :
      (next : ℕ) (start : List (RowVersion V)) (owner : ℕ) (name : Text) (db : Db V)
      (c : Connection V)
      → owner ≢ 0
      → IsSound next start
      → Inside next start owner (db, c)
      → Inside next start owner (rollback_to name (db, c)).0
  unfolding rollback_to roll_to
  return-Inside next start owner name db c o sound (t, is, mine, history) =
      elim (Option-cases (last_named name t.savepoints)) [
        | inl missing ↦ rw (is, missing) (t, refl, mine, history)
        | inr ((i, sp), found) ↦
            rw (is, found)
              (
                _,
                refl,
                mine,
                back-IsHistory next i start sp t db (λ e. o (sym mine ∙ e)) sound
                    (last_named-At name t.savepoints (i, sp) found) history,
              )
      ]

  pub Step-Inside :
      (next : ℕ) (start : List (RowVersion V)) (owner : ℕ) (h k : Db V × Connection V)
      → owner ≢ 0
      → IsSound next start
      → Step h k
      → Inside next start owner h
      → Inside next start owner k
  Step-Inside next start owner h k o sound (statement s t db c cs n at does fits)
        (t', is, mine, history) =
      let same : t' ≡ t = cc in
      statement-Inside next start owner s t db c cs n does fits
        (ap (λ x. x.owner) (sym same) ∙ mine)
        (subst (λ x. IsHistory next start x db.table) same history)
  Step-Inside next start owner h k o sound (failure s t db c e at does) (t', is, mine, history) =
      let same : t' ≡ t = cc in
      failure-Inside next start owner s t db c e does (ap (λ x. x.owner) (sym same) ∙ mine)
        (subst (λ x. IsHistory next start x db.table) same history)
  Step-Inside next start owner h k o sound (set name db c) inside =
      set-Inside next start owner name db c inside
  Step-Inside next start owner h k o sound (release name db c) inside =
      release-Inside next start owner name db c inside
  Step-Inside next start owner h k o sound (return name db c) inside =
      return-Inside next start owner name db c o sound inside

  pub Steps-Inside :
      (next : ℕ) (start : List (RowVersion V)) (owner : ℕ) (h k : Db V × Connection V)
      → owner ≢ 0
      → IsSound next start
      → Steps h k
      → Inside next start owner h
      → Inside next start owner k
  Steps-Inside next start owner h k o sound (stay x) inside = inside
  Steps-Inside next start owner h k o sound (go_on {h = x} {k = y} {l = z} step steps) inside =
      Steps-Inside next start owner y z o sound steps
        (Step-Inside next start owner x y o sound step inside)
