-- ===== src/Txn/History.antt =====
-- A transaction of crates/engine/src/conn.rs as it goes: what its log, its savepoints and the rows of
-- the table have to do with each other after each statement, SAVEPOINT, RELEASE and ROLLBACK TO.
use bydesigns_db.Base.{
  ℕ, zero, suc, ◌+◌, ◌≤◌, ◌≡◌, ◌≢◌, refl, sym, ap, subst, ◌∙◌, true, false, Bool-cases, List, [],
  ◌∷◌, ◌++◌, take, drop, take-append-drop, inl, inr, arith,
}
use bydesigns_db.Mvcc.{RowVersion, Table, RowOp, rollback_rows_to}
use bydesigns_db.Mvcc.Replay.{Change}
use bydesigns_db.Txn.{Txn, Db, new_savepoint, rows_to, txn_to}
use bydesigns_db.Txn.Names.{Text, Savepoint}
use bydesigns_db.Txn.Pending.{live, logged, table_after, live-append}
use bydesigns_db.Txn.Undone.{Fits}
use bydesigns_db.Txn.Sets.{IsSound, bound, rollback_rows_to-pending_rows}
use bydesigns_db.Txn.Fitting.{
  live-IsSound, Fits-append, Fits-parts, Fits-bound, bound-append, bound_mono, bound-logged,
}
use bydesigns_db.Txn.Saved.{
  AreSaved, Marks, AreSaved-append, AreSaved-new, AreSaved-take, At, AreSaved-back,
}

module _ {V : Type 0} where
  -- The transaction began on the rows `start` with the next vid `next`: the rows of the table are
  -- those that its log makes of them, its savepoints stand in the log, and before it writes it has
  -- logged nothing.
  abbrev pub IsHistory : ℕ → List (RowVersion V) → Txn V → Table V → Type 0
  IsHistory next start t table =
      (table.rows ≡ live t.owner t.wal_ops start)
      × Fits t.owner next t.wal_ops start
      × (bound next t.wal_ops ≤ table.next_vid)
      × AreSaved t.owner t.wal_ops start 0 t.savepoints
      × (t.writer ≡ false → t.wal_ops ≡ [])

  -- The transaction after a statement has changed the rows.
  abbrev pub after_changes : List (Change V) → Txn V → Table V → Txn V
  after_changes cs t table = record t {
    writer = true;
    wal_ops = t.wal_ops ++ logged table.next_vid cs;
  }

  pub statement-IsHistory :
      (next : ℕ) (start : List (RowVersion V)) (cs : List (Change V)) (t : Txn V) (table : Table V)
      → Fits t.owner table.next_vid (logged table.next_vid cs) table.rows
      → IsHistory next start t table
      → IsHistory next start (after_changes cs t table) (table_after t.owner cs table)
  statement-IsHistory next start cs t table fits (rows, fitted, top, saved, idle) =
      let ops = logged table.next_vid cs in
      (
        ap (live t.owner ops) rows ∙ sym (live-append t.owner t.wal_ops ops start),
        Fits-append t.owner next table.next_vid t.wal_ops ops start fitted top
            (subst (λ r. Fits t.owner table.next_vid ops r) rows fits),
        omega (
          arith,
          bound-append next t.wal_ops ops,
          bound_mono (bound next t.wal_ops) table.next_vid ops top,
          bound-logged table.next_vid cs,
        ),
        AreSaved-append t.owner t.wal_ops ops start 0 t.savepoints saved,
        λ e. absurd (cc),
      )

  -- The transaction has become a writer.
  pub writer-IsHistory :
      (next : ℕ) (start : List (RowVersion V)) (t : Txn V) (table : Table V)
      → IsHistory next start t table
      → IsHistory next start (record t { writer = true }) table
  writer-IsHistory next start t table (rows, fitted, top, saved, idle) =
      (rows, fitted, top, saved, λ e. absurd (cc))

  pub savepoint-IsHistory :
      (next : ℕ) (start : List (RowVersion V)) (name : Text) (t : Txn V) (table : Table V)
      → IsHistory next start t table
      → IsHistory next start
          (record t {
            savepoints = t.savepoints ++ (new_savepoint name t.owner table.rows t.wal_ops ∷ []);
          })
          table
  savepoint-IsHistory next start name t table (rows, fitted, top, saved, idle) = (
    rows,
    fitted,
    top,
    subst
        (λ r.
          AreSaved t.owner t.wal_ops start 0
            (t.savepoints ++ (new_savepoint name t.owner r t.wal_ops ∷ [])))
        (sym rows) (AreSaved-new t.owner t.wal_ops start 0 name t.savepoints saved),
    idle,
  )

  pub release-IsHistory :
      (next : ℕ) (start : List (RowVersion V)) (i : ℕ) (t : Txn V) (table : Table V)
      → IsHistory next start t table
      → IsHistory next start (record t { savepoints = take i t.savepoints }) table
  release-IsHistory next start i t table (rows, fitted, top, saved, idle) =
      (rows, fitted, top, AreSaved-take t.owner t.wal_ops start 0 i t.savepoints saved, idle)

  -- The rows at a savepoint, from those after the whole log.
  rolled_back :
      (owner next : ℕ) (start : List (RowVersion V)) (ops : List (RowOp V)) (sp : Savepoint)
      → owner ≢ 0
      → IsSound next start
      → Fits owner next ops start
      → Marks owner ops start sp
      → (rollback_rows_to owner sp.inserted sp.deleted (live owner ops start)
          ≡ live owner (take sp.wal_len ops) start)
        × Fits owner next (take sp.wal_len ops) start
        × (bound next (take sp.wal_len ops) ≤ bound next ops)
  rolled_back owner next start ops sp o sound fits marks =
      let early = take sp.wal_len ops in
      let late = drop sp.wal_len ops in
      let whole = take-append-drop sp.wal_len ops in
      let (before, after) =
        Fits-parts owner next early late start
          (subst (λ x. Fits owner next x start) (sym whole) fits) in
      (
        ap (λ x. rollback_rows_to owner sp.inserted sp.deleted x)
              (ap (λ x. live owner x start) (sym whole) ∙ live-append owner early late start)
            ∙ ap
                (λ (ins, del).
                  rollback_rows_to owner ins del (live owner late (live owner early start)))
                (sym marks)
            ∙ rollback_rows_to-pending_rows owner (bound next early) late (live owner early start) o
                (live-IsSound owner next early start before sound) after,
        before,
        omega (
          arith,
          bound-append next early late,
          ap (bound next) whole,
          Fits-bound owner (bound next early) late (live owner early start) after,
        ),
      )

  take_nil : (n : ℕ) (ops : List (RowOp V)) → ops ≡ [] → take n ops ≡ ops
  take_nil zero [] e = refl
  take_nil (suc n) [] e = refl
  take_nil n (op ∷ ops) e = absurd (cc)

  -- The rows that ROLLBACK TO leaves are those after the part of the log that it keeps.
  pub rows_to-live :
      (next i : ℕ) (start : List (RowVersion V)) (sp : Savepoint) (t : Txn V) (db : Db V)
      → t.owner ≢ 0
      → IsSound next start
      → At i sp t.savepoints
      → IsHistory next start t db.table
      → (rows_to sp t db).table.rows ≡ live t.owner (take sp.wal_len t.wal_ops) start
  unfolding rows_to
  rows_to-live next i start sp t db o sound at (rows, fitted, top, saved, idle) =
      let (low, short, marks, kept) =
        AreSaved-back t.owner t.wal_ops start 0 i sp t.savepoints at saved in
      let (back, before, le) = rolled_back t.owner next start t.wal_ops sp o sound fitted marks in
      elim (Bool-cases t.writer) [
        | inl e ↦ rw e (ap (rollback_rows_to t.owner sp.inserted sp.deleted) rows ∙ back)
        | inr e ↦
            rw e
              (rows ∙ ap (λ x. live t.owner x start) (sym (take_nil sp.wal_len t.wal_ops (idle e))))
      ]

  rows_to-next_vid :
      (sp : Savepoint) (t : Txn V) (db : Db V)
      → (rows_to sp t db).table.next_vid ≡ db.table.next_vid
  unfolding rows_to
  rows_to-next_vid sp t db = ground arith

  pub back-IsHistory :
      (next i : ℕ) (start : List (RowVersion V)) (sp : Savepoint) (t : Txn V) (db : Db V)
      → t.owner ≢ 0
      → IsSound next start
      → At i sp t.savepoints
      → IsHistory next start t db.table
      → IsHistory next start (txn_to i sp t) (rows_to sp t db).table
  unfolding txn_to
  back-IsHistory next i start sp t db o sound at history =
      let (rows, fitted, top, saved, idle) = history in
      let (low, short, marks, kept) =
        AreSaved-back t.owner t.wal_ops start 0 i sp t.savepoints at saved in
      let (back, before, le) = rolled_back t.owner next start t.wal_ops sp o sound fitted marks in
      let count : i + 1 ≡ suc i = omega arith in
      (
        rows_to-live next i start sp t db o sound at history,
        before,
        omega (arith, rows_to-next_vid sp t db),
        subst (λ n. AreSaved t.owner (take sp.wal_len t.wal_ops) start 0 (take n t.savepoints))
            (sym count) kept,
        λ e. take_nil sp.wal_len t.wal_ops (idle e) ∙ idle e,
      )
