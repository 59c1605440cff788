-- ===== src/Txn/Pending.antt =====
-- The rows of a table while a transaction writes, from the operations that it has logged; for
-- crates/engine/src/store.rs and crates/engine/src/conn.rs.
use bydesigns_db.Base.{
  ℕ, ◌+◌, ◌≡◌, refl, sym, ap, ◌∙◌, List, [], ◌∷◌, ◌++◌, append-nil, append_assoc,
}
use bydesigns_db.Mvcc.{
  RowVersion, Table, RowOp, insert, delete, pending, update_version, append_version, supersede,
}
use bydesigns_db.Mvcc.Replay.{Change, append, remove, apply_change, run_changes}

module _ {V : Type 0} where
  abbrev pub marked : ℕ → RowVersion V → RowVersion V
  marked owner r = record r { delete_lsn = pending; owner = owner }

  abbrev pub fresh_version : ℕ → ℕ → V → RowVersion V
  fresh_version owner vid vals = record {
    vid = vid;
    values = vals;
    create_lsn = pending;
    delete_lsn = 0;
    owner = owner;
  }

  -- The rows after an operation of the transaction, and after a list of them.
  unfoldable pub live_op : ℕ → RowOp V → List (RowVersion V) → List (RowVersion V)
  live_op owner (insert vid vals) rows = rows ++ (fresh_version owner vid vals ∷ [])
  live_op owner (delete vid) rows = update_version vid (marked owner) rows

  unfoldable pub live : ℕ → List (RowOp V) → List (RowVersion V) → List (RowVersion V)
  live owner [] rows = rows
  live owner (op ∷ ops) rows = live owner ops (live_op owner op rows)

  pub live-append :
      (owner : ℕ) (ops more : List (RowOp V)) (rows : List (RowVersion V))
      → live owner (ops ++ more) rows ≡ live owner more (live owner ops rows)
  unfolding live
  live-append owner [] more rows = refl
  live-append owner (op ∷ ops) more rows = live-append owner ops more (live_op owner op rows)

  -- What changes log, from the next vid on.
  unfoldable pub logged : ℕ → List (Change V) → List (RowOp V)
  logged next_vid [] = []
  logged next_vid (append vals ∷ cs) = insert next_vid vals ∷ logged (next_vid + 1) cs
  logged next_vid (remove vid ∷ cs) = delete vid ∷ logged next_vid cs

  -- The next vid after changes.
  unfoldable pub next_after : ℕ → List (Change V) → ℕ
  next_after next_vid [] = next_vid
  next_after next_vid (append vals ∷ cs) = next_after (next_vid + 1) cs
  next_after next_vid (remove vid ∷ cs) = next_after next_vid cs

  abbrev pub table_after : ℕ → List (Change V) → Table V → Table V
  table_after owner cs t = record {
    rows = live owner (logged t.next_vid cs) t.rows;
    next_vid = next_after t.next_vid cs;
  }

  pub run_changes-live :
      (owner : ℕ) (cs : List (Change V)) (t : Table V) (wal : List (RowOp V))
      → run_changes owner cs (t, wal) ≡ (table_after owner cs t, wal ++ logged t.next_vid cs)
  unfolding run_changes apply_change append_version supersede live live_op logged next_after
  run_changes-live owner [] t wal = ap (λ log. (t, log)) (sym (append-nil wal))
  run_changes-live owner (append vals ∷ cs) t wal =
      let (after, log) = apply_change owner (append vals) (t, wal) in
      run_changes-live owner cs after log
      ∙ ap (λ ops. (table_after owner cs after, ops))
          (append_assoc wal (insert t.next_vid vals ∷ []) (logged (t.next_vid + 1) cs))
  run_changes-live owner (remove vid ∷ cs) t wal =
      let (after, log) = supersede vid owner t wal in
      run_changes-live owner cs after log
      ∙ ap (λ ops. (table_after owner cs after, ops))
          (append_assoc wal (delete vid ∷ []) (logged t.next_vid cs))
