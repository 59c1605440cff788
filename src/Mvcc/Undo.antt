-- ===== src/Mvcc/Undo.antt =====
-- The conflict check of crates/engine/src/exec.rs, and the rollback of a whole transaction by
-- Store::rollback_owner of crates/engine/src/store.rs.
use bydesigns_db.Base.{
  All-if, ℕ, ◌≡◌, ◌≢◌, ◌↔◌, refl, ap, ◌∙◌, true, false, ◌==◌, ◌⊎◌, inl, inr, List, [], ◌∷◌, ◌++◌,
  append-nil, All, All-append, arith,
}
use bydesigns_db.Mvcc.{
  RowVersion, Table, RowOp, pending, contains, visible_to_writer, check_no_conflict, update_version,
  append_version, supersede, rollback_rows,
}
use bydesigns_db.Mvcc.Replay.{Change, append, remove, apply_change, run_changes}

-- The vids that a list of changes supersedes.
abbrev pub removed_vids : {V : Type 0} → List (Change V) → List ℕ
removed_vids [] = []
removed_vids (append vals ∷ cs) = removed_vids cs
removed_vids (remove vid ∷ cs) = vid ∷ removed_vids cs

module _ {V : Type 0} where
  passes-live :
      (r : RowVersion V) (s me : ℕ)
      → visible_to_writer r s me ≡ true
      → check_no_conflict r s me ≡ true
      → r.delete_lsn ≡ 0
  unfolding visible_to_writer check_no_conflict
  passes-live r s me seen passes = ground arith

  live-passes : (r : RowVersion V) (s me : ℕ) → r.delete_lsn ≡ 0 → check_no_conflict r s me ≡ true
  unfolding check_no_conflict
  live-passes r s me live = ground arith

  -- A version that a writer sees passes the conflict check exactly if nobody, committed or in
  -- flight, has deleted it: the mark of a delete never replaces another.
  pub check_no_conflict-live :
      (r : RowVersion V) (s me : ℕ)
      → visible_to_writer r s me ≡ true
      → (check_no_conflict r s me ≡ true) ↔ (r.delete_lsn ≡ 0)
  check_no_conflict-live r s me seen = (passes-live r s me seen, live-passes r s me)

  -- A version that the rollback gives back as it was, whichever of `vids` are superseded next.
  abbrev IsRevocable : ℕ → List ℕ → RowVersion V → Type 0
  IsRevocable owner vids r =
      ((r.owner ≡ owner) × ((r.create_lsn ≡ pending) ⊎ (r.delete_lsn ≡ pending)))
      ⊎ ((r.owner ≡ 0)
          × (r.create_lsn ≢ pending)
          × ((r.delete_lsn ≡ 0) ⊎ (contains vids r.vid ≡ false)))

  IsRevocable-rest :
      (owner vid : ℕ) (vids : List ℕ) (r : RowVersion V)
      → IsRevocable owner (vid ∷ vids) r
      → IsRevocable owner vids r
  unfolding contains
  IsRevocable-rest owner vid vids r h = ground arith

  rest-IsRevocable :
      (owner vid : ℕ) (vids : List ℕ) (rows : List (RowVersion V))
      → All (IsRevocable owner (vid ∷ vids)) rows
      → All (IsRevocable owner vids) rows
  rest-IsRevocable owner vid vids [] h = h
  rest-IsRevocable owner vid vids (r ∷ rows) (here, h) =
      (IsRevocable-rest owner vid vids r here, rest-IsRevocable owner vid vids rows h)

  mark-IsRevocable :
      (owner vid : ℕ) (vids : List ℕ) (rows : List (RowVersion V))
      → All (IsRevocable owner (vid ∷ vids)) rows
      → All
          (IsRevocable owner vids)
          (update_version vid (λ r. record r { delete_lsn = pending; owner = owner }) rows)
  unfolding update_version
  mark-IsRevocable owner vid vids [] h = h
  mark-IsRevocable owner vid vids (r ∷ rows) (here, h) =
      All-if (IsRevocable owner vids) (r.vid == vid) _ _
        (inl (refl, inr refl), rest-IsRevocable owner vid vids rows h)
        (IsRevocable-rest owner vid vids r here, mark-IsRevocable owner vid vids rows h)

  rollback_rows_marked :
      (owner vid : ℕ) (vids : List ℕ) (rows : List (RowVersion V))
      → owner ≢ 0
      → All (IsRevocable owner (vid ∷ vids)) rows
      → rollback_rows owner
          (update_version vid (λ r. record r { delete_lsn = pending; owner = owner }) rows)
        ≡ rollback_rows owner rows
  unfolding update_version rollback_rows contains
  rollback_rows_marked owner vid vids [] o h = refl
  rollback_rows_marked owner vid vids (r ∷ rows) o (here, h) =
      let ih = rollback_rows_marked owner vid vids rows o h in ground arith

  rollback_rows-append :
      (owner : ℕ) (xs ys : List (RowVersion V))
      → rollback_rows owner (xs ++ ys) ≡ rollback_rows owner xs ++ rollback_rows owner ys
  unfolding rollback_rows
  rollback_rows-append owner [] ys = refl
  rollback_rows-append owner (x ∷ xs) ys = let ih = rollback_rows-append owner xs ys in ground arith

  rollback_row_new :
      (owner vid : ℕ) (vals : V)
      → rollback_rows owner (
          record { vid = vid; values = vals; create_lsn = pending; delete_lsn = 0; owner = owner }
          ∷ [])
        ≡ []
  unfolding rollback_rows
  rollback_row_new owner vid vals = ground arith

  run_changes-rollback :
      (owner : ℕ) (cs : List (Change V)) (t : Table V) (wal : List (RowOp V))
      → owner ≢ 0
      → All (IsRevocable owner (removed_vids cs)) t.rows
      → rollback_rows owner (run_changes owner cs (t, wal)).0.rows ≡ rollback_rows owner t.rows
  unfolding run_changes apply_change append_version supersede
  run_changes-rollback owner [] t wal o h = refl
  run_changes-rollback owner (append vals ∷ cs) t wal o h =
      let (after, log, vid) = append_version vals owner t wal in
      let new : RowVersion V = record {
        vid = t.next_vid;
        values = vals;
        create_lsn = pending;
        delete_lsn = 0;
        owner = owner;
      } in
      run_changes-rollback owner cs after log o (
        All-append (IsRevocable owner (removed_vids cs)) t.rows (new ∷ []) h
          (inl (refl, inl refl), tt))
      ∙ rollback_rows-append owner t.rows (new ∷ [])
      ∙ ap (λ rest. rollback_rows owner t.rows ++ rest) (rollback_row_new owner t.next_vid vals)
      ∙ append-nil (rollback_rows owner t.rows)
  run_changes-rollback owner (remove vid ∷ cs) t wal o h =
      let (after, log) = supersede vid owner t wal in
      run_changes-rollback owner cs after log o
        (mark-IsRevocable owner vid (removed_vids cs) t.rows h)
      ∙ rollback_rows_marked owner vid (removed_vids cs) t.rows o h

  start_rows :
      (owner : ℕ) (vids : List ℕ) (rows : List (RowVersion V))
      → owner ≢ 0
      → All
          (λ r.
            (r.owner ≡ 0)
            × (r.create_lsn ≢ pending)
            × ((r.delete_lsn ≡ 0) ⊎ (contains vids r.vid ≡ false)))
          rows
      → (rollback_rows owner rows ≡ rows) × All (IsRevocable owner vids) rows
  unfolding rollback_rows
  start_rows owner vids [] o h = (refl, h)
  start_rows owner vids (r ∷ rows) o (here, h) =
      let (same, revocable) = start_rows owner vids rows o h in
      (ground arith, (inr here, revocable))

  -- From a table whose rows are all committed, the rollback of a writer that appended rows and
  -- superseded live ones, in any order and its own new rows too, gives back the rows of the start
  -- as they were.
  pub rollback_rows-run_changes :
      (owner : ℕ) (cs : List (Change V)) (start : Table V)
      → owner ≢ 0
      → All
          (λ r.
            (r.owner ≡ 0)
            × (r.create_lsn ≢ pending)
            × ((r.delete_lsn ≡ 0) ⊎ (contains (removed_vids cs) r.vid ≡ false)))
          start.rows
      → rollback_rows owner (run_changes owner cs (start, [])).0.rows ≡ start.rows
  rollback_rows-run_changes owner cs start o h =
      let (same, revocable) = start_rows owner (removed_vids cs) start.rows o h in
      run_changes-rollback owner cs start [] o revocable ∙ same
