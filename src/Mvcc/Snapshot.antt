-- ===== src/Mvcc/Snapshot.antt =====
-- Snapshot isolation over the row versions of crates/engine/src/store.rs: what a reader sees of a
-- table before and after a commit and a rollback.
use bydesigns_db.Base.{ℕ, ◌≤◌, ◌<◌, ◌≡◌, refl, if◌then◌else◌, List, [], ◌∷◌, arith}
use bydesigns_db.Mvcc.{
  RowVersion, pending, visible_to_reader, visible_to_writer, finalize_row, finalize_rows,
}

module _ {V : Type 0} where
  -- The rows that a reader at `s` sees, and those that the writer `me` sees, in table order.
  unfoldable pub read_rows : ℕ → List (RowVersion V) → List (ℕ × V)
  read_rows s [] = []
  read_rows s (r ∷ rows) =
      let rest = read_rows s rows in
      if visible_to_reader r s then (r.vid, r.values) ∷ rest else rest

  unfoldable pub write_rows : ℕ → ℕ → List (RowVersion V) → List (ℕ × V)
  write_rows s me [] = []
  write_rows s me (r ∷ rows) =
      let rest = write_rows s me rows in
      if visible_to_writer r s me then (r.vid, r.values) ∷ rest else rest

  reader-finalize :
      (r : RowVersion V) (owner commit_lsn s : ℕ)
      → s < commit_lsn
      → s < pending
      → visible_to_reader (finalize_row owner commit_lsn r) s ≡ visible_to_reader r s
  unfolding visible_to_reader finalize_row
  reader-finalize r owner commit_lsn s before h = ground arith

  reader-finalize_writer :
      (r : RowVersion V) (owner commit_lsn s : ℕ)
      → 0 < commit_lsn
      → commit_lsn ≤ s
      → s < pending
      → visible_to_reader (finalize_row owner commit_lsn r) s ≡ visible_to_writer r s owner
  unfolding visible_to_reader visible_to_writer finalize_row
  reader-finalize_writer r owner commit_lsn s pos after h = ground arith

  finalize_row-vid :
      (r : RowVersion V) (owner commit_lsn : ℕ) → (finalize_row owner commit_lsn r).vid ≡ r.vid
  unfolding finalize_row
  finalize_row-vid r owner commit_lsn = ground arith

  finalize_row-values :
      (r : RowVersion V) (owner commit_lsn : ℕ)
      → (finalize_row owner commit_lsn r).values ≡ r.values
  unfolding finalize_row
  finalize_row-values r owner commit_lsn = ground arith

  -- A commit at `commit_lsn` changes nothing of what a reader sees whose snapshot is older.
  pub read_rows-finalize_rows :
      (rows : List (RowVersion V)) (owner commit_lsn s : ℕ)
      → s < commit_lsn
      → s < pending
      → read_rows s (finalize_rows owner commit_lsn rows) ≡ read_rows s rows
  unfolding finalize_rows read_rows
  read_rows-finalize_rows [] owner commit_lsn s before h = refl
  read_rows-finalize_rows (r ∷ rows) owner commit_lsn s before h =
      rw
        (
          reader-finalize r owner commit_lsn s before h,
          finalize_row-vid r owner commit_lsn,
          finalize_row-values r owner commit_lsn,
          read_rows-finalize_rows rows owner commit_lsn s before h,
        )
        refl

  -- A reader whose snapshot is at or after the commit sees exactly the rows that the writer saw
  -- at that snapshot just before the commit, with the writer's own pending changes.
  pub read_rows_after_commit :
      (rows : List (RowVersion V)) (owner commit_lsn s : ℕ)
      → 0 < commit_lsn
      → commit_lsn ≤ s
      → s < pending
      → read_rows s (finalize_rows owner commit_lsn rows) ≡ write_rows s owner rows
  unfolding finalize_rows read_rows write_rows
  read_rows_after_commit [] owner commit_lsn s pos after h = refl
  read_rows_after_commit (r ∷ rows) owner commit_lsn s pos after h =
      rw
        (
          reader-finalize_writer r owner commit_lsn s pos after h,
          finalize_row-vid r owner commit_lsn,
          finalize_row-values r owner commit_lsn,
          read_rows_after_commit rows owner commit_lsn s pos after h,
        )
        refl
