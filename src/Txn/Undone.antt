-- ===== src/Txn/Undone.antt =====
-- What Store::rollback_to_savepoint of crates/engine/src/store.rs does to one table: the operations
-- after the savepoint leave no trace in the rows.
use bydesigns_db.Base.{
  ℕ, ◌+◌, ◌≤◌, ◌≡◌, ◌≢◌, refl, ◌∙◌, ◌==◌, true, false, Bool-cases, List, [], ◌∷◌, ◌++◌, All,
  All-append, ◌⊎◌, inl, inr, arith,
}
use bydesigns_db.Mvcc.{
  RowVersion, RowOp, insert, delete, pending, contains, update_version, rollback_rows_to,
  is_delete_of,
}
use bydesigns_db.Txn.Pending.{marked, fresh_version, live_op, live}

-- The sets hold vids below `next` only.
abbrev pub Below : ℕ → List ℕ → Type 0
Below next vids = (v : ℕ) → next ≤ v → contains vids v ≡ false

module _ {V : Type 0} where
  -- A version that the conflict check lets the transaction supersede: its own, or one that is
  -- committed and not deleted.
  abbrev pub IsOpen : ℕ → RowVersion V → Type 0
  IsOpen owner r =
      ((r.owner ≡ owner)
        × (((r.create_lsn ≡ pending) × (r.delete_lsn ≡ 0)) ⊎ (r.delete_lsn ≡ pending)))
      ⊎ ((r.owner ≡ 0) × (r.create_lsn ≢ pending) × (r.delete_lsn ≡ 0))

  -- A rollback to these sets of vids takes `r` for what it was at the savepoint.
  abbrev pub Keeps : ℕ → List ℕ → RowVersion V → Type 0
  Keeps owner del r = contains del r.vid ≡ true → is_delete_of owner r ≡ true

  mark_row_undone :
      (owner : ℕ) (ins del : List ℕ) (r : RowVersion V) (rows : List (RowVersion V))
      → owner ≢ 0
      → IsOpen owner r
      → Keeps owner del r
      → rollback_rows_to owner ins del (marked owner r ∷ rows)
        ≡ rollback_rows_to owner ins del (r ∷ rows)
  unfolding rollback_rows_to
  mark_row_undone owner ins del r rows o free keep = ground arith

  pub rollback_rows_to-cons :
      (owner : ℕ) (ins del : List ℕ) (r : RowVersion V) (xs ys : List (RowVersion V))
      → rollback_rows_to owner ins del xs ≡ rollback_rows_to owner ins del ys
      → rollback_rows_to owner ins del (r ∷ xs) ≡ rollback_rows_to owner ins del (r ∷ ys)
  unfolding rollback_rows_to
  rollback_rows_to-cons owner ins del r xs ys h = rw h refl

  mark_undone :
      (owner vid : ℕ) (ins del : List ℕ) (rows : List (RowVersion V))
      → owner ≢ 0
      → All (λ r. r.vid ≡ vid → IsOpen owner r) rows
      → All (Keeps owner del) rows
      → (rollback_rows_to owner ins del (update_version vid (marked owner) rows)
          ≡ rollback_rows_to owner ins del rows)
        × All (Keeps owner del) (update_version vid (marked owner) rows)
  unfolding update_version
  mark_undone owner vid ins del [] o free keeps = (refl, keeps)
  mark_undone owner vid ins del (r ∷ rows) o (here, free) (keep, keeps) =
      let (ih, kept) = mark_undone owner vid ins del rows o free keeps in
      elim (Bool-cases (r.vid == vid)) [
        | inl e ↦ rw e (
          mark_row_undone owner ins del r rows o (here (ground arith)) keep,
          ((λ h. ground arith), keeps),
        )
        | inr e ↦ rw e (rollback_rows_to-cons owner ins del r _ rows ih, (keep, kept))
      ]

  new_undone :
      (owner vid : ℕ) (vals : V) (ins del : List ℕ) (rows : List (RowVersion V))
      → contains ins vid ≡ false
      → rollback_rows_to owner ins del (rows ++ (fresh_version owner vid vals ∷ []))
        ≡ rollback_rows_to owner ins del rows
  unfolding rollback_rows_to
  new_undone owner vid vals ins del [] h = ground arith
  new_undone owner vid vals ins del (r ∷ rows) h =
      rollback_rows_to-cons owner ins del r _ rows (new_undone owner vid vals ins del rows h)

  -- The operations of a transaction that follow the rows: new vids are `next` or above, and what is
  -- superseded is open to the transaction.
  abbrev pub Fits : ℕ → ℕ → List (RowOp V) → List (RowVersion V) → Type 0
  Fits owner next [] rows = Unit {0}
  Fits owner next (insert vid vals ∷ ops) rows =
      (next ≤ vid) × Fits owner (vid + 1) ops (live_op owner (insert vid vals) rows)
  Fits owner next (delete vid ∷ ops) rows =
      All (λ r. r.vid ≡ vid → IsOpen owner r) rows
      × Fits owner next ops (live_op owner (delete vid) rows)

  pub live_undone :
      (owner next : ℕ) (ins del : List ℕ) (ops : List (RowOp V)) (rows : List (RowVersion V))
      → owner ≢ 0
      → Below next ins
      → Below next del
      → Fits owner next ops rows
      → All (Keeps owner del) rows
      → rollback_rows_to owner ins del (live owner ops rows) ≡ rollback_rows_to owner ins del rows
  unfolding live live_op
  live_undone owner next ins del [] rows o bi bd fits keeps = refl
  live_undone owner next ins del (insert vid vals ∷ ops) rows o bi bd (le, fits) keeps =
      live_undone owner (vid + 1) ins del ops (rows ++ (fresh_version owner vid vals ∷ [])) o
        (λ v h. bi v (omega arith)) (λ v h. bd v (omega arith)) fits
        (All-append (Keeps owner del) rows _ keeps ((λ h. absurd (ground (arith, bd vid le))), tt))
      ∙ new_undone owner vid vals ins del rows (bi vid le)
  live_undone owner next ins del (delete vid ∷ ops) rows o bi bd (free, fits) keeps =
      let (same, kept) = mark_undone owner vid ins del rows o free keeps in
      live_undone owner next ins del ops (update_version vid (marked owner) rows) o bi bd fits kept
      ∙ same
