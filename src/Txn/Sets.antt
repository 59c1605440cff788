-- ===== src/Txn/Sets.antt =====
-- The vids that Store::pending_snapshot of crates/engine/src/store.rs records of one table, and the
-- rollback to them by Store::rollback_to_savepoint.
use bydesigns_db.Base.{
  ℕ, ◌+◌, ◌≤◌, ◌<◌, ◌≡◌, ◌≢◌, refl, ◌∙◌, true, false, if◌then◌else◌, List, [], ◌∷◌, All, arith,
}
use bydesigns_db.Mvcc.{
  RowVersion, RowOp, insert, delete, contains, pending_rows, rollback_rows_to, is_insert_of,
  is_delete_of,
}
use bydesigns_db.Txn.Pending.{live}
use bydesigns_db.Txn.Undone.{Below, Keeps, Fits, live_undone}

module _ {V : Type 0} where
  -- No two versions of a table have one vid, and all vids are below the next one.
  abbrev pub Distinct : List (RowVersion V) → Type 0
  Distinct [] = Unit {0}
  Distinct (r ∷ rows) = All (λ x. x.vid ≢ r.vid) rows × Distinct rows

  abbrev pub IsSound : ℕ → List (RowVersion V) → Type 0
  IsSound next rows = All (λ r. r.vid < next) rows × Distinct rows

  -- The next vid after operations.
  unfoldable pub bound : ℕ → List (RowOp V) → ℕ
  bound next [] = next
  bound next (insert vid vals ∷ ops) = bound (vid + 1) ops
  bound next (delete vid ∷ ops) = bound next ops

  pending_without :
      (owner v : ℕ) (rows : List (RowVersion V))
      → All (λ x. x.vid ≢ v) rows
      → let (ins, del) = pending_rows owner rows ([], []) in
        (contains ins v ≡ false) × (contains del v ≡ false)
  unfolding pending_rows contains
  pending_without owner v [] h = (refl, refl)
  pending_without owner v (r ∷ rows) (here, h) =
      let ih = pending_without owner v rows h in (ground arith, ground arith)

  others :
      (next v : ℕ) (rows : List (RowVersion V))
      → All (λ r. r.vid < next) rows
      → next ≤ v
      → All (λ x. x.vid ≢ v) rows
  others next v [] h le = h
  others next v (r ∷ rows) (here, h) le = ((λ e. omega arith), others next v rows h le)

  pending-Below :
      (owner next : ℕ) (rows : List (RowVersion V))
      → All (λ r. r.vid < next) rows
      → let (ins, del) = pending_rows owner rows ([], []) in Below next ins × Below next del
  pending-Below owner next rows h = (
    λ v le. (pending_without owner v rows (others next v rows h le)).0,
    λ v le. (pending_without owner v rows (others next v rows h le)).1,
  )

  -- The sets tell of each version what it is.
  abbrev Tells : ℕ → List ℕ → List ℕ → RowVersion V → Type 0
  Tells owner ins del r =
      (is_insert_of owner r ≡ true → contains ins r.vid ≡ true)
      × (is_delete_of owner r ≡ true → contains del r.vid ≡ true)
      × Keeps owner del r

  Tells-cons :
      (owner : ℕ) (ins del : List ℕ) (r : RowVersion V) (rows : List (RowVersion V))
      → All (λ x. x.vid ≢ r.vid) rows
      → All (Tells owner ins del) rows
      → All
          (Tells owner
            (if is_insert_of owner r then r.vid ∷ ins else ins)
            (if is_delete_of owner r then r.vid ∷ del else del))
          rows
  unfolding contains
  Tells-cons owner ins del r [] other h = h
  Tells-cons owner ins del r (x ∷ rows) (apart, other) ((t1, t2, t3), h) = (
    ((λ e. ground (arith, t1 e)), (λ e. ground (arith, t2 e)), λ e. ground arith),
    Tells-cons owner ins del r rows other h,
  )

  pending-Tells :
      (owner : ℕ) (rows : List (RowVersion V))
      → Distinct rows
      → let (ins, del) = pending_rows owner rows ([], []) in All (Tells owner ins del) rows
  unfolding pending_rows contains
  pending-Tells owner [] h = h
  pending-Tells owner (r ∷ rows) (apart, h) =
      let (ins, del) = pending_rows owner rows ([], []) in
      let none_else = pending_without owner r.vid rows apart in
      (
        ((λ e. ground arith), (λ e. ground arith), λ e. ground arith),
        Tells-cons owner ins del r rows apart (pending-Tells owner rows h),
      )

  Tells-kept :
      (owner : ℕ) (ins del : List ℕ) (rows : List (RowVersion V))
      → All (Tells owner ins del) rows
      → (rollback_rows_to owner ins del rows ≡ rows) × All (Keeps owner del) rows
  unfolding rollback_rows_to
  Tells-kept owner ins del [] h = (refl, h)
  Tells-kept owner ins del (r ∷ rows) ((t1, t2, t3), h) =
      let (same, kept) = Tells-kept owner ins del rows h in (ground arith, (t3, kept))

  -- From a table in which every version has its own vid: after any operations of a transaction, of
  -- which the inserts take new vids and the deletes hit versions that are open to it, the rollback
  -- to the sets that a savepoint recorded before them gives back the rows as they were then, with
  -- what the transaction itself had inserted and deleted before the savepoint.
  pub rollback_rows_to-pending_rows :
      (owner next : ℕ) (ops : List (RowOp V)) (rows : List (RowVersion V))
      → owner ≢ 0
      → IsSound next rows
      → Fits owner next ops rows
      → let (ins, del) = pending_rows owner rows ([], []) in
        rollback_rows_to owner ins del (live owner ops rows) ≡ rows
  rollback_rows_to-pending_rows owner next ops rows o (below, distinct) fits =
      let (ins, del) = pending_rows owner rows ([], []) in
      let (bi, bd) = pending-Below owner next rows below in
      let (same, kept) = Tells-kept owner ins del rows (pending-Tells owner rows distinct) in
      live_undone owner next ins del ops rows o bi bd fits kept ∙ same
