-- ===== src/Mvcc/Rollback.antt =====
-- What a transaction sees while its rows are pending, and what its rollback restores, over the row
-- versions of crates/engine/src/store.rs.
use bydesigns_db.Base.{ℕ, ◌<◌, ◌≡◌, ◌≢◌, refl, List, [], ◌∷◌, arith}
use bydesigns_db.Mvcc.{RowVersion, pending, visible_to_reader, visible_to_writer, rollback_rows}
use bydesigns_db.Mvcc.Snapshot.{read_rows, write_rows}

module _ {V : Type 0} where
  -- A rollback of `owner` changes nothing of what a reader sees, at any snapshot below `pending`.
  read_rows-rollback_rows :
      (rows : List (RowVersion V)) (owner s : ℕ)
      → s < pending
      → read_rows s (rollback_rows owner rows) ≡ read_rows s rows
  unfolding rollback_rows visible_to_reader read_rows
  read_rows-rollback_rows [] owner s h = refl
  read_rows-rollback_rows (r ∷ rows) owner s h =
      let ih = read_rows-rollback_rows rows owner s h in ground arith

  -- A rollback of `owner` changes nothing of what another writer sees, at any snapshot below
  -- `pending`: that writer's own pending inserts and deletes stay.
  write_rows-rollback_rows :
      (rows : List (RowVersion V)) (owner s me : ℕ)
      → s < pending
      → owner ≢ me
      → write_rows s me (rollback_rows owner rows) ≡ write_rows s me rows
  unfolding rollback_rows visible_to_writer write_rows
  write_rows-rollback_rows [] owner s me h other = refl
  write_rows-rollback_rows (r ∷ rows) owner s me h other =
      let ih = write_rows-rollback_rows rows owner s me h other in ground arith

  -- A rollback of `owner` changes nothing of what others see, at any snapshot below `pending`: not
  -- of what a reader sees, and not of what another writer sees, whose own pending inserts and
  -- deletes stay.
  pub rollback_rows_unseen :
      (rows : List (RowVersion V)) (owner s me : ℕ)
      → s < pending
      → owner ≢ me
      → (read_rows s (rollback_rows owner rows) ≡ read_rows s rows)
        × (write_rows s me (rollback_rows owner rows) ≡ write_rows s me rows)
  rollback_rows_unseen rows owner s me h other =
      (read_rows-rollback_rows rows owner s h, write_rows-rollback_rows rows owner s me h other)
