-- ===== src/Mvcc.antt =====
-- crates/engine/src/store.rs and the write primitives of crates/engine/src/exec.rs: row versions,
-- their visibility, commit, rollback and replay. The values of a row are of any type `V`: nothing
-- here looks into them. A table is its rows and `next_vid`; the schema, the autoincrement counter
-- and the vector indexes are not part of the model, and where the code hands vids to an index the
-- model returns them.
pub mod Snapshot
pub mod Rollback
pub mod Replay
pub mod Undo
mod Runs
use Prim.Native.String.{String}
use bydesigns_db.Base.{
  ℕ, ◌+◌, max, Bool, true, false, not, ◌&&◌, ◌||◌, if◌then◌else◌, ltb, leb, ◌==◌, List, [], ◌∷◌,
  ◌++◌, Option, none, some, map,
}

-- `u64::MAX`.
abbrev pub pending : ℕ
pending = 18446744073709551615

pub record RowVersion (V : Type 0) : Type 0 where
  pub vid : ℕ
  pub values : V
  pub create_lsn : ℕ
  pub delete_lsn : ℕ
  pub owner : ℕ

pub record Table (V : Type 0) : Type 0 where
  pub rows : List (RowVersion V)
  pub next_vid : ℕ

-- The two facts of a transaction about rows, as `WalOp` has them, of one table.
pub data RowOp (V : Type 0) : Type 0 where
  insert : ℕ → V → RowOp V
  delete : ℕ → RowOp V

unfoldable pub contains : List ℕ → ℕ → Bool
contains [] v = false
contains (x ∷ xs) v = x == v || contains xs v

module _ {V : Type 0} where
  unfoldable pub visible_to_reader : RowVersion V → ℕ → Bool
  visible_to_reader r s = leb r.create_lsn s && (r.delete_lsn == 0 || ltb s r.delete_lsn)

  unfoldable pub visible_to_writer : RowVersion V → ℕ → ℕ → Bool
  visible_to_writer r s me =
      let created = if r.create_lsn == pending then r.owner == me else leb r.create_lsn s in
      let deleted =
        if r.delete_lsn == pending
        then r.owner == me
        else not (r.delete_lsn == 0) && leb r.delete_lsn s in
      created && not deleted

  -- The caller's role: a writer with its id, or a plain reader.
  unfoldable pub row_visible : RowVersion V → ℕ → Option ℕ → Bool
  unfolding visible_to_reader visible_to_writer
  row_visible r s none = visible_to_reader r s
  row_visible r s (some me) = visible_to_writer r s me

  -- `true` for `Ok(())`, `false` for the conflict.
  unfoldable pub check_no_conflict : RowVersion V → ℕ → ℕ → Bool
  check_no_conflict v snapshot me =
      let committed_conflict =
        not (v.delete_lsn == 0) && (not (v.delete_lsn == pending) && ltb snapshot v.delete_lsn) in
      let pending_conflict = v.delete_lsn == pending && not (v.owner == me) in
      not (committed_conflict || pending_conflict)

  -- `version_mut(vid)` with a write through it: the first version of that vid.
  unfoldable pub update_version :
      ℕ → (RowVersion V → RowVersion V) → List (RowVersion V) → List (RowVersion V)
  update_version vid f [] = []
  update_version vid f (r ∷ rows) =
      if r.vid == vid then f r ∷ rows else r ∷ update_version vid f rows

  -- `append_version` of exec.rs: the table, the log and the vid that was allocated.
  unfoldable pub append_version : V → ℕ → Table V → List (RowOp V) → Table V × List (RowOp V) × ℕ
  append_version vals owner t wal =
      let vid = t.next_vid in
      let row : RowVersion V = record {
        vid = vid;
        values = vals;
        create_lsn = pending;
        delete_lsn = 0;
        owner = owner;
      } in
      (
        record { rows = t.rows ++ (row ∷ []); next_vid = t.next_vid + 1 },
        wal ++ (insert vid vals ∷ []),
        vid,
      )

  -- `supersede` of exec.rs.
  unfoldable pub supersede : ℕ → ℕ → Table V → List (RowOp V) → Table V × List (RowOp V)
  supersede old_vid owner t wal = (
    record t {
      rows = update_version old_vid (λ r. record r { delete_lsn = pending; owner = owner }) t.rows;
    },
    wal ++ (delete old_vid ∷ []),
  )

  unfoldable pub replay_insert : ℕ → V → ℕ → Table V → Table V
  replay_insert vid values commit_lsn t =
      let row : RowVersion V = record {
        vid = vid;
        values = values;
        create_lsn = commit_lsn;
        delete_lsn = 0;
        owner = 0;
      } in
      record { rows = t.rows ++ (row ∷ []); next_vid = max t.next_vid (vid + 1) }

  unfoldable pub replay_delete : ℕ → ℕ → Table V → Table V
  replay_delete vid commit_lsn t = record t {
    rows = update_version vid (λ r. record r { delete_lsn = commit_lsn }) t.rows;
  }

  -- The group of a transaction, replayed at the LSN of its commit marker.
  unfoldable pub replay_ops : ℕ → List (RowOp V) → Table V → Table V
  unfolding replay_insert replay_delete
  replay_ops commit_lsn [] t = t
  replay_ops commit_lsn (insert vid values ∷ ops) t =
      replay_ops commit_lsn ops (replay_insert vid values commit_lsn t)
  replay_ops commit_lsn (delete vid ∷ ops) t =
      replay_ops commit_lsn ops (replay_delete vid commit_lsn t)

  -- `finalize_owner` on one version.
  unfoldable pub finalize_row : ℕ → ℕ → RowVersion V → RowVersion V
  finalize_row owner commit_lsn r = if not (r.owner == owner) then r else record r {
    create_lsn = if r.create_lsn == pending then commit_lsn else r.create_lsn;
    delete_lsn = if r.delete_lsn == pending then commit_lsn else r.delete_lsn;
    owner = 0;
  }

  unfoldable pub finalize_rows : ℕ → ℕ → List (RowVersion V) → List (RowVersion V)
  finalize_rows owner commit_lsn = map (finalize_row owner commit_lsn)

  -- The vids that an owner deleted, as `finalize_owner` hands them to the indexes.
  pub deleted_vids : ℕ → List (RowVersion V) → List ℕ
  deleted_vids owner [] = []
  deleted_vids owner (r ∷ rows) =
      let rest = deleted_vids owner rows in
      if r.owner == owner && r.delete_lsn == pending then r.vid ∷ rest else rest

  -- `finalize_owner` over the tables: the new tables, and the deleted vids of each table that has
  -- some.
  pub finalize_owner :
      ℕ → ℕ → List (String × Table V) → List (String × Table V) × List (String × List ℕ)
  unfolding finalize_rows finalize_row deleted_vids
  finalize_owner owner commit_lsn [] = ([], [])
  finalize_owner owner commit_lsn ((key, t) ∷ tables) =
      let (done, deleted) = finalize_owner owner commit_lsn tables in
      let vids = deleted_vids owner t.rows in
      (
        (key, record t { rows = finalize_rows owner commit_lsn t.rows }) ∷ done,
        elim vids [ [] ↦ deleted | v ∷ vs ↦ (key, v ∷ vs) ∷ deleted ],
      )

  -- Whether a version is a pending insert of `owner`, and a pending delete.
  abbrev pub is_insert_of : ℕ → RowVersion V → Bool
  is_insert_of owner r = r.owner == owner && r.create_lsn == pending

  abbrev pub is_delete_of : ℕ → RowVersion V → Bool
  is_delete_of owner r = r.owner == owner && r.delete_lsn == pending

  -- `rollback_owner` on the rows of one table: what stays, with the pending deletes cleared.
  unfoldable pub rollback_rows : ℕ → List (RowVersion V) → List (RowVersion V)
  rollback_rows owner [] = []
  rollback_rows owner (r ∷ rows) =
      let rest = rollback_rows owner rows in
      if is_insert_of owner r
      then rest
      else if is_delete_of owner r
      then record r { delete_lsn = 0; owner = 0 } ∷ rest
      else r ∷ rest

  -- The vids inserted and deleted by `owner` in the rows of one table, before the given ones.
  unfoldable pub pending_rows : ℕ → List (RowVersion V) → List ℕ × List ℕ → List ℕ × List ℕ
  pending_rows owner [] acc = acc
  pending_rows owner (r ∷ rows) acc =
      let (ins, del) = pending_rows owner rows acc in
      (
        if is_insert_of owner r then r.vid ∷ ins else ins,
        if is_delete_of owner r then r.vid ∷ del else del,
      )

  -- `pending_snapshot`: one set of inserted and one of deleted vids for all the tables.
  pub pending_snapshot : ℕ → List (String × Table V) → List ℕ × List ℕ
  unfolding pending_rows
  pending_snapshot owner [] = ([], [])
  pending_snapshot owner ((key, t) ∷ tables) =
      pending_rows owner t.rows (pending_snapshot owner tables)

  -- `rollback_to_savepoint` on the rows of one table.
  unfoldable pub rollback_rows_to : ℕ → List ℕ → List ℕ → List (RowVersion V) → List (RowVersion V)
  unfolding contains
  rollback_rows_to owner ins del [] = []
  rollback_rows_to owner ins del (r ∷ rows) =
      let rest = rollback_rows_to owner ins del rows in
      if is_insert_of owner r && not (contains ins r.vid)
      then rest
      else if is_delete_of owner r && not (contains del r.vid)
      then record r { delete_lsn = 0; owner = if r.create_lsn == pending then r.owner else 0 }
        ∷ rest
      else r ∷ rest

  -- `rollback_to_savepoint` and `rollback_owner` over the tables.
  pub rollback_to_savepoint :
      ℕ → List ℕ → List ℕ → List (String × Table V) → List (String × Table V)
  unfolding rollback_rows_to
  rollback_to_savepoint owner ins del =
      map (λ (key, t). (key, record t { rows = rollback_rows_to owner ins del t.rows }))

  pub rollback_owner : ℕ → List (String × Table V) → List (String × Table V)
  unfolding rollback_rows
  rollback_owner owner = map (λ (key, t). (key, record t { rows = rollback_rows owner t.rows }))
