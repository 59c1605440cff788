-- ===== src/Mvcc/Replay.antt =====
-- The row operations that a transaction logs, replayed by Store::replay_insert and
-- Store::replay_delete of crates/engine/src/store.rs, against its live rows once committed.
use bydesigns_db.Base.{
  All-if, ℕ, ◌+◌, ◌≤◌, ◌<◌, ◌≡◌, ◌≢◌, refl, sym, ap, ◌∙◌, max, ◌==◌, List, [], ◌∷◌, ◌++◌, All,
  All-append, ◌⊎◌, inl, inr, arith,
}
use bydesigns_db.Mvcc.{
  RowVersion, Table, RowOp, insert, delete, pending, append_version, supersede, update_version,
  replay_insert, replay_delete, replay_ops, finalize_row, finalize_rows,
}
use bydesigns_db.Mvcc.Snapshot.{read_rows, write_rows, read_rows_after_commit}

-- What a statement does to the rows of a table: an INSERT allocates a version, a DELETE supersedes
-- one, an UPDATE does the second and then the first.
pub data Change (V : Type 0) : Type 0 where
  append : V → Change V
  remove : ℕ → Change V

module _ {V : Type 0} where
  -- The live table and the log of the transaction after a change, and after a list of them.
  unfoldable pub apply_change : ℕ → Change V → Table V × List (RowOp V) → Table V × List (RowOp V)
  unfolding append_version supersede
  apply_change owner (append vals) (t, wal) =
      let (after, log, vid) = append_version vals owner t wal in (after, log)
  apply_change owner (remove vid) (t, wal) = supersede vid owner t wal

  unfoldable pub run_changes :
      ℕ → List (Change V) → Table V × List (RowOp V) → Table V × List (RowOp V)
  run_changes owner [] at = at
  run_changes owner (c ∷ cs) at = run_changes owner cs (apply_change owner c at)

  -- The table that `finalize_owner` makes of a live one.
  abbrev pub committed : ℕ → ℕ → Table V → Table V
  committed owner commit_lsn t = record t { rows = finalize_rows owner commit_lsn t.rows }

  -- A version is free of other writers: it is the writer's own, or nobody's and committed.
  abbrev pub IsFree : ℕ → RowVersion V → Type 0
  IsFree owner r = (r.owner ≡ owner) ⊎ ((r.owner ≡ 0) × (r.create_lsn ≢ pending))

  pub replay_ops-append :
      (commit_lsn : ℕ) (ops more : List (RowOp V)) (t : Table V)
      → replay_ops commit_lsn (ops ++ more) t
        ≡ replay_ops commit_lsn more (replay_ops commit_lsn ops t)
  unfolding replay_ops
  replay_ops-append commit_lsn [] more t = refl
  replay_ops-append commit_lsn (insert vid vals ∷ ops) more t =
      replay_ops-append commit_lsn ops more (replay_insert vid vals commit_lsn t)
  replay_ops-append commit_lsn (delete vid ∷ ops) more t =
      replay_ops-append commit_lsn ops more (replay_delete vid commit_lsn t)

  pub finalize_rows-append :
      (owner commit_lsn : ℕ) (xs ys : List (RowVersion V))
      → finalize_rows owner commit_lsn (xs ++ ys)
        ≡ finalize_rows owner commit_lsn xs ++ finalize_rows owner commit_lsn ys
  unfolding finalize_rows
  finalize_rows-append owner commit_lsn [] ys = refl
  finalize_rows-append owner commit_lsn (x ∷ xs) ys =
      ap (λ rest. finalize_row owner commit_lsn x ∷ rest)
        (finalize_rows-append owner commit_lsn xs ys)

  -- A version marked deleted and then committed is the committed version marked deleted.
  finalize_row_deleted :
      (owner commit_lsn : ℕ) (r : RowVersion V)
      → IsFree owner r
      → finalize_row owner commit_lsn (record r { delete_lsn = pending; owner = owner })
        ≡ record (finalize_row owner commit_lsn r) { delete_lsn = commit_lsn }
  unfolding finalize_row
  finalize_row_deleted owner commit_lsn r free = ground arith

  finalize_row-vid :
      (owner commit_lsn : ℕ) (r : RowVersion V) → (finalize_row owner commit_lsn r).vid ≡ r.vid
  unfolding finalize_row
  finalize_row-vid owner commit_lsn r = ground arith

  pub finalize_rows_deleted :
      (owner commit_lsn vid : ℕ) (rows : List (RowVersion V))
      → All (IsFree owner) rows
      → finalize_rows owner commit_lsn
          (update_version vid (λ r. record r { delete_lsn = pending; owner = owner }) rows)
        ≡ update_version vid
            (λ r. record r { delete_lsn = commit_lsn })
            (finalize_rows owner commit_lsn rows)
  unfolding finalize_rows update_version
  finalize_rows_deleted owner commit_lsn vid [] free = refl
  finalize_rows_deleted owner commit_lsn vid (r ∷ rows) (here, free) =
      let same = finalize_row-vid owner commit_lsn r in
      let one = finalize_row_deleted owner commit_lsn r here in
      let ih = finalize_rows_deleted owner commit_lsn vid rows free in ground arith

  pub update_version-IsFree :
      (owner vid : ℕ) (rows : List (RowVersion V))
      → All (IsFree owner) rows
      → All
          (IsFree owner)
          (update_version vid (λ r. record r { delete_lsn = pending; owner = owner }) rows)
  unfolding update_version
  update_version-IsFree owner vid [] free = free
  update_version-IsFree owner vid (r ∷ rows) (here, free) =
      let ih = update_version-IsFree owner vid rows free in
      All-if (IsFree owner) (r.vid == vid) _ _ (inl refl, free) (here, ih)

  -- The log replayed on the table of the start gives the live table once committed.
  abbrev IsSynced : ℕ → ℕ → Table V → Table V × List (RowOp V) → Type 0
  IsSynced owner commit_lsn start (t, wal) =
      (replay_ops commit_lsn wal start ≡ committed owner commit_lsn t) × All (IsFree owner) t.rows

  pub finalize_row_new :
      (owner commit_lsn vid : ℕ) (vals : V)
      → finalize_row owner commit_lsn
          record { vid = vid; values = vals; create_lsn = pending; delete_lsn = 0; owner = owner }
        ≡ record { vid = vid; values = vals; create_lsn = commit_lsn; delete_lsn = 0; owner = 0 }
  unfolding finalize_row
  finalize_row_new owner commit_lsn vid vals = ground arith

  replay_insert-committed :
      (owner commit_lsn : ℕ) (vals : V) (t : Table V)
      → replay_insert t.next_vid vals commit_lsn (committed owner commit_lsn t)
        ≡ committed owner commit_lsn (append_version vals owner t []).0
  unfolding replay_insert append_version finalize_rows
  replay_insert-committed owner commit_lsn vals t =
      let top : max t.next_vid (t.next_vid + 1) ≡ t.next_vid + 1 = omega arith in
      rw
        (
          finalize_rows-append owner commit_lsn t.rows (_ ∷ []),
          finalize_row_new owner commit_lsn t.next_vid vals,
          top,
        )
        refl

  replay_delete-committed :
      (owner commit_lsn vid : ℕ) (t : Table V)
      → All (IsFree owner) t.rows
      → replay_delete vid commit_lsn (committed owner commit_lsn t)
        ≡ committed owner commit_lsn (supersede vid owner t []).0
  unfolding replay_delete supersede
  replay_delete-committed owner commit_lsn vid t free =
      ap (λ rows. record { rows = rows; next_vid = t.next_vid })
        (sym (finalize_rows_deleted owner commit_lsn vid t.rows free))

  apply_change-IsSynced :
      (owner commit_lsn : ℕ) (c : Change V) (start : Table V) (t : Table V) (wal : List (RowOp V))
      → IsSynced owner commit_lsn start (t, wal)
      → IsSynced owner commit_lsn start (apply_change owner c (t, wal))
  unfolding apply_change append_version supersede replay_ops
  apply_change-IsSynced owner commit_lsn (append vals) start t wal (synced, free) = (
    replay_ops-append commit_lsn wal (insert t.next_vid vals ∷ []) start
        ∙ ap (replay_insert t.next_vid vals commit_lsn) synced
        ∙ replay_insert-committed owner commit_lsn vals t,
    All-append (IsFree owner) t.rows _ free (inl refl, tt),
  )
  apply_change-IsSynced owner commit_lsn (remove vid) start t wal (synced, free) = (
    replay_ops-append commit_lsn wal (delete vid ∷ []) start
        ∙ ap (replay_delete vid commit_lsn) synced
        ∙ replay_delete-committed owner commit_lsn vid t free,
    update_version-IsFree owner vid t.rows free,
  )

  run_changes-IsSynced :
      (owner commit_lsn : ℕ) (cs : List (Change V)) (start : Table V) (t : Table V)
      (wal : List (RowOp V))
      → IsSynced owner commit_lsn start (t, wal)
      → IsSynced owner commit_lsn start (run_changes owner cs (t, wal))
  unfolding run_changes
  run_changes-IsSynced owner commit_lsn [] start t wal h = h
  run_changes-IsSynced owner commit_lsn (c ∷ cs) start t wal h =
      let (after, log) = apply_change owner c (t, wal) in
      run_changes-IsSynced owner commit_lsn cs start after log
        (apply_change-IsSynced owner commit_lsn c start t wal h)

  pub finalize_rows_start :
      (owner commit_lsn : ℕ) (rows : List (RowVersion V))
      → owner ≢ 0
      → All (λ r. (r.owner ≡ 0) × (r.create_lsn ≢ pending)) rows
      → (finalize_rows owner commit_lsn rows ≡ rows) × All (IsFree owner) rows
  unfolding finalize_rows finalize_row
  finalize_rows_start owner commit_lsn [] h all = (refl, all)
  finalize_rows_start owner commit_lsn (r ∷ rows) h (here, all) =
      let (same, free) = finalize_rows_start owner commit_lsn rows h all in
      (ground arith, (inr here, free))

  -- From a table whose rows are all committed, the changes of one writer, replayed from its log at
  -- the LSN of its commit marker, give the very table that the commit leaves in memory: rows,
  -- vids, stamps, owners and the next vid.
  pub replay_ops-run_changes :
      (owner commit_lsn : ℕ) (cs : List (Change V)) (start : Table V)
      → owner ≢ 0
      → All (λ r. (r.owner ≡ 0) × (r.create_lsn ≢ pending)) start.rows
      → let (live, wal) = run_changes owner cs (start, []) in
        replay_ops commit_lsn wal start ≡ committed owner commit_lsn live
  unfolding replay_ops
  replay_ops-run_changes owner commit_lsn cs start h all =
      let (same, free) = finalize_rows_start owner commit_lsn start.rows h all in
      let (synced, _) =
        run_changes-IsSynced owner commit_lsn cs start start []
          (ap (λ rows. record { rows = rows; next_vid = start.next_vid }) (sym same), free) in
      synced

  -- So a reader of the recovered table, at a snapshot from the commit on, sees exactly the rows
  -- that the writer saw before it committed.
  pub recovered_reader_sees_writer :
      (owner commit_lsn s : ℕ) (cs : List (Change V)) (start : Table V)
      → owner ≢ 0
      → 0 < commit_lsn
      → commit_lsn ≤ s
      → s < pending
      → All (λ r. (r.owner ≡ 0) × (r.create_lsn ≢ pending)) start.rows
      → let (live, wal) = run_changes owner cs (start, []) in
        read_rows s (replay_ops commit_lsn wal start).rows ≡ write_rows s owner live.rows
  recovered_reader_sees_writer owner commit_lsn s cs start h pos after bound all =
      let (live, wal) = run_changes owner cs (start, []) in
      ap (λ t. read_rows s t.rows) (replay_ops-run_changes owner commit_lsn cs start h all)
      ∙ read_rows_after_commit live.rows owner commit_lsn s pos after bound
