-- ===== src/Txn/Fitting.antt =====
-- Operations one after the other: the rows of crates/engine/src/store.rs that a transaction of
-- crates/engine/src/conn.rs leaves pending, cut at a savepoint and replayed from the log.
use bydesigns_db.Base.{
  ℕ, ◌+◌, ◌≤◌, ◌<◌, ◌≡◌, ◌≢◌, refl, sym, ap, ◌∙◌, ◌==◌, max, Bool-cases, List, [], ◌∷◌, ◌++◌, All,
  All-append, inl, inr, arith,
}
use bydesigns_db.Mvcc.{
  RowVersion, RowOp, insert, delete, update_version, replay_ops, replay_insert, replay_delete,
  finalize_rows,
}
use bydesigns_db.Mvcc.Replay.{
  Change, append, remove, IsFree, finalize_rows-append, finalize_rows_deleted,
  update_version-IsFree, finalize_row_new,
}
use bydesigns_db.Txn.Pending.{marked, fresh_version, live_op, live, logged, next_after}
use bydesigns_db.Txn.Undone.{Fits}
use bydesigns_db.Txn.Sets.{IsSound, Distinct, bound}

module _ {V : Type 0} where
  marked_vids :
      (P : ℕ → Type 0) (owner vid : ℕ) (rows : List (RowVersion V))
      → All (λ r. P r.vid) rows
      → All (λ r. P r.vid) (update_version vid (marked owner) rows)
  unfolding update_version
  marked_vids P owner vid [] h = h
  marked_vids P owner vid (r ∷ rows) (here, h) =
      let ih = marked_vids P owner vid rows h in
      elim (Bool-cases (r.vid == vid)) [ inl e ↦ rw e (here, h) | inr e ↦ rw e (here, ih) ]

  marked-Distinct :
      (owner vid : ℕ) (rows : List (RowVersion V))
      → Distinct rows
      → Distinct (update_version vid (marked owner) rows)
  unfolding update_version
  marked-Distinct owner vid [] h = h
  marked-Distinct owner vid (r ∷ rows) (apart, h) =
      let ih = marked-Distinct owner vid rows h in
      let kept = marked_vids (λ v. v ≢ r.vid) owner vid rows apart in
      elim (Bool-cases (r.vid == vid)) [ inl e ↦ rw e (apart, h) | inr e ↦ rw e (kept, ih) ]

  new-Distinct :
      (owner vid : ℕ) (vals : V) (rows : List (RowVersion V))
      → All (λ r. r.vid < vid) rows
      → Distinct rows
      → Distinct (rows ++ (fresh_version owner vid vals ∷ []))
  new-Distinct owner vid vals [] h d = (tt, tt)
  new-Distinct owner vid vals (r ∷ rows) (here, h) (apart, d) = (
    All-append (λ x. x.vid ≢ r.vid) rows _ apart ((λ e. omega arith), tt),
    new-Distinct owner vid vals rows h d,
  )

  raise :
      (m n : ℕ) (rows : List (RowVersion V))
      → m ≤ n
      → All (λ r. r.vid < m) rows
      → All (λ r. r.vid < n) rows
  raise m n [] le h = h
  raise m n (r ∷ rows) le (here, h) = (omega arith, raise m n rows le h)

  -- The vids stay distinct and below the next one.
  pub live-IsSound :
      (owner next : ℕ) (ops : List (RowOp V)) (rows : List (RowVersion V))
      → Fits owner next ops rows
      → IsSound next rows
      → IsSound (bound next ops) (live owner ops rows)
  unfolding bound live live_op
  live-IsSound owner next [] rows fits sound = sound
  live-IsSound owner next (insert vid vals ∷ ops) rows (le, fits) (below, distinct) =
      live-IsSound owner (vid + 1) ops _ fits (
        All-append (λ r. r.vid < vid + 1) rows _ (raise next (vid + 1) rows (omega arith) below)
            (omega arith, tt),
        new-Distinct owner vid vals rows (raise next vid rows le below) distinct,
      )
  live-IsSound owner next (delete vid ∷ ops) rows (free, fits) (below, distinct) =
      live-IsSound owner next ops _ fits
        (marked_vids (λ v. v < next) owner vid rows below, marked-Distinct owner vid rows distinct)

  pub Fits-append :
      (owner next later : ℕ) (ops more : List (RowOp V)) (rows : List (RowVersion V))
      → Fits owner next ops rows
      → bound next ops ≤ later
      → Fits owner later more (live owner ops rows)
      → Fits owner next (ops ++ more) rows
  unfolding bound live
  Fits-append owner next later [] [] rows fits le h = tt
  Fits-append owner next later [] (insert vid vals ∷ more) rows fits le (above, h) =
      (omega arith, h)
  Fits-append owner next later [] (delete vid ∷ more) rows fits le (free, h) =
      (free, Fits-append owner next later [] more _ tt le h)
  Fits-append owner next later (insert vid vals ∷ ops) more rows (above, fits) le h =
      (above, Fits-append owner (vid + 1) later ops more _ fits le h)
  Fits-append owner next later (delete vid ∷ ops) more rows (free, fits) le h =
      (free, Fits-append owner next later ops more _ fits le h)

  -- Both parts of operations that are cut in two.
  pub Fits-parts :
      (owner next : ℕ) (ops more : List (RowOp V)) (rows : List (RowVersion V))
      → Fits owner next (ops ++ more) rows
      → Fits owner next ops rows × Fits owner (bound next ops) more (live owner ops rows)
  unfolding bound live
  Fits-parts owner next [] more rows fits = (tt, fits)
  Fits-parts owner next (insert vid vals ∷ ops) more rows (above, fits) =
      let (here, rest) = Fits-parts owner (vid + 1) ops more _ fits in ((above, here), rest)
  Fits-parts owner next (delete vid ∷ ops) more rows (free, fits) =
      let (here, rest) = Fits-parts owner next ops more _ fits in ((free, here), rest)

  pub bound-append :
      (next : ℕ) (ops more : List (RowOp V))
      → bound next (ops ++ more) ≡ bound (bound next ops) more
  unfolding bound
  bound-append next [] more = refl
  bound-append next (insert vid vals ∷ ops) more = bound-append (vid + 1) ops more
  bound-append next (delete vid ∷ ops) more = bound-append next ops more

  pub bound_mono : (m n : ℕ) (ops : List (RowOp V)) → m ≤ n → bound m ops ≤ bound n ops
  unfolding bound
  bound_mono m n [] h = h
  bound_mono m n (insert vid vals ∷ ops) h = omega arith
  bound_mono m n (delete vid ∷ ops) h = bound_mono m n ops h

  pub Fits-bound :
      (owner next : ℕ) (ops : List (RowOp V)) (rows : List (RowVersion V))
      → Fits owner next ops rows
      → next ≤ bound next ops
  unfolding bound
  Fits-bound owner next [] rows fits = omega arith
  Fits-bound owner next (insert vid vals ∷ ops) rows (above, fits) =
      let ih = Fits-bound owner (vid + 1) ops _ fits in omega arith
  Fits-bound owner next (delete vid ∷ ops) rows (free, fits) = Fits-bound owner next ops _ fits

  pub bound-logged :
      (next : ℕ) (cs : List (Change V)) → bound next (logged next cs) ≡ next_after next cs
  unfolding bound logged next_after
  bound-logged next [] = refl
  bound-logged next (append vals ∷ cs) = bound-logged (next + 1) cs
  bound-logged next (remove vid ∷ cs) = bound-logged next cs

  -- The log replayed on committed rows gives the rows that the commit leaves in memory.
  pub replay_ops-live :
      (owner commit_lsn next : ℕ) (ops : List (RowOp V)) (rows : List (RowVersion V))
      → All (IsFree owner) rows
      → (replay_ops commit_lsn ops
          record { rows = finalize_rows owner commit_lsn rows; next_vid = next }).rows
        ≡ finalize_rows owner commit_lsn (live owner ops rows)
  unfolding replay_ops replay_insert replay_delete live live_op finalize_rows
  replay_ops-live owner commit_lsn next [] rows free = refl
  replay_ops-live owner commit_lsn next (insert vid vals ∷ ops) rows free =
      let new = fresh_version owner vid vals in
      let both =
        finalize_rows-append owner commit_lsn rows (new ∷ [])
        ∙ ap (λ r. finalize_rows owner commit_lsn rows ++ (r ∷ []))
            (finalize_row_new owner commit_lsn vid vals) in
      ap
        (λ rs. (replay_ops commit_lsn ops record { rows = rs; next_vid = max next (vid + 1) }).rows)
        (sym both)
      ∙ replay_ops-live owner commit_lsn (max next (vid + 1)) ops (rows ++ (new ∷ []))
          (All-append (IsFree owner) rows (new ∷ []) free (inl refl, tt))
  replay_ops-live owner commit_lsn next (delete vid ∷ ops) rows free =
      ap (λ rs. (replay_ops commit_lsn ops record { rows = rs; next_vid = next }).rows)
        (sym (finalize_rows_deleted owner commit_lsn vid rows free))
      ∙ replay_ops-live owner commit_lsn next ops (update_version vid (marked owner) rows)
          (update_version-IsFree owner vid rows free)
