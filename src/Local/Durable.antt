-- ===== src/Local/Durable.antt =====
-- Every method of crates/storage/src/local.rs that writes keeps the journal, on every branch.
use bydesigns_db.Base.{
  ℕ, ◌+◌, refl, inl, inr, List, ◌∷◌, ◌++◌, arith, ltb, ◌==◌, length, All, Bool-cases, length-append,
  ltb_not→le,
}
use bydesigns_db.Base.Assoc.{get}
use bydesigns_db.Base.Bytes.{IsU32, IsU64, to_le, length-to_le}
use bydesigns_db.Types.{Result, FenceToken, page_size, branch_root}
use bydesigns_db.Local.Format.{
  Frame, wal, page, fence, retention, branch, branch_del, t_wal, t_page, t_fence, t_retention,
  t_branch, t_branch_del,
}
use bydesigns_db.Local.State.{Inner, Io, apply_frame}
use bydesigns_db.Local.Ops.{
  append_frame, check_fence, wal_payload, append_wal, put_page, acquire_fence, create_branch,
  delete_branch, set_retention_floor, is_some, has_children, guarded,
}
use bydesigns_db.Local.Payload.{
  entries, read_payload-wal, read_payload-page, read_payload-fence, read_payload-retention,
  read_payload-branch, read_payload-branch_del,
}
use bydesigns_db.Local.Journal.{IsJournal, Journals, after_append-IsJournal, written}

-- A batch that the format holds: fewer than 2^32 records, each shorter than 2^32 bytes, and a
-- payload whose length with the tag fits u32.
pub record FitsBatch (records : List (List ℕ)) : Type 0 where
  pub count : IsU32 (length records)
  pub each : All (λ r. IsU32 (length r)) records
  pub total : IsU32 (length (wal_payload records) + 1)

module _ (s : Inner) (frames : List Frame) (junk : List ℕ) (j : IsJournal s frames junk) where
  -- A fenced writer changes nothing.
  guarded-IsJournal :
      {A : Type 0} (io : Io) (token : FenceToken) (f : Frame) (r : Result A × Inner)
      → Journals io junk frames f r
      → Journals io junk frames f (guarded (check_fence s token) s r)
  unfolding check_fence
  guarded-IsJournal io token f r h = elim (Bool-cases (token.epoch == s.epoch)) [
    | inl e ↦ rw e h
    | inr e ↦ rw e (junk, λ e _. e, j)
  ]

  pub append_wal-IsJournal :
      (io : Io) (token : FenceToken) (r : List ℕ) (rs : List (List ℕ))
      → FitsBatch (r ∷ rs)
      → Journals io junk frames
          (wal (entries s.next_lsn (r ∷ rs)) (s.next_lsn + length rs))
          (append_wal io token (r ∷ rs) s)
  unfolding append_wal written append_frame apply_frame
  append_wal-IsJournal io token r rs fits =
      let stepped = j.stepped in
      let commit_le = j.commit_le in
      guarded-IsJournal io token _ _ (
        after_append-IsJournal s frames junk j io t_wal (wal_payload (r ∷ rs)) _ _ fits.total refl
          refl (ground (arith, read_payload-wal r rs s.next_lsn fits.count fits.each))
          (ground arith) refl (omega arith))

  pub put_page-IsJournal :
      (io : Io) (token : FenceToken) (page_id : ℕ) (image : List ℕ)
      → IsU64 page_id
      → Journals io junk frames (page s.next_lsn page_id image) (put_page io token page_id image s)
  unfolding put_page written append_frame apply_frame
  put_page-IsJournal io token page_id image fits =
      let stepped = j.stepped in
      let commit_le = j.commit_le in
      elim (Bool-cases (ltb page_size (length image))) [
        | inl large ↦ rw large (junk, λ e _. e, j)
        | inr small ↦ rw small (
            guarded-IsJournal io token _ _ (
              after_append-IsJournal s frames junk j io t_page (to_le 8 page_id ++ image) _ _
                (omega (
                  arith,
                  length-append (to_le 8 page_id) image,
                  length-to_le 8 page_id,
                  ltb_not→le page_size (length image) small,
                ))
                refl refl (read_payload-page page_id s.next_lsn fits image) (ground arith) refl
                (omega arith)))
      ]

  pub acquire_fence-IsJournal :
      (io : Io) (owner : ℕ)
      → IsU64 (s.epoch + 1)
      → Journals io junk frames (fence (s.epoch + 1)) (acquire_fence io owner s)
  unfolding acquire_fence written append_frame apply_frame
  acquire_fence-IsJournal io owner fits =
      let stepped = j.stepped in
      let commit_le = j.commit_le in
      after_append-IsJournal s frames junk j io t_fence (to_le 8 (s.epoch + 1)) _ _
        (omega (arith, length-to_le 8 (s.epoch + 1))) refl refl
        (read_payload-fence (s.epoch + 1) s.next_lsn fits) (ground arith) stepped commit_le

  pub create_branch-IsJournal :
      (io : Io) (base_lsn : ℕ)
      → IsU64 base_lsn
      → IsU64 s.next_branch_id
      → Journals io junk frames
          (branch s.next_branch_id base_lsn branch_root)
          (create_branch io base_lsn s)
  unfolding create_branch written append_frame apply_frame
  create_branch-IsJournal io base_lsn base_fits id_fits =
      let stepped = j.stepped in
      let commit_le = j.commit_le in
      elim (Bool-cases (ltb base_lsn s.retention_floor)) [
        | inl below ↦ rw below (junk, λ e _. e, j)
        | inr above ↦ rw above (
            after_append-IsJournal s frames junk j io t_branch
              (to_le 8 s.next_branch_id ++ (to_le 8 base_lsn ++ to_le 8 branch_root)) _ _
              (omega (
                arith,
                length-append (to_le 8 s.next_branch_id) (to_le 8 base_lsn ++ to_le 8 branch_root),
                length-append (to_le 8 base_lsn) (to_le 8 branch_root),
                length-to_le 8 s.next_branch_id,
                length-to_le 8 base_lsn,
                length-to_le 8 branch_root,
              ))
              refl refl (read_payload-branch s.next_branch_id s.next_lsn id_fits base_lsn base_fits)
              (ground arith) stepped commit_le)
      ]

  pub delete_branch-IsJournal :
      (io : Io) (id : ℕ)
      → IsU64 id
      → Journals io junk frames (branch_del id) (delete_branch io id s)
  unfolding delete_branch written append_frame apply_frame
  delete_branch-IsJournal io id fits = elim (Bool-cases (is_some (get s.branches id))) [
    | inr missing ↦ rw missing (junk, λ e _. e, j)
    | inl found ↦ rw found (elim (Bool-cases (has_children id s.branches)) [
      | inl parent ↦ rw parent (junk, λ e _. e, j)
      | inr leaf ↦ rw leaf (
          after_append-IsJournal s frames junk j io t_branch_del (to_le 8 id) _ _
            (omega (arith, length-to_le 8 id)) refl refl
            (read_payload-branch_del id s.next_lsn fits) refl j.stepped j.commit_le)
    ])
  ]

  pub set_retention_floor-IsJournal :
      (io : Io) (lsn : ℕ)
      → IsU64 lsn
      → Journals io junk frames (retention lsn) (set_retention_floor io lsn s)
  unfolding set_retention_floor written append_frame apply_frame
  set_retention_floor-IsJournal io lsn fits = elim (Bool-cases (ltb lsn s.retention_floor)) [
    | inl back ↦ rw back (junk, λ e _. e, j)
    | inr forward ↦ rw forward (
        after_append-IsJournal s frames junk j io t_retention (to_le 8 lsn) _ _
          (omega (arith, length-to_le 8 lsn)) refl refl (read_payload-retention lsn s.next_lsn fits)
          (ground arith) j.stepped j.commit_le)
  ]
