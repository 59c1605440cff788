-- ===== src/Local/Fence.antt =====
-- The writer fence of crates/storage/src/local.rs: an acquire shuts every earlier holder out.
use bydesigns_db.Base.{ℕ, ◌+◌, ◌≤◌, ◌≡◌, true, false, List, ◌∷◌, arith, ◌==◌, length, le→ltb_not}
use bydesigns_db.Types.{err, fenced, FenceToken, page_size}
use bydesigns_db.Local.State.{Inner, Io, done}
use bydesigns_db.Local.Ops.{
  append_frame, check_fence, append_wal, put_page, acquire_fence, renew_fence,
}

-- The state after an acknowledged acquire.
abbrev pub acquired : ℕ → Inner → Inner
acquired owner s = (acquire_fence done owner s).1

-- After an acquire that was acknowledged, a holder of any earlier epoch is refused with both
-- epochs by `append_wal`, `put_page` and `renew_fence`, and changes nothing, while the token that
-- the acquire returned can be renewed.
pub earlier_writer_fenced :
    (s : Inner) (owner : ℕ) (token : FenceToken) (io : Io) (r : List ℕ) (rs : List (List ℕ))
    (page_id : ℕ) (image : List ℕ)
    → token.epoch ≤ s.epoch
    → length image ≤ page_size
    → (append_wal io token (r ∷ rs) (acquired owner s)
        ≡ (err (fenced token.epoch (s.epoch + 1)), acquired owner s))
      × (put_page io token page_id image (acquired owner s)
          ≡ (err (fenced token.epoch (s.epoch + 1)), acquired owner s))
      × (renew_fence token (acquired owner s) ≡ err (fenced token.epoch (s.epoch + 1)))
      × (renew_fence (record { epoch = s.epoch + 1; owner = owner }) (acquired owner s)
          ≡ (acquire_fence done owner s).0)
unfolding append_wal put_page renew_fence acquire_fence check_fence append_frame
earlier_writer_fenced s owner token io r rs page_id image old small =
    let stale : (token.epoch == (s.epoch + 1)) ≡ false = ground arith in
    let same : ((s.epoch + 1) == (s.epoch + 1)) ≡ true = ground arith in
    (rw stale, rw (le→ltb_not page_size (length image) small, stale), rw stale, rw same)
