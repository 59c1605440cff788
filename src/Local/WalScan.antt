-- ===== src/Local/WalScan.antt =====
-- `append_wal` and `scan_wal` of crates/storage/src/local.rs: the log that the engine replays.
use bydesigns_db.Base.{
  ℕ, suc, ltb, ◌<◌, Bool-cases, inl, inr, ◌+◌, ◌-◌, ◌≡◌, refl, sym, ap, subst, ◌∙◌, true, List, [],
  ◌∷◌, ◌++◌, append-nil, append_assoc, arith, ◌==◌, length,
}
use bydesigns_db.Base.Selects.{Selects, selects_none, selects_this, selects_past}
use bydesigns_db.Types.{Result, ok, LogEntry, FenceToken}
use bydesigns_db.Local.Format.{Frame, wal, read_log, scan}
use bydesigns_db.Local.State.{Inner, done, fresh}
use bydesigns_db.Local.Ops.{
  append_frame, check_fence, append_wal, scan_wal, wal_entries, entries_after,
}
use bydesigns_db.Local.Payload.{entries}
use bydesigns_db.Local.Journal.{IsJournal, extended}
use bydesigns_db.Local.Durable.{FitsBatch, append_wal-IsJournal}
use bydesigns_db.Local.Recovery.{read_log-IsJournal}
use bydesigns_db.Local.Reading.{prepend, scan_stop, read_frame_nil}
use bydesigns_db.Local.Crash.{Reach, Reach-IsClean, fresh-IsJournal}

wal_entries-append :
    (after : ℕ) (fs gs : List Frame)
    → wal_entries after (fs ++ gs) ≡ wal_entries after fs ++ wal_entries after gs
unfolding wal_entries
wal_entries-append after [] gs = refl
wal_entries-append after (wal records c ∷ fs) gs =
    ap (λ t. entries_after after records ++ t) (wal_entries-append after fs gs)
    ∙ sym (append_assoc (entries_after after records) (wal_entries after fs) (wal_entries after gs))
wal_entries-append after (f ∷ fs) gs = wal_entries-append after fs gs

scan_wal-IsJournal :
    (s : Inner) (frames : List Frame) (after : ℕ)
    → IsJournal s frames []
    → scan_wal after s ≡ ok (wal_entries after frames)
unfolding scan_wal
scan_wal-IsJournal s frames after j =
    let read : read_log (s.file ++ []) ≡ ok (prepend frames (scan [] s.end s.next_lsn)) =
      read_log-IsJournal s frames [] j [] in
    rw (
      ← append-nil s.file,
      read,
      scan_stop [] s.end s.next_lsn (read_frame_nil s.next_lsn),
      append-nil frames,
    )

append_wal_ok :
    (s : Inner) (token : FenceToken) (r : List ℕ) (rs : List (List ℕ))
    → token.epoch ≡ s.epoch
    → (append_wal done token (r ∷ rs) s).0 ≡ ok (s.next_lsn + length rs)
unfolding append_wal check_fence append_frame
append_wal_ok s token r rs held =
    let fence : (token.epoch == s.epoch) ≡ true = ground arith in
    let last : s.next_lsn + suc (length rs) - 1 ≡ s.next_lsn + length rs = omega arith in
    rw (fence, last)

wal_entries_one :
    (after : ℕ) (records : List LogEntry) (c : ℕ)
    → wal_entries after (wal records c ∷ []) ≡ entries_after after records
unfolding wal_entries
wal_entries_one after records c = append-nil (entries_after after records)

pub entries_after-Selects :
    (after : ℕ) (es : List LogEntry) → Selects (λ e. after < e.lsn) es (entries_after after es)
unfolding entries_after
entries_after-Selects after [] = selects_none
entries_after-Selects after (e ∷ es) = elim (Bool-cases (ltb after e.lsn)) [
  | inl yes_it ↦ rw yes_it (selects_this (ground arith) (entries_after-Selects after es))
  | inr no_it ↦ rw no_it (selects_past (λ h. ground arith) (entries_after-Selects after es))
]

-- After any requests whose file calls succeed and any crashes, from a fresh file on, a batch that
-- fits its fields and that the current writer appends is acknowledged at the LSN of its last record,
-- which the code counts from the next one on. A scan before it succeeds, and so does a scan after it:
-- this returns what the one before it returned and then, of the records of the batch in order, at
-- consecutive LSNs from the next one on, exactly those whose LSN is above `after`.
pub scan_wal-append_wal :
    {s : Inner} (token : FenceToken) (r : List ℕ) (rs : List (List ℕ)) (after : ℕ)
    → Reach fresh s
    → token.epoch ≡ s.epoch
    → FitsBatch (r ∷ rs)
    → ((append_wal done token (r ∷ rs) s).0 ≡ ok (s.next_lsn + length rs))
      × ((old : List LogEntry) × (new : List LogEntry) × (scan_wal after s ≡ ok old)
          × (scan_wal after (append_wal done token (r ∷ rs) s).1 ≡ ok (old ++ new))
          × Selects (λ e. after < e.lsn) (entries s.next_lsn (r ∷ rs)) new)
scan_wal-append_wal {s} token r rs after reach held fits =
    let (frames, j) = Reach-IsClean reach ([], fresh-IsJournal) in
    let acked = append_wal_ok s token r rs held in
    let new : Frame = wal (entries s.next_lsn (r ∷ rs)) (s.next_lsn + length rs) in
    let (junk, clean, kept) = append_wal-IsJournal s frames [] j done token r rs fits in
    let journal : IsJournal (append_wal done token (r ∷ rs) s).1 (frames ++ (new ∷ [])) [] =
      subst (IsJournal (append_wal done token (r ∷ rs) s).1 (frames ++ (new ∷ [])))
        (clean refl refl)
        (subst
          (λ (a : Result ℕ).
            IsJournal (append_wal done token (r ∷ rs) s).1 (extended frames new a) junk)
          acked kept) in
    (
      acked,
      (
        wal_entries after frames,
        entries_after after (entries s.next_lsn (r ∷ rs)),
        scan_wal-IsJournal s frames after j,
        scan_wal-IsJournal (append_wal done token (r ∷ rs) s).1 (frames ++ (new ∷ [])) after journal
            ∙ ap ok (
                wal_entries-append after frames (new ∷ [])
                ∙ ap (λ t. wal_entries after frames ++ t)
                    (wal_entries_one after (entries s.next_lsn (r ∷ rs)) _)),
        entries_after-Selects after (entries s.next_lsn (r ∷ rs)),
      ),
    )
