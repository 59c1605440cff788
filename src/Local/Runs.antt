-- ===== src/Local/Runs.antt =====
-- Runs of the single-file backend, and its theorems at concrete inputs.
use bydesigns_db.Base.{ℕ, ◌+◌, ◌<◌, ◌≡◌, refl, List, [], ◌∷◌, ◌++◌, arith, take}
use bydesigns_db.Base.Bytes.{to_le}
use bydesigns_db.Base.Selects.{Selects}
use bydesigns_db.Types.{ok, err, fenced, FenceToken, no_stats, LogEntry}
use bydesigns_db.Local.Format.{t_wal, frame_bytes}
use bydesigns_db.Local.State.{Inner, done, sync_failed, fresh, recover}
use bydesigns_db.Local.Ops
use bydesigns_db.Local.Ops.{wal_payload}
use bydesigns_db.Local.Payload.{entries}
use bydesigns_db.Local.Durable.{FitsBatch}
use bydesigns_db.Local.Crash.{
  exec, append_wal, put_page, acquire_fence, Reach, here, next, request, crash_recovery,
  exec-Survives, Survives, fresh-IsJournal,
}
use bydesigns_db.Local.Pages.{get_page-put_page, read_after}
use bydesigns_db.Local.WalScan.{scan_wal-append_wal}
use bydesigns_db.Local.Fence.{acquired, earlier_writer_fenced}

abbrev writer : FenceToken
writer = record { epoch = 1; owner = 7 }

abbrev greeting : List ℕ
greeting = b'h' ∷ b'i' ∷ []

-- The writer takes the fence, appends a batch of two records and writes page 5.
abbrev session : Inner
session =
    exec done (put_page writer 5 greeting)
      (exec done (append_wal writer greeting ((1 ∷ []) ∷ [])) (exec done (acquire_fence 7) fresh))

batch-Fits : FitsBatch (greeting ∷ (1 ∷ []) ∷ [])
unfolding wal_payload to_le
batch-Fits = record { count = omega arith; each = omega arith; total = omega arith }

session-Reach : Reach fresh session
unfolding fresh
session-Reach =
    next
      (next (next here (request (acquire_fence 7) (omega arith)))
        (request (append_wal writer greeting ((1 ∷ []) ∷ [])) batch-Fits))
      (request (put_page writer 5 greeting) (omega arith))

crash_recovery_example :
    recover (session.file ++ take 6 (frame_bytes t_wal greeting))
    ≡ ok (record session {
      file = session.file ++ take 6 (frame_bytes t_wal greeting);
      stats = no_stats;
    })
unfolding frame_bytes to_le
crash_recovery_example = crash_recovery 6 t_wal greeting session-Reach (omega arith) (omega arith)

exec-Survives_example : Survives [] (1 ∷ 2 ∷ []) (exec sync_failed (acquire_fence 7) fresh)
unfolding fresh
exec-Survives_example =
    exec-Survives sync_failed (acquire_fence 7) fresh [] [] (1 ∷ 2 ∷ []) (omega arith)
      fresh-IsJournal

abbrev held : FenceToken
held = record { epoch = 0; owner = 0 }

get_page-put_page_example :
    ((Ops.put_page done held 5 greeting fresh).0 ≡ ok 1)
    × ((Ops.get_page 5 9 (Ops.put_page done held 5 greeting fresh).1).0
        ≡ read_after 5 1 greeting 5 9 (Ops.get_page 5 9 fresh).0)
unfolding fresh
get_page-put_page_example =
    get_page-put_page fresh held 5 greeting 5 9 (omega arith) refl (omega arith)

scan_wal-append_wal_example :
    ((Ops.append_wal done held (greeting ∷ (1 ∷ []) ∷ []) fresh).0 ≡ ok (fresh.next_lsn + 1))
    × ((old : List LogEntry) × (new : List LogEntry) × (Ops.scan_wal 0 fresh ≡ ok old)
        × (Ops.scan_wal 0 (Ops.append_wal done held (greeting ∷ (1 ∷ []) ∷ []) fresh).1
            ≡ ok (old ++ new))
        × Selects (λ e. 0 < e.lsn) (entries fresh.next_lsn (greeting ∷ (1 ∷ []) ∷ [])) new)
unfolding fresh
scan_wal-append_wal_example =
    scan_wal-append_wal held greeting ((1 ∷ []) ∷ []) 0 here refl batch-Fits

earlier_writer_fenced_example :
    (Ops.append_wal done held (greeting ∷ []) (acquired 7 fresh)
      ≡ (err (fenced 0 (fresh.epoch + 1)), acquired 7 fresh))
    × (Ops.put_page done held 5 greeting (acquired 7 fresh)
        ≡ (err (fenced 0 (fresh.epoch + 1)), acquired 7 fresh))
    × (Ops.renew_fence held (acquired 7 fresh) ≡ err (fenced 0 (fresh.epoch + 1)))
    × (Ops.renew_fence (record { epoch = fresh.epoch + 1; owner = 7 }) (acquired 7 fresh)
        ≡ (Ops.acquire_fence done 7 fresh).0)
unfolding fresh
earlier_writer_fenced_example =
    earlier_writer_fenced fresh 7 held done greeting [] 5 greeting (omega arith) (omega arith)
