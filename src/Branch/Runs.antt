-- ===== src/Branch/Runs.antt =====
-- A branch of crates/storage/src/branch.rs over two files, at concrete states.
use bydesigns_db.Base.{ℕ, ◌+◌, ◌-◌, ◌≡◌, ◌<◌, ◌≤◌, refl, List, [], ◌∷◌, ◌++◌, arith}
use bydesigns_db.Base.Selects.{Selects, selects_none, selects_this, selects_past}
use bydesigns_db.Types.{ok, LogEntry, FenceToken}
use bydesigns_db.Local.Format.{Frame, wal, read_log}
use bydesigns_db.Local.State.{Inner, done, fresh}
use bydesigns_db.Local.Ops
use bydesigns_db.Local.Ops.{entries_after}
use bydesigns_db.Local.Pages.{read_after}
use bydesigns_db.Branch.{BranchStorage, get_page, put_page, scan_wal}
use bydesigns_db.Branch.Splice.{scan_wal-Shows, shifted}
use bydesigns_db.Branch.FileStore.{local_storage, local_storage-Shows, log_of}
use bydesigns_db.Branch.Overlay.{branch_get_page-put_page}

abbrev token : FenceToken
token = record { epoch = 0; owner = 9 }

-- A parent with three records and an overlay with one; the branch forked after the second record.
abbrev parent_state : Inner
parent_state = (Ops.append_wal done token ((1 ∷ []) ∷ (2 ∷ []) ∷ (3 ∷ []) ∷ []) fresh).1

abbrev overlay_state : Inner
overlay_state = (Ops.append_wal done token ((7 ∷ []) ∷ []) fresh).1

abbrev forked : BranchStorage Inner Inner
forked = record { parent = parent_state; overlay = overlay_state; base_lsn = 2 }

abbrev entry : ℕ → ℕ → LogEntry
entry lsn byte = record { lsn = lsn; bytes = byte ∷ [] }

abbrev parent_frames : List Frame
parent_frames = wal (entry 1 1 ∷ entry 2 2 ∷ entry 3 3 ∷ []) 3 ∷ []

abbrev overlay_frames : List Frame
overlay_frames = wal (entry 1 7 ∷ []) 1 ∷ []

parent_read : read_log parent_state.file ≡ ok (parent_frames, parent_state.end, 4)
unfolding read_log Ops.append_wal Ops.check_fence fresh Ops.append_frame
    bydesigns_db.Local.State.overwrite bydesigns_db.Base.Bytes.to_le
    bydesigns_db.Local.Format.frame_bytes Ops.wal_payload bydesigns_db.Base.Bytes.from_le
    bydesigns_db.Local.Format.scan bydesigns_db.Local.Format.read_frames
    bydesigns_db.Local.Format.read_frame bydesigns_db.Crc.crc32 bydesigns_db.Crc.crc32_pair
    bydesigns_db.Local.Format.read_payload bydesigns_db.Local.Format.read_records
    bydesigns_db.Local.Format.header bydesigns_db.Local.Format.last_lsn
    bydesigns_db.Local.Format.read_wal Ops.encode_records
parent_read = refl

overlay_read : read_log overlay_state.file ≡ ok (overlay_frames, overlay_state.end, 2)
unfolding read_log Ops.append_wal Ops.check_fence fresh Ops.append_frame
    bydesigns_db.Local.State.overwrite bydesigns_db.Base.Bytes.to_le
    bydesigns_db.Local.Format.frame_bytes Ops.wal_payload bydesigns_db.Base.Bytes.from_le
    bydesigns_db.Local.Format.scan bydesigns_db.Local.Format.read_frames
    bydesigns_db.Local.Format.read_frame bydesigns_db.Crc.crc32 bydesigns_db.Crc.crc32_pair
    bydesigns_db.Local.Format.read_payload bydesigns_db.Local.Format.read_records
    bydesigns_db.Local.Format.header bydesigns_db.Local.Format.last_lsn
    bydesigns_db.Local.Format.read_wal Ops.encode_records
overlay_read = refl

abbrev upto_fork : List LogEntry
upto_fork = entry 1 1 ∷ entry 2 2 ∷ []

-- The scan above LSN 1 gives the second record of the parent and the overlay's, at LSNs 2 and 3.
scan_wal-Shows_example :
    (out : List LogEntry) × (scan_wal local_storage local_storage 1 forked ≡ (ok out, forked))
    × Selects (λ e. 1 < e.lsn) (upto_fork ++ shifted 2 (log_of overlay_frames)) out
scan_wal-Shows_example =
    scan_wal-Shows local_storage local_storage forked (log_of parent_frames) upto_fork
      (log_of overlay_frames) 1
      (local_storage-Shows parent_state parent_frames parent_state.end 4 parent_read)
      (local_storage-Shows overlay_state overlay_frames overlay_state.end 2 overlay_read)
      (omega arith)
      (selects_this (omega arith)
        (selects_this (omega arith) (selects_past (λ h. omega arith) selects_none)))

scan_run : scan_wal local_storage local_storage 1 forked ≡ (ok (entry 2 2 ∷ entry 3 7 ∷ []), forked)
unfolding scan_wal bydesigns_db.Branch.scan_both bydesigns_db.Branch.scan_overlay
    bydesigns_db.Branch.behind local_storage Ops.scan_wal entries_after Ops.wal_entries
    bydesigns_db.Branch.entries_upto bydesigns_db.Branch.global_entries
scan_run = rw (parent_read, overlay_read) refl

overlay_epoch : token.epoch ≡ overlay_state.epoch
unfolding Ops.append_wal Ops.check_fence fresh Ops.append_frame
overlay_epoch = refl

overlay_numbered : 0 < overlay_state.next_lsn
unfolding Ops.append_wal Ops.check_fence fresh Ops.append_frame
overlay_numbered = omega arith

overlay_floor : overlay_state.retention_floor ≤ 2
unfolding Ops.append_wal Ops.check_fence fresh Ops.append_frame
overlay_floor = omega arith

branch_get_page-put_page_example :
    ((put_page local_storage local_storage token 5 (8 ∷ []) forked).0
      ≡ ok (2 + overlay_state.next_lsn))
    × ((get_page local_storage local_storage 5 4
          (put_page local_storage local_storage token 5 (8 ∷ []) forked).1).0
        ≡ read_after 5
            (2 + overlay_state.next_lsn)
            (8 ∷ [])
            5
            4
            (get_page local_storage local_storage 5 4 forked).0)
branch_get_page-put_page_example =
    branch_get_page-put_page local_storage forked token 5 (8 ∷ []) 5 4 (omega arith) overlay_epoch
      overlay_numbered overlay_floor
