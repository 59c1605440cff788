-- ===== src/Local/Format.antt =====
-- crates/storage/src/local.rs: the header, the frames, and `read_log`.
-- `read_frames` has the rest of the file, `all[pos..]`, beside `pos`.
use bydesigns_db.Base.{
  ℕ, zero, suc, ◌+◌, Bool, true, false, not, ◌||◌, Option, none, some, List, [], ◌∷◌, ◌++◌, ltb,
  ◌==◌, if◌then◌else◌, bytes_eq, length, take, drop, get_or, replicate,
}
use bydesigns_db.Base.Bytes.{to_le, from_le}
use bydesigns_db.Types.{Result, ok, err, corruption, invalid, page_size, LogEntry, lsn_zero}
use bydesigns_db.Crc.{crc32, crc32_pair}

-- The bytes of "BYDESIGN".
abbrev pub magic : List ℕ
magic = b'B' ∷ b'Y' ∷ b'D' ∷ b'E' ∷ b'S' ∷ b'I' ∷ b'G' ∷ b'N' ∷ []

abbrev pub format_version : ℕ
format_version = 1

abbrev pub header_size : ℕ
header_size = 64

abbrev pub t_wal : ℕ
t_wal = 1

abbrev pub t_page : ℕ
t_page = 2

abbrev pub t_fence : ℕ
t_fence = 3

abbrev pub t_retention : ℕ
t_retention = 4

abbrev pub t_branch : ℕ
t_branch = 5

abbrev pub t_branch_del : ℕ
t_branch_del = 6

-- A parsed frame with its replay-assigned LSN(s).
pub data Frame : Type 0 where
  wal : List LogEntry → ℕ → Frame
  page : ℕ → ℕ → List ℕ → Frame
  fence : ℕ → Frame
  retention : ℕ → Frame
  branch : ℕ → ℕ → ℕ → Frame
  branch_del : ℕ → Frame

-- What `write_header` writes: the rest of the 64 bytes stays zero.
unfoldable pub header : List ℕ
header = magic ++ (to_le 4 format_version ++ (to_le 4 page_size ++ replicate 48 0))

-- The buffer that `append_frame` writes.
unfoldable pub frame_bytes : ℕ → List ℕ → List ℕ
frame_bytes tag payload =
    to_le 4 (length payload + 1) ++ (tag ∷ (payload ++ to_le 4 (crc32_pair tag payload)))

-- The records of a WAL payload, the next LSN behind them, and whether the payload is torn.
unfoldable pub read_records : ℕ → List ℕ → ℕ → List LogEntry × ℕ × Bool
read_records zero p lsn = ([], lsn, false)
read_records (suc n) p lsn =
    let p' = drop 4 p in
    let rlen = from_le (take 4 p) in
    let (records, next, torn) = read_records n (drop rlen p') (lsn + 1) in
    let all : List LogEntry = record { lsn = lsn; bytes = take rlen p' } ∷ records in
    if ltb (length p) 4
    then ([], lsn, true)
    else if ltb (length p') rlen
    then ([], lsn, true)
    else (all, next, torn)

unfoldable pub last_lsn : List LogEntry → ℕ
last_lsn [] = lsn_zero
last_lsn (r ∷ []) = r.lsn
last_lsn (r ∷ (s ∷ rest)) = last_lsn (s ∷ rest)

-- The match on the tag. `none` leaves the loop; the LSN is the one to go on from.
unfoldable pub read_wal : List ℕ → ℕ → Option Frame × ℕ
read_wal payload lsn =
    if ltb (length payload) 4
    then (none, lsn)
    else let (records, next, torn) = read_records (from_le (take 4 payload)) (drop 4 payload) lsn in
      if torn then (none, next) else (some (wal records (last_lsn records)), next)

unfoldable pub read_payload : ℕ → List ℕ → ℕ → Option Frame × ℕ
unfolding read_wal
read_payload tag payload lsn =
    let first = from_le (take 8 payload) in
    if tag == t_wal
    then read_wal payload lsn
    else if tag == t_page
    then (if ltb (length payload) 8
        then (none, lsn)
        else (some (page lsn first (drop 8 payload)), lsn + 1))
    else if tag == t_fence
    then (if ltb (length payload) 8 then none else some (fence first), lsn)
    else if tag == t_retention
    then (if ltb (length payload) 8 then none else some (retention first), lsn)
    else if tag == t_branch
    then (
      if ltb (length payload) 24
          then none
          else some (
              branch first (from_le (take 8 (drop 8 payload)))
                (from_le (take 8 (drop 16 payload)))),
      lsn,
    )
    else if tag == t_branch_del
    then (if ltb (length payload) 8 then none else some (branch_del first), lsn)
    else (none, lsn)

-- A frame with its size in the file.
abbrev pub sized : ℕ → Option Frame → Option (Frame × ℕ)
sized size none = none
sized size (some frame) = some (frame, size)

-- One round of the loop of `read_log`: the frame and its size in the file.
unfoldable pub read_frame : List ℕ → ℕ → Option (Frame × ℕ) × ℕ
read_frame rest lsn =
    let len = from_le (take 4 rest) in
    let body = take len (drop 4 rest) in
    let crc_stored = from_le (take 4 (drop len (drop 4 rest))) in
    let (frame, next) = read_payload (get_or body 0 0) (drop 1 body) lsn in
    if ltb (length rest) 4
    then (none, lsn)
    else if len == 0 || ltb (length rest) (4 + len + 4)
    then (none, lsn)
    else if not (crc32 body == crc_stored)
    then (none, lsn)
    else (sized (4 + len + 4) frame, next)

-- The frames, the end of the last good one, and the next LSN.
unfoldable pub read_frames : ℕ → List ℕ → ℕ → ℕ → List Frame × ℕ × ℕ
read_frames zero rest pos lsn = ([], pos, lsn)
read_frames (suc fuel) rest pos lsn =
    let (found, next) = read_frame rest lsn in
    elim found [
      | none ↦ ([], pos, next)
      | some (frame, size) ↦
          let (frames, end, last) = read_frames fuel (drop size rest) (pos + size) next in
          (frame ∷ frames, end, last)
    ]

-- Each round takes nine bytes at least, so as many rounds as bytes are enough.
unfoldable pub scan : List ℕ → ℕ → ℕ → List Frame × ℕ × ℕ
scan rest pos lsn = read_frames (length rest) rest pos lsn

unfoldable pub read_log : List ℕ → Result (List Frame × ℕ × ℕ)
read_log all =
    if ltb (length all) header_size
    then err corruption
    else if not (bytes_eq (take 8 all) magic)
    then err corruption
    else if not (from_le (take 4 (drop 8 all)) == format_version)
    then err invalid
    else if not (from_le (take 4 (drop 12 all)) == page_size)
    then err invalid
    else ok (scan (drop header_size all) header_size 1)
