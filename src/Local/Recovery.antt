-- ===== src/Local/Recovery.antt =====
-- `recover` and `open` of crates/storage/src/local.rs on the file of a journal, on a file whose
-- last frame is torn, and on a file with the remains of failed writes.
use bydesigns_db.Base.{
  ℕ, ◌+◌, ◌<◌, ◌^◌, ◌≡◌, refl, sym, ap, ◌∙◌, inl, inr, false, none, List, [], ◌∷◌, ◌++◌,
  append_assoc, append-nil, arith, ltb, ◌==◌, if◌then◌else◌, length, take, Bool-cases,
  length-append, length-take, take-take, take_all, take-append, ltb_not→le, le→ltb_not, lt→ltb,
}
use bydesigns_db.Base.Bytes.{to_le, from_le, length-to_le, from_le-to_le}
use bydesigns_db.Types.{Result, ok, no_stats, ◌>>=◌}
use bydesigns_db.Crc.{crc32_pair}
use bydesigns_db.Local.Format.{Frame, header, header_size, frame_bytes, read_frame, scan, read_log}
use bydesigns_db.Local.State.{Inner, recover, open_file}
use bydesigns_db.Local.Reading.{prepend, scan_stop}
use bydesigns_db.Local.Journal.{IsJournal, length-header}

pub read_log-header : (rest : List ℕ) → read_log (header ++ rest) ≡ ok (scan rest header_size 1)
unfolding read_log header to_le from_le
read_log-header rest = rw (le→ltb_not (length (header ++ rest)) 64 (omega arith))

-- A proper prefix of a frame is no frame.
pub read_frame_torn :
    (n tag : ℕ) (payload : List ℕ) (lsn : ℕ)
    → length payload + 1 < 2 ^ 32
    → n < length (frame_bytes tag payload)
    → read_frame (take n (frame_bytes tag payload)) lsn ≡ (none, lsn)
unfolding read_frame frame_bytes
read_frame_torn n tag payload lsn fits h =
    let size : List ℕ = to_le 4 (length payload + 1) in
    let crc : List ℕ = to_le 4 (crc32_pair tag payload) in
    let rest : List ℕ = tag ∷ (payload ++ crc) in
    let size_len = length-to_le 4 (length payload + 1) in
    let crc_len = length-to_le 4 (crc32_pair tag payload) in
    let cut : length (take n (size ++ rest)) ≡ n = omega (arith, length-take n (size ++ rest)) in
    let total : length (size ++ rest) ≡ 4 + (length payload + 1) + 4 =
      omega (arith, length-append size rest, length-append payload crc) in
    elim (Bool-cases (ltb n 4)) [
      | inl short ↦ rw (cut, short)
      | inr long ↦
          let prefix : take 4 (take n (size ++ rest)) ≡ size =
            take-take 4 n (size ++ rest) (ltb_not→le n 4 long)
            ∙ take-append 4 size rest (sym size_len) in
          let nonzero : ((length payload + 1) == 0) ≡ false = ground arith in
          rw (
            cut,
            long,
            prefix,
            from_le-to_le 4 (length payload + 1) fits,
            nonzero,
            lt→ltb n (4 + (length payload + 1) + 4) (omega arith),
          )
    ]

-- `open` of a file that has a header.
open_file-header :
    (rest : List ℕ)
    → open_file (header ++ rest) ≡ (do
      s ← recover (header ++ rest)
      ok (if ltb s.end (length s.file) then record s { file = take s.end s.file } else s))
unfolding open_file header
open_file-header rest = refl

module _ (s : Inner) (frames : List Frame) (junk : List ℕ) (j : IsJournal s frames junk) where
  pub read_log-IsJournal :
      (tail : List ℕ)
      → read_log (s.file ++ tail) ≡ ok (prepend frames (scan (junk ++ tail) s.end s.next_lsn))
  read_log-IsJournal tail =
      let shape : s.file ++ tail ≡ header ++ (j.body ++ (junk ++ tail)) =
        rw (j.file_eq, append_assoc header (j.body ++ junk) tail, append_assoc j.body junk tail) in
      rw shape (rw (read_log-header (j.body ++ (junk ++ tail))) (ap ok (j.scans (junk ++ tail))))

  -- Where no frame can be read behind the acknowledged ones, recovery gives back the state.
  pub recover-IsJournal :
      (tail : List ℕ)
      → read_frame (junk ++ tail) s.next_lsn ≡ (none, s.next_lsn)
      → recover (s.file ++ tail) ≡ ok (record s { file = s.file ++ tail; stats = no_stats })
  unfolding recover
  recover-IsJournal tail stop = rw (
    read_log-IsJournal tail,
    scan_stop (junk ++ tail) s.end s.next_lsn stop,
    append-nil frames,
    j.view_eq,
  )

  -- Whatever stands behind them, the acknowledged frames are read first.
  pub read_log_survives :
      (tail : List ℕ)
      → (more : List Frame) × (end next : ℕ) × (read_log (s.file ++ tail)
          ≡ ok (frames ++ more, end, next))
  read_log_survives tail =
      let r = scan (junk ++ tail) s.end s.next_lsn in (r.0, r.1, r.2, read_log-IsJournal tail)

  -- `open` cuts what stands behind the acknowledged frames, and the journal goes on from there.
  pub open_file-IsJournal :
      (tail : List ℕ)
      → read_frame (junk ++ tail) s.next_lsn ≡ (none, s.next_lsn)
      → (t : Inner) × (open_file (s.file ++ tail) ≡ ok t)
        × IsJournal t frames []
        × (t.view ≡ s.view)
        × (t.next_lsn ≡ s.next_lsn)
        × (t.end ≡ s.end)
  open_file-IsJournal tail stop =
      let kept : List ℕ = header ++ j.body in
      let opened : Inner = record s { file = kept; stats = no_stats } in
      let found : Inner = record s { file = s.file ++ tail; stats = no_stats } in
      let shape : s.file ++ tail ≡ header ++ (j.body ++ (junk ++ tail)) =
        rw (j.file_eq, append_assoc header (j.body ++ junk) tail, append_assoc j.body junk tail) in
      let cut : take s.end (s.file ++ tail) ≡ kept =
        rw (shape, ← append_assoc header j.body (junk ++ tail))
          (take-append s.end kept (junk ++ tail)
            (omega (arith, j.end_eq, length-header, length-append header j.body))) in
      let cut_eq : ◌≡◌ {A = Result Inner}
          (ok (
            if ltb s.end (length (s.file ++ tail))
            then record found { file = take s.end (s.file ++ tail) }
            else found))
          (ok opened) =
        elim (Bool-cases (ltb s.end (length (s.file ++ tail)))) [
          | inl longer ↦ rw (longer, cut)
          | inr whole ↦
              let all : s.file ++ tail ≡ kept =
                sym (
                  take_all s.end (s.file ++ tail)
                    (ltb_not→le s.end (length (s.file ++ tail)) whole))
                ∙ cut in
              rw whole (ap (λ (f : List ℕ). ok (record found { file = f })) all)
        ] in
      (
        opened,
        rw shape (
            open_file-header (j.body ++ (junk ++ tail))
            ∙ rw (← shape) (rw (recover-IsJournal tail stop) cut_eq)),
        record {
          body = j.body;
          file_eq = ap (λ t. header ++ t) (sym (append-nil j.body));
          end_eq = j.end_eq;
          scans = j.scans;
          view_eq = j.view_eq;
          stepped = j.stepped;
          commit_le = j.commit_le;
        },
        refl,
        refl,
        refl,
      )
