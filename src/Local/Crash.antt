-- ===== src/Local/Crash.antt =====
-- Runs of the backend of crates/storage/src/local.rs: requests, and crashes that leave a torn
-- frame at the end of the file, after which the file is opened again.
use bydesigns_db.Base.{
  ℕ, ◌+◌, ◌<◌, ◌≡◌, refl, sym, subst, List, [], ◌∷◌, ◌++◌, append-nil, append_assoc, length, take,
  arith,
}
use bydesigns_db.Base.Bytes.{IsU32, IsU64}
use bydesigns_db.Types.{Result, ok, err, FenceToken, no_stats}
use bydesigns_db.Local.Format.{Frame, frame_bytes, read_log, header}
use bydesigns_db.Local.State.{Inner, Io, done, recover, open_file, fresh, empty_view, replay}
use bydesigns_db.Local.Ops
use bydesigns_db.Local.Journal.{IsJournal, Journals}
use bydesigns_db.Local.Durable.{
  FitsBatch, append_wal-IsJournal, put_page-IsJournal, acquire_fence-IsJournal,
  create_branch-IsJournal, delete_branch-IsJournal, set_retention_floor-IsJournal,
}
use bydesigns_db.Local.Recovery.{
  read_frame_torn, recover-IsJournal, open_file-IsJournal, read_log_survives,
}

-- The calls of the backend that write.
pub data Request : Type 0 where
  append_wal : FenceToken → List ℕ → List (List ℕ) → Request
  put_page : FenceToken → ℕ → List ℕ → Request
  acquire_fence : ℕ → Request
  create_branch : ℕ → Request
  delete_branch : ℕ → Request
  set_retention_floor : ℕ → Request

unfoldable pub exec : Io → Request → Inner → Inner
exec io (append_wal token r rs) s = (Ops.append_wal io token (r ∷ rs) s).1
exec io (put_page token page_id image) s = (Ops.put_page io token page_id image s).1
exec io (acquire_fence owner) s = (Ops.acquire_fence io owner s).1
exec io (create_branch base_lsn) s = (Ops.create_branch io base_lsn s).1
exec io (delete_branch id) s = (Ops.delete_branch io id s).1
exec io (set_retention_floor lsn) s = (Ops.set_retention_floor io lsn s).1

-- The numbers of the request and the counters that it takes fit their fields on disk.
abbrev pub Fits : Request → Inner → Type 0
Fits (append_wal token r rs) s = FitsBatch (r ∷ rs)
Fits (put_page token page_id image) s = IsU64 page_id
Fits (acquire_fence owner) s = IsU64 (s.epoch + 1)
Fits (create_branch base_lsn) s = IsU64 base_lsn × IsU64 s.next_branch_id
Fits (delete_branch id) s = IsU64 id
Fits (set_retention_floor lsn) s = IsU64 lsn

-- A state whose file holds a journal and no remains of failed writes.
abbrev pub IsClean : Inner → Type 0
IsClean s = (frames : List Frame) × IsJournal s frames []

-- A request whose calls of the operating system succeed, and a crash in the middle of a write:
-- some bytes of a frame, not all, stand behind the file when it is opened again.
pub data Step (s : Inner) : Inner → Type 0 where
  request : (q : Request) → Fits q s → Step s (exec done q s)
  crash :
      {t : Inner} (n tag : ℕ) (payload : List ℕ)
      → IsU32 (length payload + 1)
      → n < length (frame_bytes tag payload)
      → open_file (s.file ++ take n (frame_bytes tag payload)) ≡ ok t
      → Step s t

pub data Reach (s : Inner) : Inner → Type 0 where
  here : Reach s s
  next : {t u : Inner} → Reach s t → Step t u → Reach s u

pub fresh-IsJournal : IsJournal fresh [] []
unfolding fresh replay
fresh-IsJournal = record {
  body = [];
  file_eq = sym (append-nil header);
  end_eq = refl;
  scans = λ tail. refl;
  view_eq = refl;
  stepped = refl;
  commit_le = omega arith;
}

clean :
    {s : Inner} {frames : List Frame}
    → (junk : List ℕ) × (◌≡◌ {A = List ℕ} [] [] → done ≡ done → junk ≡ []) × IsJournal s frames junk
    → IsClean s
clean {s} {frames} h = (frames, subst (IsJournal s frames) (h.1 refl refl) h.2)

exec-IsClean : (q : Request) (s : Inner) → Fits q s → IsClean s → IsClean (exec done q s)
unfolding exec
exec-IsClean (append_wal token r rs) s h (fs, j) =
    clean (append_wal-IsJournal s fs [] j done token r rs h)
exec-IsClean (put_page token id image) s h (fs, j) =
    clean (put_page-IsJournal s fs [] j done token id image h)
exec-IsClean (acquire_fence owner) s h (fs, j) =
    clean (acquire_fence-IsJournal s fs [] j done owner h)
exec-IsClean (create_branch base) s h (fs, j) =
    clean (create_branch-IsJournal s fs [] j done base h.0 h.1)
exec-IsClean (delete_branch id) s h (fs, j) = clean (delete_branch-IsJournal s fs [] j done id h)
exec-IsClean (set_retention_floor lsn) s h (fs, j) =
    clean (set_retention_floor-IsJournal s fs [] j done lsn h)

Step-IsClean : {s t : Inner} → Step s t → IsClean s → IsClean t
Step-IsClean {s} (request q h) c = exec-IsClean q s h c
Step-IsClean {s} (crash {t = t} n tag payload fits short e) (frames, j) =
    let (u, opened, journal, view_eq, lsn_eq, end_eq) =
      open_file-IsJournal s frames [] j (take n (frame_bytes tag payload))
        (read_frame_torn n tag payload s.next_lsn fits short) in
    let u_eq : u ≡ t = cc in (frames, subst (λ v. IsJournal v frames []) u_eq journal)

pub Reach-IsClean : {s t : Inner} → Reach s t → IsClean s → IsClean t
Reach-IsClean here c = c
Reach-IsClean (next r st) c = Step-IsClean st (Reach-IsClean r c)

-- After any requests whose file calls succeed and whose numbers fit their fields, and any crashes
-- in the middle of a write, from a fresh file on, where the bytes of an unfinished frame stand
-- behind the file, recovery gives back the whole state in memory but the statistics.
pub crash_recovery :
    {s : Inner} (n tag : ℕ) (payload : List ℕ)
    → Reach fresh s
    → IsU32 (length payload + 1)
    → n < length (frame_bytes tag payload)
    → recover (s.file ++ take n (frame_bytes tag payload))
      ≡ ok (record s { file = s.file ++ take n (frame_bytes tag payload); stats = no_stats })
crash_recovery {s} n tag payload r fits short =
    let (frames, j) = Reach-IsClean r ([], fresh-IsJournal) in
    recover-IsJournal s frames [] j (take n (frame_bytes tag payload))
      (read_frame_torn n tag payload s.next_lsn fits short)

-- The frames `kept` rebuild the state `s` behind `frames`, and are the next that recovery reads
-- from its file, whatever bytes stand behind it.
abbrev pub Survives : List Frame → List ℕ → Inner → Type 0
Survives frames tail s =
    (kept more : List Frame) × (end lsn : ℕ) × (read_log (s.file ++ tail)
      ≡ ok (frames ++ (kept ++ more), end, lsn))
    × (replay empty_view (frames ++ kept) ≡ s.view)

survives :
    {A : Type 0} (io : Io) (junk : List ℕ) (frames : List Frame) (f : Frame) (tail : List ℕ)
    (r : Result A × Inner)
    → Journals io junk frames f r
    → Survives frames tail r.1
survives io junk frames f tail (ok a, s) (junk', e, j) =
    let (more, end, lsn, read) = read_log_survives s (frames ++ (f ∷ [])) junk' j tail in
    (f ∷ [], more, end, lsn, rw append_assoc at read, j.view_eq)
survives io junk frames f tail (err x, s) (junk', e, j) =
    let (more, end, lsn, read) = read_log_survives s frames junk' j tail in
    ([], more, end, lsn, read, rw append-nil j.view_eq)

-- On a file that holds the journal of the state, a request whose numbers fit their fields takes
-- none of the frames on disk away, whether its calls of the operating system
-- succeed or fail: recovery reads all of them first, in order, and with the frames that it reads
-- next they rebuild the state that the request left, whatever bytes stand behind the file.
pub exec-Survives :
    (io : Io) (q : Request) (s : Inner) (frames : List Frame) (junk tail : List ℕ)
    → Fits q s
    → IsJournal s frames junk
    → Survives frames tail (exec io q s)
unfolding exec
exec-Survives io (append_wal token r rs) s fs junk tail h j =
    survives io junk fs _ tail _ (append_wal-IsJournal s fs junk j io token r rs h)
exec-Survives io (put_page token id image) s fs junk tail h j =
    survives io junk fs _ tail _ (put_page-IsJournal s fs junk j io token id image h)
exec-Survives io (acquire_fence owner) s fs junk tail h j =
    survives io junk fs _ tail _ (acquire_fence-IsJournal s fs junk j io owner h)
exec-Survives io (create_branch base) s fs junk tail h j =
    survives io junk fs _ tail _ (create_branch-IsJournal s fs junk j io base h.0 h.1)
exec-Survives io (delete_branch id) s fs junk tail h j =
    survives io junk fs _ tail _ (delete_branch-IsJournal s fs junk j io id h)
exec-Survives io (set_retention_floor lsn) s fs junk tail h j =
    survives io junk fs _ tail _ (set_retention_floor-IsJournal s fs junk j io lsn h)
