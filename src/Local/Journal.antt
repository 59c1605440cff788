-- ===== src/Local/Journal.antt =====
-- The invariant of the backend of crates/storage/src/local.rs: the file holds the header and the
-- frames of the acknowledged mutations, these rebuild the state in memory, and what stands behind
-- them, `junk`, is what a failed write or sync left.
use bydesigns_db.Base.{
  ℕ, ◌+◌, ◌≤◌, ◌<◌, ◌^◌, ◌≡◌, refl, sym, ap, ◌∙◌, some, List, [], ◌∷◌, ◌++◌, append_assoc, arith,
  length, take, drop, length-append, take-append, drop_add_append, drop_nil,
}
use bydesigns_db.Base.Bytes.{to_le}
use bydesigns_db.Types.{Result, ok, err}
use bydesigns_db.Local.Format.{Frame, header, header_size, frame_bytes, read_payload, scan}
use bydesigns_db.Local.State.{
  View, Inner, Io, done, seek_failed, write_failed, sync_failed, empty_view, apply_frame, replay,
  overwrite,
}
use bydesigns_db.Local.Ops.{append_frame, after_append}
use bydesigns_db.Local.Reading.{prepend, scan_step, read_frame-frame_bytes}

pub record IsJournal (s : Inner) (frames : List Frame) (junk : List ℕ) : Type 0 where
  pub body : List ℕ
  pub file_eq : s.file ≡ header ++ (body ++ junk)
  pub end_eq : s.end ≡ header_size + length body
  pub scans :
      (tail : List ℕ)
      → scan (body ++ tail) header_size 1 ≡ prepend frames (scan tail s.end s.next_lsn)
  pub view_eq : replay empty_view frames ≡ s.view
  pub stepped : s.next_lsn ≡ s.durable_lsn + 1
  pub commit_le : s.commit_lsn ≤ s.durable_lsn

pub length-header : length header ≡ header_size
unfolding header to_le
length-header = refl

pub replay-append :
    (v : View) (fs : List Frame) (f : Frame)
    → replay v (fs ++ (f ∷ [])) ≡ apply_frame (replay v fs) f
unfolding replay
replay-append v [] f = refl
replay-append v (g ∷ fs) f = replay-append (apply_frame v g) fs f

-- Writing at the end of the journal puts the buffer over the start of the junk.
overwrite_junk :
    (body junk buf : List ℕ)
    → overwrite (header ++ (body ++ junk)) (header_size + length body) buf
      ≡ header ++ (body ++ (buf ++ drop (length buf) junk))
unfolding overwrite
overwrite_junk body junk buf =
    let kept : List ℕ = header ++ body in
    let size : header_size + length body ≡ length kept =
      omega (arith, length-append header body, length-header) in
    rw (← append_assoc header body junk) (
      rw (
        take-append (header_size + length body) kept junk size,
        drop_add_append (header_size + length body) (length buf) kept junk size,
        append_assoc header body (buf ++ drop (length buf) junk),
      ))

-- A mutation that was written whole extends the journal by its frame.
IsJournal-extend :
    (s s' : Inner) (frames : List Frame) (junk : List ℕ) (tag : ℕ) (payload : List ℕ) (f : Frame)
    → IsJournal s frames junk
    → length payload + 1 < 2 ^ 32
    → s'.file ≡ overwrite s.file s.end (frame_bytes tag payload)
    → s'.end ≡ s.end + length (frame_bytes tag payload)
    → read_payload tag payload s.next_lsn ≡ (some f, s'.next_lsn)
    → apply_frame s.view f ≡ s'.view
    → s'.next_lsn ≡ s'.durable_lsn + 1
    → s'.commit_lsn ≤ s'.durable_lsn
    → IsJournal s' (frames ++ (f ∷ [])) (drop (length (frame_bytes tag payload)) junk)
IsJournal-extend s s' frames junk tag payload f j fits file_eq end_eq reads applies stepped
      commit_le =
    let buf : List ℕ = frame_bytes tag payload in
    record {
      body = j.body ++ buf;
      file_eq =
          file_eq
          ∙ rw (j.file_eq, j.end_eq)
              (overwrite_junk j.body junk buf
                ∙ ap (λ t. header ++ t) (sym (append_assoc j.body buf (drop (length buf) junk))));
      end_eq = omega (arith, j.end_eq, end_eq, length-append j.body buf);
      scans = λ tail. rw (append_assoc j.body buf tail) (
          j.scans (buf ++ tail)
          ∙ ap (prepend frames) (
              scan_step buf tail s.end s.next_lsn s'.next_lsn f
                (read_frame-frame_bytes tag payload tail s.next_lsn s'.next_lsn f fits reads))
          ∙ cc (end_eq, append_assoc frames (f ∷ []) (scan tail s'.end s'.next_lsn).0));
      view_eq = rw (replay-append empty_view frames f, j.view_eq) applies;
      stepped = stepped;
      commit_le = commit_le;
    }

-- A failed write leaves the acknowledged frames, and its bytes among the junk.
IsJournal-spoil :
    (s : Inner) (frames : List Frame) (junk buf : List ℕ)
    → IsJournal s frames junk
    → IsJournal
        (record s { file = overwrite s.file s.end buf })
        frames
        (buf ++ drop (length buf) junk)
IsJournal-spoil s frames junk buf j = record {
  body = j.body;
  file_eq = rw (j.file_eq, j.end_eq) (overwrite_junk j.body junk buf);
  end_eq = j.end_eq;
  scans = j.scans;
  view_eq = j.view_eq;
  stepped = j.stepped;
  commit_le = j.commit_le;
}

-- The frames after a mutation: one more if it was acknowledged.
abbrev pub extended {ℓ} : {A : Type ℓ} → List Frame → Frame → Result A → List Frame
extended frames f (ok a) = frames ++ (f ∷ [])
extended frames f (err e) = frames

-- What a method leaves: a journal of the frames, one more if it was acknowledged, and no junk if
-- there was none and the operating system did its work.
abbrev pub Journals {ℓ} :
    {A : Type ℓ} → Io → List ℕ → List Frame → Frame → Result A × Inner → Type 0
Journals io junk frames f r =
    (junk' : List ℕ) × (junk ≡ [] → io ≡ done → junk' ≡ [])
    × IsJournal r.1 (extended frames f r.0) junk'

unfoldable pub written : ℕ → List ℕ → Inner → Inner
written tag payload s = (append_frame done tag payload s).1

-- The journal is kept by a method that appends one frame and then changes the state as that
-- frame's replay does, whatever the operating system answers.
module _ (s : Inner) (frames : List Frame) (junk : List ℕ) (j : IsJournal s frames junk) where
  pub after_append-IsJournal :
      (io : Io) (tag : ℕ) (payload : List ℕ) (f : Frame) {A : Type 0} (k : Inner → A × Inner)
      → length payload + 1 < 2 ^ 32
      → (k (written tag payload s)).1.file ≡ overwrite s.file s.end (frame_bytes tag payload)
      → (k (written tag payload s)).1.end ≡ s.end + length (frame_bytes tag payload)
      → read_payload tag payload s.next_lsn ≡ (some f, (k (written tag payload s)).1.next_lsn)
      → apply_frame s.view f ≡ (k (written tag payload s)).1.view
      → (k (written tag payload s)).1.next_lsn ≡ (k (written tag payload s)).1.durable_lsn + 1
      → (k (written tag payload s)).1.commit_lsn ≤ (k (written tag payload s)).1.durable_lsn
      → Journals io junk frames f (after_append (append_frame io tag payload s) k)
  unfolding append_frame written
  after_append-IsJournal done tag payload f k fits e1 e2 e3 e4 e5 e6 = (
    drop (length (frame_bytes tag payload)) junk,
    λ e _. rw e (drop_nil (length (frame_bytes tag payload))),
    IsJournal-extend s (k (written tag payload s)).1 frames junk tag payload f j fits e1 e2 e3 e4 e5
        e6,
  )
  after_append-IsJournal seek_failed tag payload f k fits e1 e2 e3 e4 e5 e6 = (junk, λ e _. e, j)
  after_append-IsJournal (write_failed n) tag payload f k fits e1 e2 e3 e4 e5 e6 =
      let buf : List ℕ = take n (frame_bytes tag payload) in
      (buf ++ drop (length buf) junk, λ _ e. cc, IsJournal-spoil s frames junk buf j)
  after_append-IsJournal sync_failed tag payload f k fits e1 e2 e3 e4 e5 e6 =
      let buf : List ℕ = frame_bytes tag payload in
      (buf ++ drop (length buf) junk, λ _ e. cc, IsJournal-spoil s frames junk buf j)
