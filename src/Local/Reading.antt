-- ===== src/Local/Reading.antt =====
-- `read_log` of crates/storage/src/local.rs on what `append_frame` writes, and on torn tails.
use bydesigns_db.Base.{
  ℕ, zero, suc, ◌+◌, ◌≤◌, ◌<◌, ◌^◌, ◌≡◌, refl, sym, ap, ◌∙◌, false, Option, none, some, List, [],
  ◌∷◌, ◌++◌, append_assoc, arith, ◌==◌, length, drop, length-append, length-drop, take-append,
  drop-append, ==_refl, le→ltb_not,
}
use bydesigns_db.Base.Bytes.{to_le, from_le, length-to_le, from_le-to_le}
use bydesigns_db.Crc.{crc32, crc32_pair, crc32-lt, crc32_pair-eq-crc32}
use bydesigns_db.Local.Format.{Frame, frame_bytes, read_payload, read_frame, read_frames, scan}

-- A frame that is found takes at least one byte.
read_frame-size :
    (rest : List ℕ) (lsn next : ℕ) (frame : Frame) (size : ℕ)
    → read_frame rest lsn ≡ (some (frame, size), next)
    → (0 < size) × (0 < length rest)
unfolding read_frame
read_frame-size rest lsn next frame size h = ground arith

-- The result of a scan with frames put in front.
abbrev pub prepend : List Frame → List Frame × ℕ × ℕ → List Frame × ℕ × ℕ
prepend frames r = (frames ++ r.0, r.1, r.2)

read_frames-none :
    (f : ℕ) (rest : List ℕ) (pos lsn next : ℕ)
    → read_frame rest lsn ≡ (none, next)
    → read_frames (suc f) rest pos lsn ≡ ([], pos, next)
unfolding read_frames
read_frames-none f rest pos lsn next h = ground arith

read_frames-some :
    (f : ℕ) (rest : List ℕ) (pos lsn next : ℕ) (frame : Frame) (size : ℕ)
    → read_frame rest lsn ≡ (some (frame, size), next)
    → read_frames (suc f) rest pos lsn
      ≡ prepend (frame ∷ []) (read_frames f (drop size rest) (pos + size) next)
unfolding read_frames
read_frames-some f rest pos lsn next frame size h = ground arith

pub read_frame_nil : (lsn : ℕ) → read_frame [] lsn ≡ (none, lsn)
unfolding read_frame
read_frame_nil lsn = refl

-- Enough fuel is enough: two amounts that cover the bytes give the same.
read_frames_fuel :
    (f g : ℕ) (rest : List ℕ) (pos lsn : ℕ)
    → length rest ≤ f
    → length rest ≤ g
    → read_frames f rest pos lsn ≡ read_frames g rest pos lsn
read_frames_fuel zero zero rest pos lsn hf hg = refl
read_frames_fuel zero (suc g) [] pos lsn hf hg =
    rw (read_frames-none g [] pos lsn lsn (read_frame_nil lsn)) (unfold read_frames in refl)
read_frames_fuel zero (suc g) (x ∷ rest) pos lsn hf hg = absurd (omega arith)
read_frames_fuel (suc f) zero [] pos lsn hf hg =
    rw (read_frames-none f [] pos lsn lsn (read_frame_nil lsn)) (unfold read_frames in refl)
read_frames_fuel (suc f) zero (x ∷ rest) pos lsn hf hg = absurd (omega arith)
read_frames_fuel (suc f) (suc g) rest pos lsn hf hg =
    let ih = read_frames_fuel f g in go ih (read_frame rest lsn).0 (read_frame rest lsn).1 refl
  where
    go :
        ((rest : List ℕ) (pos lsn : ℕ)
          → length rest ≤ f
          → length rest ≤ g
          → read_frames f rest pos lsn ≡ read_frames g rest pos lsn)
        → (found : Option (Frame × ℕ)) (next : ℕ) → read_frame rest lsn ≡ (found, next)
        → read_frames (suc f) rest pos lsn ≡ read_frames (suc g) rest pos lsn
    go ih none next e =
        rw (read_frames-none f rest pos lsn next e, read_frames-none g rest pos lsn next e)
    go ih (some (frame, size)) next e =
        let smaller = read_frame-size rest lsn next frame size e in
        let cut = length-drop size rest in
        rw
          (
            read_frames-some f rest pos lsn next frame size e,
            read_frames-some g rest pos lsn next frame size e,
          )
          (ap (prepend (frame ∷ []))
            (ih (drop size rest) (pos + size) next (omega arith) (omega arith)))

pub scan_stop :
    (rest : List ℕ) (pos lsn : ℕ)
    → read_frame rest lsn ≡ (none, lsn)
    → scan rest pos lsn ≡ ([], pos, lsn)
unfolding scan
scan_stop [] pos lsn h = unfold read_frames in refl
scan_stop (x ∷ rest) pos lsn h = read_frames-none (length rest) (x ∷ rest) pos lsn lsn h

pub scan_step :
    (buf tail : List ℕ) (pos lsn next : ℕ) (frame : Frame)
    → read_frame (buf ++ tail) lsn ≡ (some (frame, length buf), next)
    → scan (buf ++ tail) pos lsn ≡ prepend (frame ∷ []) (scan tail (pos + length buf) next)
unfolding scan
scan_step buf tail pos lsn next frame h =
    let smaller = read_frame-size (buf ++ tail) lsn next frame (length buf) h in
    let size = length-append buf tail in
    read_frames_fuel (length (buf ++ tail)) (suc (length (buf ++ tail))) (buf ++ tail) pos lsn
      (omega arith) (omega arith)
    ∙ read_frames-some (length (buf ++ tail)) (buf ++ tail) pos lsn next frame (length buf) h
    ∙ rw (drop-append (length buf) buf tail refl) (
        ap (prepend (frame ∷ [])) (
          read_frames_fuel (length (buf ++ tail)) (length tail) tail (pos + length buf) next
            (omega arith) (omega arith)))

-- What `append_frame` wrote is read back, whatever stands behind it.
pub read_frame-frame_bytes :
    (tag : ℕ) (payload tail : List ℕ) (lsn next : ℕ) (frame : Frame)
    → length payload + 1 < 2 ^ 32
    → read_payload tag payload lsn ≡ (some frame, next)
    → read_frame (frame_bytes tag payload ++ tail) lsn
      ≡ (some (frame, length (frame_bytes tag payload)), next)
unfolding read_frame frame_bytes
read_frame-frame_bytes tag payload tail lsn next frame h e =
    let size : List ℕ = to_le 4 (length payload + 1) in
    let crc : List ℕ = to_le 4 (crc32_pair tag payload) in
    let body : List ℕ = tag ∷ payload in
    let size_len : length size ≡ 4 = length-to_le 4 (length payload + 1) in
    let crc_len : length crc ≡ 4 = length-to_le 4 (crc32_pair tag payload) in
    let split : (size ++ (tag ∷ (payload ++ crc))) ++ tail ≡ size ++ (body ++ (crc ++ tail)) =
      rw (append_assoc size (tag ∷ (payload ++ crc)) tail, append_assoc payload crc tail) in
    let total : length (size ++ (tag ∷ (payload ++ crc))) ≡ 4 + (length payload + 1) + 4 =
      omega (arith, length-append size (tag ∷ (payload ++ crc)), length-append payload crc) in
    let rest_len : length (size ++ (body ++ (crc ++ tail)))
        ≡ 4 + (length payload + 1) + 4 + length tail =
      omega (
        arith,
        length-append size (body ++ (crc ++ tail)),
        length-append payload (crc ++ tail),
        length-append crc tail,
      ) in
    let rest : List ℕ = body ++ (crc ++ tail) in
    let len_eq : from_le size ≡ length payload + 1 = from_le-to_le 4 (length payload + 1) h in
    let crc_eq : from_le crc ≡ crc32 body =
      from_le-to_le 4 (crc32_pair tag payload)
        (rw (crc32_pair-eq-crc32 tag payload) (crc32-lt body))
      ∙ crc32_pair-eq-crc32 tag payload in
    let nonzero : ((length payload + 1) == 0) ≡ false = ground arith in
    rw split (
      rw (
        le→ltb_not (length (size ++ rest)) 4 (omega arith),
        take-append 4 size rest (sym size_len),
        drop-append 4 size rest (sym size_len),
        len_eq,
        nonzero,
        le→ltb_not (length (size ++ rest)) (4 + (length payload + 1) + 4) (omega arith),
        take-append (length payload + 1) body (crc ++ tail) (omega arith),
        drop-append (length payload + 1) body (crc ++ tail) (omega arith),
        take-append 4 crc tail (sym crc_len),
        crc_eq,
        ==_refl (crc32 body),
        e,
        total,
      ))
