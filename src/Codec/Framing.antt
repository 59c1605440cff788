-- ===== src/Codec/Framing.antt =====
-- The framing helpers of crates/storage/src/object/codec.rs: `finish` and the cursor `Reader`.
-- A `Reader` is given by the bytes that it has not read, `buf[pos..]`: `pos` only moves forward.
use bydesigns_db.Base.{
  ℕ, ◌+◌, ◌-◌, ◌≤◌, ◌<◌, ◌^◌, ◌≡◌, sym, not, List, [], ◌∷◌, ◌++◌, arith, ltb, leb, ◌==◌,
  if◌then◌else◌, bytes_eq, bytes_eq_refl, length, take, drop, get_or, length-append, take-append,
  drop-append, ==_refl, le→leb, le→ltb_not,
}
use bydesigns_db.Base.Bytes.{to_le, from_le, length-to_le, from_le-to_le}
use bydesigns_db.Types.{Result, ok, err, corruption, ◌>>=◌}
use bydesigns_db.Crc.{crc32, crc32-lt}

abbrev pub Reader : Type 0
Reader = List ℕ

-- The body with its checksum behind it.
unfoldable pub finish : List ℕ → List ℕ
finish body = body ++ to_le 4 (crc32 body)

unfoldable pub open_reader : List ℕ → List ℕ → Result Reader
open_reader bytes magic =
    if ltb (length bytes) (length magic + 4)
    then err corruption
    else let body = take (length bytes - 4) bytes in
      let stored = from_le (drop (length bytes - 4) bytes) in
      if not (crc32 body == stored)
      then err corruption
      else if not (bytes_eq (take (length magic) body) magic)
      then err corruption
      else ok (drop (length magic) body)

unfoldable pub take_bytes : ℕ → Reader → Result (List ℕ × Reader)
take_bytes n r = if leb n (length r) then ok (take n r, drop n r) else err corruption

unfoldable pub read_u8 : Reader → Result (ℕ × Reader)
read_u8 r = do (s, r') ← take_bytes 1 r; ok (get_or s 0 0, r')

unfoldable pub read_u32 : Reader → Result (ℕ × Reader)
read_u32 r = do (s, r') ← take_bytes 4 r; ok (from_le s, r')

unfoldable pub read_u64 : Reader → Result (ℕ × Reader)
read_u64 r = do (s, r') ← take_bytes 8 r; ok (from_le s, r')

-- What was written is read back, and what follows it is left.
pub take_bytes-append :
    (n : ℕ) (xs rest : List ℕ) → n ≡ length xs → take_bytes n (xs ++ rest) ≡ ok (xs, rest)
unfolding take_bytes
take_bytes-append n xs rest h = rw (
  le→leb n (length (xs ++ rest)) (omega (arith, length-append xs rest)),
  take-append n xs rest h,
  drop-append n xs rest h,
)

pub read_u8-cons : (b : ℕ) (rest : List ℕ) → read_u8 (b ∷ rest) ≡ ok (b, rest)
unfolding read_u8
read_u8-cons b rest = rw (take_bytes-append 1 (b ∷ []) rest (omega arith))

pub read_u32-to_le :
    (v : ℕ) (rest : List ℕ) → v < 2 ^ 32 → read_u32 (to_le 4 v ++ rest) ≡ ok (v, rest)
unfolding read_u32
read_u32-to_le v rest h =
    rw (
      take_bytes-append 4 (to_le 4 v) rest (sym (length-to_le 4 v)),
      from_le-to_le 4 v (omega arith),
    )

pub read_u64-to_le :
    (v : ℕ) (rest : List ℕ) → v < 2 ^ 64 → read_u64 (to_le 8 v ++ rest) ≡ ok (v, rest)
unfolding read_u64
read_u64-to_le v rest h =
    rw (
      take_bytes-append 8 (to_le 8 v) rest (sym (length-to_le 8 v)),
      from_le-to_le 8 v (omega arith),
    )

pub open_reader-finish :
    (magic rest : List ℕ) → open_reader (finish (magic ++ rest)) magic ≡ ok rest
unfolding open_reader finish
open_reader-finish magic rest =
    let body : List ℕ = magic ++ rest in
    let crc : List ℕ = to_le 4 (crc32 body) in
    let size : length (body ++ crc) ≡ length body + 4 =
      omega (arith, length-append body crc, length-to_le 4 (crc32 body)) in
    let cut : length (body ++ crc) - 4 ≡ length body = omega arith in
    let long : length magic + 4 ≤ length (body ++ crc) = omega (arith, length-append magic rest) in
    rw (
      le→ltb_not (length (body ++ crc)) (length magic + 4) long,
      take-append (length (body ++ crc) - 4) body crc cut,
      drop-append (length (body ++ crc) - 4) body crc cut,
      from_le-to_le 4 (crc32 body) (crc32-lt body),
      ==_refl (crc32 body),
      take-append (length magic) magic rest (omega arith),
      bytes_eq_refl magic,
      drop-append (length magic) magic rest (omega arith),
    )
