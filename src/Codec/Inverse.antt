-- ===== src/Codec/Inverse.antt =====
-- What the decoders of crates/storage/src/object/codec.rs accept: only what the encoders write,
-- with unread bytes behind the last item.
use bydesigns_db.Base.{
  Bool-cases, inl, inr, false, ℕ, zero, suc, ◌-◌, ◌+◌, ◌≤◌, ◌<◌, ◌^◌, ◌≡◌, refl, sym, subst, ap,
  List, [], ◌∷◌, ◌++◌, append_assoc, arith, length, take, drop, All, All-left, All-right,
  take-append-drop, length-take, length-drop, ltb, ◌==◌, if◌then◌else◌, bytes_eq→eq, ==_iff,
  ltb_not→le,
}
use bydesigns_db.Base.Bytes.{IsByte, IsU32, IsU64, to_le, from_le, to_le-from_le, from_le-lt}
use bydesigns_db.Types.{Result, ok, err, page_size, corruption, ◌>>=◌, >>=-eq-ok}
use bydesigns_db.Crc.{crc32}
use bydesigns_db.Codec.{
  LogItem, wal, page, item_wal, item_page, encode_item, encode_items, seg_magic, decode_wal,
  decode_page, decode_image_of, decode_tagged, decode_item, decode_items, decode_segment,
}
use bydesigns_db.Codec.RoundTrip.{Fits}
use bydesigns_db.Codec.Framing.{
  Reader, finish, take_bytes, read_u8, read_u32, read_u64, open_reader,
}

pub take_bytes-eq-ok :
    (n : ℕ) (r s r' : List ℕ) → take_bytes n r ≡ ok (s, r') → (r ≡ s ++ r') × (length s ≡ n)
unfolding take_bytes
take_bytes-eq-ok n r s r' h = ground (arith, take-append-drop n r, length-take n r)

-- `r'` is what is left of `r` behind the `n` bytes of the number `v`.
abbrev IsRead : ℕ → ℕ → List ℕ → List ℕ → Type 0
IsRead n v r r' = (r ≡ to_le n v ++ r') × All IsByte r' × (v < 256 ^ n)

IsRead-le :
    (n : ℕ) (r s r1 r' : List ℕ) (v : ℕ)
    → All IsByte r
    → take_bytes n r ≡ ok (s, r1)
    → ◌≡◌ {A = Result (ℕ × List ℕ)} (ok (from_le s, r1)) (ok (v, r'))
    → IsRead n v r r'
IsRead-le n r s r1 r' v b e e2 =
    let cut : (r ≡ s ++ r1) × (length s ≡ n) = take_bytes-eq-ok n r s r1 e in
    let parts : All IsByte (s ++ r1) = rw cut.0 at b in
    let v_eq : from_le s ≡ v = cc in
    let r_eq : r1 ≡ r' = cc in
    let bound : from_le s < 256 ^ length s = from_le-lt s (All-left IsByte s r1 parts) in
    rw (← v_eq, ← r_eq, ← cut.1)
      (rw (to_le-from_le s (All-left IsByte s r1 parts)) cut.0, All-right IsByte s r1 parts, bound)

pub read_u32-eq-ok :
    (r r' : List ℕ) (v : ℕ) → All IsByte r → read_u32 r ≡ ok (v, r') → IsRead 4 v r r'
unfolding read_u32
read_u32-eq-ok r r' v b h =
    let (p, e, e2) = >>=-eq-ok (take_bytes 4 r) (λ p. ok (from_le p.0, p.1)) h in
    IsRead-le 4 r p.0 p.1 r' v b e e2

pub read_u64-eq-ok :
    (r r' : List ℕ) (v : ℕ) → All IsByte r → read_u64 r ≡ ok (v, r') → IsRead 8 v r r'
unfolding read_u64
read_u64-eq-ok r r' v b h =
    let (p, e, e2) = >>=-eq-ok (take_bytes 8 r) (λ p. ok (from_le p.0, p.1)) h in
    IsRead-le 8 r p.0 p.1 r' v b e e2

pub read_u8-eq-ok : (r r' : List ℕ) (v : ℕ) → read_u8 r ≡ ok (v, r') → r ≡ v ∷ r'
unfolding read_u8 take_bytes
read_u8-eq-ok [] r' v h = cc
read_u8-eq-ok (x ∷ r) r' v h = ground arith

-- `r` is the encoding of `item` with `r'` behind it.
abbrev IsDecoded : LogItem → List ℕ → List ℕ → Type 0
IsDecoded item r r' = (r ≡ encode_item item ++ r') × All IsByte r' × Fits item

bytes_done :
    (n : ℕ) (s : List ℕ) (r r1 r2 : List ℕ)
    → IsRead 4 n r r1
    → take_bytes n r1 ≡ ok (s, r2)
    → (r ≡ (to_le 4 (length s) ++ s) ++ r2) × All IsByte r2 × (length s ≡ n) × IsU32 (length s)
bytes_done n s r r1 r2 h e =
    let cut : (r1 ≡ s ++ r2) × (length s ≡ n) = take_bytes-eq-ok n r1 s r2 e in
    let parts : All IsByte (s ++ r2) = rw cut.0 at h.1 in
    (
      rw (append_assoc (to_le 4 (length s)) s r2, cut.1, ← cut.0) h.0,
      All-right IsByte s r2 parts,
      cut.1,
      omega arith,
    )

decode_wal-eq-ok :
    (r r' : List ℕ) (item : LogItem)
    → All IsByte r
    → decode_wal r ≡ ok (item, r')
    → (bytes : List ℕ) × (item ≡ wal bytes)
      × IsU32 (length bytes)
      × All IsByte r'
      × (r ≡ (to_le 4 (length bytes) ++ bytes) ++ r')
unfolding decode_wal
decode_wal-eq-ok r r' item b h =
    let (p, e, e1) =
      >>=-eq-ok (read_u32 r) (λ p. do (bytes, r2) ← take_bytes p.0 p.1; ok (wal bytes, r2)) h in
    let (q, f, f1) = >>=-eq-ok (take_bytes p.0 p.1) (λ q. ok (wal q.0, q.1)) e1 in
    let got = bytes_done p.0 q.0 r p.1 q.1 (read_u32-eq-ok r p.1 p.0 b e) f in
    let rest_eq : q.1 ≡ r' = cc in (q.0, cc, got.3, rw rest_eq at got.1, rw rest_eq at got.0)

decode_page-eq-ok :
    (r r' : List ℕ) (item : LogItem)
    → All IsByte r
    → decode_page r ≡ ok (item, r')
    → (id : ℕ) × (image : List ℕ) × (item ≡ page id image)
      × IsU64 id
      × (length image ≤ page_size)
      × All IsByte r'
      × (r ≡ (to_le 8 id ++ (to_le 4 (length image) ++ image)) ++ r')
unfolding decode_page decode_image_of
decode_page-eq-ok r r' item b h =
    let (p, e, e1) =
      >>=-eq-ok (read_u64 r) (λ p. do (len, r2) ← read_u32 p.1; decode_image_of p.0 len r2) h in
    let id_read = read_u64-eq-ok r p.1 p.0 b e in
    let (q, f, f1) = >>=-eq-ok (read_u32 p.1) (λ q. decode_image_of p.0 q.0 q.1) e1 in
    let len_read = read_u32-eq-ok p.1 q.1 q.0 id_read.1 f in
    let small : ltb page_size q.0 ≡ false = ground arith in
    let rest : (do (image, r3) ← take_bytes q.0 q.1; ok (page p.0 image, r3)) ≡ ok (item, r') =
      rw small at f1 in
    let (t, g, g1) = >>=-eq-ok (take_bytes q.0 q.1) (λ t. ok (page p.0 t.0, t.1)) rest in
    let got = bytes_done q.0 t.0 p.1 q.1 t.1 len_read g in
    let rest_eq : t.1 ≡ r' = cc in
    let size : length t.0 ≤ page_size = omega (arith, got.2, ltb_not→le page_size q.0 small) in
    (
      p.0,
      t.0,
      cc,
      id_read.2,
      size,
      rw rest_eq at got.1,
      cc (append_assoc (to_le 8 p.0) (to_le 4 (length t.0) ++ t.0) r', id_read.0, got.0, rest_eq),
    )

decode_item-eq-ok :
    (r r' : List ℕ) (item : LogItem)
    → All IsByte r
    → decode_item r ≡ ok (item, r')
    → IsDecoded item r r'
unfolding decode_item decode_tagged encode_item
decode_item-eq-ok r r' item b h =
    let (p, e, e1) = >>=-eq-ok (read_u8 r) (λ p. decode_tagged p.0 p.1) h in
    let head : r ≡ p.0 ∷ p.1 = read_u8-eq-ok r p.1 p.0 e in
    let b' : All IsByte p.1 = (subst (All IsByte) head b).1 in
    elim (Bool-cases (p.0 == item_wal)) [
      | inl is_wal ↦
          let (bytes, item_eq, fits, br, rest) =
            decode_wal-eq-ok p.1 r' item b' (rw is_wal at e1) in
          rw item_eq (cc (head, (==_iff p.0 1).0 is_wal, rest), br, fits)
      | inr not_wal ↦
          let e2 : (if p.0 == item_page then decode_page p.1 else err corruption) ≡ ok (item, r') =
            rw not_wal at e1 in
          elim (Bool-cases (p.0 == item_page)) [
            | inl is_page ↦
                let (id, image, item_eq, idf, fits, br, rest) =
                  decode_page-eq-ok p.1 r' item b' (rw is_page at e2) in
                rw item_eq (cc (head, (==_iff p.0 2).0 is_page, rest), br, (idf, fits))
            | inr not_page ↦
                let bad : ◌≡◌ {A = Result (LogItem × Reader)} (err corruption) (ok (item, r')) =
                  rw not_page at e2 in
                cc
          ]
    ]

decode_items-eq-ok :
    (n : ℕ) (r r' : List ℕ) (items : List LogItem)
    → All IsByte r
    → decode_items n r ≡ ok (items, r')
    → (r ≡ encode_items items ++ r') × (length items ≡ n) × All Fits items
unfolding decode_items encode_items
decode_items-eq-ok zero r r' [] b h = (cc, refl, tt)
decode_items-eq-ok zero r r' (x ∷ items) b h = cc
decode_items-eq-ok (suc n) r r' items b h =
    let (p, e, e1) =
      >>=-eq-ok (decode_item r) (λ p. do (is, r2) ← decode_items n p.1; ok (p.0 ∷ is, r2)) h in
    let (q, f, f1) = >>=-eq-ok (decode_items n p.1) (λ q. ok (p.0 ∷ q.0, q.1)) e1 in
    let one = decode_item-eq-ok r p.1 p.0 b e in
    let (rest, count, fits) = decode_items-eq-ok n p.1 q.1 q.0 one.1 f in
    let items_eq : p.0 ∷ q.0 ≡ items = cc in
    let rest_eq : q.1 ≡ r' = cc in
    rw (← items_eq, ← rest_eq)
      (
        rw (append_assoc (encode_item p.0) (encode_items q.0) q.1, ← rest) one.0,
        ap suc count,
        (one.2, fits),
      )

open_reader-eq-ok :
    (bytes magic r : List ℕ)
    → All IsByte bytes
    → open_reader bytes magic ≡ ok r
    → (bytes ≡ finish (magic ++ r)) × All IsByte r
unfolding open_reader finish
open_reader-eq-ok bytes magic r b h = elim (Bool-cases (ltb (length bytes) (length magic + 4))) [
  | inl short ↦ let bad : ◌≡◌ {A = Result Reader} (err corruption) (ok r) = rw short at h in cc
  | inr long ↦
      let body : List ℕ = take (length bytes - 4) bytes in
      let crc : List ℕ = drop (length bytes - 4) bytes in
      let joined : body ++ crc ≡ bytes = take-append-drop (length bytes - 4) bytes in
      let parts : All IsByte (body ++ crc) = subst (All IsByte) (sym joined) b in
      let four : length crc ≡ 4 = omega (
        arith,
        length-drop (length bytes - 4) bytes,
        ltb_not→le (length bytes) (length magic + 4) long,
      ) in
      let facts : (crc32 body ≡ from_le crc)
          × (take (length magic) body ≡ magic)
          × (drop (length magic) body ≡ r) =
        ground (arith, long, bytes_eq→eq (take (length magic) body) magic) in
      let crc_eq : to_le 4 (from_le crc) ≡ crc =
        subst (λ n. to_le n (from_le crc) ≡ crc) four
          (to_le-from_le crc (All-right IsByte body crc parts)) in
      let body_eq : magic ++ r ≡ body =
        rw (← facts.1, ← facts.2) (take-append-drop (length magic) body) in
      (
        rw (body_eq, facts.0, crc_eq) (sym joined),
        All-right IsByte magic r
            (subst (All IsByte) (sym body_eq) (All-left IsByte body crc parts)),
      )
]

-- Only encodings are accepted: bytes that decode to `items` are the header, the number of items
-- and their encodings, with some unread bytes behind them, under their checksum; and every item
-- fits the fields of the format.
pub decode_segment-eq-ok :
    (bytes : List ℕ) (items : List LogItem)
    → All IsByte bytes
    → decode_segment bytes ≡ ok items
    → (unread : List ℕ) × (bytes
        ≡ finish (seg_magic ++ (to_le 4 (length items) ++ (encode_items items ++ unread))))
      × IsU32 (length items)
      × All Fits items
unfolding decode_segment
decode_segment-eq-ok bytes items b h =
    let (r, e, e1) =
      >>=-eq-ok (open_reader bytes seg_magic)
        (λ r. do (count, r1) ← read_u32 r; (is, r2) ← decode_items count r1; ok is) h in
    let (p, f, f1) = >>=-eq-ok (read_u32 r) (λ p. do (is, r2) ← decode_items p.0 p.1; ok is) e1 in
    let (q, g, g1) = >>=-eq-ok (decode_items p.0 p.1) (λ q. ok q.0) f1 in
    let opened = open_reader-eq-ok bytes seg_magic r b e in
    let counted = read_u32-eq-ok r p.1 p.0 opened.1 f in
    let (rest, count, fits) = decode_items-eq-ok p.0 p.1 q.1 q.0 counted.1 g in
    let items_eq : q.0 ≡ items = cc in
    rw (← items_eq, count) (q.1, rw (← rest, ← counted.0) opened.0, omega arith, fits)
