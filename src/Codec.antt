-- ===== src/Codec.antt =====
-- crates/storage/src/object/codec.rs: the log segments and the delta and image layers.
-- `as u32` keeps the low 32 bits, as `to_le 4` does.
pub mod Framing
pub mod RoundTrip
pub mod Inverse
mod Runs
use bydesigns_db.Base.{ℕ, zero, suc, List, [], ◌∷◌, ◌++◌, ltb, ◌==◌, if◌then◌else◌, length}
use bydesigns_db.Base.Bytes.{to_le}
use bydesigns_db.Types.{Result, ok, err, corruption, ◌>>=◌, page_size}
use Framing.{Reader, finish, open_reader, take_bytes, read_u8, read_u32, read_u64}

-- The bytes of "BDLOG1", "BDDEL1", "BDIMG1".
abbrev pub seg_magic : List ℕ
seg_magic = b'B' ∷ b'D' ∷ b'L' ∷ b'O' ∷ b'G' ∷ b'1' ∷ []

abbrev pub delta_magic : List ℕ
delta_magic = b'B' ∷ b'D' ∷ b'D' ∷ b'E' ∷ b'L' ∷ b'1' ∷ []

abbrev pub image_magic : List ℕ
image_magic = b'B' ∷ b'D' ∷ b'I' ∷ b'M' ∷ b'G' ∷ b'1' ∷ []

abbrev pub item_wal : ℕ
item_wal = 1

abbrev pub item_page : ℕ
item_page = 2

pub data LogItem : Type 0 where
  wal : List ℕ → LogItem
  page : ℕ → List ℕ → LogItem

pub record PageRecord : Type 0 where
  pub page_id : ℕ
  pub lsn : ℕ
  pub image : List ℕ

pub encode_item : LogItem → List ℕ
encode_item (wal bytes) = item_wal ∷ (to_le 4 (length bytes) ++ bytes)
encode_item (page page_id image) =
    item_page ∷ (to_le 8 page_id ++ (to_le 4 (length image) ++ image))

pub encode_items : List LogItem → List ℕ
encode_items [] = []
encode_items (item ∷ items) = encode_item item ++ encode_items items

pub encode_segment : List LogItem → List ℕ
encode_segment items = finish (seg_magic ++ (to_le 4 (length items) ++ encode_items items))

-- The `ITEM_WAL` arm of the match on the tag, and the `ITEM_PAGE` arm.
pub decode_wal : Reader → Result (LogItem × Reader)
decode_wal r = do (len, r1) ← read_u32 r; (bytes, r2) ← take_bytes len r1; ok (wal bytes, r2)

pub decode_image_of : ℕ → ℕ → Reader → Result (LogItem × Reader)
decode_image_of page_id len r =
    if ltb page_size len
    then err corruption
    else do (image, r1) ← take_bytes len r; ok (page page_id image, r1)

pub decode_page : Reader → Result (LogItem × Reader)
decode_page r = do
  (page_id, r1) ← read_u64 r
  (len, r2) ← read_u32 r1
  decode_image_of page_id len r2

pub decode_tagged : ℕ → Reader → Result (LogItem × Reader)
decode_tagged tag r =
    if tag == item_wal
    then decode_wal r
    else if tag == item_page
    then decode_page r
    else err corruption

pub decode_item : Reader → Result (LogItem × Reader)
decode_item r = do (tag, r1) ← read_u8 r; decode_tagged tag r1

pub decode_items : ℕ → Reader → Result (List LogItem × Reader)
decode_items zero r = ok ([], r)
decode_items (suc n) r = do
  (item, r1) ← decode_item r
  (items, r2) ← decode_items n r1
  ok (item ∷ items, r2)

pub decode_segment : List ℕ → Result (List LogItem)
decode_segment bytes = do
  r ← open_reader bytes seg_magic
  (count, r1) ← read_u32 r
  (items, r2) ← decode_items count r1
  ok items

pub encode_record : PageRecord → List ℕ
encode_record rec =
    to_le 8 rec.page_id ++ (to_le 8 rec.lsn ++ (to_le 4 (length rec.image) ++ rec.image))

pub encode_records : List PageRecord → List ℕ
encode_records [] = []
encode_records (rec ∷ records) = encode_record rec ++ encode_records records

pub encode_layer : List ℕ → List PageRecord → List ℕ
encode_layer magic records = finish (magic ++ (to_le 4 (length records) ++ encode_records records))

pub decode_record : Reader → Result (PageRecord × Reader)
decode_record r = do
  (page_id, r1) ← read_u64 r
  (lsn, r2) ← read_u64 r1
  (len, r3) ← read_u32 r2
  if ltb page_size len then err corruption else do
    (image, r4) ← take_bytes len r3
    ok (record { page_id = page_id; lsn = lsn; image = image }, r4)

pub decode_records : ℕ → Reader → Result (List PageRecord × Reader)
decode_records zero r = ok ([], r)
decode_records (suc n) r = do
  (rec, r1) ← decode_record r
  (recs, r2) ← decode_records n r1
  ok (rec ∷ recs, r2)

pub decode_layer : List ℕ → List ℕ → Result (List PageRecord)
decode_layer bytes magic = do
  r ← open_reader bytes magic
  (count, r1) ← read_u32 r
  (records, r2) ← decode_records count r1
  ok records

pub encode_delta : List PageRecord → List ℕ
encode_delta records = encode_layer delta_magic records

pub decode_delta : List ℕ → Result (List PageRecord)
decode_delta bytes = decode_layer bytes delta_magic

pub encode_image : List PageRecord → List ℕ
encode_image records = encode_layer image_magic records

pub decode_image : List ℕ → Result (List PageRecord)
decode_image bytes = decode_layer bytes image_magic
