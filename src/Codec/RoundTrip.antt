-- ===== src/Codec/RoundTrip.antt =====
-- Decoding what the encoders of crates/storage/src/object/codec.rs wrote.
use bydesigns_db.Base.{
  ℕ, ◌≤◌, ◌≡◌, refl, List, [], ◌∷◌, ◌++◌, append_assoc, append-nil, arith, length, All, le→ltb_not,
}
use bydesigns_db.Base.Bytes.{IsU32, IsU64, to_le}
use bydesigns_db.Types.{ok, page_size}
use bydesigns_db.Codec.Framing.{
  take_bytes-append, read_u8-cons, read_u32-to_le, read_u64-to_le, open_reader-finish,
}
use bydesigns_db.Codec.{
  LogItem, wal, page, PageRecord, seg_magic, delta_magic, image_magic, encode_item, encode_items,
  encode_segment, decode_tagged, decode_wal, decode_page, decode_image_of, decode_item,
  decode_items, decode_segment, encode_record, encode_records, encode_layer, decode_record,
  decode_records, decode_layer, encode_delta, decode_delta, encode_image, decode_image,
}

-- What fits the fields of the format: a length fits u32, a page id u64, an image one page.
abbrev pub Fits : LogItem → Type 0
Fits (wal bytes) = IsU32 (length bytes)
Fits (page page_id image) = IsU64 page_id × (length image ≤ page_size)

abbrev pub FitsRecord : PageRecord → Type 0
FitsRecord rec = IsU64 rec.page_id × IsU64 rec.lsn × (length rec.image ≤ page_size)

pub decode_item-encode_item :
    (item : LogItem) (rest : List ℕ)
    → Fits item
    → decode_item (encode_item item ++ rest) ≡ ok (item, rest)
unfolding encode_item decode_item decode_tagged decode_wal decode_page decode_image_of
decode_item-encode_item (wal bytes) rest h = rw (
  read_u8-cons 1 ((to_le 4 (length bytes) ++ bytes) ++ rest),
  append_assoc (to_le 4 (length bytes)) bytes rest,
  read_u32-to_le (length bytes) (bytes ++ rest) h,
  take_bytes-append (length bytes) bytes rest refl,
)
decode_item-encode_item (page page_id image) rest h =
    let size : List ℕ = to_le 4 (length image) in
    rw (
      read_u8-cons 2 ((to_le 8 page_id ++ (size ++ image)) ++ rest),
      append_assoc (to_le 8 page_id) (size ++ image) rest,
      read_u64-to_le page_id ((size ++ image) ++ rest) h.0,
      append_assoc size image rest,
      read_u32-to_le (length image) (image ++ rest) (omega arith),
      le→ltb_not page_size (length image) h.1,
      take_bytes-append (length image) image rest refl,
    )

decode_items-encode_items :
    (items : List LogItem) (rest : List ℕ)
    → All Fits items
    → decode_items (length items) (encode_items items ++ rest) ≡ ok (items, rest)
unfolding encode_items decode_items
decode_items-encode_items [] rest h = refl
decode_items-encode_items (item ∷ items) rest (h, hs) = rw (
  append_assoc (encode_item item) (encode_items items) rest,
  decode_item-encode_item item (encode_items items ++ rest) h,
  decode_items-encode_items items rest hs,
)

-- A segment of fewer than 2^32 items, each of which fits the fields of the format, decodes to
-- the items it was encoded from.
pub decode_segment-encode_segment :
    (items : List LogItem)
    → IsU32 (length items)
    → All Fits items
    → decode_segment (encode_segment items) ≡ ok items
unfolding decode_segment encode_segment
decode_segment-encode_segment items h hs = rw (
  open_reader-finish seg_magic (to_le 4 (length items) ++ encode_items items),
  read_u32-to_le (length items) (encode_items items) h,
  sized,
)
  where
    sized : decode_items (length items) (encode_items items) ≡ ok (items, [])
    sized = rw append-nil at (decode_items-encode_items items [] hs)

decode_record-encode_record :
    (rec : PageRecord) (rest : List ℕ)
    → FitsRecord rec
    → decode_record (encode_record rec ++ rest) ≡ ok (rec, rest)
unfolding encode_record decode_record
decode_record-encode_record rec rest h =
    let size : List ℕ = to_le 4 (length rec.image) in
    let stamped : List ℕ = to_le 8 rec.lsn ++ (size ++ rec.image) in
    rw (
      append_assoc (to_le 8 rec.page_id) stamped rest,
      read_u64-to_le rec.page_id (stamped ++ rest) h.0,
      append_assoc (to_le 8 rec.lsn) (size ++ rec.image) rest,
      read_u64-to_le rec.lsn ((size ++ rec.image) ++ rest) h.1,
      append_assoc size rec.image rest,
      read_u32-to_le (length rec.image) (rec.image ++ rest) (omega arith),
      le→ltb_not page_size (length rec.image) h.2,
      take_bytes-append (length rec.image) rec.image rest refl,
    )

decode_records-encode_records :
    (recs : List PageRecord) (rest : List ℕ)
    → All FitsRecord recs
    → decode_records (length recs) (encode_records recs ++ rest) ≡ ok (recs, rest)
unfolding encode_records decode_records
decode_records-encode_records [] rest h = refl
decode_records-encode_records (rec ∷ recs) rest (h, hs) = rw (
  append_assoc (encode_record rec) (encode_records recs) rest,
  decode_record-encode_record rec (encode_records recs ++ rest) h,
  decode_records-encode_records recs rest hs,
)

decode_layer-encode_layer :
    (magic : List ℕ) (recs : List PageRecord)
    → IsU32 (length recs)
    → All FitsRecord recs
    → decode_layer (encode_layer magic recs) magic ≡ ok recs
unfolding decode_layer encode_layer
decode_layer-encode_layer magic recs h hs = rw (
  open_reader-finish magic (to_le 4 (length recs) ++ encode_records recs),
  read_u32-to_le (length recs) (encode_records recs) h,
  sized,
)
  where
    sized : decode_records (length recs) (encode_records recs) ≡ ok (recs, [])
    sized = rw append-nil at (decode_records-encode_records recs [] hs)

-- A delta layer and an image layer of fewer than 2^32 records, each of which fits the fields of
-- the format, decode to the records they were encoded from.
pub decode_layers-encode_layers :
    (recs : List PageRecord)
    → IsU32 (length recs)
    → All FitsRecord recs
    → (decode_delta (encode_delta recs) ≡ ok recs) × (decode_image (encode_image recs) ≡ ok recs)
unfolding decode_delta encode_delta decode_image encode_image
decode_layers-encode_layers recs h hs = (
  decode_layer-encode_layer delta_magic recs h hs,
  decode_layer-encode_layer image_magic recs h hs,
)
