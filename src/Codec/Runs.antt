-- ===== src/Codec/Runs.antt =====
-- Runs of the codec, and its theorems at concrete inputs.
use bydesigns_db.Base.{ℕ, ◌≡◌, List, [], ◌∷◌, ◌++◌, All, All-append, arith}
use bydesigns_db.Base.Bytes.{IsByte, IsU32, to_le, to_le-IsByte}
use bydesigns_db.Types.{ok}
use bydesigns_db.Crc.{crc32}
use bydesigns_db.Codec.{
  LogItem, wal, page, PageRecord, encode_segment, decode_segment, encode_items, encode_item,
  seg_magic,
}
use bydesigns_db.Codec.{encode_delta, decode_delta, encode_image, decode_image}
use bydesigns_db.Codec.Framing.{finish}
use bydesigns_db.Codec.Inverse.{decode_segment-eq-ok}
use bydesigns_db.Codec.RoundTrip.{Fits, decode_segment-encode_segment, decode_layers-encode_layers}

abbrev two_items : List LogItem
two_items = wal (b'h' ∷ b'i' ∷ []) ∷ page 42 (0xAB ∷ 0xAB ∷ 0xAB ∷ []) ∷ []

decode_segment-encode_segment_example : decode_segment (encode_segment two_items) ≡ ok two_items
decode_segment-encode_segment_example =
    decode_segment-encode_segment two_items (omega arith) (omega arith)

abbrev two_records : List PageRecord
two_records =
    record { page_id = 1; lsn = 10; image = 1 ∷ 1 ∷ [] }
    ∷ record { page_id = 2; lsn = 11; image = 2 ∷ [] }
    ∷ []

decode_layers-encode_layers_example :
    (decode_delta (encode_delta two_records) ≡ ok two_records)
    × (decode_image (encode_image two_records) ≡ ok two_records)
decode_layers-encode_layers_example =
    decode_layers-encode_layers two_records (omega arith) (omega arith)

finish-IsByte : (body : List ℕ) → All IsByte body → All IsByte (finish body)
unfolding finish
finish-IsByte body h = All-append IsByte body (to_le 4 (crc32 body)) h (to_le-IsByte 4 (crc32 body))

-- The bytes of the segment, each of them a byte.
two_items-IsByte : All IsByte (encode_segment two_items)
unfolding encode_segment encode_items encode_item to_le
two_items-IsByte = finish-IsByte (seg_magic ++ (to_le 4 2 ++ encode_items two_items)) (omega arith)

decode_segment-eq-ok_example :
    (unread : List ℕ) × (encode_segment two_items
      ≡ finish (seg_magic ++ (to_le 4 2 ++ (encode_items two_items ++ unread))))
    × IsU32 2
    × All Fits two_items
decode_segment-eq-ok_example =
    decode_segment-eq-ok (encode_segment two_items) two_items two_items-IsByte
      decode_segment-encode_segment_example
