-- ===== src/Crc.antt =====
-- The CRC32 (IEEE 802.3) that crates/storage/src/object/codec.rs and crates/storage/src/local.rs
-- both define, and `crc32_pair` of the latter. `^` on u32 keeps 32 bits, which is written out.
use bydesigns_db.Base.{
  ℕ, zero, suc, ◌+◌, ◌/◌, ◌%◌, ◌^◌, ◌<◌, ◌≡◌, refl, List, [], ◌∷◌, bit_and, bit_xor, ◌==◌,
  if◌then◌else◌, get_or, arith,
}

-- One table entry: `k` rounds of the bit loop.
table_entry : ℕ → ℕ → ℕ
table_entry zero c = c
table_entry (suc k) c =
    table_entry k (if bit_and c 1 == 0 then c / 2 else bit_xor 0xEDB8_8320 (c / 2))

-- The entries `i`, `i + 1`, …, as many as the first argument says.
table_from : ℕ → ℕ → List ℕ
table_from zero i = []
table_from (suc n) i = table_entry 8 i ∷ table_from n (i + 1)

crc32_table : List ℕ
unfolding table_entry table_from
crc32_table = table_from 256 0

-- `table[((crc ^ b) & 0xFF)] ^ (crc >> 8)`. The mask keeps the index below 256, so the default of
-- `get_or` is never read.
crc32_step : List ℕ → ℕ → ℕ → ℕ
crc32_step table crc b = bit_xor (get_or table (bit_and (bit_xor crc b) 0xFF) 0) (crc / 256)

crc32_loop : List ℕ → ℕ → List ℕ → ℕ
crc32_loop table crc [] = crc
crc32_loop table crc (b ∷ rest) = crc32_loop table (crc32_step table crc b) rest

unfoldable pub crc32 : List ℕ → ℕ
unfolding crc32_table crc32_step crc32_loop
crc32 bytes =
    let table = crc32_table in bit_xor (crc32_loop table 0xFFFF_FFFF bytes) 0xFFFF_FFFF % 2 ^ 32

-- Over a one-byte tag and a payload, without joining them.
unfoldable pub crc32_pair : ℕ → List ℕ → ℕ
unfolding crc32_table crc32_step crc32_loop
crc32_pair tag payload =
    let table = crc32_table in
    let crc = crc32_step table 0xFFFF_FFFF tag in
    bit_xor (crc32_loop table crc payload) 0xFFFF_FFFF % 2 ^ 32

pub crc32-lt : (bytes : List ℕ) → crc32 bytes < 2 ^ 32
unfolding crc32
crc32-lt bytes = omega arith

-- The checksum of a tag and a payload apart is that of the two joined.
pub crc32_pair-eq-crc32 :
    (tag : ℕ) (payload : List ℕ) → crc32_pair tag payload ≡ crc32 (tag ∷ payload)
unfolding crc32 crc32_pair
crc32_pair-eq-crc32 tag payload = refl

-- The check value of the standard, for the text "123456789".
crc32_check :
    crc32 (0x31 ∷ 0x32 ∷ 0x33 ∷ 0x34 ∷ 0x35 ∷ 0x36 ∷ 0x37 ∷ 0x38 ∷ 0x39 ∷ []) ≡ 0xCBF4_3926
unfolding crc32
crc32_check = refl
