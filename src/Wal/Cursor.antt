-- ===== src/Wal/Cursor.antt =====
-- The cursor of crates/engine/src/wal.rs, as the bytes that it has not read. Every failure is an
-- internal error, which is `none`.
use bydesigns_db.Base.{
  ℕ, zero, suc, ◌==◌, leb, if◌then◌else◌, Option, none, some, List, [], ◌∷◌, length, take, drop,
  get_or,
}
use bydesigns_db.Base.Bytes.{from_le}
use bydesigns_db.Wal.{
  Text, Value, null, int, real, text, blob, vector, ColumnType, integer_type, real_type, text_type,
  blob_type, vector_type,
}
use bydesigns_db.Wal.Utf8.{is_utf8}

abbrev pub Cursor : Type 0 → Type 0
Cursor A = List ℕ → Option (A × List ℕ)

abbrev pub pure : {A : Type 0} → A → Cursor A
pure a c = some (a, c)

abbrev pub fail : {A : Type 0} → Cursor A
fail c = none

abbrev pub then_read : {A B : Type 0} → Option (A × List ℕ) → (A → Cursor B) → Option (B × List ℕ)
then_read none f = none
then_read (some (a, c)) f = f a c

infixl 5 ◌>>=◌
abbrev pub ◌>>=◌ : {A B : Type 0} → Cursor A → (A → Cursor B) → Cursor B
◌>>=◌ p f c = then_read (p c) f

unfoldable pub take_bytes : ℕ → Cursor (List ℕ)
take_bytes n c = if leb n (length c) then some (take n c, drop n c) else none

unfoldable pub get_u8 : Cursor ℕ
unfolding take_bytes
get_u8 = do s ← take_bytes 1; pure (get_or s 0 0)

unfoldable pub get_u32 : Cursor ℕ
unfolding take_bytes
get_u32 = do s ← take_bytes 4; pure (from_le s)

unfoldable pub get_u64 : Cursor ℕ
unfolding take_bytes
get_u64 = do s ← take_bytes 8; pure (from_le s)

unfoldable pub get_str : Cursor Text
unfolding take_bytes get_u32 is_utf8
get_str = do n ← get_u32; s ← take_bytes n; if is_utf8 s then pure s else fail

unfoldable pub get_opt_str : Cursor (Option Text)
unfolding get_u8 get_str
get_opt_str = do
  present ← get_u8
  (if present == 1 then (do s ← get_str; pure (some s)) else pure none)

-- A loop of so many reads, and one whose count stands in front.
unfoldable pub get_each : {A : Type 0} → Cursor A → ℕ → Cursor (List A)
get_each p zero = pure []
get_each p (suc n) = do x ← p; xs ← get_each p n; pure (x ∷ xs)

unfoldable pub get_all : {A : Type 0} → Cursor A → Cursor (List A)
unfolding get_u32 get_each
get_all p = do n ← get_u32; get_each p n

unfoldable pub type_of_tag : ℕ → ColumnType
type_of_tag tag =
    if tag == 0
    then integer_type
    else if tag == 1
    then real_type
    else if tag == 3
    then blob_type
    else if tag == 4
    then vector_type 0
    else text_type

unfoldable pub get_coltype : Cursor ColumnType
unfolding get_u8 get_u32 type_of_tag
get_coltype = do
  tag ← get_u8
  (if tag == 4 then (do d ← get_u32; pure (vector_type d)) else pure (type_of_tag tag))

unfoldable pub value_of : ℕ → Cursor Value
unfolding get_u64 get_str get_u32 take_bytes get_all
value_of tag =
    if tag == 0
    then pure null
    else if tag == 1
    then (do i ← get_u64; pure (int i))
    else if tag == 2
    then (do r ← get_u64; pure (real r))
    else if tag == 3
    then (do s ← get_str; pure (text s))
    else if tag == 4
    then (do n ← get_u32; bytes ← take_bytes n; pure (blob bytes))
    else if tag == 5
    then (do xs ← get_all get_u32; pure (vector xs))
    else fail

unfoldable pub get_value : Cursor Value
unfolding get_u8 value_of
get_value = do tag ← get_u8; value_of tag
