-- ===== src/Wal/Parts.antt =====
-- The parts of the records of crates/engine/src/wal.rs are read back as they were written.
use bydesigns_db.Base.{
  ℕ, ◌+◌, ◌≡◌, refl, ap, Bool, true, false, Option, none, some, List, [], ◌∷◌, ◌++◌, map, length,
  All, take-append, drop-append, length-append, le→leb, arith,
}
use bydesigns_db.Base.Bytes.{IsU32, IsU64, to_le, length-to_le, from_le-to_le}
use bydesigns_db.Wal.{
  Text, Value, null, int, real, text, blob, vector, ColumnType, integer_type, real_type, text_type,
  blob_type, vector_type, Column,
}
use bydesigns_db.Wal.Utf8.{is_utf8}
use bydesigns_db.Wal.Encode.{
  Put, put_u32, put_u64, put_str, put_opt_str, put_each, put_all, put_coltype, put_value, flag,
  flags_of, put_column,
}
use bydesigns_db.Wal.Cursor.{
  Cursor, take_bytes, get_u8, get_u32, get_u64, get_str, get_opt_str, get_each, get_all,
  type_of_tag, get_coltype, value_of, get_value,
}
use bydesigns_db.Wal.Decode.{has_bit, get_column}

-- What fits the fields of the format: a string of fewer than 2^32 bytes of UTF-8, a list of fewer than
-- 2^32 elements that fit.
abbrev pub FitsText : Text → Type 0
FitsText s = IsU32 (length s) × (is_utf8 s ≡ true)

abbrev pub FitsOption : Option Text → Type 0
FitsOption none = Unit {0}
FitsOption (some s) = FitsText s

abbrev pub FitsList : {A : Type 0} → (A → Type 0) → List A → Type 0
FitsList P xs = IsU32 (length xs) × All P xs

-- A reader that gives back what was put, as `f` makes it.
abbrev pub Reads : {A B : Type 0} → (A → Type 0) → Put A → Cursor B → (A → B) → Type 0
Reads {A} P put p f = (x : A) (rest : List ℕ) → P x → p (put x rest) ≡ some (f x, rest)

abbrev pub same : {A : Type 0} → A → A
same x = x

take_bytes-append :
    (n : ℕ) (xs rest : List ℕ) → n ≡ length xs → take_bytes n (xs ++ rest) ≡ some (xs, rest)
unfolding take_bytes
take_bytes-append n xs rest h =
    rw
      (
        le→leb n (length (xs ++ rest)) (omega (arith, length-append xs rest)),
        take-append n xs rest h,
        drop-append n xs rest h,
      )
      refl

pub get_u8-cons : (b : ℕ) (rest : List ℕ) → get_u8 (b ∷ rest) ≡ some (b, rest)
unfolding get_u8
get_u8-cons b rest = rw (take_bytes-append 1 (b ∷ []) rest refl) refl

pub get_u32-put_u32 : Reads IsU32 put_u32 get_u32 same
unfolding get_u32
get_u32-put_u32 v rest h =
    rw
      (
        take_bytes-append 4 (to_le 4 v) rest (omega (arith, length-to_le 4 v)),
        from_le-to_le 4 v (omega arith),
      )
      refl

pub get_u64-put_u64 : Reads IsU64 put_u64 get_u64 same
unfolding get_u64
get_u64-put_u64 v rest h =
    rw
      (
        take_bytes-append 8 (to_le 8 v) rest (omega (arith, length-to_le 8 v)),
        from_le-to_le 8 v (omega arith),
      )
      refl

pub get_str-put_str : Reads FitsText put_str get_str same
unfolding get_str put_str
get_str-put_str s rest (short, valid) =
    rw
      (
        get_u32-put_u32 (length s) (s ++ rest) short,
        take_bytes-append (length s) s rest refl,
        valid,
      )
      refl

pub get_opt_str-put_opt_str : Reads FitsOption put_opt_str get_opt_str same
unfolding get_opt_str put_opt_str
get_opt_str-put_opt_str none rest h = rw (get_u8-cons 0 rest) refl
get_opt_str-put_opt_str (some s) rest h =
    rw (get_u8-cons 1 (put_str s rest), get_str-put_str s rest h) refl

-- Where an element is read back, so is a list of them.
get_each-put_each :
    {A B : Type 0} (P : A → Type 0) (put : Put A) (p : Cursor B) (f : A → B)
    → Reads P put p f
    → (xs : List A) (rest : List ℕ) → All P xs
    → get_each p (length xs) (put_each put xs rest) ≡ some (map f xs, rest)
unfolding get_each put_each
get_each-put_each P put p f back [] rest h = refl
get_each-put_each P put p f back (x ∷ xs) rest (h, hs) =
    rw (back x (put_each put xs rest) h, get_each-put_each P put p f back xs rest hs) refl

pub get_all-map :
    {A B : Type 0} (P : A → Type 0) (put : Put A) (p : Cursor B) (f : A → B)
    → Reads P put p f
    → Reads (FitsList P) (put_all put) (get_all p) (map f)
unfolding get_all put_all
get_all-map P put p f back xs rest (short, fit) =
    rw
      (
        get_u32-put_u32 (length xs) (put_each put xs rest) short,
        get_each-put_each P put p f back xs rest fit,
      )
      refl

map_same : {A : Type 0} (xs : List A) → map same xs ≡ xs
map_same [] = refl
map_same (x ∷ xs) = ap (λ ys. x ∷ ys) (map_same xs)

pub get_all-put_all :
    {A : Type 0} (P : A → Type 0) (put : Put A) (p : Cursor A)
    → Reads P put p same
    → Reads (FitsList P) (put_all put) (get_all p) same
get_all-put_all P put p back xs rest h =
    rw (get_all-map P put p same back xs rest h, map_same xs) refl

abbrev pub FitsType : ColumnType → Type 0
FitsType (vector_type d) = IsU32 d
FitsType _ = Unit {0}

get_coltype-put_coltype : Reads FitsType put_coltype get_coltype same
unfolding get_coltype put_coltype type_of_tag
get_coltype-put_coltype integer_type rest h = rw (get_u8-cons 0 rest) refl
get_coltype-put_coltype real_type rest h = rw (get_u8-cons 1 rest) refl
get_coltype-put_coltype text_type rest h = rw (get_u8-cons 2 rest) refl
get_coltype-put_coltype blob_type rest h = rw (get_u8-cons 3 rest) refl
get_coltype-put_coltype (vector_type d) rest h =
    rw (get_u8-cons 4 (put_u32 d rest), get_u32-put_u32 d rest h) refl

abbrev pub FitsValue : Value → Type 0
FitsValue null = Unit {0}
FitsValue (int i) = IsU64 i
FitsValue (real r) = IsU64 r
FitsValue (text s) = FitsText s
FitsValue (blob bytes) = IsU32 (length bytes)
FitsValue (vector xs) = FitsList IsU32 xs

pub get_value-put_value : Reads FitsValue put_value get_value same
unfolding get_value put_value value_of
get_value-put_value null rest h = rw (get_u8-cons 0 rest) refl
get_value-put_value (int i) rest h =
    rw (get_u8-cons 1 (put_u64 i rest), get_u64-put_u64 i rest h) refl
get_value-put_value (real r) rest h =
    rw (get_u8-cons 2 (put_u64 r rest), get_u64-put_u64 r rest h) refl
get_value-put_value (text s) rest h =
    rw (get_u8-cons 3 (put_str s rest), get_str-put_str s rest h) refl
get_value-put_value (blob bytes) rest h =
    rw
      (
        get_u8-cons 4 (put_u32 (length bytes) (bytes ++ rest)),
        get_u32-put_u32 (length bytes) (bytes ++ rest) h,
        take_bytes-append (length bytes) bytes rest refl,
      )
      refl
get_value-put_value (vector xs) rest h =
    rw
      (
        get_u8-cons 5 (put_all put_u32 xs rest),
        get_all-put_all IsU32 put_u32 get_u32 get_u32-put_u32 xs rest h,
      )
      refl

flags_back :
    (a b c d : Bool)
    → let flags = flag a 1 + (flag b 2 + (flag c 4 + flag d 8)) in
      (has_bit flags 1 ≡ a) × (has_bit flags 2 ≡ b) × (has_bit flags 4 ≡ c) × (has_bit flags 8 ≡ d)
flags_back true true true true = (refl, refl, refl, refl)
flags_back true true true false = (refl, refl, refl, refl)
flags_back true true false true = (refl, refl, refl, refl)
flags_back true true false false = (refl, refl, refl, refl)
flags_back true false true true = (refl, refl, refl, refl)
flags_back true false true false = (refl, refl, refl, refl)
flags_back true false false true = (refl, refl, refl, refl)
flags_back true false false false = (refl, refl, refl, refl)
flags_back false true true true = (refl, refl, refl, refl)
flags_back false true true false = (refl, refl, refl, refl)
flags_back false true false true = (refl, refl, refl, refl)
flags_back false true false false = (refl, refl, refl, refl)
flags_back false false true true = (refl, refl, refl, refl)
flags_back false false true false = (refl, refl, refl, refl)
flags_back false false false true = (refl, refl, refl, refl)
flags_back false false false false = (refl, refl, refl, refl)

abbrev pub FitsColumn : Column → Type 0
FitsColumn c = FitsText c.name × FitsType c.ty × FitsOption c.default_sql

-- The column list does not carry the defaults.
abbrev pub bare : Column → Column
bare c = record c { default_sql = none }

pub get_column-put_column : Reads FitsColumn put_column get_column bare
unfolding get_column put_column
get_column-put_column c rest (name, ty, default) =
    let (a, b, u, i) = flags_back c.primary_key c.not_null c.unique c.autoincrement in
    rw
      (
        get_str-put_str c.name (put_coltype c.ty (flags_of c ∷ rest)) name,
        get_coltype-put_coltype c.ty (flags_of c ∷ rest) ty,
        get_u8-cons (flags_of c) rest,
        a,
        b,
        u,
        i,
      )
      refl
