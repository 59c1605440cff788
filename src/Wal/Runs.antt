-- ===== src/Wal/Runs.antt =====
-- Records of the engine's log, and the theorems at concrete inputs.
use bydesigns_db.Base.{ℕ, List, ◌≡◌, refl, true, false, none, some, [], ◌∷◌, arith}
use bydesigns_db.Wal.{
  Text, Column, TableSchema, integer_type, vector_type, create_table, drop_table, drop_view,
}
use bydesigns_db.Wal.Utf8.{is_utf8, utf8_behind}
use bydesigns_db.Wal.Encode.{put_str, put_all, put_column, put_foreign_key, encode}
use bydesigns_db.Wal.Decode.{decode}
use bydesigns_db.Wal.Parts.{FitsList, FitsColumn}
use bydesigns_db.Wal.Schemas.{FitsForeignKey}
use bydesigns_db.Wal.RoundTrip.{decode-encode}
use bydesigns_db.Wal.Replay.{replay, log_of, replay-log_of}
use bydesigns_db.Wal.Older.{decode_older, without_keys, without_extras}

abbrev users : Text
users = b'u' ∷ []

abbrev id : Column
id = record {
  name = b'i' ∷ b'd' ∷ [];
  ty = integer_type;
  primary_key = true;
  not_null = true;
  unique = false;
  autoincrement = true;
  default_sql = none;
}

abbrev place : Column
place = record {
  name = b'p' ∷ [];
  ty = vector_type 3;
  primary_key = false;
  not_null = false;
  unique = true;
  autoincrement = false;
  default_sql = some (b'x' ∷ []);
}

abbrev schema : TableSchema
schema = record {
  name = users;
  columns = id ∷ place ∷ [];
  foreign_keys =
      record {
        name = b'k' ∷ [];
        columns = (b'p' ∷ []) ∷ [];
        foreign_table = b't' ∷ [];
        foreign_columns = (b'q' ∷ []) ∷ [];
      }
      ∷ [];
  checks = (b'c' ∷ []) ∷ [];
  uniques = ((b'i' ∷ b'd' ∷ []) ∷ (b'p' ∷ []) ∷ []) ∷ [];
  rls_enabled = false;
  policies = [];
}

columns_fit : FitsList FitsColumn schema.columns
unfolding is_utf8 utf8_behind
columns_fit = (
  omega arith,
  (((omega arith, refl), tt, tt), (((omega arith, refl), omega arith, (omega arith, refl)), tt)),
)

keys_fit : FitsList FitsForeignKey schema.foreign_keys
unfolding is_utf8 utf8_behind
keys_fit = (
  omega arith,
  (
    (
      (omega arith, refl),
      (omega arith, refl),
      (omega arith, ((omega arith, refl), tt)),
      (omega arith, ((omega arith, refl), tt)),
    ),
    tt,
  ),
)

decode-encode_example : decode (encode (create_table schema)) ≡ some (create_table schema)
unfolding is_utf8 utf8_behind
decode-encode_example = decode-encode (create_table schema) (
  (omega arith, refl),
  columns_fit,
  keys_fit,
  (omega arith, ((omega arith, refl), tt)),
  (omega arith, ((omega arith, ((omega arith, refl), ((omega arith, refl), tt))), tt)),
)

decode_older_example :
    (decode (1 ∷ put_str users (put_all put_column schema.columns []))
      ≡ some (create_table (without_keys schema)))
    × (decode (
          1
          ∷ put_str users
              (put_all put_column schema.columns (put_all put_foreign_key schema.foreign_keys [])))
        ≡ some (create_table (without_extras schema)))
unfolding is_utf8 utf8_behind
decode_older_example = decode_older schema (omega arith, refl) columns_fit keys_fit

-- The two bytes of U+00E9 are a string, an overlong form and a surrogate are not.
utf8_runs :
    (is_utf8 (195 ∷ 169 ∷ []) ≡ true)
    × (is_utf8 (192 ∷ 128 ∷ []) ≡ false)
    × (is_utf8 (237 ∷ 160 ∷ 128 ∷ []) ≡ false)
unfolding is_utf8 utf8_behind
utf8_runs = (refl, refl, refl)

-- A view is dropped by a transaction at LSN 2, and a table by one that did not commit.
replay-log_of_example :
    replay
      (λ (s : List ℕ) op lsn. lsn ∷ s)
      (log_of 1 ((drop_view users ∷ []) ∷ []) (drop_table users ∷ []))
      []
      ([], 0)
    ≡ some (2 ∷ [], 2)
unfolding is_utf8 utf8_behind
replay-log_of_example =
    replay-log_of (λ s op lsn. lsn ∷ s) ((drop_view users ∷ []) ∷ []) (drop_table users ∷ []) 1
      ([], 0) ((((omega arith, refl), (λ e. cc)), tt), tt) (((omega arith, refl), (λ e. cc)), tt)
