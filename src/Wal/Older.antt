-- ===== src/Wal/Older.antt =====
-- Records of crates/engine/src/wal.rs from before its later sections are still read.
use bydesigns_db.Base.{◌≡◌, refl, false, some, [], ◌∷◌, map}
use bydesigns_db.Wal.{TableSchema, create_table}
use bydesigns_db.Wal.Encode.{put_str, put_all, put_column, put_foreign_key}
use bydesigns_db.Wal.Decode.{get_foreign_keys, get_extras, decode_create, op_of, decode_op, decode}
use bydesigns_db.Wal.Parts.{FitsText, FitsList, FitsColumn, bare, get_u8-cons, get_str-put_str}
use bydesigns_db.Wal.Schemas.{FitsForeignKey, get_foreign_keys-put_all}
use bydesigns_db.Wal.RoundTrip.{columns_back}

-- The schema in a record that ends behind its columns, and in one that ends behind its foreign keys.
abbrev pub without_keys : TableSchema → TableSchema
without_keys s = record {
  name = s.name;
  columns = map bare s.columns;
  foreign_keys = [];
  checks = [];
  uniques = [];
  rls_enabled = false;
  policies = [];
}

abbrev pub without_extras : TableSchema → TableSchema
without_extras s = record (without_keys s) { foreign_keys = s.foreign_keys }

-- The records of tables that were written before foreign keys, and before defaults, checks and
-- unique sets, are still read, if their strings, lists and numbers fit: the sections that they lack
-- are empty, and the columns have no defaults.
pub decode_older :
    (s : TableSchema)
    → FitsText s.name
    → FitsList FitsColumn s.columns
    → FitsList FitsForeignKey s.foreign_keys
    → (decode (1 ∷ put_str s.name (put_all put_column s.columns []))
        ≡ some (create_table (without_keys s)))
      × (decode (
            1
            ∷ put_str s.name
                (put_all put_column s.columns (put_all put_foreign_key s.foreign_keys [])))
          ≡ some (create_table (without_extras s)))
unfolding decode decode_op op_of decode_create get_foreign_keys get_extras
decode_older s name columns foreign_keys = (
  rw
      (
        get_u8-cons 1 (put_str s.name (put_all put_column s.columns [])),
        get_str-put_str s.name (put_all put_column s.columns []) name,
        columns_back s.columns [] columns,
      )
      refl,
  rw
      (
        get_u8-cons 1 (
            put_str s.name
              (put_all put_column s.columns (put_all put_foreign_key s.foreign_keys []))),
        get_str-put_str s.name
            (put_all put_column s.columns (put_all put_foreign_key s.foreign_keys [])) name,
        columns_back s.columns (put_all put_foreign_key s.foreign_keys []) columns,
        get_foreign_keys-put_all s.foreign_keys [] foreign_keys,
      )
      refl,
)
