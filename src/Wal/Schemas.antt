-- ===== src/Wal/Schemas.antt =====
-- The table schemas of crates/engine/src/wal.rs are read back as they were written.
use bydesigns_db.Base.{ℕ, ◌≡◌, refl, Option, none, some, List, [], ◌∷◌, map, length, All}
use bydesigns_db.Base.Bytes.{to_le}
use bydesigns_db.Wal.{Text, Column, ForeignKey}
use bydesigns_db.Wal.Encode.{put_str, put_each, put_all, put_foreign_key, put_default, put_extras}
use bydesigns_db.Wal.Cursor.{get_str, get_all}
use bydesigns_db.Wal.Decode.{
  get_foreign_key, get_foreign_keys, with_default, fill_defaults, get_extras,
}
use bydesigns_db.Wal.Parts.{
  FitsText, FitsList, Reads, same, FitsColumn, bare, get_u32-put_u32, get_str-put_str,
  get_opt_str-put_opt_str, get_all-put_all,
}

abbrev pub FitsForeignKey : ForeignKey → Type 0
FitsForeignKey fk =
    FitsText fk.name
    × FitsText fk.foreign_table
    × FitsList FitsText fk.columns
    × FitsList FitsText fk.foreign_columns

abbrev pub texts : Reads (FitsList FitsText) (put_all put_str) (get_all get_str) same
texts = get_all-put_all FitsText put_str get_str get_str-put_str

get_foreign_key-put_foreign_key : Reads FitsForeignKey put_foreign_key get_foreign_key same
unfolding get_foreign_key put_foreign_key
get_foreign_key-put_foreign_key fk rest (name, table, columns, foreign_columns) =
    rw
      (
        get_str-put_str fk.name _ name,
        get_str-put_str fk.foreign_table _ table,
        texts fk.columns (put_all put_str fk.foreign_columns rest) columns,
        texts fk.foreign_columns rest foreign_columns,
      )
      refl

-- The section is there, with its count, even when it is empty.
pub get_foreign_keys-put_all :
    Reads (FitsList FitsForeignKey) (put_all put_foreign_key) get_foreign_keys same
unfolding get_foreign_keys put_all to_le
get_foreign_keys-put_all fks rest h =
    get_all-put_all FitsForeignKey put_foreign_key get_foreign_key get_foreign_key-put_foreign_key
      fks rest h

with_default-bare :
    (d : Option Text) (c : Column) → with_default d (bare c) ≡ record c { default_sql = d }
with_default-bare none c = refl
with_default-bare (some s) c = refl

-- The defaults fill the columns that the list left bare.
fill_defaults-put_each :
    (columns : List Column) (rest : List ℕ)
    → All FitsColumn columns
    → fill_defaults (length columns) (map bare columns) (put_each put_default columns rest)
      ≡ some (columns, rest)
unfolding fill_defaults put_each
fill_defaults-put_each [] rest h = refl
fill_defaults-put_each (c ∷ columns) rest ((name, ty, default), hs) =
    rw
      (
        get_opt_str-put_opt_str c.default_sql (put_each put_default columns rest) default,
        fill_defaults-put_each columns rest hs,
        with_default-bare c.default_sql c,
      )
      refl

pub get_extras-put_extras :
    (columns : List Column) (checks : List Text) (uniques : List (List Text)) (rest : List ℕ)
    → FitsList FitsColumn columns
    → FitsList FitsText checks
    → FitsList (FitsList FitsText) uniques
    → get_extras (map bare columns) (put_extras columns checks uniques rest)
      ≡ some ((columns, checks, uniques), rest)
unfolding get_extras put_extras put_all to_le
get_extras-put_extras columns checks uniques rest (short, fit) c u =
    rw
      (
        get_u32-put_u32 (length columns) _ short,
        fill_defaults-put_each columns _ fit,
        texts checks _ c,
        get_all-put_all (FitsList FitsText) (put_all put_str) (get_all get_str) texts uniques rest
            u,
      )
      refl
