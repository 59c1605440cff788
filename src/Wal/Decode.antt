-- ===== src/Wal/Decode.antt =====
-- `WalOp::decode` of crates/engine/src/wal.rs and what it calls.
use bydesigns_db.Base.{
  ℕ, zero, suc, Bool, false, not, bit_and, ◌==◌, if◌then◌else◌, Option, none, some, List, [], ◌∷◌,
}
use bydesigns_db.Wal.{
  Text, Column, ForeignKey, PolicyCommand, all_commands, select_command, insert_command,
  update_command, delete_command, Metric, cosine, l2, inner_product, WalOp, create_table,
  drop_table, insert, delete, create_index, drop_index, alter_add_column, alter_drop_column,
  alter_rename_column, alter_rename_table, create_view, drop_view, create_policy, drop_policy,
  set_rls, commit,
}
use bydesigns_db.Wal.Cursor.{
  Cursor, pure, fail, ◌>>=◌, get_u8, get_u32, get_u64, get_str, get_opt_str, get_all, get_coltype,
  get_value,
}

abbrev pub has_bit : ℕ → ℕ → Bool
has_bit flags bit = not (bit_and flags bit == 0)

-- A pass of `decode_columns`.
unfoldable pub get_column : Cursor Column
unfolding get_str get_coltype get_u8
get_column = do
  name ← get_str
  ty ← get_coltype
  flags ← get_u8
  pure (record {
    name = name;
    ty = ty;
    primary_key = has_bit flags 1;
    not_null = has_bit flags 2;
    unique = has_bit flags 4;
    autoincrement = has_bit flags 8;
    default_sql = none;
  })

unfoldable pub get_foreign_key : Cursor ForeignKey
unfolding get_str get_all
get_foreign_key = do
  name ← get_str
  foreign_table ← get_str
  columns ← get_all get_str
  foreign_columns ← get_all get_str
  pure (record {
    name = name;
    columns = columns;
    foreign_table = foreign_table;
    foreign_columns = foreign_columns;
  })

unfoldable pub get_foreign_keys : Cursor (List ForeignKey)
unfolding get_all get_foreign_key
get_foreign_keys [] = some ([], [])
get_foreign_keys (b ∷ c) = get_all get_foreign_key (b ∷ c)

abbrev pub with_default : Option Text → Column → Column
with_default none column = column
with_default (some s) column = record column { default_sql = some s }

-- The loop over the defaults, on the columns that are left.
unfoldable pub fill_defaults : ℕ → List Column → Cursor (List Column)
unfolding get_opt_str
fill_defaults zero columns = pure columns
fill_defaults (suc n) [] = do s ← get_opt_str; fill_defaults n []
fill_defaults (suc n) (column ∷ columns) = do
  s ← get_opt_str
  rest ← fill_defaults n columns
  pure (with_default s column ∷ rest)

-- `decode_table_extras`, with the columns that it has filled.
unfoldable pub get_extras : List Column → Cursor (List Column × List Text × List (List Text))
unfolding get_u32 fill_defaults get_all get_str
get_extras columns [] = some ((columns, [], []), [])
get_extras columns (b ∷ c) =
    (do
      n ← get_u32
      filled ← fill_defaults n columns
      checks ← get_all get_str
      uniques ← get_all (get_all get_str)
      pure (filled, checks, uniques))
      (b ∷ c)

unfoldable pub decode_create : Cursor WalOp
unfolding get_str get_all get_column get_foreign_keys get_extras
decode_create = do
  name ← get_str
  columns ← get_all get_column
  foreign_keys ← get_foreign_keys
  (filled, checks, uniques) ← get_extras columns
  pure (
      create_table (record {
        name = name;
        columns = filled;
        foreign_keys = foreign_keys;
        checks = checks;
        uniques = uniques;
        rls_enabled = false;
        policies = [];
      }))

-- `cols.pop()`.
unfoldable pub last_column : List Column → Cursor Column
last_column [] = fail
last_column (column ∷ []) = pure column
last_column (column ∷ (next_one ∷ columns)) = last_column (next_one ∷ columns)

unfoldable pub decode_alter_add : Cursor WalOp
unfolding get_str get_all get_column get_extras last_column
decode_alter_add = do
  table ← get_str
  columns ← get_all get_column
  (filled, checks, uniques) ← get_extras columns
  column ← last_column filled
  pure (alter_add_column table column)

unfoldable pub command_of_tag : ℕ → PolicyCommand
command_of_tag tag =
    if tag == 1
    then select_command
    else if tag == 2
    then insert_command
    else if tag == 3
    then update_command
    else if tag == 4
    then delete_command
    else all_commands

unfoldable pub decode_create_policy : Cursor WalOp
unfolding get_str get_u8 get_all get_opt_str command_of_tag
decode_create_policy = do
  table ← get_str
  name ← get_str
  tag ← get_u8
  roles ← get_all get_str
  using ← get_opt_str
  check ← get_opt_str
  pure (
      create_policy table (record {
        name = name;
        command = command_of_tag tag;
        roles = roles;
        using = using;
        check = check;
      }))

unfoldable pub metric_of_tag : ℕ → Metric
metric_of_tag tag = if tag == 1 then l2 else if tag == 2 then inner_product else cosine

unfoldable pub decode_create_index : Cursor WalOp
unfolding get_str get_u32 get_u8 metric_of_tag
decode_create_index = do
  name ← get_str
  table ← get_str
  column ← get_str
  m ← get_u32
  ef_construction ← get_u32
  ef_search ← get_u32
  tag ← get_u8
  pure (
      create_index (record {
        name = name;
        table = table;
        column = column;
        params = record {
          m = m;
          ef_construction = ef_construction;
          ef_search = ef_search;
          metric = metric_of_tag tag;
        };
      }))

unfoldable pub decode_insert : Cursor WalOp
unfolding get_str get_u64 get_all get_value
decode_insert = do
  table ← get_str
  vid ← get_u64
  values ← get_all get_value
  pure (insert table vid values)

-- An operation that is one string, and one that is two.
abbrev pub one_str : (Text → WalOp) → Cursor WalOp
one_str op = do s ← get_str; pure (op s)

abbrev pub two_strs : (Text → Text → WalOp) → Cursor WalOp
two_strs op = do s ← get_str; t ← get_str; pure (op s t)

-- The rest of an operation by its tag: `WalOp::decode` and `decode_catalog_op`.
unfoldable pub op_of : ℕ → Cursor WalOp
unfolding decode_create decode_alter_add decode_create_policy decode_create_index decode_insert
    get_str get_u64 get_u8
op_of tag =
    if tag == 1
    then decode_create
    else if tag == 2
    then one_str drop_table
    else if tag == 3
    then decode_insert
    else if tag == 4
    then (do table ← get_str; vid ← get_u64; pure (delete table vid))
    else if tag == 5
    then pure commit
    else if tag == 6
    then decode_create_index
    else if tag == 7
    then one_str drop_index
    else if tag == 8
    then decode_alter_add
    else if tag == 9
    then two_strs alter_drop_column
    else if tag == 10
    then (do
      table ← get_str
      from ← get_str
      to ← get_str
      pure (alter_rename_column table from to))
    else if tag == 11
    then two_strs alter_rename_table
    else if tag == 12
    then two_strs create_view
    else if tag == 13
    then one_str drop_view
    else if tag == 14
    then decode_create_policy
    else if tag == 15
    then two_strs drop_policy
    else if tag == 16
    then (do table ← get_str; enabled ← get_u8; pure (set_rls table (not (enabled == 0))))
    else fail

unfoldable pub decode_op : Cursor WalOp
unfolding get_u8 op_of
decode_op = do tag ← get_u8; op_of tag

abbrev pub value_only : {A : Type 0} → Option (A × List ℕ) → Option A
value_only none = none
value_only (some (a, c)) = some a

-- Bytes behind the operation are not looked at.
unfoldable pub decode : List ℕ → Option WalOp
unfolding decode_op
decode bytes = value_only (decode_op bytes)
