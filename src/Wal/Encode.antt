-- ===== src/Wal/Encode.antt =====
-- `WalOp::encode` of crates/engine/src/wal.rs and what it puts.
use bydesigns_db.Base.{ℕ, ◌+◌, Bool, if◌then◌else◌, Option, none, some, List, [], ◌∷◌, ◌++◌, length}
use bydesigns_db.Base.Bytes.{to_le}
use bydesigns_db.Wal.{
  Text, Value, null, int, real, text, blob, vector, ColumnType, integer_type, real_type, text_type,
  blob_type, vector_type, Column, ForeignKey, PolicyCommand, all_commands, select_command,
  insert_command, update_command, delete_command, Policy, TableSchema, Metric, cosine, l2,
  inner_product, IndexDef, WalOp, create_table, drop_table, insert, delete, create_index,
  drop_index, alter_add_column, alter_drop_column, alter_rename_column, alter_rename_table,
  create_view, drop_view, create_policy, drop_policy, set_rls, commit,
}

-- Pushes bytes in front of those that follow.
abbrev pub Put : Type 0 → Type 0
Put A = A → List ℕ → List ℕ

abbrev pub put_u32 : Put ℕ
put_u32 v rest = to_le 4 v ++ rest

abbrev pub put_u64 : Put ℕ
put_u64 v rest = to_le 8 v ++ rest

unfoldable pub put_str : Put Text
put_str s rest = put_u32 (length s) (s ++ rest)

unfoldable pub put_opt_str : Put (Option Text)
unfolding put_str
put_opt_str none rest = 0 ∷ rest
put_opt_str (some s) rest = 1 ∷ put_str s rest

-- The loops that put the elements of a list, and those behind the count.
unfoldable pub put_each : {A : Type 0} → Put A → Put (List A)
put_each put [] rest = rest
put_each put (x ∷ xs) rest = put x (put_each put xs rest)

unfoldable pub put_all : {A : Type 0} → Put A → Put (List A)
unfolding put_each
put_all put xs rest = put_u32 (length xs) (put_each put xs rest)

unfoldable pub type_tag : ColumnType → ℕ
type_tag integer_type = 0
type_tag real_type = 1
type_tag text_type = 2
type_tag blob_type = 3
type_tag (vector_type d) = 4

unfoldable pub put_coltype : Put ColumnType
put_coltype integer_type rest = 0 ∷ rest
put_coltype real_type rest = 1 ∷ rest
put_coltype text_type rest = 2 ∷ rest
put_coltype blob_type rest = 3 ∷ rest
put_coltype (vector_type d) rest = 4 ∷ put_u32 d rest

unfoldable pub put_value : Put Value
unfolding put_str put_all
put_value null rest = 0 ∷ rest
put_value (int i) rest = 1 ∷ put_u64 i rest
put_value (real r) rest = 2 ∷ put_u64 r rest
put_value (text s) rest = 3 ∷ put_str s rest
put_value (blob bytes) rest = 4 ∷ put_u32 (length bytes) (bytes ++ rest)
put_value (vector xs) rest = 5 ∷ put_all put_u32 xs rest

abbrev pub flag : Bool → ℕ → ℕ
flag b bit = if b then bit else 0

abbrev pub flags_of : Column → ℕ
flags_of c = flag c.primary_key 1 + (flag c.not_null 2 + (flag c.unique 4 + flag c.autoincrement 8))

unfoldable pub put_column : Put Column
unfolding put_str put_coltype
put_column c rest = put_str c.name (put_coltype c.ty (flags_of c ∷ rest))

unfoldable pub put_foreign_key : Put ForeignKey
unfolding put_str put_all
put_foreign_key fk rest = put_str fk.name (
    put_str fk.foreign_table (put_all put_str fk.columns (put_all put_str fk.foreign_columns rest)))

abbrev pub put_default : Put Column
put_default c rest = put_opt_str c.default_sql rest

-- The per-column defaults, the checks and the unique sets.
unfoldable pub put_extras : List Column → List Text → List (List Text) → List ℕ → List ℕ
unfolding put_all put_opt_str put_str
put_extras columns checks uniques rest =
    put_all put_default columns (put_all put_str checks (put_all (put_all put_str) uniques rest))

unfoldable pub put_schema : Put TableSchema
unfolding put_str put_all put_column put_foreign_key put_extras
put_schema s rest = put_str s.name (
    put_all put_column s.columns
      (put_all put_foreign_key s.foreign_keys (put_extras s.columns s.checks s.uniques rest)))

unfoldable pub command_tag : PolicyCommand → ℕ
command_tag all_commands = 0
command_tag select_command = 1
command_tag insert_command = 2
command_tag update_command = 3
command_tag delete_command = 4

unfoldable pub metric_tag : Metric → ℕ
metric_tag cosine = 0
metric_tag l2 = 1
metric_tag inner_product = 2

unfoldable pub put_policy : Put Policy
unfolding put_str put_all put_opt_str command_tag
put_policy p rest = put_str p.name (
    command_tag p.command
    ∷ put_all put_str p.roles (put_opt_str p.using (put_opt_str p.check rest)))

unfoldable pub put_index : Put IndexDef
unfolding put_str metric_tag
put_index d rest = put_str d.name (
    put_str d.table (
      put_str d.column (
        put_u32 d.params.m (
          put_u32 d.params.ef_construction
            (put_u32 d.params.ef_search (metric_tag d.params.metric ∷ rest))))))

unfoldable pub put_op : Put WalOp
unfolding put_str put_schema put_all put_value put_index put_column put_extras put_policy
put_op (create_table schema) rest = 1 ∷ put_schema schema rest
put_op (drop_table name) rest = 2 ∷ put_str name rest
put_op (insert table vid values) rest =
    3 ∷ put_str table (put_u64 vid (put_all put_value values rest))
put_op (delete table vid) rest = 4 ∷ put_str table (put_u64 vid rest)
put_op commit rest = 5 ∷ rest
put_op (create_index def) rest = 6 ∷ put_index def rest
put_op (drop_index name) rest = 7 ∷ put_str name rest
put_op (alter_add_column table column) rest =
    8 ∷ put_str table (put_all put_column (column ∷ []) (put_extras (column ∷ []) [] [] rest))
put_op (alter_drop_column table column) rest = 9 ∷ put_str table (put_str column rest)
put_op (alter_rename_column table from to) rest =
    10 ∷ put_str table (put_str from (put_str to rest))
put_op (alter_rename_table table to) rest = 11 ∷ put_str table (put_str to rest)
put_op (create_view name sql) rest = 12 ∷ put_str name (put_str sql rest)
put_op (drop_view name) rest = 13 ∷ put_str name rest
put_op (create_policy table policy) rest = 14 ∷ put_str table (put_policy policy rest)
put_op (drop_policy table name) rest = 15 ∷ put_str table (put_str name rest)
put_op (set_rls table enabled) rest = 16 ∷ put_str table (flag enabled 1 ∷ rest)

unfoldable pub encode : WalOp → List ℕ
unfolding put_op
encode op = put_op op []
