-- ===== src/Wal/RoundTrip.antt =====
-- Every operation of crates/engine/src/wal.rs is read back as it was written.
use bydesigns_db.Base.{ℕ, ◌≡◌, refl, Bool, true, false, not, ◌==◌, some, List, [], ◌∷◌, map, arith}
use bydesigns_db.Base.Bytes.{IsU32, IsU64}
use bydesigns_db.Wal.{
  Text, Column, PolicyCommand, all_commands, select_command, insert_command, update_command,
  delete_command, Policy, TableSchema, Metric, cosine, l2, inner_product, IndexDef, WalOp,
  create_table, drop_table, insert, delete, create_index, drop_index, alter_add_column,
  alter_drop_column, alter_rename_column, alter_rename_table, create_view, drop_view, create_policy,
  drop_policy, set_rls, commit,
}
use bydesigns_db.Wal.Encode.{
  put_u64, put_str, put_opt_str, put_all, put_value, put_column, put_extras, put_schema, put_policy,
  put_index, command_tag, metric_tag, flag, put_op, encode,
}
use bydesigns_db.Wal.Cursor.{get_all, get_value}
use bydesigns_db.Wal.Decode.{
  get_column, decode_create, last_column, decode_alter_add, command_of_tag, decode_create_policy,
  metric_of_tag, decode_create_index, decode_insert, op_of, decode_op, decode,
}
use bydesigns_db.Wal.Parts.{
  FitsText, FitsOption, FitsList, Reads, FitsColumn, FitsValue, bare, get_u8-cons, get_u32-put_u32,
  get_u64-put_u64, get_str-put_str, get_opt_str-put_opt_str, get_all-map, get_all-put_all,
  get_value-put_value, get_column-put_column,
}
use bydesigns_db.Wal.Schemas.{
  FitsForeignKey, texts, get_foreign_keys-put_all, get_extras-put_extras,
}

abbrev pub FitsSchema : TableSchema → Type 0
FitsSchema s =
    FitsText s.name
    × FitsList FitsColumn s.columns
    × FitsList FitsForeignKey s.foreign_keys
    × FitsList FitsText s.checks
    × FitsList (FitsList FitsText) s.uniques

abbrev pub FitsPolicy : Policy → Type 0
FitsPolicy p = FitsText p.name × FitsList FitsText p.roles × FitsOption p.using × FitsOption p.check

abbrev pub FitsIndex : IndexDef → Type 0
FitsIndex d =
    FitsText d.name
    × FitsText d.table
    × FitsText d.column
    × IsU32 d.params.m
    × IsU32 d.params.ef_construction
    × IsU32 d.params.ef_search

-- What fits the fields of a record.
abbrev pub FitsOp : WalOp → Type 0
FitsOp (create_table s) = FitsSchema s
FitsOp (drop_table name) = FitsText name
FitsOp (insert table vid values) = FitsText table × IsU64 vid × FitsList FitsValue values
FitsOp (delete table vid) = FitsText table × IsU64 vid
FitsOp (create_index d) = FitsIndex d
FitsOp (drop_index name) = FitsText name
FitsOp (alter_add_column table column) = FitsText table × FitsColumn column
FitsOp (alter_drop_column table column) = FitsText table × FitsText column
FitsOp (alter_rename_column table from to) = FitsText table × FitsText from × FitsText to
FitsOp (alter_rename_table table to) = FitsText table × FitsText to
FitsOp (create_view name sql) = FitsText name × FitsText sql
FitsOp (drop_view name) = FitsText name
FitsOp (create_policy table p) = FitsText table × FitsPolicy p
FitsOp (drop_policy table name) = FitsText table × FitsText name
FitsOp (set_rls table enabled) = FitsText table
FitsOp commit = Unit {0}

-- A schema comes back without its row security, which records of its own carry.
abbrev pub carried : WalOp → WalOp
carried (create_table s) = create_table (record s { rls_enabled = false; policies = [] })
carried op = op

pub columns_back : Reads (FitsList FitsColumn) (put_all put_column) (get_all get_column) (map bare)
columns_back = get_all-map FitsColumn put_column get_column bare get_column-put_column

decode_create-put_schema :
    (s : TableSchema) (rest : List ℕ)
    → FitsSchema s
    → decode_create (put_schema s rest)
      ≡ some (create_table (record s { rls_enabled = false; policies = [] }), rest)
unfolding decode_create put_schema
decode_create-put_schema s rest (name, columns, foreign_keys, checks, uniques) =
    rw
      (
        get_str-put_str s.name _ name,
        columns_back s.columns _ columns,
        get_foreign_keys-put_all s.foreign_keys _ foreign_keys,
        get_extras-put_extras s.columns s.checks s.uniques rest columns checks uniques,
      )
      refl

decode_alter_add-put :
    (table : Text) (c : Column) (rest : List ℕ)
    → FitsText table
    → FitsColumn c
    → decode_alter_add
        (put_str table (put_all put_column (c ∷ []) (put_extras (c ∷ []) [] [] rest)))
      ≡ some (alter_add_column table c, rest)
unfolding decode_alter_add last_column
decode_alter_add-put table c rest name column =
    let one : FitsList FitsColumn (c ∷ []) = (omega arith, (column, tt)) in
    rw
      (
        get_str-put_str table _ name,
        columns_back (c ∷ []) _ one,
        get_extras-put_extras (c ∷ []) [] [] rest one (omega arith, tt) (omega arith, tt),
      )
      refl

command_of_tag-command_tag : (c : PolicyCommand) → command_of_tag (command_tag c) ≡ c
unfolding command_of_tag command_tag
command_of_tag-command_tag all_commands = refl
command_of_tag-command_tag select_command = refl
command_of_tag-command_tag insert_command = refl
command_of_tag-command_tag update_command = refl
command_of_tag-command_tag delete_command = refl

metric_of_tag-metric_tag : (m : Metric) → metric_of_tag (metric_tag m) ≡ m
unfolding metric_of_tag metric_tag
metric_of_tag-metric_tag cosine = refl
metric_of_tag-metric_tag l2 = refl
metric_of_tag-metric_tag inner_product = refl

decode_create_policy-put_policy :
    (table : Text) (p : Policy) (rest : List ℕ)
    → FitsText table
    → FitsPolicy p
    → decode_create_policy (put_str table (put_policy p rest)) ≡ some (create_policy table p, rest)
unfolding decode_create_policy put_policy
decode_create_policy-put_policy table p rest name (own, roles, using, check) =
    rw
      (
        get_str-put_str table _ name,
        get_str-put_str p.name _ own,
        get_u8-cons (command_tag p.command)
            (put_all put_str p.roles (put_opt_str p.using (put_opt_str p.check rest))),
        texts p.roles (put_opt_str p.using (put_opt_str p.check rest)) roles,
        get_opt_str-put_opt_str p.using (put_opt_str p.check rest) using,
        get_opt_str-put_opt_str p.check rest check,
        command_of_tag-command_tag p.command,
      )
      refl

decode_create_index-put_index :
    (d : IndexDef) (rest : List ℕ)
    → FitsIndex d
    → decode_create_index (put_index d rest) ≡ some (create_index d, rest)
unfolding decode_create_index put_index
decode_create_index-put_index d rest (name, table, column, m, construction, search_width) =
    rw
      (
        get_str-put_str d.name _ name,
        get_str-put_str d.table _ table,
        get_str-put_str d.column _ column,
        get_u32-put_u32 d.params.m _ m,
        get_u32-put_u32 d.params.ef_construction _ construction,
        get_u32-put_u32 d.params.ef_search _ search_width,
        get_u8-cons (metric_tag d.params.metric) rest,
        metric_of_tag-metric_tag d.params.metric,
      )
      refl

flag_back : (b : Bool) → not (flag b 1 == 0) ≡ b
flag_back true = refl
flag_back false = refl

-- The body of an operation behind its tag, for the operations that are strings and numbers.
decode_op-put_op :
    (op : WalOp) (rest : List ℕ) → FitsOp op → decode_op (put_op op rest) ≡ some (carried op, rest)
unfolding decode_op put_op op_of decode_insert
decode_op-put_op (create_table s) rest h =
    rw (get_u8-cons 1 (put_schema s rest)) (decode_create-put_schema s rest h)
decode_op-put_op (drop_table name) rest h =
    rw (get_u8-cons 2 (put_str name rest), get_str-put_str name rest h) refl
decode_op-put_op (insert table vid values) rest (name, id, fit) =
    rw
      (
        get_u8-cons 3 (put_str table (put_u64 vid (put_all put_value values rest))),
        get_str-put_str table (put_u64 vid (put_all put_value values rest)) name,
        get_u64-put_u64 vid (put_all put_value values rest) id,
        get_all-put_all FitsValue put_value get_value get_value-put_value values rest fit,
      )
      refl
decode_op-put_op (delete table vid) rest (name, id) =
    rw
      (
        get_u8-cons 4 (put_str table (put_u64 vid rest)),
        get_str-put_str table (put_u64 vid rest) name,
        get_u64-put_u64 vid rest id,
      )
      refl
decode_op-put_op commit rest h = rw (get_u8-cons 5 rest) refl
decode_op-put_op (create_index d) rest h =
    rw (get_u8-cons 6 (put_index d rest)) (decode_create_index-put_index d rest h)
decode_op-put_op (drop_index name) rest h =
    rw (get_u8-cons 7 (put_str name rest), get_str-put_str name rest h) refl
decode_op-put_op (alter_add_column table c) rest (name, column) =
    rw
      (get_u8-cons 8 (put_str table (put_all put_column (c ∷ []) (put_extras (c ∷ []) [] [] rest))))
      (decode_alter_add-put table c rest name column)
decode_op-put_op (alter_drop_column table column) rest (a, b) =
    rw
      (
        get_u8-cons 9 (put_str table (put_str column rest)),
        get_str-put_str table (put_str column rest) a,
        get_str-put_str column rest b,
      )
      refl
decode_op-put_op (alter_rename_column table from to) rest (a, b, c) =
    rw
      (
        get_u8-cons 10 (put_str table (put_str from (put_str to rest))),
        get_str-put_str table (put_str from (put_str to rest)) a,
        get_str-put_str from (put_str to rest) b,
        get_str-put_str to rest c,
      )
      refl
decode_op-put_op (alter_rename_table table to) rest (a, b) =
    rw
      (
        get_u8-cons 11 (put_str table (put_str to rest)),
        get_str-put_str table (put_str to rest) a,
        get_str-put_str to rest b,
      )
      refl
decode_op-put_op (create_view name sql) rest (a, b) =
    rw
      (
        get_u8-cons 12 (put_str name (put_str sql rest)),
        get_str-put_str name (put_str sql rest) a,
        get_str-put_str sql rest b,
      )
      refl
decode_op-put_op (drop_view name) rest h =
    rw (get_u8-cons 13 (put_str name rest), get_str-put_str name rest h) refl
decode_op-put_op (create_policy table p) rest (name, fit) =
    rw (get_u8-cons 14 (put_str table (put_policy p rest)))
      (decode_create_policy-put_policy table p rest name fit)
decode_op-put_op (drop_policy table name) rest (a, b) =
    rw
      (
        get_u8-cons 15 (put_str table (put_str name rest)),
        get_str-put_str table (put_str name rest) a,
        get_str-put_str name rest b,
      )
      refl
decode_op-put_op (set_rls table enabled) rest h =
    rw
      (
        get_u8-cons 16 (put_str table (flag enabled 1 ∷ rest)),
        get_str-put_str table (flag enabled 1 ∷ rest) h,
        get_u8-cons (flag enabled 1) rest,
        flag_back enabled,
      )
      refl

-- An operation whose strings are UTF-8 and whose strings, lists and numbers fit the fields of the
-- record decodes to itself, less the row security of a created table, which is off and without
-- policies in what comes back.
pub decode-encode : (op : WalOp) → FitsOp op → decode (encode op) ≡ some (carried op)
unfolding decode encode
decode-encode op h = rw (decode_op-put_op op [] h) refl
