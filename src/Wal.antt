-- ===== src/Wal.antt =====
-- crates/engine/src/wal.rs: the durable form of what a transaction does, of the catalog entries of
-- crates/engine/src/catalog.rs and of the values of crates/engine/src/value.rs. A string is its
-- bytes, an i64 is the number of its 64 bits, and an f64 or f32 is the number of its IEEE bits, which
-- the codec writes as they are. A function that pushes bytes takes the bytes behind them.
pub mod Utf8
pub mod Encode
pub mod Cursor
pub mod Decode
pub mod Parts
pub mod Schemas
pub mod RoundTrip
pub mod Older
pub mod Replay
mod Runs
use bydesigns_db.Base.{ℕ, Bool, Option, List}

abbrev pub Text : Type 0
Text = List ℕ

pub data Value : Type 0 where
  null : Value
  int : ℕ → Value
  real : ℕ → Value
  text : Text → Value
  blob : List ℕ → Value
  vector : List ℕ → Value

pub data ColumnType : Type 0 where
  integer_type real_type text_type blob_type : ColumnType
  vector_type : ℕ → ColumnType

pub record Column : Type 0 where
  pub name : Text
  pub ty : ColumnType
  pub primary_key : Bool
  pub not_null : Bool
  pub unique : Bool
  pub autoincrement : Bool
  pub default_sql : Option Text

pub record ForeignKey : Type 0 where
  pub name : Text
  pub columns : List Text
  pub foreign_table : Text
  pub foreign_columns : List Text

pub data PolicyCommand : Type 0 where
  all_commands select_command insert_command update_command delete_command : PolicyCommand

pub record Policy : Type 0 where
  pub name : Text
  pub command : PolicyCommand
  pub roles : List Text
  pub using : Option Text
  pub check : Option Text

pub record TableSchema : Type 0 where
  pub name : Text
  pub columns : List Column
  pub foreign_keys : List ForeignKey
  pub checks : List Text
  pub uniques : List (List Text)
  pub rls_enabled : Bool
  pub policies : List Policy

pub data Metric : Type 0 where
  cosine l2 inner_product : Metric

pub record IndexParams : Type 0 where
  pub m : ℕ
  pub ef_construction : ℕ
  pub ef_search : ℕ
  pub metric : Metric

pub record IndexDef : Type 0 where
  pub name : Text
  pub table : Text
  pub column : Text
  pub params : IndexParams

pub data WalOp : Type 0 where
  create_table : TableSchema → WalOp
  drop_table : Text → WalOp
  insert : Text → ℕ → List Value → WalOp
  delete : Text → ℕ → WalOp
  create_index : IndexDef → WalOp
  drop_index : Text → WalOp
  alter_add_column : Text → Column → WalOp
  alter_drop_column : Text → Text → WalOp
  alter_rename_column : Text → Text → Text → WalOp
  alter_rename_table : Text → Text → WalOp
  create_view : Text → Text → WalOp
  drop_view : Text → WalOp
  create_policy : Text → Policy → WalOp
  drop_policy : Text → Text → WalOp
  set_rls : Text → Bool → WalOp
  commit : WalOp
