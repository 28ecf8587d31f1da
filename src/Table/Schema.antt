-- ===== src/Table/Schema.antt =====
-- src/table/schema.h: the columns of a table.
use simple_db.Base.{ℕ, List}
use Prim.Native.String.{String}

pub data ColumnType : Type 0 where
  boolean uint64 : ColumnType

pub record Column : Type 0 where
  pub name : String
  pub type : ColumnType
  pub length : ℕ

abbrev pub Schema : Type 0
Schema = List Column
