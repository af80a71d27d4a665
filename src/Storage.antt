-- ===== src/Storage.antt =====
-- src/storage.rs: schemas, and the bounded one-column table with its appends. A method on
-- `&mut self` returns the table that it leaves beside its result.
pub mod Append
use rusthouse.Prelude.{
  ℕ, ◌-◌, List, [], ◌++◌, ◌∷◌, Bool, not, ◌&&◌, Option, ltb, length, any, Result, ok, err,
  reject_if, ◌>>◌, ◌>>=◌,
}
use rusthouse.Prelude.Int.{ℤ, is_none}
use rusthouse.Prelude.Bytes.{Bytes}

pub data DataType : Type 0 where
  int64 : DataType

pub record ColumnSchema : Type 0 where
  pub name : Bytes
  pub data_type : DataType
  pub nullable : Bool

pub record Schema : Type 0 where
  pub column : ColumnSchema

-- `Schema::int64`
abbrev pub int64_schema : Bytes → Bool → Schema
int64_schema n b = record { column = record { name = n; data_type = int64; nullable = b } }

pub data InsertError : Type 0 where
  null_not_allowed : (column : Bytes) → InsertError
  row_cap_exceeded : (row_cap current_rows incoming_rows : ℕ) → InsertError

pub record Int64Table : Type 0 where
  pub schema : Schema
  pub values : List (Option ℤ)
  pub row_cap : ℕ

-- `Int64Table::new`
abbrev pub new_table : Schema → ℕ → Int64Table
new_table s cap = record { schema = s; values = []; row_cap = cap }

-- The name and nullability of the only column.
abbrev pub column_name : Int64Table → Bytes
column_name t = t.schema.column.name

abbrev pub is_nullable : Int64Table → Bool
is_nullable t = t.schema.column.nullable

unfoldable pub validate_append : Int64Table → List (Option ℤ) → Result InsertError (Unit {0})
validate_append t vs = do
  reject_if (ltb (t.row_cap - length t.values) (length vs))
      (row_cap_exceeded t.row_cap (length t.values) (length vs))
  reject_if (not (is_nullable t) && any is_none vs) (null_not_allowed (column_name t))

unfoldable pub append_batch :
    List (Option ℤ) → Int64Table → Int64Table × Result InsertError (Unit {0})
unfolding validate_append
append_batch vs t = elim (validate_append t vs) [
  | ok _ ↦ (record t { values = t.values ++ vs }, ok tt)
  | err e ↦ (t, err e)
]

unfoldable pub append : Option ℤ → Int64Table → Int64Table × Result InsertError (Unit {0})
unfolding validate_append
append v t = elim (validate_append t (v ∷ [])) [
  | ok _ ↦ (record t { values = t.values ++ (v ∷ []) }, ok tt)
  | err e ↦ (t, err e)
]
