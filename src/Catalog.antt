-- ===== src/Catalog.antt =====
-- src/catalog.rs: the bounded catalog of named tables. The `HashMap` is an association list with
-- at most one entry for a name; its order is never looked at. A method on `&mut self` returns the
-- catalog that it leaves beside its result. The statements are parsed
-- already.
pub mod Tables
pub mod Creation
pub mod Invariant
pub mod Queries
pub mod Loads
pub mod Text
pub mod Access
pub mod Sessions
pub mod Reachability
use rusthouse.Prelude.{
  ℕ, Bool, true, false, ◌&&◌, Option, none, some, List, [], ◌∷◌, leb, if◌then◌else◌, saturating_add,
  length, Result, ok, err, ◌>>=◌, ◌>>◌, map_err, ok_or,
}
use rusthouse.Prelude.Int.{ℤ, is_some}
use rusthouse.Prelude.Bytes.{Bytes, bytes_eq, eq_ignore_ascii_case}
use rusthouse.Storage.{Int64Table, int64_schema, new_table}
use rusthouse.Scan.{ScanLimits}
use rusthouse.Aggregate.{AggregateLimits}
use rusthouse.Distinct.{DistinctLimits}
use rusthouse.Join.{JoinLimits}
use rusthouse.Parser.{ParseError}
use rusthouse.Statement.{
  CreateTableStatement, InsertStatement, SelectStatement, InnerJoinStatement, LeftJoinStatement,
  ScalarCountStatement, ScalarSumStatement, ScalarMinStatement, SelectDistinctStatement,
}
use rusthouse.Execution.{
  InsertExecutionError, SelectExecutionError, SelectDistinctExecutionError, execute_insert,
  execute_scalar_count, execute_scalar_count_with_limits, execute_scalar_sum_with_limits,
  execute_scalar_min, execute_select_with_order_limits, execute_select_distinct,
}
use rusthouse.Execution.Joins.{
  InnerJoinExecutionError, LeftJoinExecutionError, execute_inner_join, execute_left_join,
}

pub record CatalogLimits : Type 0 where
  pub max_tables : ℕ
  pub max_rows_per_table : ℕ

pub data CatalogError : Type 0 where
  parse_failed : ParseError → CatalogError
  table_already_exists : (name : Bytes) → CatalogError
  table_limit_exceeded : (tables max_tables : ℕ) → CatalogError
  insert_failed : InsertExecutionError → CatalogError
  select_failed : SelectExecutionError → CatalogError
  select_distinct_failed : SelectDistinctExecutionError → CatalogError
  inner_join_failed : InnerJoinExecutionError → CatalogError
  left_join_failed : LeftJoinExecutionError → CatalogError

abbrev pub Tables : Type 0
Tables = List (Bytes × Int64Table)

-- `tables.get(name)`
unfoldable pub get : Bytes → Tables → Option Int64Table
get name [] = none
get name ((key, table) ∷ tables) = if bytes_eq key name then some table else get name tables

-- A write through `tables.get_mut(name)`.
unfoldable pub set : Bytes → Int64Table → Tables → Tables
set name table [] = []
set name table ((key, old) ∷ tables) =
    if bytes_eq key name then (key, table) ∷ tables else (key, old) ∷ set name table tables

-- `tables.keys().any(|existing| existing.eq_ignore_ascii_case(name))`
unfoldable pub any_ignore_ascii_case : Bytes → Tables → Bool
any_ignore_ascii_case name [] = false
any_ignore_ascii_case name ((key, table) ∷ tables) =
    if eq_ignore_ascii_case key name then true else any_ignore_ascii_case name tables

pub record Catalog : Type 0 where
  pub tables : Tables
  pub limits : CatalogLimits

-- `Catalog::new`
abbrev pub new_catalog : CatalogLimits → Catalog
new_catalog limits = record { tables = []; limits = limits }

-- `Catalog::len`
abbrev pub len : Catalog → ℕ
len c = length c.tables

unfoldable pub create : CreateTableStatement → Catalog → Catalog × Result CatalogError (Unit {0})
create statement c =
    let name = statement.table_name in
    if statement.if_not_exists && any_ignore_ascii_case name c.tables
    then (c, ok tt)
    else if is_some (get name c.tables)
    then (c, err (table_already_exists name))
    else if leb c.limits.max_tables (length c.tables)
    then (c, err (table_limit_exceeded (saturating_add (length c.tables) 1) c.limits.max_tables))
    else let column = statement.column in
      let table =
        new_table (int64_schema column.name column.nullable) c.limits.max_rows_per_table in
      (record c { tables = (name, table) ∷ c.tables }, ok tt)

-- The table of a statement, or an error.
abbrev pub find : {E : Type 0} → Bytes → Catalog → E → Result E Int64Table
find name c e = ok_or (get name c.tables) e

unfoldable pub insert : InsertStatement → Catalog → Catalog × Result CatalogError (Unit {0})
insert statement c =
    let name = statement.table_name in
    elim (get name c.tables) [
      | none ↦ (c, err (insert_failed (InsertExecutionError.unknown_table name)))
      | some table ↦
          let (table', result) = execute_insert name statement table in
          (record c { tables = set name table' c.tables }, map_err insert_failed result)
    ]

abbrev pub unknown_select_table : Bytes → CatalogError
unknown_select_table name = select_failed (SelectExecutionError.unknown_table name)

unfoldable pub scalar_count :
    ScalarCountStatement → AggregateLimits → Catalog → Result CatalogError ℕ
scalar_count statement limits c = do
  let name = statement.table_name
  table ← find name c (unknown_select_table name)
  map_err select_failed (execute_scalar_count name table statement limits)

unfoldable pub scalar_count_with_limits :
    ScalarCountStatement → ScanLimits → AggregateLimits → Catalog → Result CatalogError ℕ
scalar_count_with_limits statement scan_limits aggregate_limits c = do
  let name = statement.table_name
  table ← find name c (unknown_select_table name)
  map_err select_failed
      (execute_scalar_count_with_limits name table statement scan_limits aggregate_limits)

unfoldable pub scalar_sum_with_limits :
    ScalarSumStatement → ScanLimits → AggregateLimits → Catalog → Result CatalogError (Option ℤ)
scalar_sum_with_limits statement scan_limits aggregate_limits c = do
  let name = statement.table_name
  table ← find name c (unknown_select_table name)
  map_err select_failed
      (execute_scalar_sum_with_limits name table statement scan_limits aggregate_limits)

-- Scan bounds at the catalog's row cap.
abbrev pub cap_limits : Catalog → ScanLimits
cap_limits c = record {
  max_input_rows = c.limits.max_rows_per_table;
  max_result_rows = c.limits.max_rows_per_table;
}

unfoldable pub scalar_sum :
    ScalarSumStatement → AggregateLimits → Catalog → Result CatalogError (Option ℤ)
unfolding scalar_sum_with_limits
scalar_sum statement limits c = scalar_sum_with_limits statement (cap_limits c) limits c

unfoldable pub scalar_min :
    ScalarMinStatement → AggregateLimits → Catalog → Result CatalogError (Option ℤ)
scalar_min statement limits c = do
  let name = statement.table_name
  table ← find name c (unknown_select_table name)
  map_err select_failed (execute_scalar_min name table statement limits)

unfoldable pub select_with_limits :
    SelectStatement → ScanLimits → Catalog → Result CatalogError (List (Option ℤ))
select_with_limits statement scan_limits c = do
  let name = statement.table_name
  table ← find name c (unknown_select_table name)
  map_err select_failed (
      execute_select_with_order_limits name table statement scan_limits (record {
        max_input_rows = c.limits.max_rows_per_table;
        max_limit = c.limits.max_rows_per_table;
      }))

unfoldable pub select : SelectStatement → Catalog → Result CatalogError (List (Option ℤ))
unfolding select_with_limits
select statement c = select_with_limits statement (cap_limits c) c

unfoldable pub inner_join :
    InnerJoinStatement → JoinLimits → Catalog → Result CatalogError (List (Option ℤ))
inner_join statement limits c = do
  let left_name = statement.left_table_name
  let right_name = statement.right_table_name
  left_table ←
      find left_name c (inner_join_failed (InnerJoinExecutionError.unknown_table left_name))
  right_table ←
      find right_name c (inner_join_failed (InnerJoinExecutionError.unknown_table right_name))
  map_err inner_join_failed
      (execute_inner_join left_name left_table right_name right_table statement limits)

unfoldable pub left_join :
    LeftJoinStatement → JoinLimits → Catalog → Result CatalogError (List (Option ℤ))
left_join statement limits c = do
  let left_name = statement.left_table_name
  let right_name = statement.right_table_name
  left_table ← find left_name c (left_join_failed (LeftJoinExecutionError.unknown_table left_name))
  right_table ←
      find right_name c (left_join_failed (LeftJoinExecutionError.unknown_table right_name))
  map_err left_join_failed
      (execute_left_join left_name left_table right_name right_table statement limits)

unfoldable pub select_distinct :
    SelectDistinctStatement → DistinctLimits → Catalog → Result CatalogError (List (Option ℤ))
select_distinct statement limits c = do
  let name = statement.table_name
  table ← find name c (select_distinct_failed (SelectDistinctExecutionError.unknown_table name))
  map_err select_distinct_failed (execute_select_distinct name table statement limits)
