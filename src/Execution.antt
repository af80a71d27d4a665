-- ===== src/Execution.antt =====
-- src/execution.rs: the execution of parsed statements on tables. A borrowed and an owned result
-- (`Cow`) are the same list; `?` converts an error by the constructor that `From` names.
pub mod Joins
pub mod Select
pub mod Scalar
use rusthouse.Prelude.{
  ℕ, min, not, Option, none, some, List, map, if◌then◌else◌, length, get_or, take, Result, ok, err,
  ◌>>=◌, ◌>>◌, map_err, map_ok, reject_if,
}
use rusthouse.Prelude.Int.{ℤ, is_some}
use rusthouse.Prelude.Bytes.{Bytes, bytes_eq}
use rusthouse.Storage
use rusthouse.Storage.{Int64Table, InsertError, column_name}
use rusthouse.Scan.{ScanLimits, ScanError, scan_nullable_i64, scan_nullable_i64_nullness}
use rusthouse.Aggregate.{
  AggregateLimits, AggregateError, RowSelection, all_rows, indices, count_nullable_i64,
  aggregate_nullable_i64, min_nullable_i64,
}
use rusthouse.Order.{OrderLimits, OrderError, order_nullable_i64}
use rusthouse.Distinct.{DistinctLimits, DistinctError, distinct_nullable_i64}
use rusthouse.Join.{
  JoinLimits, JoinError, JoinRowPair, LeftOuterJoinRowPair, inner_equi_join_nullable_i64,
  left_outer_equi_join_nullable_i64,
}
use rusthouse.Statement.{
  InsertStatement, ComparisonPredicate, SelectPredicate, comparison, nullness, predicate_column,
  OrderByClause, SelectStatement, InnerJoinStatement, LeftJoinStatement, ScalarCountStatement,
  argument_column, ScalarSumStatement, ScalarMinStatement, SelectDistinctStatement,
}

pub data InsertExecutionError : Type 0 where
  unknown_table : (name : Bytes) → InsertExecutionError
  insert_error : InsertError → InsertExecutionError

pub data SelectExecutionError : Type 0 where
  unknown_table : (name : Bytes) → SelectExecutionError
  unknown_column : (name : Bytes) → SelectExecutionError
  scan_error : ScanError → SelectExecutionError
  order_error : OrderError → SelectExecutionError
  aggregate_error : AggregateError → SelectExecutionError

pub data SelectDistinctExecutionError : Type 0 where
  unknown_table : (name : Bytes) → SelectDistinctExecutionError
  unknown_column : (name : Bytes) → SelectDistinctExecutionError
  distinct_error : DistinctError → SelectDistinctExecutionError

-- `if name != expected { return Err(error(name)); }`
abbrev pub expect_name : {E : Type 0} → (Bytes → E) → Bytes → Bytes → Result E (Unit {0})
expect_name error name expected = reject_if (not (bytes_eq name expected)) (error name)

-- The same for an optional name.
abbrev pub expect_column? : Option Bytes → Bytes → Result SelectExecutionError (Unit {0})
expect_column? none expected = ok tt
expect_column? (some name) expected = expect_name SelectExecutionError.unknown_column name expected

unfoldable pub execute_insert :
    Bytes → InsertStatement → Int64Table → Int64Table × Result InsertExecutionError (Unit {0})
execute_insert expected statement table =
    if not (bytes_eq statement.table_name expected)
    then (table, err (InsertExecutionError.unknown_table statement.table_name))
    else let (table', result) = Storage.append statement.value table in
      (table', map_err insert_error result)

-- `predicate.map(|predicate| scan_nullable_i64(..)).transpose()?`
abbrev pub scan_optional :
    Option ComparisonPredicate
    → List (Option ℤ)
    → ScanLimits
    → Result SelectExecutionError RowSelection
scan_optional none values limits = ok all_rows
scan_optional (some p) values limits =
    map_ok indices (map_err scan_error (scan_nullable_i64 values p.operator p.value limits))

-- The column of an optional predicate.
abbrev pub comparison_column? : Option ComparisonPredicate → Option Bytes
comparison_column? none = none
comparison_column? (some p) = some p.column_name

unfoldable pub execute_scalar_count_with_limits :
    Bytes
    → Int64Table
    → ScalarCountStatement
    → ScanLimits
    → AggregateLimits
    → Result SelectExecutionError ℕ
execute_scalar_count_with_limits expected table statement scan_limits aggregate_limits = do
  expect_name SelectExecutionError.unknown_table statement.table_name expected
  expect_column? (argument_column statement.argument) (column_name table)
  expect_column? (comparison_column? statement.predicate) (column_name table)
  selection ← scan_optional statement.predicate table.values scan_limits
  counts ← map_err aggregate_error (count_nullable_i64 table.values selection aggregate_limits)
  ok (
      if is_some (argument_column statement.argument)
      then counts.count_column
      else counts.count_star)

-- Scan bounds that admit every row.
abbrev pub row_limits : List (Option ℤ) → ScanLimits
row_limits values = record { max_input_rows = length values; max_result_rows = length values }

unfoldable pub execute_scalar_count :
    Bytes → Int64Table → ScalarCountStatement → AggregateLimits → Result SelectExecutionError ℕ
unfolding execute_scalar_count_with_limits
execute_scalar_count expected table statement limits =
    execute_scalar_count_with_limits expected table statement (row_limits table.values) limits

unfoldable pub execute_scalar_sum_with_limits :
    Bytes
    → Int64Table
    → ScalarSumStatement
    → ScanLimits
    → AggregateLimits
    → Result SelectExecutionError (Option ℤ)
execute_scalar_sum_with_limits expected table statement scan_limits aggregate_limits = do
  expect_name SelectExecutionError.unknown_table statement.table_name expected
  expect_name SelectExecutionError.unknown_column statement.column_name (column_name table)
  expect_column? (comparison_column? statement.predicate) (column_name table)
  selection ← scan_optional statement.predicate table.values scan_limits
  aggregates ←
      map_err aggregate_error (aggregate_nullable_i64 table.values selection aggregate_limits)
  ok aggregates.sum

unfoldable pub execute_scalar_sum :
    Bytes
    → Int64Table
    → ScalarSumStatement
    → AggregateLimits
    → Result SelectExecutionError (Option ℤ)
unfolding execute_scalar_sum_with_limits
execute_scalar_sum expected table statement limits =
    execute_scalar_sum_with_limits expected table statement (row_limits table.values) limits

unfoldable pub execute_scalar_min :
    Bytes
    → Int64Table
    → ScalarMinStatement
    → AggregateLimits
    → Result SelectExecutionError (Option ℤ)
execute_scalar_min expected table statement limits = do
  expect_name SelectExecutionError.unknown_table statement.table_name expected
  expect_name SelectExecutionError.unknown_column statement.column_name (column_name table)
  map_err aggregate_error (min_nullable_i64 table.values all_rows limits)

unfoldable pub scan_select_predicate :
    List (Option ℤ) → SelectPredicate → ScanLimits → Result ScanError (List ℕ)
scan_select_predicate values (comparison p) limits =
    scan_nullable_i64 values p.operator p.value limits
scan_select_predicate values (nullness p) limits =
    scan_nullable_i64_nullness values p.predicate limits

-- `rows.map(|row_index| values[row_index])`
abbrev pub values_at : List (Option ℤ) → List ℕ → List (Option ℤ)
values_at values rows = map (λ row. get_or values row none) rows

-- `limit().unwrap_or(rows)`
abbrev pub limit_or : Option ℕ → ℕ → ℕ
limit_or none rows = rows
limit_or (some limit) rows = limit

abbrev pub predicate_column? : Option SelectPredicate → Option Bytes
predicate_column? none = none
predicate_column? (some p) = some (predicate_column p)

-- The rows that an ORDER BY orders.
abbrev pub order_input :
    List (Option ℤ)
    → Option SelectPredicate
    → ScanLimits
    → Result SelectExecutionError (List (Option ℤ))
order_input values none limits = ok values
order_input values (some p) limits =
    map_ok (values_at values) (map_err scan_error (scan_select_predicate values p limits))

unfoldable pub select_ordered :
    List (Option ℤ)
    → Option SelectPredicate
    → OrderByClause
    → ℕ
    → ScanLimits
    → OrderLimits
    → Result SelectExecutionError (List (Option ℤ))
select_ordered values predicate order_by limit scan_limits order_limits = do
  input ← order_input values predicate scan_limits
  ordered_rows ←
      map_err order_error
        (order_nullable_i64 input order_by.direction order_by.null_order limit order_limits)
  ok (values_at input ordered_rows)

unfoldable pub select_unordered :
    List (Option ℤ)
    → Option SelectPredicate
    → ℕ
    → ScanLimits
    → Result SelectExecutionError (List (Option ℤ))
unfolding scan_select_predicate
select_unordered values none limit scan_limits = ok (take (min limit (length values)) values)
select_unordered values (some p) limit scan_limits = do
  matching_rows ← map_err scan_error (scan_select_predicate values p scan_limits)
  ok (values_at values (take limit matching_rows))

-- The part of `execute_select_with_order_limits` after the WHERE column is checked.
abbrev pub select_rows :
    List (Option ℤ)
    → Bytes
    → Option SelectPredicate
    → Option OrderByClause
    → ℕ
    → ScanLimits
    → OrderLimits
    → Result SelectExecutionError (List (Option ℤ))
select_rows values column predicate none limit scan_limits order_limits =
    select_unordered values predicate limit scan_limits
select_rows values column predicate (some order_by) limit scan_limits order_limits = do
  expect_name SelectExecutionError.unknown_column order_by.column_name column
  select_ordered values predicate order_by limit scan_limits order_limits

unfoldable pub execute_select_with_order_limits :
    Bytes
    → Int64Table
    → SelectStatement
    → ScanLimits
    → OrderLimits
    → Result SelectExecutionError (List (Option ℤ))
execute_select_with_order_limits expected table statement scan_limits order_limits = do
  expect_name SelectExecutionError.unknown_table statement.table_name expected
  expect_name SelectExecutionError.unknown_column statement.column_name (column_name table)
  expect_column? (predicate_column? statement.predicate) (column_name table)
  select_rows table.values (column_name table) statement.predicate statement.order_by
      (limit_or statement.limit (length table.values)) scan_limits order_limits

unfoldable pub execute_select_with_limits :
    Bytes
    → Int64Table
    → SelectStatement
    → ScanLimits
    → Result SelectExecutionError (List (Option ℤ))
unfolding execute_select_with_order_limits
execute_select_with_limits expected table statement scan_limits =
    execute_select_with_order_limits expected table statement scan_limits (record {
      max_input_rows = length table.values;
      max_limit = limit_or statement.limit (length table.values);
    })

unfoldable pub execute_select :
    Bytes → Int64Table → SelectStatement → Result SelectExecutionError (List (Option ℤ))
unfolding execute_select_with_limits
execute_select expected table statement =
    execute_select_with_limits expected table statement (row_limits table.values)

unfoldable pub execute_select_distinct :
    Bytes
    → Int64Table
    → SelectDistinctStatement
    → DistinctLimits
    → Result SelectDistinctExecutionError (List (Option ℤ))
execute_select_distinct expected table statement limits = do
  expect_name SelectDistinctExecutionError.unknown_table statement.table_name expected
  expect_name SelectDistinctExecutionError.unknown_column statement.column_name (column_name table)
  map_err distinct_error (distinct_nullable_i64 table.values limits)
