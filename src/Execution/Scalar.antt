-- ===== src/Execution/Scalar.antt =====
-- The scalar SELECTs: COUNT, SUM and MIN with an optional WHERE.
use rusthouse.Prelude.{
  ◌≤◌, ◌≡◌, refl, Option, none, some, List, arith, ◌==◌, if◌then◌else◌, length, filter, Result, ok,
  err,
}
use rusthouse.Prelude.Int.{ℤ, is_i64, is_some}
use rusthouse.Prelude.Bytes.{Bytes, bytes_eq_refl}
use rusthouse.Storage.{Int64Table, column_name}
use rusthouse.Scan.{scan_nullable_i64, matches_comparison}
use rusthouse.Scan.Matching.{matching_rows, scan-within, project-scan}
use rusthouse.Aggregate.{
  AggregateLimits, AggregateError, RowSelection, all_rows, indices, aggregate_nullable_i64,
  count_nullable_i64,
}
use rusthouse.Aggregate.Totals.{
  totals, aggregate_nullable_i64-totals, aggregate-scan, count_of, sum_of,
  count_nullable_i64-counts, count_nullable_i64-all,
}
use rusthouse.Statement.{
  ComparisonPredicate, ScalarCountStatement, ScalarSumStatement, argument_column,
}
use rusthouse.Execution.{
  SelectExecutionError, aggregate_error, scan_optional, comparison_column?, row_limits,
  execute_scalar_count, execute_scalar_sum,
}
use rusthouse.Execution.Select.{Names, expect_column?-ok}

-- The values that an optional comparison keeps.
abbrev pub kept_values : Option ComparisonPredicate → List (Option ℤ) → List (Option ℤ)
kept_values none values = values
kept_values (some p) values = filter (matches_comparison p.operator p.value) values

-- The rows that an optional comparison selects.
abbrev kept_rows : Option ComparisonPredicate → List (Option ℤ) → RowSelection
kept_rows none values = all_rows
kept_rows (some p) values = indices (matching_rows (matches_comparison p.operator p.value) 0 values)

scan_optional-kept :
    (predicate : Option ComparisonPredicate) (values : List (Option ℤ))
    → scan_optional predicate values (row_limits values) ≡ ok (kept_rows predicate values)
unfolding scan_nullable_i64
scan_optional-kept none values = refl
scan_optional-kept (some p) values = rw (
    scan-within values (row_limits values) (matches_comparison p.operator p.value) (omega arith)
      (omega arith))

module _ (values : List (Option ℤ)) (limits : AggregateLimits)
    (rows : length values ≤ limits.max_input_rows) where
  aggregate-kept :
      (predicate : Option ComparisonPredicate)
      → length (kept_values predicate values) ≤ limits.max_selected_rows
      → aggregate_nullable_i64 values (kept_rows predicate values) limits
        ≡ totals (kept_values predicate values) (length (kept_values predicate values))
  aggregate-kept none h = aggregate_nullable_i64-totals values all_rows limits rows h tt
  aggregate-kept (some p) h =
      let test = matches_comparison p.operator p.value in
      let scan = scan-within values (row_limits values) test (omega arith) (omega arith) in
      aggregate-scan values test (row_limits values) limits (matching_rows test 0 values) scan rows
        (omega (arith, (project-scan values (row_limits values) test _ scan).1))

  count-kept :
      (predicate : Option ComparisonPredicate)
      → length (kept_values predicate values) ≤ limits.max_selected_rows
      → count_nullable_i64 values (kept_rows predicate values) limits
        ≡ ok (record {
          count_star = length (kept_values predicate values);
          count_column = count_of (kept_values predicate values);
        })
  count-kept none h = count_nullable_i64-all values limits rows h
  count-kept (some p) h =
      let test = matches_comparison p.operator p.value in
      let scan = scan-within values (row_limits values) test (omega arith) (omega arith) in
      count_nullable_i64-counts values test (row_limits values) limits (matching_rows test 0 values)
        scan rows (omega (arith, (project-scan values (row_limits values) test _ scan).1))

-- The sum that SQL answers: NULL with no value, and an error if it is no `i64`.
abbrev pub sql_sum : List (Option ℤ) → Result SelectExecutionError (Option ℤ)
sql_sum vs =
    if count_of vs == 0
    then ok none
    else if is_i64 (sum_of vs)
    then ok (some (sum_of vs))
    else err (aggregate_error (AggregateError.sum_overflow (sum_of vs)))

-- A SELECT SUM whose names are those of the table, within the aggregate bounds, answers with the
-- exact sum of the values that WHERE keeps: NULL if all are NULL, and an error exactly if the sum
-- is no 64-bit integer.
pub execute_scalar_sum-sum :
    (expected : Bytes) (table : Int64Table) (statement : ScalarSumStatement)
    (limits : AggregateLimits)
    → statement.table_name ≡ expected
    → statement.column_name ≡ column_name table
    → Names (comparison_column? statement.predicate) (column_name table)
    → length table.values ≤ limits.max_input_rows
    → length (kept_values statement.predicate table.values) ≤ limits.max_selected_rows
    → execute_scalar_sum expected table statement limits
      ≡ sql_sum (kept_values statement.predicate table.values)
unfolding execute_scalar_sum
execute_scalar_sum-sum expected table statement limits t c w a b =
    rw
      (
        t,
        c,
        bytes_eq_refl expected,
        bytes_eq_refl (column_name table),
        expect_column?-ok (comparison_column? statement.predicate) (column_name table) w,
        scan_optional-kept statement.predicate table.values,
        aggregate-kept table.values limits a statement.predicate b,
      )
      (ground arith)

-- A SELECT COUNT whose names are those of the table, within the aggregate bounds, answers with
-- the number of rows that WHERE keeps for the star, and of those that are not NULL for the
-- column.
pub execute_scalar_count-count :
    (expected : Bytes) (table : Int64Table) (statement : ScalarCountStatement)
    (limits : AggregateLimits)
    → statement.table_name ≡ expected
    → Names (argument_column statement.argument) (column_name table)
    → Names (comparison_column? statement.predicate) (column_name table)
    → length table.values ≤ limits.max_input_rows
    → length (kept_values statement.predicate table.values) ≤ limits.max_selected_rows
    → execute_scalar_count expected table statement limits
      ≡ ok (
          if is_some (argument_column statement.argument)
          then count_of (kept_values statement.predicate table.values)
          else length (kept_values statement.predicate table.values))
unfolding execute_scalar_count
execute_scalar_count-count expected table statement limits t c w a b =
    rw
      (
        t,
        bytes_eq_refl expected,
        expect_column?-ok (argument_column statement.argument) (column_name table) c,
        expect_column?-ok (comparison_column? statement.predicate) (column_name table) w,
        scan_optional-kept statement.predicate table.values,
        count-kept table.values limits a statement.predicate b,
      )
      refl
