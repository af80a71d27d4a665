-- ===== src/Examples/Statements.antt =====
-- SELECT statements on a table of four rows.
use rusthouse.Prelude.{◌≡◌, refl, true, Option, none, some, List, [], ◌∷◌, arith, take, ok}
use rusthouse.Prelude.Int.{ℤ, pos, negsuc}
use rusthouse.Prelude.Bytes.{Bytes}
use rusthouse.Storage.{Int64Table, int64_schema}
use rusthouse.Scan.{ge, is_not_null}
use rusthouse.Aggregate.{AggregateLimits}
use rusthouse.Order.{desc, last}
use rusthouse.Order.Sorted.{Row, row_values, IsOrdered}
use rusthouse.Statement.{
  ComparisonPredicate, SelectPredicate, comparison, nullness, OrderByClause, SelectStatement,
  ScalarCountStatement, ScalarSumStatement, column,
}
use rusthouse.Execution.{execute_select, execute_scalar_sum, execute_scalar_count}
use rusthouse.Execution.Select.{execute_select-values, execute_select-IsOrdered}
use rusthouse.Execution.Scalar.{sql_sum, execute_scalar_sum-sum, execute_scalar_count-count}
use mathlib.Core.List.{Perm}

abbrev t : Bytes
t = b't' ∷ []

abbrev v : Bytes
v = b'v' ∷ []

abbrev table : Int64Table
table = record {
  schema = int64_schema v true;
  values = some (pos 4) ∷ none ∷ some (negsuc 1) ∷ some (pos 9) ∷ [];
  row_cap = 10;
}

abbrev at_least_zero : ComparisonPredicate
at_least_zero = record { column_name = v; operator = ge; value = pos 0 }

abbrev not_null : SelectPredicate
not_null = nullness (record { column_name = v; predicate = is_not_null })

-- SELECT v FROM t WHERE v IS NOT NULL LIMIT 2
abbrev select_two : SelectStatement
select_two = record {
  column_name = v;
  table_name = t;
  predicate = some not_null;
  order_by = none;
  limit = some 2;
}

execute_select-values_example :
    execute_select t table select_two ≡ ok (some (pos 4) ∷ some (negsuc 1) ∷ [])
execute_select-values_example =
    execute_select-values t table select_two
      (record { table_name = refl; column = refl; where_column = refl; order_column = tt }) refl

-- SELECT v FROM t WHERE v >= 0 ORDER BY v DESC NULLS LAST
abbrev descending : OrderByClause
descending = record { column_name = v; direction = desc; null_order = last }

abbrev select_ordered_rows : SelectStatement
select_ordered_rows = record {
  column_name = v;
  table_name = t;
  predicate = some (comparison at_least_zero);
  order_by = some descending;
  limit = none;
}

abbrev kept : List (Option ℤ)
kept = some (pos 4) ∷ some (pos 9) ∷ []

execute_select-IsOrdered_example :
    (rows : List Row) × IsOrdered desc last rows
    × Perm rows ((0, some (pos 4)) ∷ (1, some (pos 9)) ∷ [])
    × (execute_select t table select_ordered_rows ≡ ok (row_values (take 4 rows)))
execute_select-IsOrdered_example =
    execute_select-IsOrdered t table select_ordered_rows descending
      (record { table_name = refl; column = refl; where_column = refl; order_column = refl })
      (omega arith) refl

abbrev limits : AggregateLimits
limits = record { max_input_rows = 4; max_selected_rows = 2 }

-- SELECT SUM(v) FROM t WHERE v >= 0
abbrev sum_statement : ScalarSumStatement
sum_statement = record { column_name = v; table_name = t; predicate = some at_least_zero }

execute_scalar_sum-sum_example : execute_scalar_sum t table sum_statement limits ≡ sql_sum kept
execute_scalar_sum-sum_example =
    execute_scalar_sum-sum t table sum_statement limits refl refl refl (omega arith) (omega arith)

-- SELECT COUNT(v) FROM t WHERE v >= 0
abbrev count_statement : ScalarCountStatement
count_statement = record { argument = column v; table_name = t; predicate = some at_least_zero }

execute_scalar_count-count_example : execute_scalar_count t table count_statement limits ≡ ok 2
execute_scalar_count-count_example =
    execute_scalar_count-count t table count_statement limits refl refl refl (omega arith)
      (omega arith)
