-- ===== src/Catalog/Text.antt =====
-- src/catalog.rs: the operations of the catalog on the text of a statement.
use rusthouse.Prelude.{ℕ, Option, List, Result, ok, err, ◌>>=◌, map_err}
use rusthouse.Prelude.Int.{ℤ}
use rusthouse.Prelude.Bytes.{Bytes}
use rusthouse.Scan.{ScanLimits}
use rusthouse.Aggregate.{AggregateLimits}
use rusthouse.Distinct.{DistinctLimits}
use rusthouse.Join.{JoinLimits}
use rusthouse.Parser.{ParseLimits}
use rusthouse.Parser.Sql.{
  parse_create_table, parse_insert, parse_select, parse_inner_join, parse_left_join,
  parse_scalar_count, parse_scalar_sum, parse_scalar_min, parse_select_distinct,
}
use rusthouse.Catalog.{
  Catalog, CatalogError, parse_failed, create, insert, cap_limits, scalar_count,
  scalar_count_with_limits, scalar_sum_with_limits, scalar_min, select_with_limits, inner_join,
  left_join, select_distinct,
}

unfoldable pub execute_create :
    Bytes → ParseLimits → Catalog → Catalog × Result CatalogError (Unit {0})
unfolding parse_create_table create
execute_create input parse_limits c = elim (parse_create_table input parse_limits) [
  | ok statement ↦ create statement c
  | err e ↦ (c, err (parse_failed e))
]

unfoldable pub execute_insert :
    Bytes → ParseLimits → Catalog → Catalog × Result CatalogError (Unit {0})
unfolding parse_insert insert
execute_insert input parse_limits c = elim (parse_insert input parse_limits) [
  | ok statement ↦ insert statement c
  | err e ↦ (c, err (parse_failed e))
]

unfoldable pub execute_scalar_count_with_limits :
    Bytes → ParseLimits → ScanLimits → AggregateLimits → Catalog → Result CatalogError ℕ
unfolding parse_scalar_count scalar_count_with_limits
execute_scalar_count_with_limits input parse_limits scan_limits aggregate_limits c = do
  statement ← map_err parse_failed (parse_scalar_count input parse_limits)
  scalar_count_with_limits statement scan_limits aggregate_limits c

unfoldable pub execute_scalar_count :
    Bytes → ParseLimits → AggregateLimits → Catalog → Result CatalogError ℕ
unfolding parse_scalar_count scalar_count
execute_scalar_count input parse_limits aggregate_limits c = do
  statement ← map_err parse_failed (parse_scalar_count input parse_limits)
  scalar_count statement aggregate_limits c

unfoldable pub execute_scalar_sum_with_limits :
    Bytes → ParseLimits → ScanLimits → AggregateLimits → Catalog → Result CatalogError (Option ℤ)
unfolding parse_scalar_sum scalar_sum_with_limits
execute_scalar_sum_with_limits input parse_limits scan_limits aggregate_limits c = do
  statement ← map_err parse_failed (parse_scalar_sum input parse_limits)
  scalar_sum_with_limits statement scan_limits aggregate_limits c

unfoldable pub execute_scalar_sum :
    Bytes → ParseLimits → AggregateLimits → Catalog → Result CatalogError (Option ℤ)
unfolding execute_scalar_sum_with_limits
execute_scalar_sum input parse_limits aggregate_limits c =
    execute_scalar_sum_with_limits input parse_limits (cap_limits c) aggregate_limits c

unfoldable pub execute_scalar_min :
    Bytes → ParseLimits → AggregateLimits → Catalog → Result CatalogError (Option ℤ)
unfolding parse_scalar_min scalar_min
execute_scalar_min input parse_limits aggregate_limits c = do
  statement ← map_err parse_failed (parse_scalar_min input parse_limits)
  scalar_min statement aggregate_limits c

unfoldable pub execute_select_with_limits :
    Bytes → ParseLimits → ScanLimits → Catalog → Result CatalogError (List (Option ℤ))
unfolding parse_select select_with_limits
execute_select_with_limits input parse_limits scan_limits c = do
  statement ← map_err parse_failed (parse_select input parse_limits)
  select_with_limits statement scan_limits c

unfoldable pub execute_select :
    Bytes → ParseLimits → Catalog → Result CatalogError (List (Option ℤ))
unfolding execute_select_with_limits
execute_select input parse_limits c = execute_select_with_limits input parse_limits (cap_limits c) c

unfoldable pub execute_inner_join :
    Bytes → ParseLimits → JoinLimits → Catalog → Result CatalogError (List (Option ℤ))
unfolding parse_inner_join inner_join
execute_inner_join input parse_limits join_limits c = do
  statement ← map_err parse_failed (parse_inner_join input parse_limits)
  inner_join statement join_limits c

unfoldable pub execute_left_join :
    Bytes → ParseLimits → JoinLimits → Catalog → Result CatalogError (List (Option ℤ))
unfolding parse_left_join left_join
execute_left_join input parse_limits join_limits c = do
  statement ← map_err parse_failed (parse_left_join input parse_limits)
  left_join statement join_limits c

unfoldable pub execute_select_distinct :
    Bytes → ParseLimits → DistinctLimits → Catalog → Result CatalogError (List (Option ℤ))
unfolding parse_select_distinct select_distinct
execute_select_distinct input parse_limits distinct_limits c = do
  statement ← map_err parse_failed (parse_select_distinct input parse_limits)
  select_distinct statement distinct_limits c
