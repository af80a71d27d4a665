-- ===== src/Aggregate.antt =====
-- src/aggregate.rs: row selections, and the bounded COUNT, MIN and SUM over a nullable column. The
-- counts are never more than the rows, and the exact sum of an `i128` is an integer.
pub mod Selection
pub mod Totals
pub mod Minimum
use rusthouse.Prelude.{
  ℕ, ◌+◌, Option, none, some, List, [], ◌∷◌, map, ltb, leb, ◌==◌, if◌then◌else◌, length, get_or,
  filter, Result, ok, err, ◌>>=◌, ◌>>◌, map_ok, reject_if,
}
use rusthouse.Prelude.Int.{ℤ, pos, ◌+ℤ◌, ltb_ℤ, is_i64, is_some}

-- `RowSelection`: the source's `All`, and `Indices`.
pub data RowSelection : Type 0 where
  all_rows : RowSelection
  indices : List ℕ → RowSelection

-- `RowSelection::row_count`
abbrev pub row_count : RowSelection → ℕ → ℕ
row_count all_rows input_rows = input_rows
row_count (indices rows) input_rows = length rows

pub record AggregateLimits : Type 0 where
  pub max_input_rows : ℕ
  pub max_selected_rows : ℕ

pub record NullableI64Counts : Type 0 where
  pub count_star : ℕ
  pub count_column : ℕ

pub record NullableI64Aggregates : Type 0 where
  pub count_star : ℕ
  pub count_column : ℕ
  pub sum : Option ℤ

pub data AggregateError : Type 0 where
  input_limit_exceeded : (rows max_rows : ℕ) → AggregateError
  selection_limit_exceeded : (rows max_rows : ℕ) → AggregateError
  selection_index_out_of_bounds : (selection_position row_index input_rows : ℕ) → AggregateError
  selection_not_strictly_increasing :
      (selection_position previous_row_index row_index : ℕ) → AggregateError
  sum_overflow : (sum : ℤ) → AggregateError

-- `if let Some(previous_row_index) = previous { if row_index <= previous_row_index { .. } }`
abbrev pub check_increasing : ℕ → Option ℕ → ℕ → Result AggregateError (Unit {0})
check_increasing position none row = ok tt
check_increasing position (some previous) row =
    reject_if (leb row previous) (selection_not_strictly_increasing position previous row)

-- The loop of `validate_selection` at a position, after the previous row.
unfoldable pub validate_rows : ℕ → Option ℕ → List ℕ → ℕ → Result AggregateError (Unit {0})
validate_rows position previous [] input_rows = ok tt
validate_rows position previous (row ∷ rows) input_rows = do
  reject_if (leb input_rows row) (selection_index_out_of_bounds position row input_rows)
  check_increasing position previous row
  validate_rows (position + 1) (some row) rows input_rows

unfoldable pub validate_selection : List ℕ → ℕ → Result AggregateError (Unit {0})
unfolding validate_rows
validate_selection rows input_rows = validate_rows 0 none rows input_rows

-- `if let RowSelection::Indices(indices) = selection { validate_selection(..)? }`
unfoldable pub validate_indices : RowSelection → ℕ → Result AggregateError (Unit {0})
unfolding validate_selection
validate_indices all_rows input_rows = ok tt
validate_indices (indices rows) input_rows = validate_selection rows input_rows

unfoldable pub validate_aggregate_input :
    ℕ → RowSelection → AggregateLimits → Result AggregateError ℕ
unfolding validate_indices
validate_aggregate_input input_rows selection limits = do
  reject_if (ltb limits.max_input_rows input_rows)
      (input_limit_exceeded input_rows limits.max_input_rows)
  let selected_rows = row_count selection input_rows
  reject_if (ltb limits.max_selected_rows selected_rows)
      (selection_limit_exceeded selected_rows limits.max_selected_rows)
  validate_indices selection input_rows
  ok selected_rows

-- The values that a selection names, in its order.
abbrev pub selected_values : List (Option ℤ) → RowSelection → List (Option ℤ)
selected_values values all_rows = values
selected_values values (indices rows) = map (λ row. get_or values row none) rows

unfoldable pub count_nullable_i64 :
    List (Option ℤ) → RowSelection → AggregateLimits → Result AggregateError NullableI64Counts
unfolding validate_aggregate_input
count_nullable_i64 values selection limits = do
  selected_rows ← validate_aggregate_input (length values) selection limits
  ok (record {
    count_star = selected_rows;
    count_column = length (filter is_some (selected_values values selection));
  })

-- `Iterator::min` over the values that are not NULL: of the least value so far and the next.
unfoldable pub min_values : Option ℤ → List (Option ℤ) → Option ℤ
min_values least [] = least
min_values least (none ∷ vs) = min_values least vs
min_values none (some v ∷ vs) = min_values (some v) vs
min_values (some m) (some v ∷ vs) = min_values (some (if ltb_ℤ v m then v else m)) vs

unfoldable pub min_nullable_i64 :
    List (Option ℤ) → RowSelection → AggregateLimits → Result AggregateError (Option ℤ)
unfolding validate_aggregate_input min_values
min_nullable_i64 values selection limits = do
  validate_aggregate_input (length values) selection limits
  ok (min_values none (selected_values values selection))

-- The loop of `aggregate_values`: the count and the exact sum so far.
unfoldable pub aggregate_loop : List (Option ℤ) → ℕ → ℤ → ℕ × ℤ
aggregate_loop [] count_column sum = (count_column, sum)
aggregate_loop (none ∷ vs) count_column sum = aggregate_loop vs count_column sum
aggregate_loop (some v ∷ vs) count_column sum = aggregate_loop vs (count_column + 1) (sum +ℤ v)

-- `i64::try_from(sum).map_err(..)`
abbrev pub sum_in_range : ℤ → Result AggregateError ℤ
sum_in_range sum = if is_i64 sum then ok sum else err (sum_overflow sum)

unfoldable pub aggregate_values : List (Option ℤ) → ℕ → Result AggregateError NullableI64Aggregates
unfolding aggregate_loop
aggregate_values values star =
    let (count, total) = aggregate_loop values 0 (pos 0) in
    do
      s ← (if count == 0 then ok none else map_ok some (sum_in_range total))
      ok (record { count_star = star; count_column = count; sum = s })

unfoldable pub aggregate_nullable_i64 :
    List (Option ℤ) → RowSelection → AggregateLimits → Result AggregateError NullableI64Aggregates
unfolding validate_aggregate_input aggregate_values
aggregate_nullable_i64 values selection limits = do
  selected_rows ← validate_aggregate_input (length values) selection limits
  aggregate_values (selected_values values selection) selected_rows
