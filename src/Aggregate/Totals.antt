-- ===== src/Aggregate/Totals.antt =====
-- What COUNT and SUM compute.
use rusthouse.Prelude.{
  ℕ, ◌+◌, ◌≤◌, ◌≡◌, refl, ◌∙◌, Bool, Option, none, some, List, [], ◌∷◌, arith, ◌==◌, if◌then◌else◌,
  length, filter, Result, ok, err,
}
use rusthouse.Prelude.Int.{ℤ, pos, ◌+ℤ◌, int_laws, +ℤ_assoc, zero-+ℤ, is_i64, is_some}
use rusthouse.Aggregate.{
  aggregate_loop, aggregate_values, NullableI64Aggregates, AggregateError, sum_overflow,
}
use mathlib.Core.Path.{ap₂}
use rusthouse.Aggregate.{
  RowSelection, all_rows, indices, row_count, AggregateLimits, selected_values,
  aggregate_nullable_i64, count_nullable_i64,
}
use rusthouse.Aggregate.Selection.{validate_aggregate_input-ok_iff, IsValidSelection}
use rusthouse.Scan.{ScanLimits, scan_matching_rows}
use rusthouse.Scan.Matching.{project-scan, scan-IsSelection}

-- The exact sum of the values that are not NULL.
abbrev pub sum_of : List (Option ℤ) → ℤ
sum_of [] = pos 0
sum_of (none ∷ vs) = sum_of vs
sum_of (some v ∷ vs) = v +ℤ sum_of vs

-- `COUNT(column)`
abbrev pub count_of : List (Option ℤ) → ℕ
count_of vs = length (filter is_some vs)

aggregate_loop-lem :
    (vs : List (Option ℤ)) (c : ℕ) (s : ℤ)
    → aggregate_loop vs c s ≡ (c + count_of vs, s +ℤ sum_of vs)
unfolding aggregate_loop
aggregate_loop-lem [] c s = ap₂ (λ a b. (a, b)) (omega arith) (omega int_laws)
aggregate_loop-lem (none ∷ vs) c s = aggregate_loop-lem vs c s
aggregate_loop-lem (some v ∷ vs) c s =
    aggregate_loop-lem vs (c + 1) (s +ℤ v)
    ∙ ap₂ (λ a b. (a, b)) (omega arith) (+ℤ_assoc s v (sum_of vs))

-- COUNT, and SUM, as functions of the values alone.
abbrev pub totals : List (Option ℤ) → ℕ → Result AggregateError NullableI64Aggregates
totals vs star =
    if count_of vs == 0
    then ok (record { count_star = star; count_column = 0; sum = none })
    else if is_i64 (sum_of vs)
    then ok (record { count_star = star; count_column = count_of vs; sum = some (sum_of vs) })
    else err (sum_overflow (sum_of vs))

aggregate_values-totals :
    (vs : List (Option ℤ)) (star : ℕ) → aggregate_values vs star ≡ totals vs star
unfolding aggregate_values
aggregate_values-totals vs star = rw (aggregate_loop-lem vs 0 (pos 0), zero-+ℤ) (ground arith)

-- On a well-formed selection within the bounds, the aggregate is the number of selected rows, the
-- number of selected values that are not NULL and their exact sum, which is NULL if there is
-- none, and an overflow error exactly if it is no 64-bit integer.
pub aggregate_nullable_i64-totals :
    (values : List (Option ℤ)) (s : RowSelection) (limits : AggregateLimits)
    → length values ≤ limits.max_input_rows
    → row_count s (length values) ≤ limits.max_selected_rows
    → IsValidSelection s (length values)
    → aggregate_nullable_i64 values s limits
      ≡ totals (selected_values values s) (row_count s (length values))
unfolding aggregate_nullable_i64
aggregate_nullable_i64-totals values s limits a b v =
    rw ((validate_aggregate_input-ok_iff (length values) s limits _).1 (a, b, v, refl))
      (aggregate_values-totals (selected_values values s) (row_count s (length values)))

-- An aggregate over the rows of an accepted scan, within the aggregate bounds, passes validation
-- and is the aggregate of the matching values.
pub aggregate-scan :
    (values : List (Option ℤ)) (p : Option ℤ → Bool) (scan_limits : ScanLimits)
    (limits : AggregateLimits) (rows : List ℕ)
    → scan_matching_rows values scan_limits p ≡ ok rows
    → length values ≤ limits.max_input_rows
    → length rows ≤ limits.max_selected_rows
    → aggregate_nullable_i64 values (indices rows) limits
      ≡ totals (filter p values) (length (filter p values))
aggregate-scan values p sl limits rows h a b =
    let (q, n) = project-scan values sl p rows h in
    aggregate_nullable_i64-totals values (indices rows) limits a b
      (scan-IsSelection values sl p rows h)
    ∙ ap₂ totals q n

-- The counts of an accepted COUNT: all the selected rows, and those that are not NULL.
pub count_nullable_i64-counts :
    (values : List (Option ℤ)) (p : Option ℤ → Bool) (scan_limits : ScanLimits)
    (limits : AggregateLimits) (rows : List ℕ)
    → scan_matching_rows values scan_limits p ≡ ok rows
    → length values ≤ limits.max_input_rows
    → length rows ≤ limits.max_selected_rows
    → count_nullable_i64 values (indices rows) limits
      ≡ ok (record {
        count_star = length (filter p values);
        count_column = count_of (filter p values);
      })
unfolding count_nullable_i64
count_nullable_i64-counts values p sl limits rows h a b =
    let (q, n) = project-scan values sl p rows h in
    let valid = scan-IsSelection values sl p rows h in
    rw
      ((validate_aggregate_input-ok_iff (length values) (indices rows) limits _).1
        (a, b, valid, refl))
      (ap₂ (λ c (vs : List (Option ℤ)). ok (record { count_star = c; count_column = count_of vs }))
        n q)

pub count_nullable_i64-all :
    (values : List (Option ℤ)) (limits : AggregateLimits)
    → length values ≤ limits.max_input_rows
    → length values ≤ limits.max_selected_rows
    → count_nullable_i64 values all_rows limits
      ≡ ok (record { count_star = length values; count_column = count_of values })
unfolding count_nullable_i64
count_nullable_i64-all values limits a b =
    rw ((validate_aggregate_input-ok_iff (length values) all_rows limits _).1 (a, b, tt, refl))
