-- ===== src/Examples/Operators.antt =====
-- Scans, aggregates, orders, distinct values, groups and joins of small columns.
use rusthouse.Prelude.{◌≡◌, refl, Bool, Option, none, some, List, [], ◌∷◌, arith, take, ok, err}
use rusthouse.Prelude.Int.{ℤ, pos, negsuc, ◌+ℤ◌}
use rusthouse.Scan.{ScanLimits, scan_matching_rows, eq, matches_comparison, result_limit_exceeded}
use rusthouse.Scan.Matching.{scan_matching_rows-outcome, scan_outcome}
use rusthouse.Aggregate.{
  AggregateLimits, all_rows, indices, aggregate_nullable_i64, min_nullable_i64,
}
use rusthouse.Aggregate.Totals.{totals, aggregate_nullable_i64-totals, aggregate-scan}
use rusthouse.Aggregate.Minimum.{IsMinimum, min_nullable_i64-IsMinimum}
use rusthouse.Order.{
  desc, last, OrderLimits, OrderKey, order_nullable_i64, order_loop, new_key, key_ltb, offer, push,
  ascending_rank, replace_worst,
}
use rusthouse.Order.Heap.{IsSorted}
use rusthouse.Order.Ranks.{key_ltb-new_key, row_before}
use rusthouse.Order.Rows.{keys_from, source_rows, order_nullable_i64-top}
use rusthouse.Distinct.{DistinctLimits, distinct_nullable_i64, contains, insert}
use rusthouse.Distinct.Set.{IsAscending}
use rusthouse.Distinct.Outcome.{
  distinct_nullable_i64-outcome, distinct_outcome, distinct_nullable_i64-set,
}
use rusthouse.Grouping.{
  GroupedCountLimits, Groups, grouped_count_nullable_i64, insert_group, increment,
}
use rusthouse.Grouping.Counts.{
  keys, count_in, total_count, occurrences, grouped_count_nullable_i64-counts,
}
use rusthouse.Join.{
  JoinLimits, JoinRowPair, LeftOuterJoinRowPair, inner_equi_join_nullable_i64,
  left_outer_equi_join_nullable_i64, get, push_row,
}
use rusthouse.Join.Pairs.{inner_join, left_outer_join}
use rusthouse.Join.Outcome.{
  join_outcome, inner_equi_join_nullable_i64-outcome, left_outer_equi_join_nullable_i64-outcome,
}
use mathlib.Core.List.{Perm}

-- 4, NULL, -2, 4
abbrev column : List (Option ℤ)
column = some (pos 4) ∷ none ∷ some (negsuc 1) ∷ some (pos 4) ∷ []

abbrev is_four : Option ℤ → Bool
is_four = matches_comparison eq (pos 4)

abbrev scan_limits : ScanLimits
scan_limits = record { max_input_rows = 4; max_result_rows = 2 }

abbrev tight_limits : ScanLimits
tight_limits = record { max_input_rows = 4; max_result_rows = 1 }

scan_fours : scan_matching_rows column scan_limits is_four ≡ ok (0 ∷ 3 ∷ [])
unfolding scan_matching_rows
scan_fours = refl

scan_too_many : scan_matching_rows column tight_limits is_four ≡ err (result_limit_exceeded 2 1)
unfolding scan_matching_rows
scan_too_many = refl

scan_matching_rows-outcome_example :
    scan_matching_rows column tight_limits is_four ≡ scan_outcome column tight_limits is_four
scan_matching_rows-outcome_example = scan_matching_rows-outcome column tight_limits is_four

abbrev aggregate_limits : AggregateLimits
aggregate_limits = record { max_input_rows = 4; max_selected_rows = 4 }

aggregate_column :
    aggregate_nullable_i64 column all_rows aggregate_limits
    ≡ ok (record { count_star = 4; count_column = 3; sum = some (pos 6) })
unfolding aggregate_nullable_i64 ◌+ℤ◌
aggregate_column = refl

aggregate_nullable_i64-totals_example :
    aggregate_nullable_i64 column (indices (1 ∷ 2 ∷ [])) aggregate_limits
    ≡ totals (none ∷ some (negsuc 1) ∷ []) 2
aggregate_nullable_i64-totals_example =
    aggregate_nullable_i64-totals column (indices (1 ∷ 2 ∷ [])) aggregate_limits (omega arith)
      (omega arith) (omega arith)

aggregate-scan_example :
    aggregate_nullable_i64 column (indices (0 ∷ 3 ∷ [])) aggregate_limits
    ≡ totals (some (pos 4) ∷ some (pos 4) ∷ []) 2
aggregate-scan_example =
    aggregate-scan column is_four scan_limits aggregate_limits (0 ∷ 3 ∷ []) scan_fours (omega arith)
      (omega arith)

min_column : min_nullable_i64 column all_rows aggregate_limits ≡ ok (some (negsuc 1))
unfolding min_nullable_i64
min_column = refl

min_nullable_i64-IsMinimum_example : IsMinimum column (some (negsuc 1))
min_nullable_i64-IsMinimum_example =
    min_nullable_i64-IsMinimum column all_rows aggregate_limits (some (negsuc 1)) min_column

abbrev order_limits : OrderLimits
order_limits = record { max_input_rows = 4; max_limit = 3 }

order_column : order_nullable_i64 column desc last 3 order_limits ≡ ok (0 ∷ 3 ∷ 2 ∷ [])
unfolding order_nullable_i64 order_loop offer push key_ltb new_key ascending_rank replace_worst
order_column = refl

key_ltb-new_key_example :
    key_ltb (new_key (some (negsuc 1)) 2 desc last) (new_key (some (pos 4)) 3 desc last)
    ≡ row_before desc last (some (negsuc 1)) 2 (some (pos 4)) 3
key_ltb-new_key_example =
    key_ltb-new_key desc last (some (negsuc 1)) (some (pos 4)) 2 3 (omega arith) (omega arith)

order_nullable_i64-top_example :
    (sorted : List OrderKey) × IsSorted sorted
    × Perm sorted (keys_from desc last 0 column)
    × (order_nullable_i64 column desc last 3 order_limits ≡ ok (source_rows (take 3 sorted)))
order_nullable_i64-top_example =
    order_nullable_i64-top desc last column 3 order_limits (omega arith) (omega arith)

abbrev distinct_limits : DistinctLimits
distinct_limits = record { max_input_rows = 4; max_distinct_values = 3 }

abbrev distinct_column : List (Option ℤ)
distinct_column = none ∷ some (negsuc 1) ∷ some (pos 4) ∷ []

distinct_run : distinct_nullable_i64 column distinct_limits ≡ ok distinct_column
unfolding distinct_nullable_i64 contains insert
distinct_run = refl

distinct_nullable_i64-outcome_example :
    distinct_nullable_i64 column distinct_limits ≡ distinct_outcome column distinct_limits
distinct_nullable_i64-outcome_example = distinct_nullable_i64-outcome column distinct_limits

distinct_nullable_i64-set_example :
    IsAscending distinct_column × ((v : Option ℤ) → contains v distinct_column ≡ contains v column)
distinct_nullable_i64-set_example =
    distinct_nullable_i64-set column distinct_limits distinct_column distinct_run

abbrev group_limits : GroupedCountLimits
group_limits = record { max_input_rows = 4; max_distinct_groups = 3 }

abbrev groups : Groups
groups =
    record { key = none; count = 1 }
    ∷ record { key = some (negsuc 1); count = 1 }
    ∷ record { key = some (pos 4); count = 2 }
    ∷ []

group_run : grouped_count_nullable_i64 column group_limits ≡ ok groups
unfolding grouped_count_nullable_i64 insert_group increment
group_run = refl

grouped_count_nullable_i64-counts_example :
    IsAscending (keys groups)
    × ((k : Option ℤ) → count_in k groups ≡ occurrences k column)
    × (total_count groups ≡ 4)
grouped_count_nullable_i64-counts_example =
    grouped_count_nullable_i64-counts column group_limits groups group_run

abbrev right_column : List (Option ℤ)
right_column = some (pos 4) ∷ none ∷ some (pos 4) ∷ []

abbrev join_limits : JoinLimits
join_limits = record { max_input_rows = 4; max_output_pairs = 6 }

abbrev inner_rows : List JoinRowPair
inner_rows =
    record { left_row = 0; right_row = 0 }
    ∷ record { left_row = 0; right_row = 2 }
    ∷ record { left_row = 3; right_row = 0 }
    ∷ record { left_row = 3; right_row = 2 }
    ∷ []

abbrev outer_rows : List LeftOuterJoinRowPair
outer_rows =
    record { left_row = 0; right_row = some 0 }
    ∷ record { left_row = 0; right_row = some 2 }
    ∷ record { left_row = 1; right_row = none }
    ∷ record { left_row = 2; right_row = none }
    ∷ record { left_row = 3; right_row = some 0 }
    ∷ record { left_row = 3; right_row = some 2 }
    ∷ []

inner_run : inner_equi_join_nullable_i64 column right_column join_limits ≡ ok inner_rows
unfolding inner_equi_join_nullable_i64 get push_row
inner_run = refl

outer_run : left_outer_equi_join_nullable_i64 column right_column join_limits ≡ ok outer_rows
unfolding left_outer_equi_join_nullable_i64 get push_row
outer_run = refl

inner_equi_join_nullable_i64-outcome_example :
    inner_equi_join_nullable_i64 column right_column join_limits
    ≡ join_outcome column right_column join_limits (inner_join 0 column right_column)
inner_equi_join_nullable_i64-outcome_example =
    inner_equi_join_nullable_i64-outcome column right_column join_limits

left_outer_equi_join_nullable_i64-outcome_example :
    left_outer_equi_join_nullable_i64 column right_column join_limits
    ≡ join_outcome column right_column join_limits (left_outer_join 0 column right_column)
left_outer_equi_join_nullable_i64-outcome_example =
    left_outer_equi_join_nullable_i64-outcome column right_column join_limits
