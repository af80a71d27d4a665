-- ===== src/Execution/Select.antt =====
-- A projection SELECT answers with the values that its clauses describe.
use rusthouse.Prelude.{
  ℕ, zero, suc, ◌≤◌, ◌≡◌, refl, ap, ◌∙◌, subst, Bool, Option, none, some, List, [], ◌∷◌, map, arith,
  length, get_or, take, filter, All, Bool-cases, inl, inr, take-min, length-filter, ok,
}
use rusthouse.Prelude.Int.{ℤ}
use rusthouse.Prelude.Bytes.{Bytes, bytes_eq_refl}
use rusthouse.Storage.{Int64Table, column_name}
use rusthouse.Scan.{
  ScanLimits, scan_nullable_i64, scan_nullable_i64_nullness, matches_comparison, matches_null,
}
use rusthouse.Scan.Matching.{matching_rows, scan-within, project-matching_rows}
use rusthouse.Order.Ranks.{IsNullableI64}
use rusthouse.Order.Rows.{order_nullable_i64-sorted_from}
use rusthouse.Order.Sorted.{
  Row, rows_from, row_values, IsOrdered, sorted_rows, sorted_rows-IsOrdered, sorted_rows-perm,
  row_values-sorted_rows,
}
use rusthouse.Statement.{SelectPredicate, comparison, nullness, OrderByClause, SelectStatement}
use rusthouse.Execution.{
  scan_select_predicate, limit_or, predicate_column?, order_input, select_ordered, select_unordered,
  row_limits, execute_select, expect_column?,
}
use mathlib.Core.List.{Perm}

-- The test of a predicate.
abbrev pub row_test : SelectPredicate → Option ℤ → Bool
row_test (comparison p) v = matches_comparison p.operator p.value v
row_test (nullness p) v = matches_null p.predicate v

-- The values that a WHERE clause keeps.
abbrev pub where_values : Option SelectPredicate → List (Option ℤ) → List (Option ℤ)
where_values none values = values
where_values (some p) values = filter (row_test p) values

pub scan_select_predicate-rows :
    (values : List (Option ℤ)) (p : SelectPredicate) (limits : ScanLimits)
    → length values ≤ limits.max_input_rows
    → length values ≤ limits.max_result_rows
    → scan_select_predicate values p limits ≡ ok (matching_rows (row_test p) 0 values)
unfolding scan_select_predicate scan_nullable_i64 scan_nullable_i64_nullness
scan_select_predicate-rows values (comparison p) limits a b =
    scan-within values limits (matches_comparison p.operator p.value) a b
scan_select_predicate-rows values (nullness p) limits a b =
    scan-within values limits (matches_null p.predicate) a b

map-take : (f : ℕ → Option ℤ) (n : ℕ) (rows : List ℕ) → map f (take n rows) ≡ take n (map f rows)
map-take f zero rows = refl
map-take f (suc n) [] = refl
map-take f (suc n) (r ∷ rows) = ap (λ t. f r ∷ t) (map-take f n rows)

-- An optional name is the column's.
abbrev pub Names : Option Bytes → Bytes → Type 0
Names none column = Unit
Names (some name) column = name ≡ column

abbrev pub order_column? : Option OrderByClause → Option Bytes
order_column? none = none
order_column? (some o) = some o.column_name

-- Every name of the statement is the table's.
pub record Resolves (expected : Bytes) (table : Int64Table) (statement : SelectStatement)
    : Type 0 where
  pub table_name : statement.table_name ≡ expected
  pub column : statement.column_name ≡ column_name table
  pub where_column : Names (predicate_column? statement.predicate) (column_name table)
  pub order_column : Names (order_column? statement.order_by) (column_name table)

pub expect_column?-ok :
    (name : Option Bytes) (column : Bytes) → Names name column → expect_column? name column ≡ ok tt
expect_column?-ok none column h = refl
expect_column?-ok (some name) column h = rw (h, bytes_eq_refl column) refl

select_unordered-values :
    (values : List (Option ℤ)) (predicate : Option SelectPredicate) (limit : ℕ)
    → select_unordered values predicate limit (row_limits values)
      ≡ ok (take limit (where_values predicate values))
unfolding select_unordered
select_unordered-values values none limit = ap ok (take-min limit values)
select_unordered-values values (some p) limit =
    rw (scan_select_predicate-rows values p (row_limits values) (omega arith) (omega arith)) (
      ap ok (
        map-take (λ row. get_or values row none) limit (matching_rows (row_test p) 0 values)
        ∙ ap (take limit) (project-matching_rows (row_test p) values)))

-- A SELECT without ORDER BY, all of whose names are those of the table, always succeeds, with the
-- first LIMIT of the values that WHERE keeps, in source order.
pub execute_select-values :
    (expected : Bytes) (table : Int64Table) (statement : SelectStatement)
    → Resolves expected table statement
    → statement.order_by ≡ none
    → execute_select expected table statement
      ≡ ok (
          take
            (limit_or statement.limit (length table.values))
            (where_values statement.predicate table.values))
unfolding execute_select
execute_select-values expected table statement r e =
    rw
      (
        r.table_name,
        r.column,
        bytes_eq_refl expected,
        bytes_eq_refl (column_name table),
        expect_column?-ok _ _ r.where_column,
        e,
      )
      (select_unordered-values table.values statement.predicate
        (limit_or statement.limit (length table.values)))

order_input-values :
    (values : List (Option ℤ)) (predicate : Option SelectPredicate)
    → order_input values predicate (row_limits values) ≡ ok (where_values predicate values)
order_input-values values none = refl
order_input-values values (some p) =
    rw (scan_select_predicate-rows values p (row_limits values) (omega arith) (omega arith))
      (ap ok (project-matching_rows (row_test p) values))

length-where_values :
    (predicate : Option SelectPredicate) (values : List (Option ℤ))
    → length (where_values predicate values) ≤ length values
length-where_values none values = omega arith
length-where_values (some p) values = length-filter (row_test p) values

All-filter :
    (test : Option ℤ → Bool) (values : List (Option ℤ))
    → All IsNullableI64 values
    → All IsNullableI64 (filter test values)
All-filter test [] a = tt
All-filter test (v ∷ vs) a = elim (Bool-cases (test v)) [
  | inl t ↦ rw t (a.0, All-filter test vs a.1)
  | inr f ↦ rw f (All-filter test vs a.1)
]

All-where_values :
    (predicate : Option SelectPredicate) (values : List (Option ℤ))
    → All IsNullableI64 values
    → All IsNullableI64 (where_values predicate values)
All-where_values none values a = a
All-where_values (some p) values a = All-filter (row_test p) values a

-- A SELECT with ORDER BY, all of whose names are those of the table, always succeeds on 64-bit
-- values, with the values of the first LIMIT rows of a permutation of the rows that WHERE keeps,
-- in which no row stands before one that SQL orders before it: NULLs at the stated end, values in
-- the stated direction, and equal values in source order.
pub execute_select-IsOrdered :
    (expected : Bytes) (table : Int64Table) (statement : SelectStatement) (o : OrderByClause)
    → Resolves expected table statement
    → All IsNullableI64 table.values
    → statement.order_by ≡ some o
    → let kept = where_values statement.predicate table.values in
      (rows : List Row) × IsOrdered o.direction o.null_order rows
      × Perm rows (rows_from 0 kept)
      × (execute_select expected table statement
          ≡ ok (row_values (take (limit_or statement.limit (length table.values)) rows)))
unfolding execute_select select_ordered
execute_select-IsOrdered expected table statement o r a e =
    let kept = where_values statement.predicate table.values in
    let limit = limit_or statement.limit (length table.values) in
    let named : o.column_name ≡ column_name table =
      subst (λ b. Names (order_column? b) (column_name table)) e r.order_column in
    let ordered =
      order_nullable_i64-sorted_from o.direction o.null_order kept limit
        (record { max_input_rows = length table.values; max_limit = limit })
        (length-where_values statement.predicate table.values) (omega arith) in
    (
      sorted_rows o.direction o.null_order kept,
      sorted_rows-IsOrdered o.direction o.null_order kept
          (All-where_values statement.predicate table.values a),
      sorted_rows-perm o.direction o.null_order kept,
      rw
          (
            r.table_name,
            r.column,
            bytes_eq_refl expected,
            bytes_eq_refl (column_name table),
            expect_column?-ok _ _ r.where_column,
            e,
            named,
            bytes_eq_refl (column_name table),
            order_input-values table.values statement.predicate,
            ordered,
          )
          (ap ok (row_values-sorted_rows o.direction o.null_order kept limit)),
    )
