-- ===== src/Parser/Sound/Statements.antt =====
-- src/parser.rs: what the names and values of a parsed statement are.
use rusthouse.Prelude.{ℕ, ◌≤◌, Option, none, some, u64_max}
use rusthouse.Prelude.Int.{IsI64}
use rusthouse.Prelude.Bytes.{Bytes}
use rusthouse.Order.Ranks.{IsNullableI64}
use rusthouse.Parser.Sound.{Maybe}
use rusthouse.Parser.Sound.Words.{IsIdentifier}
use rusthouse.Parser.Sound.Literals.{IsArgument}
use rusthouse.Statement.{
  CreateTableStatement, InsertStatement, ComparisonPredicate, SelectPredicate, comparison, nullness,
  OrderByClause, SelectStatement, InnerJoinStatement, LeftJoinStatement, ScalarCountStatement,
  ScalarSumStatement, ScalarMinStatement, SelectDistinctStatement,
}

-- What a parsed statement has: names that are words within the bound, and values in range.
abbrev pub IsComparison : ℕ → ComparisonPredicate → Type 0
IsComparison max p = IsIdentifier max p.column_name × IsI64 p.value

abbrev pub IsPredicate : ℕ → SelectPredicate → Type 0
IsPredicate max (comparison p) = IsComparison max p
IsPredicate max (nullness p) = IsIdentifier max p.column_name

abbrev pub IsOrderBy : ℕ → OrderByClause → Type 0
IsOrderBy max o = IsIdentifier max o.column_name

abbrev pub IsLimit : ℕ → Type 0
IsLimit n = n ≤ u64_max

-- An order comes with a limit.
abbrev pub HasLimit : Option OrderByClause → Option ℕ → Type 0
HasLimit none limit = Unit
HasLimit (some order_by) none = ⊥
HasLimit (some order_by) (some limit) = Unit

abbrev pub IsCreate : ℕ → CreateTableStatement → Type 0
IsCreate max st = IsIdentifier max st.table_name × IsIdentifier max st.column.name

abbrev pub IsInsert : ℕ → InsertStatement → Type 0
IsInsert max st = IsIdentifier max st.table_name × IsNullableI64 st.value

abbrev pub IsSelect : ℕ → SelectStatement → Type 0
IsSelect max st =
    IsIdentifier max st.column_name
    × IsIdentifier max st.table_name
    × Maybe (IsPredicate max) st.predicate
    × Maybe (IsOrderBy max) st.order_by
    × Maybe IsLimit st.limit
    × HasLimit st.order_by st.limit

abbrev pub TwoNames : ℕ → Bytes × Bytes → Type 0
TwoNames max (a, b) = IsIdentifier max a × IsIdentifier max b

abbrev pub ThreeNames : ℕ → Bytes × Bytes × Bytes → Type 0
ThreeNames max (a, b, c) = IsIdentifier max a × IsIdentifier max b × IsIdentifier max c

abbrev pub IsInnerJoin : ℕ → InnerJoinStatement → Type 0
IsInnerJoin max st =
    TwoNames max (st.projected_column_name, st.left_table_name)
    × ThreeNames max (st.right_table_name, st.left_column_name, st.right_column_name)

abbrev pub IsLeftJoin : ℕ → LeftJoinStatement → Type 0
IsLeftJoin max st =
    TwoNames max (st.projected_column_name, st.left_table_name)
    × ThreeNames max (st.right_table_name, st.left_column_name, st.right_column_name)

abbrev pub IsScalarCount : ℕ → ScalarCountStatement → Type 0
IsScalarCount max st =
    IsArgument max st.argument
    × IsIdentifier max st.table_name
    × Maybe (IsComparison max) st.predicate

abbrev pub IsScalarSum : ℕ → ScalarSumStatement → Type 0
IsScalarSum max st =
    TwoNames max (st.column_name, st.table_name) × Maybe (IsComparison max) st.predicate

abbrev pub IsScalarMin : ℕ → ScalarMinStatement → Type 0
IsScalarMin max st = TwoNames max (st.column_name, st.table_name)

abbrev pub IsSelectDistinct : ℕ → SelectDistinctStatement → Type 0
IsSelectDistinct max st = TwoNames max (st.column_name, st.table_name)
