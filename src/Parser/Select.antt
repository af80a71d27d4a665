-- ===== src/Parser/Select.antt =====
-- src/parser.rs: `Parser::parse_select` and `Parser::parse_select_distinct`.
use rusthouse.Prelude.{ℕ, Bool, not, ◌&&◌, Option, none, some}
use rusthouse.Prelude.Bytes.{Bytes}
use Prim.Native.String.{String}
use rusthouse.Parser.{
  Parse, Parser, ◌>>=◌, ◌>>◌, return, branch, optional, unexpected, skip_whitespace,
  require_whitespace, keyword_at_position, keyword_follows_current_word, expect_keyword,
  parse_identifier, end_of_input, skip_semicolon,
}
use rusthouse.Parser.Literals.{parse_comparison, parse_limit}
use rusthouse.Scan.{NullPredicate, is_null, is_not_null}
use rusthouse.Order.{asc, desc, first, last}
use rusthouse.Statement.{
  SelectPredicate, comparison, nullness, OrderByClause, SelectStatement, SelectDistinctStatement,
}

unfoldable pub parse_not : Parse NullPredicate
unfolding expect_keyword require_whitespace
parse_not = do expect_keyword "NOT"; require_whitespace "whitespace after NOT"; return is_not_null

unfoldable pub parse_nullness : Bytes → Parse SelectPredicate
unfolding expect_keyword require_whitespace keyword_at_position parse_not
parse_nullness column_name = do
  expect_keyword "IS"
  require_whitespace "whitespace after IS"
  predicate ← branch (keyword_at_position "NOT") parse_not (return is_null)
  expect_keyword "NULL"
  return (nullness (record { column_name = column_name; predicate = predicate }))

unfoldable pub parse_where : Parse SelectPredicate
unfolding expect_keyword require_whitespace parse_identifier keyword_at_position parse_nullness
    parse_comparison
parse_where = do
  expect_keyword "WHERE"
  require_whitespace "whitespace after WHERE"
  column_name ← parse_identifier
  skip_whitespace
  predicate ←
      branch (keyword_at_position "IS") (parse_nullness column_name)
        (parse_comparison column_name >>= λ p. return (comparison p))
  skip_whitespace
  return predicate

-- One of two keywords.
unfoldable pub parse_either : {A : Type 0} → String → A → String → A → String → Parse A
unfolding expect_keyword keyword_at_position
parse_either keyword a keyword' b expected =
    branch (keyword_at_position keyword) (expect_keyword keyword >> return a) (
      branch (keyword_at_position keyword') (expect_keyword keyword' >> return b)
        (unexpected expected))

unfoldable pub parse_order_by : Parse OrderByClause
unfolding expect_keyword require_whitespace parse_identifier parse_either
parse_order_by = do
  expect_keyword "ORDER"
  require_whitespace "whitespace after ORDER"
  expect_keyword "BY"
  require_whitespace "whitespace after BY"
  column_name ← parse_identifier
  require_whitespace "whitespace before ASC or DESC"
  direction ← parse_either "ASC" asc "DESC" desc "ASC or DESC"
  require_whitespace "whitespace before NULLS"
  expect_keyword "NULLS"
  require_whitespace "whitespace after NULLS"
  null_order ← parse_either "FIRST" first "LAST" last "FIRST or LAST"
  skip_whitespace
  return (record { column_name = column_name; direction = direction; null_order = null_order })

unfoldable pub parse_limit_clause : Parse ℕ
unfolding expect_keyword require_whitespace parse_limit
parse_limit_clause = do
  expect_keyword "LIMIT"
  require_whitespace "whitespace after LIMIT"
  limit ← parse_limit
  skip_whitespace
  return limit

-- `keyword_at_position("FROM") && !keyword_follows_current_word("FROM")`
abbrev pub column_is_missing : Parser → Bool
column_is_missing s = keyword_at_position "FROM" s && not (keyword_follows_current_word "FROM" s)

-- The column and the table, from the column on.
unfoldable pub parse_column_from : Parse (Bytes × Bytes)
unfolding expect_keyword require_whitespace parse_identifier keyword_at_position
    keyword_follows_current_word
parse_column_from = do
  branch column_is_missing (unexpected {A = Unit {0}} "identifier") (return tt)
  column_name ← parse_identifier
  require_whitespace "whitespace before FROM"
  expect_keyword "FROM"
  require_whitespace "whitespace after FROM"
  table_name ← parse_identifier
  skip_whitespace
  return (column_name, table_name)

-- ORDER BY needs a LIMIT.
abbrev pub require_limit : Option OrderByClause → Option ℕ → Parse (Unit {0})
require_limit none limit = return tt
require_limit (some order_by) none = unexpected "LIMIT"
require_limit (some order_by) (some limit) = return tt

unfoldable pub select_parser : Parse SelectStatement
unfolding expect_keyword require_whitespace parse_column_from keyword_at_position parse_where
    parse_order_by parse_limit_clause skip_semicolon end_of_input
select_parser = do
  skip_whitespace
  expect_keyword "SELECT"
  require_whitespace "whitespace after SELECT"
  (column_name, table_name) ← parse_column_from
  predicate ← optional (keyword_at_position "WHERE") parse_where
  order_by ← optional (keyword_at_position "ORDER") parse_order_by
  limit ← optional (keyword_at_position "LIMIT") parse_limit_clause
  require_limit order_by limit
  skip_semicolon
  end_of_input
  return (record {
    column_name = column_name;
    table_name = table_name;
    predicate = predicate;
    order_by = order_by;
    limit = limit;
  })

unfoldable pub select_distinct_parser : Parse SelectDistinctStatement
unfolding expect_keyword require_whitespace parse_column_from skip_semicolon end_of_input
select_distinct_parser = do
  skip_whitespace
  expect_keyword "SELECT"
  require_whitespace "whitespace after SELECT"
  expect_keyword "DISTINCT"
  require_whitespace "whitespace after DISTINCT"
  (column_name, table_name) ← parse_column_from
  skip_semicolon
  end_of_input
  return (record { column_name = column_name; table_name = table_name })
