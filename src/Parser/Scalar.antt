-- ===== src/Parser/Scalar.antt =====
-- src/parser.rs: `Parser::parse_scalar_count`, `parse_scalar_sum` and `parse_scalar_min`.
use rusthouse.Prelude.{ok}
use rusthouse.Prelude.Bytes.{Bytes}
use Prim.Native.String.{String}
use rusthouse.Parser.{
  Parse, ◌>>=◌, ◌>>◌, return, branch, starts_with, peek, advance, skip_whitespace,
  require_whitespace, expect_keyword, expect_byte, parse_identifier, end_of_input, skip_semicolon,
}
use rusthouse.Parser.Literals.{parse_optional_comparison_predicate}
use rusthouse.Statement.{
  ScalarCountArgument, star, column, ScalarCountStatement, ScalarSumStatement, ScalarMinStatement,
}

-- SELECT, the function's keyword and its parenthesis.
unfoldable pub parse_function : String → Parse (Unit {0})
unfolding expect_keyword require_whitespace expect_byte
parse_function keyword = do
  skip_whitespace
  expect_keyword "SELECT"
  require_whitespace "whitespace after SELECT"
  expect_keyword keyword
  skip_whitespace
  expect_byte b'(' "'('"
  skip_whitespace

-- The closing parenthesis, FROM and the table.
unfoldable pub parse_source : Parse Bytes
unfolding expect_keyword require_whitespace expect_byte parse_identifier
parse_source = do
  skip_whitespace
  expect_byte b')' "')'"
  require_whitespace "whitespace before FROM"
  expect_keyword "FROM"
  require_whitespace "whitespace after FROM"
  table_name ← parse_identifier
  skip_whitespace
  return table_name

unfoldable pub parse_star : Parse ScalarCountArgument
parse_star s = ok (star, advance 1 s)

unfoldable pub parse_argument : Parse ScalarCountArgument
unfolding parse_star parse_identifier
parse_argument =
    branch (λ s. starts_with b'*' (peek s)) parse_star
      (parse_identifier >>= λ name. return (column name))

unfoldable pub scalar_count_parser : Parse ScalarCountStatement
unfolding parse_function parse_argument parse_source parse_optional_comparison_predicate
    skip_semicolon end_of_input
scalar_count_parser = do
  parse_function "COUNT"
  argument ← parse_argument
  table_name ← parse_source
  predicate ← parse_optional_comparison_predicate
  skip_semicolon
  end_of_input
  return (record { argument = argument; table_name = table_name; predicate = predicate })

unfoldable pub scalar_sum_parser : Parse ScalarSumStatement
unfolding parse_function parse_identifier parse_source parse_optional_comparison_predicate
    skip_semicolon end_of_input
scalar_sum_parser = do
  parse_function "SUM"
  column_name ← parse_identifier
  table_name ← parse_source
  predicate ← parse_optional_comparison_predicate
  skip_semicolon
  end_of_input
  return (record { column_name = column_name; table_name = table_name; predicate = predicate })

unfoldable pub scalar_min_parser : Parse ScalarMinStatement
unfolding parse_function parse_identifier parse_source skip_semicolon end_of_input
scalar_min_parser = do
  parse_function "MIN"
  column_name ← parse_identifier
  table_name ← parse_source
  skip_semicolon
  end_of_input
  return (record { column_name = column_name; table_name = table_name })
