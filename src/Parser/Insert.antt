-- ===== src/Parser/Insert.antt =====
-- src/parser.rs: `Parser::parse_insert`.
use rusthouse.Prelude.{none, some, ◌==◌, if◌then◌else◌, ok}
use rusthouse.Parser.{
  Parse, ◌>>=◌, ◌>>◌, return, starts_with, peek, advance, fail, unexpected, skip_whitespace,
  require_whitespace, expect_keyword, expect_byte, parse_identifier, end_of_input, invalid_int64,
  extra_rows,
}
use rusthouse.Parser.Literals.{parse_int64_value}
use rusthouse.Statement.{InsertStatement}

-- The parenthesis after the value.
unfoldable pub close_row : Parse (Unit {0})
close_row s = elim (peek s) [
  | none ↦ unexpected "')'" s
  | some b ↦ if b == b')' then ok (tt, advance 1 s) else fail invalid_int64 s
]

unfoldable pub reject_more_rows : Parse (Unit {0})
reject_more_rows s = if starts_with b',' (peek s) then fail extra_rows s else ok (tt, s)

unfoldable pub insert_parser : Parse InsertStatement
unfolding expect_keyword require_whitespace expect_byte parse_identifier parse_int64_value close_row
    reject_more_rows end_of_input
insert_parser = do
  skip_whitespace
  expect_keyword "INSERT"
  require_whitespace "whitespace after INSERT"
  expect_keyword "INTO"
  require_whitespace "whitespace after INTO"
  table_name ← parse_identifier
  require_whitespace "whitespace before VALUES"
  expect_keyword "VALUES"
  skip_whitespace
  expect_byte b'(' "'('"
  skip_whitespace
  value ← parse_int64_value
  skip_whitespace
  close_row
  skip_whitespace
  reject_more_rows
  end_of_input
  return (record { table_name = table_name; value = value })
