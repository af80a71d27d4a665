-- ===== src/Parser/Create.antt =====
-- src/parser.rs: `Parser::parse_create_table`, and the nullability of a column.
use rusthouse.Prelude.{Bool, true, false, ◌&&◌}
use rusthouse.Parser.{
  Parse, Parser, ◌>>=◌, ◌>>◌, return, branch, starts_with, peek, unexpected, skip_whitespace,
  require_whitespace, keyword_at_position, keyword_follows_current_word, expect_keyword,
  expect_byte, parse_identifier, end_of_input,
}
use rusthouse.Storage.{int64}
use rusthouse.Statement.{CreateTableStatement}

-- The answer of a test, after the methods that it selects.
abbrev pub flag : (Parser → Bool) → Parse (Unit {0}) → Parse Bool
flag test p = branch test (p >> return true) (return false)

unfoldable pub parse_if_not_exists : Parse (Unit {0})
unfolding expect_keyword require_whitespace
parse_if_not_exists = do
  expect_keyword "IF"
  require_whitespace "whitespace after IF"
  expect_keyword "NOT"
  require_whitespace "whitespace after NOT"
  expect_keyword "EXISTS"
  require_whitespace "whitespace after EXISTS"

abbrev pub if_not_exists_at_position : Parser → Bool
if_not_exists_at_position s = keyword_at_position "IF" s && keyword_follows_current_word "NOT" s

unfoldable pub parse_not_null : Parse Bool
unfolding expect_keyword require_whitespace
parse_not_null = do
  expect_keyword "NOT"
  require_whitespace "whitespace after NOT"
  expect_keyword "NULL"
  return false

unfoldable pub parse_null_column : Parse Bool
unfolding expect_keyword
parse_null_column = expect_keyword "NULL" >> return true

-- `parse_nullability`, after its whitespace.
abbrev pub parse_nullability_word : Parse Bool
parse_nullability_word =
    branch (λ s. starts_with b')' (peek s)) (return true)
      (branch (keyword_at_position "NULL") parse_null_column
        (branch (keyword_at_position "NOT") parse_not_null (unexpected "NULL, NOT NULL, or ')'")))

unfoldable pub parse_nullability : Parse Bool
unfolding keyword_at_position
parse_nullability = skip_whitespace >> parse_nullability_word

unfoldable pub parse_nullable_type : Parse Bool
unfolding expect_keyword expect_byte
parse_nullable_type = do
  expect_keyword "Nullable"
  skip_whitespace
  expect_byte b'(' "'(' after Nullable"
  skip_whitespace
  expect_keyword "Int64"
  skip_whitespace
  expect_byte b')' "')' after Nullable(Int64)"
  return true

unfoldable pub parse_int64_type : Parse Bool
unfolding expect_keyword parse_nullability
parse_int64_type = expect_keyword "Int64" >> parse_nullability

unfoldable pub parse_engine : Parse (Unit {0})
unfolding expect_keyword expect_byte
parse_engine = do
  expect_keyword "ENGINE"
  skip_whitespace
  expect_byte b'=' "'='"
  skip_whitespace
  expect_keyword "Memory"
  skip_whitespace

unfoldable pub create_table_parser : Parse CreateTableStatement
unfolding expect_keyword require_whitespace expect_byte parse_identifier keyword_at_position
    keyword_follows_current_word end_of_input
create_table_parser = do
  skip_whitespace
  expect_keyword "CREATE"
  require_whitespace "whitespace after CREATE"
  expect_keyword "TABLE"
  require_whitespace "whitespace after TABLE"
  if_not_exists ← flag if_not_exists_at_position parse_if_not_exists
  table_name ← parse_identifier
  skip_whitespace
  expect_byte b'(' "'('"
  skip_whitespace
  column_name ← parse_identifier
  require_whitespace "whitespace before Int64 or Nullable(Int64)"
  nullable ← branch (keyword_at_position "Nullable") parse_nullable_type parse_int64_type
  skip_whitespace
  expect_byte b')' "')'"
  skip_whitespace
  flag (keyword_at_position "ENGINE") parse_engine
  end_of_input
  return (record {
    table_name = table_name;
    column = record { name = column_name; data_type = int64; nullable = nullable };
    if_not_exists = if_not_exists;
  })
