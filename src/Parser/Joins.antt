-- ===== src/Parser/Joins.antt =====
-- src/parser.rs: `Parser::parse_inner_join` and `Parser::parse_left_join`, which differ in one
-- keyword, its messages and the type of the statement.
use rusthouse.Prelude.Bytes.{Bytes}
use rusthouse.Parser.{
  Parse, ◌>>=◌, ◌>>◌, return, skip_whitespace, require_whitespace, expect_keyword, expect_byte,
  parse_identifier, end_of_input, skip_semicolon,
}
use rusthouse.Statement.{InnerJoinStatement, LeftJoinStatement}

-- The projected column and the left table, up to the keyword of the join.
unfoldable pub parse_projection : Parse (Bytes × Bytes)
unfolding expect_keyword require_whitespace parse_identifier
parse_projection = do
  skip_whitespace
  expect_keyword "SELECT"
  require_whitespace "whitespace after SELECT"
  projected_column_name ← parse_identifier
  require_whitespace "whitespace before FROM"
  expect_keyword "FROM"
  require_whitespace "whitespace after FROM"
  left_table_name ← parse_identifier
  return (projected_column_name, left_table_name)

-- The right table and the two columns, from the keyword JOIN on.
unfoldable pub parse_joined : Parse (Bytes × Bytes × Bytes)
unfolding expect_keyword require_whitespace parse_identifier expect_byte skip_semicolon end_of_input
parse_joined = do
  expect_keyword "JOIN"
  require_whitespace "whitespace after JOIN"
  right_table_name ← parse_identifier
  require_whitespace "whitespace before ON"
  expect_keyword "ON"
  require_whitespace "whitespace after ON"
  left_column_name ← parse_identifier
  skip_whitespace
  expect_byte b'=' "'='"
  skip_whitespace
  right_column_name ← parse_identifier
  skip_whitespace
  skip_semicolon
  end_of_input
  return (right_table_name, left_column_name, right_column_name)

unfoldable pub inner_join_parser : Parse InnerJoinStatement
unfolding parse_projection require_whitespace expect_keyword parse_joined
inner_join_parser = do
  (projected, left_table) ← parse_projection
  require_whitespace "whitespace before INNER"
  expect_keyword "INNER"
  require_whitespace "whitespace after INNER"
  (right_table, left_column, right_column) ← parse_joined
  return (record {
    projected_column_name = projected;
    left_table_name = left_table;
    right_table_name = right_table;
    left_column_name = left_column;
    right_column_name = right_column;
  })

unfoldable pub left_join_parser : Parse LeftJoinStatement
unfolding parse_projection require_whitespace expect_keyword parse_joined
left_join_parser = do
  (projected, left_table) ← parse_projection
  require_whitespace "whitespace before LEFT"
  expect_keyword "LEFT"
  require_whitespace "whitespace after LEFT"
  (right_table, left_column, right_column) ← parse_joined
  return (record {
    projected_column_name = projected;
    left_table_name = left_table;
    right_table_name = right_table;
    left_column_name = left_column;
    right_column_name = right_column;
  })
