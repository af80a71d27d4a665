-- ===== src/Execution/Joins.antt =====
-- src/execution.rs: the two joins.
use rusthouse.Prelude.{ℕ, Option, none, some, List, map, get_or, Result, ok, ◌>>=◌, ◌>>◌, map_err}
use rusthouse.Prelude.Int.{ℤ}
use rusthouse.Prelude.Bytes.{Bytes}
use rusthouse.Storage.{Int64Table, column_name}
use rusthouse.Join.{
  JoinLimits, JoinError, JoinRowPair, LeftOuterJoinRowPair, inner_equi_join_nullable_i64,
  left_outer_equi_join_nullable_i64,
}
use rusthouse.Statement.{InnerJoinStatement, LeftJoinStatement}
use rusthouse.Execution.{expect_name}

pub data InnerJoinExecutionError : Type 0 where
  unknown_table : (name : Bytes) → InnerJoinExecutionError
  unknown_column : (name : Bytes) → InnerJoinExecutionError
  join_error : JoinError → InnerJoinExecutionError

pub data LeftJoinExecutionError : Type 0 where
  unknown_table : (name : Bytes) → LeftJoinExecutionError
  unknown_column : (name : Bytes) → LeftJoinExecutionError
  join_error : JoinError → LeftJoinExecutionError

unfoldable pub execute_inner_join :
    Bytes
    → Int64Table
    → Bytes
    → Int64Table
    → InnerJoinStatement
    → JoinLimits
    → Result InnerJoinExecutionError (List (Option ℤ))
execute_inner_join expected_left left_table expected_right right_table statement limits = do
  expect_name InnerJoinExecutionError.unknown_table statement.left_table_name expected_left
  expect_name InnerJoinExecutionError.unknown_table statement.right_table_name expected_right
  let left_column = column_name left_table
  expect_name InnerJoinExecutionError.unknown_column statement.projected_column_name left_column
  expect_name InnerJoinExecutionError.unknown_column statement.left_column_name left_column
  expect_name InnerJoinExecutionError.unknown_column statement.right_column_name
      (column_name right_table)
  matches ←
      map_err InnerJoinExecutionError.join_error
        (inner_equi_join_nullable_i64 left_table.values right_table.values limits)
  ok (map (λ (pair : JoinRowPair). get_or left_table.values pair.left_row none) matches)

-- `right_row.and_then(|right_row| values[right_row])`
abbrev pub right_value : List (Option ℤ) → Option ℕ → Option ℤ
right_value values none = none
right_value values (some row) = get_or values row none

unfoldable pub execute_left_join :
    Bytes
    → Int64Table
    → Bytes
    → Int64Table
    → LeftJoinStatement
    → JoinLimits
    → Result LeftJoinExecutionError (List (Option ℤ))
execute_left_join expected_left left_table expected_right right_table statement limits = do
  expect_name LeftJoinExecutionError.unknown_table statement.left_table_name expected_left
  expect_name LeftJoinExecutionError.unknown_table statement.right_table_name expected_right
  expect_name LeftJoinExecutionError.unknown_column statement.left_column_name
      (column_name left_table)
  let right_column = column_name right_table
  expect_name LeftJoinExecutionError.unknown_column statement.projected_column_name right_column
  expect_name LeftJoinExecutionError.unknown_column statement.right_column_name right_column
  rows ←
      map_err LeftJoinExecutionError.join_error
        (left_outer_equi_join_nullable_i64 left_table.values right_table.values limits)
  ok (map (λ (pair : LeftOuterJoinRowPair). right_value right_table.values pair.right_row) rows)
