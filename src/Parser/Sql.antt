-- ===== src/Parser/Sql.antt =====
-- src/parser.rs: the functions that parse a whole statement within the limits.
use rusthouse.Prelude.{ltb, length, Result, ◌>>◌, map_ok, reject_if}
use rusthouse.Prelude.Bytes.{Bytes}
use rusthouse.Parser.{ParseLimits, ParseError, Parse, new_parser, statement_too_long}
use rusthouse.Parser.Create.{create_table_parser}
use rusthouse.Parser.Insert.{insert_parser}
use rusthouse.Parser.Select.{select_parser, select_distinct_parser}
use rusthouse.Parser.Joins.{inner_join_parser, left_join_parser}
use rusthouse.Parser.Scalar.{scalar_count_parser, scalar_sum_parser, scalar_min_parser}
use rusthouse.Statement.{
  CreateTableStatement, InsertStatement, SelectStatement, InnerJoinStatement, LeftJoinStatement,
  ScalarCountStatement, ScalarSumStatement, ScalarMinStatement, SelectDistinctStatement,
}

abbrev pub validate_statement_length : Bytes → ParseLimits → Result ParseError (Unit {0})
validate_statement_length input limits =
    reject_if (ltb limits.max_statement_bytes (length input))
      (statement_too_long (length input) limits.max_statement_bytes)

-- A parser on the whole input, which leaves nothing but its result.
abbrev pub run_parser : {A : Type 0} → Parse A → Bytes → ParseLimits → Result ParseError A
run_parser p input limits =
    validate_statement_length input limits
    >> map_ok (λ r. r.0) (p (new_parser input limits.max_identifier_bytes))

unfoldable pub parse_create_table : Bytes → ParseLimits → Result ParseError CreateTableStatement
unfolding create_table_parser
parse_create_table input limits = run_parser create_table_parser input limits

unfoldable pub parse_insert : Bytes → ParseLimits → Result ParseError InsertStatement
unfolding insert_parser
parse_insert input limits = run_parser insert_parser input limits

unfoldable pub parse_select : Bytes → ParseLimits → Result ParseError SelectStatement
unfolding select_parser
parse_select input limits = run_parser select_parser input limits

unfoldable pub parse_inner_join : Bytes → ParseLimits → Result ParseError InnerJoinStatement
unfolding inner_join_parser
parse_inner_join input limits = run_parser inner_join_parser input limits

unfoldable pub parse_left_join : Bytes → ParseLimits → Result ParseError LeftJoinStatement
unfolding left_join_parser
parse_left_join input limits = run_parser left_join_parser input limits

unfoldable pub parse_scalar_count : Bytes → ParseLimits → Result ParseError ScalarCountStatement
unfolding scalar_count_parser
parse_scalar_count input limits = run_parser scalar_count_parser input limits

unfoldable pub parse_scalar_sum : Bytes → ParseLimits → Result ParseError ScalarSumStatement
unfolding scalar_sum_parser
parse_scalar_sum input limits = run_parser scalar_sum_parser input limits

unfoldable pub parse_scalar_min : Bytes → ParseLimits → Result ParseError ScalarMinStatement
unfolding scalar_min_parser
parse_scalar_min input limits = run_parser scalar_min_parser input limits

unfoldable pub parse_select_distinct :
    Bytes → ParseLimits → Result ParseError SelectDistinctStatement
unfolding select_distinct_parser
parse_select_distinct input limits = run_parser select_distinct_parser input limits
