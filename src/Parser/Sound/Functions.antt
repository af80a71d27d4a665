-- ===== src/Parser/Sound/Functions.antt =====
-- src/parser.rs: the parsers of joins and of aggregate functions stay within the input, and the
-- names and values of their statements are as stated.
use rusthouse.Prelude.{ℕ}
use Prim.Native.String.{String}
use rusthouse.Parser.Joins.{parse_projection, parse_joined, inner_join_parser, left_join_parser}
use rusthouse.Parser.Scalar.{
  parse_function, parse_source, scalar_count_parser, scalar_sum_parser, scalar_min_parser,
}
use rusthouse.Parser.Sound.{Sound, Any, ◌▷◌, return-Sound}
use rusthouse.Parser.Sound.Words.{
  IsIdentifier, skip_whitespace-Sound, require_whitespace-Sound, expect_keyword-Sound,
  expect_byte-Sound, parse_identifier-Sound,
}
use rusthouse.Parser.Sound.Literals.{end_of_input-Sound, skip_semicolon-Sound, parse_argument-Sound}
use rusthouse.Parser.Sound.Statements.{
  TwoNames, ThreeNames, IsInnerJoin, IsLeftJoin, IsScalarCount, IsScalarSum, IsScalarMin,
}
use rusthouse.Parser.Sound.Queries.{parse_optional_comparison_predicate-Sound}

module _ {max : ℕ} where
  parse_projection-Sound : Sound max (TwoNames max) parse_projection
  unfolding parse_projection
  parse_projection-Sound = skip_whitespace-Sound ▷ λ _ _. expect_keyword-Sound _ ▷ λ _ _.
      require_whitespace-Sound _ ▷ λ _ _. parse_identifier-Sound ▷ λ column_name column_name_ok.
      require_whitespace-Sound _ ▷ λ _ _. expect_keyword-Sound _ ▷ λ _ _.
      require_whitespace-Sound _ ▷ λ _ _. parse_identifier-Sound ▷ λ table_name table_name_ok.
      return-Sound {Q = TwoNames max} (column_name_ok, table_name_ok)

  parse_joined-Sound : Sound max (ThreeNames max) parse_joined
  unfolding parse_joined
  parse_joined-Sound = expect_keyword-Sound _ ▷ λ _ _. require_whitespace-Sound _ ▷ λ _ _.
      parse_identifier-Sound ▷ λ right_table right_table_ok. require_whitespace-Sound _ ▷ λ _ _.
      expect_keyword-Sound _ ▷ λ _ _. require_whitespace-Sound _ ▷ λ _ _.
      parse_identifier-Sound ▷ λ left_column left_column_ok. skip_whitespace-Sound ▷ λ _ _.
      expect_byte-Sound _ _ ▷ λ _ _. skip_whitespace-Sound ▷ λ _ _.
      parse_identifier-Sound ▷ λ right_column right_column_ok. skip_whitespace-Sound ▷ λ _ _.
      skip_semicolon-Sound ▷ λ _ _. end_of_input-Sound ▷ λ _ _.
      return-Sound {Q = ThreeNames max} (right_table_ok, left_column_ok, right_column_ok)

  pub inner_join_parser-Sound : Sound max (IsInnerJoin max) inner_join_parser
  unfolding inner_join_parser
  inner_join_parser-Sound = parse_projection-Sound ▷ λ left left_ok.
      require_whitespace-Sound _ ▷ λ _ _. expect_keyword-Sound _ ▷ λ _ _.
      require_whitespace-Sound _ ▷ λ _ _.
      parse_joined-Sound ▷ λ right right_ok. return-Sound {Q = IsInnerJoin max} (left_ok, right_ok)

  pub left_join_parser-Sound : Sound max (IsLeftJoin max) left_join_parser
  unfolding left_join_parser
  left_join_parser-Sound = parse_projection-Sound ▷ λ left left_ok.
      require_whitespace-Sound _ ▷ λ _ _. expect_keyword-Sound _ ▷ λ _ _.
      require_whitespace-Sound _ ▷ λ _ _.
      parse_joined-Sound ▷ λ right right_ok. return-Sound {Q = IsLeftJoin max} (left_ok, right_ok)

  parse_function-Sound : (keyword : String) → Sound max Any (parse_function keyword)
  unfolding parse_function
  parse_function-Sound keyword = skip_whitespace-Sound ▷ λ _ _. expect_keyword-Sound _ ▷ λ _ _.
      require_whitespace-Sound _ ▷ λ _ _. expect_keyword-Sound _ ▷ λ _ _.
      skip_whitespace-Sound ▷ λ _ _. expect_byte-Sound _ _ ▷ λ _ _. skip_whitespace-Sound

  parse_source-Sound : Sound max (IsIdentifier max) parse_source
  unfolding parse_source
  parse_source-Sound = skip_whitespace-Sound ▷ λ _ _. expect_byte-Sound _ _ ▷ λ _ _.
      require_whitespace-Sound _ ▷ λ _ _. expect_keyword-Sound _ ▷ λ _ _.
      require_whitespace-Sound _ ▷ λ _ _. parse_identifier-Sound ▷ λ table_name table_name_ok.
      skip_whitespace-Sound ▷ λ _ _. return-Sound {Q = IsIdentifier max} table_name_ok

  pub scalar_count_parser-Sound : Sound max (IsScalarCount max) scalar_count_parser
  unfolding scalar_count_parser
  scalar_count_parser-Sound = parse_function-Sound _ ▷ λ _ _.
      parse_argument-Sound ▷ λ argument argument_ok.
      parse_source-Sound ▷ λ table_name table_name_ok.
      parse_optional_comparison_predicate-Sound ▷ λ predicate predicate_ok.
      skip_semicolon-Sound ▷ λ _ _. end_of_input-Sound ▷ λ _ _.
      return-Sound {Q = IsScalarCount max} (argument_ok, table_name_ok, predicate_ok)

  pub scalar_sum_parser-Sound : Sound max (IsScalarSum max) scalar_sum_parser
  unfolding scalar_sum_parser
  scalar_sum_parser-Sound = parse_function-Sound _ ▷ λ _ _.
      parse_identifier-Sound ▷ λ column_name column_name_ok.
      parse_source-Sound ▷ λ table_name table_name_ok.
      parse_optional_comparison_predicate-Sound ▷ λ predicate predicate_ok.
      skip_semicolon-Sound ▷ λ _ _. end_of_input-Sound ▷ λ _ _.
      return-Sound {Q = IsScalarSum max} ((column_name_ok, table_name_ok), predicate_ok)

  pub scalar_min_parser-Sound : Sound max (IsScalarMin max) scalar_min_parser
  unfolding scalar_min_parser
  scalar_min_parser-Sound = parse_function-Sound _ ▷ λ _ _.
      parse_identifier-Sound ▷ λ column_name column_name_ok.
      parse_source-Sound ▷ λ table_name table_name_ok. skip_semicolon-Sound ▷ λ _ _.
      end_of_input-Sound ▷ λ _ _. return-Sound {Q = IsScalarMin max} (column_name_ok, table_name_ok)
