-- ===== src/Parser/Sound/Writes.antt =====
-- src/parser.rs: the parsers of CREATE TABLE and INSERT stay within the input, and the names and
-- values of their statements are as stated.
use rusthouse.Prelude.{ℕ, Bool}
use rusthouse.Parser.{keyword_at_position, Parser, Parse}
use rusthouse.Parser.Create.{
  create_table_parser, parse_if_not_exists, parse_not_null, parse_null_column, parse_nullability,
  parse_nullable_type, parse_int64_type, parse_engine, flag, if_not_exists_at_position,
}
use rusthouse.Parser.Insert.{insert_parser}
use rusthouse.Parser.Sound.{Sound, Any, ◌▷◌, return-Sound, unexpected-Sound, branch-Sound}
use rusthouse.Parser.Sound.Words.{
  skip_whitespace-Sound, require_whitespace-Sound, expect_keyword-Sound, expect_byte-Sound,
  parse_identifier-Sound,
}
use rusthouse.Parser.Sound.Literals.{
  end_of_input-Sound, parse_int64_value-Sound, close_row-Sound, reject_more_rows-Sound,
}
use rusthouse.Parser.Sound.Statements.{IsCreate, IsInsert}

module _ {max : ℕ} where
  flag-Sound :
      (test : Parser → Bool) {p : Parse (Unit {0})} → Sound max Any p → Sound max Any (flag test p)
  flag-Sound test m = branch-Sound test (m ▷ λ _ _. return-Sound tt) (return-Sound tt)

  parse_if_not_exists-Sound : Sound max Any parse_if_not_exists
  unfolding parse_if_not_exists
  parse_if_not_exists-Sound = expect_keyword-Sound _ ▷ λ _ _. require_whitespace-Sound _ ▷ λ _ _.
      expect_keyword-Sound _ ▷ λ _ _.
      require_whitespace-Sound _ ▷ λ _ _. expect_keyword-Sound _ ▷ λ _ _. require_whitespace-Sound _

  parse_not_null-Sound : Sound max Any parse_not_null
  unfolding parse_not_null
  parse_not_null-Sound = expect_keyword-Sound _ ▷ λ _ _.
      require_whitespace-Sound _ ▷ λ _ _. expect_keyword-Sound _ ▷ λ _ _. return-Sound tt

  parse_null_column-Sound : Sound max Any parse_null_column
  unfolding parse_null_column
  parse_null_column-Sound = expect_keyword-Sound _ ▷ λ _ _. return-Sound tt

  parse_nullability-Sound : Sound max Any parse_nullability
  unfolding parse_nullability
  parse_nullability-Sound = skip_whitespace-Sound ▷ λ _ _. branch-Sound _ (return-Sound tt) (
      branch-Sound _ parse_null_column-Sound (branch-Sound _ parse_not_null-Sound unexpected-Sound))

  parse_nullable_type-Sound : Sound max Any parse_nullable_type
  unfolding parse_nullable_type
  parse_nullable_type-Sound = expect_keyword-Sound _ ▷ λ _ _. skip_whitespace-Sound ▷ λ _ _.
      expect_byte-Sound _ _ ▷ λ _ _. skip_whitespace-Sound ▷ λ _ _. expect_keyword-Sound _ ▷ λ _ _.
      skip_whitespace-Sound ▷ λ _ _. expect_byte-Sound _ _ ▷ λ _ _. return-Sound tt

  parse_int64_type-Sound : Sound max Any parse_int64_type
  unfolding parse_int64_type
  parse_int64_type-Sound = expect_keyword-Sound _ ▷ λ _ _. parse_nullability-Sound

  parse_engine-Sound : Sound max Any parse_engine
  unfolding parse_engine
  parse_engine-Sound = expect_keyword-Sound _ ▷ λ _ _. skip_whitespace-Sound ▷ λ _ _.
      expect_byte-Sound _ _ ▷ λ _ _.
      skip_whitespace-Sound ▷ λ _ _. expect_keyword-Sound _ ▷ λ _ _. skip_whitespace-Sound

  pub create_table_parser-Sound : Sound max (IsCreate max) create_table_parser
  unfolding create_table_parser
  create_table_parser-Sound = skip_whitespace-Sound ▷ λ _ _. expect_keyword-Sound _ ▷ λ _ _.
      require_whitespace-Sound _ ▷ λ _ _. expect_keyword-Sound _ ▷ λ _ _.
      require_whitespace-Sound _ ▷ λ _ _.
      flag-Sound if_not_exists_at_position parse_if_not_exists-Sound ▷ λ _ _.
      parse_identifier-Sound ▷ λ table_name table_name_ok. skip_whitespace-Sound ▷ λ _ _.
      expect_byte-Sound _ _ ▷ λ _ _. skip_whitespace-Sound ▷ λ _ _.
      parse_identifier-Sound ▷ λ column_name column_name_ok. require_whitespace-Sound _ ▷ λ _ _.
      branch-Sound (keyword_at_position "Nullable") parse_nullable_type-Sound parse_int64_type-Sound
      ▷ λ _ _. skip_whitespace-Sound ▷ λ _ _. expect_byte-Sound _ _ ▷ λ _ _.
          skip_whitespace-Sound ▷ λ _ _.
          flag-Sound (keyword_at_position "ENGINE") parse_engine-Sound ▷ λ _ _.
          end_of_input-Sound ▷ λ _ _.
          return-Sound {Q = IsCreate max} (table_name_ok, column_name_ok)

  pub insert_parser-Sound : Sound max (IsInsert max) insert_parser
  unfolding insert_parser
  insert_parser-Sound = skip_whitespace-Sound ▷ λ _ _. expect_keyword-Sound _ ▷ λ _ _.
      require_whitespace-Sound _ ▷ λ _ _. expect_keyword-Sound _ ▷ λ _ _.
      require_whitespace-Sound _ ▷ λ _ _. parse_identifier-Sound ▷ λ table_name table_name_ok.
      require_whitespace-Sound _ ▷ λ _ _. expect_keyword-Sound _ ▷ λ _ _.
      skip_whitespace-Sound ▷ λ _ _. expect_byte-Sound _ _ ▷ λ _ _. skip_whitespace-Sound ▷ λ _ _.
      parse_int64_value-Sound ▷ λ value value_ok. skip_whitespace-Sound ▷ λ _ _.
      close_row-Sound ▷ λ _ _. skip_whitespace-Sound ▷ λ _ _. reject_more_rows-Sound ▷ λ _ _.
      end_of_input-Sound ▷ λ _ _. return-Sound {Q = IsInsert max} (table_name_ok, value_ok)
