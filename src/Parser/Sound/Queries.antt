-- ===== src/Parser/Sound/Queries.antt =====
-- src/parser.rs: the parsers of SELECT and SELECT DISTINCT stay within the input, and the names
-- and values of their statements are as stated.
use rusthouse.Prelude.{ℕ, Option, none, some}
use rusthouse.Prelude.Bytes.{Bytes}
use Prim.Native.String.{String}
use rusthouse.Order.{asc, desc, first, last}
use rusthouse.Parser.{keyword_at_position}
use rusthouse.Parser.Select.{
  parse_not, parse_nullness, parse_where, parse_either, parse_order_by, parse_limit_clause,
  parse_column_from, require_limit, column_is_missing, select_parser, select_distinct_parser,
}
use rusthouse.Parser.Literals.{
  parse_comparison, parse_where_comparison, parse_optional_comparison_predicate,
}
use rusthouse.Parser.Sound.{
  Sound, Any, Maybe, ◌▷◌, return-Sound, unexpected-Sound, branch-Sound, optional-Sound,
}
use rusthouse.Parser.Sound.Words.{
  IsIdentifier, skip_whitespace-Sound, require_whitespace-Sound, expect_keyword-Sound,
  parse_identifier-Sound,
}
use rusthouse.Parser.Sound.Literals.{
  end_of_input-Sound, skip_semicolon-Sound, parse_where_int64-Sound, parse_limit-Sound,
  parse_comparison_operator-Sound,
}
use rusthouse.Statement.{OrderByClause}
use rusthouse.Parser.Sound.Statements.{
  IsComparison, IsPredicate, IsOrderBy, IsLimit, HasLimit, IsSelect, TwoNames, IsSelectDistinct,
}

module _ {max : ℕ} where
  pub parse_comparison-Sound :
      (column_name : Bytes)
      → IsIdentifier max column_name
      → Sound max (IsComparison max) (parse_comparison column_name)
  unfolding parse_comparison
  parse_comparison-Sound column_name column_name_ok = parse_comparison_operator-Sound ▷ λ _ _.
      skip_whitespace-Sound ▷ λ _ _. parse_where_int64-Sound ▷ λ value value_ok.
      return-Sound {Q = IsComparison max} (column_name_ok, value_ok)

  parse_where_comparison-Sound : Sound max (IsComparison max) parse_where_comparison
  unfolding parse_where_comparison
  parse_where_comparison-Sound = expect_keyword-Sound _ ▷ λ _ _. require_whitespace-Sound _ ▷ λ _ _.
      parse_identifier-Sound ▷ λ column_name column_name_ok. skip_whitespace-Sound ▷ λ _ _.
      parse_comparison-Sound _ column_name_ok ▷ λ predicate predicate_ok.
      skip_whitespace-Sound ▷ λ _ _. return-Sound {Q = IsComparison max} predicate_ok

  pub parse_optional_comparison_predicate-Sound :
      Sound max (Maybe (IsComparison max)) parse_optional_comparison_predicate
  unfolding parse_optional_comparison_predicate
  parse_optional_comparison_predicate-Sound = optional-Sound _ parse_where_comparison-Sound

  parse_not-Sound : Sound max Any parse_not
  unfolding parse_not
  parse_not-Sound =
      expect_keyword-Sound _ ▷ λ _ _. require_whitespace-Sound _ ▷ λ _ _. return-Sound tt

  parse_nullness-Sound :
      (column_name : Bytes)
      → IsIdentifier max column_name
      → Sound max (IsPredicate max) (parse_nullness column_name)
  unfolding parse_nullness
  parse_nullness-Sound column_name column_name_ok = expect_keyword-Sound _ ▷ λ _ _.
      require_whitespace-Sound _ ▷ λ _ _.
      branch-Sound (keyword_at_position "NOT") parse_not-Sound (return-Sound tt) ▷ λ _ _.
      expect_keyword-Sound _ ▷ λ _ _. return-Sound {Q = IsPredicate max} column_name_ok

  parse_where-Sound : Sound max (IsPredicate max) parse_where
  unfolding parse_where
  parse_where-Sound = expect_keyword-Sound _ ▷ λ _ _. require_whitespace-Sound _ ▷ λ _ _.
      parse_identifier-Sound ▷ λ column_name column_name_ok. skip_whitespace-Sound ▷ λ _ _.
      branch-Sound (keyword_at_position "IS") (parse_nullness-Sound _ column_name_ok) (
        parse_comparison-Sound _ column_name_ok ▷ λ p p_ok. return-Sound {Q = IsPredicate max} p_ok)
      ▷ λ predicate predicate_ok.
          skip_whitespace-Sound ▷ λ _ _. return-Sound {Q = IsPredicate max} predicate_ok

  parse_either-Sound :
      {A : Type 0} (keyword : String) (a : A) (keyword' : String) (b : A) (expected : String)
      → Sound max Any (parse_either keyword a keyword' b expected)
  unfolding parse_either
  parse_either-Sound keyword a keyword' b expected =
      branch-Sound (keyword_at_position keyword) (expect_keyword-Sound _ ▷ λ _ _. return-Sound tt) (
        branch-Sound (keyword_at_position keyword')
          (expect_keyword-Sound _ ▷ λ _ _. return-Sound tt) unexpected-Sound)

  parse_order_by-Sound : Sound max (IsOrderBy max) parse_order_by
  unfolding parse_order_by
  parse_order_by-Sound = expect_keyword-Sound _ ▷ λ _ _. require_whitespace-Sound _ ▷ λ _ _.
      expect_keyword-Sound _ ▷ λ _ _. require_whitespace-Sound _ ▷ λ _ _.
      parse_identifier-Sound ▷ λ column_name column_name_ok. require_whitespace-Sound _ ▷ λ _ _.
      parse_either-Sound "ASC" asc "DESC" desc "ASC or DESC" ▷ λ _ _.
      require_whitespace-Sound _ ▷ λ _ _. expect_keyword-Sound _ ▷ λ _ _.
      require_whitespace-Sound _ ▷ λ _ _.
      parse_either-Sound "FIRST" first "LAST" last "FIRST or LAST" ▷ λ _ _.
      skip_whitespace-Sound ▷ λ _ _. return-Sound {Q = IsOrderBy max} column_name_ok

  parse_limit_clause-Sound : Sound max IsLimit parse_limit_clause
  unfolding parse_limit_clause
  parse_limit_clause-Sound = expect_keyword-Sound _ ▷ λ _ _. require_whitespace-Sound _ ▷ λ _ _.
      parse_limit-Sound ▷ λ limit limit_ok.
      skip_whitespace-Sound ▷ λ _ _. return-Sound {Q = IsLimit} limit_ok

  parse_column_from-Sound : Sound max (TwoNames max) parse_column_from
  unfolding parse_column_from
  parse_column_from-Sound =
      branch-Sound column_is_missing (unexpected-Sound {Q = Any}) (return-Sound tt) ▷ λ _ _.
      parse_identifier-Sound ▷ λ column_name column_name_ok. require_whitespace-Sound _ ▷ λ _ _.
      expect_keyword-Sound _ ▷ λ _ _. require_whitespace-Sound _ ▷ λ _ _.
      parse_identifier-Sound ▷ λ table_name table_name_ok.
      skip_whitespace-Sound ▷ λ _ _. return-Sound {Q = TwoNames max} (column_name_ok, table_name_ok)

  require_limit-Sound :
      (order_by : Option OrderByClause) (limit : Option ℕ)
      → Sound max (λ _. HasLimit order_by limit) (require_limit order_by limit)
  require_limit-Sound none limit = return-Sound tt
  require_limit-Sound (some order_by) none = unexpected-Sound
  require_limit-Sound (some order_by) (some limit) = return-Sound tt

  pub select_parser-Sound : Sound max (IsSelect max) select_parser
  unfolding select_parser
  select_parser-Sound = skip_whitespace-Sound ▷ λ _ _. expect_keyword-Sound _ ▷ λ _ _.
      require_whitespace-Sound _ ▷ λ _ _. parse_column_from-Sound ▷ λ names names_ok.
      optional-Sound (keyword_at_position "WHERE") parse_where-Sound ▷ λ predicate predicate_ok.
      optional-Sound (keyword_at_position "ORDER") parse_order_by-Sound ▷ λ order_by order_by_ok.
      optional-Sound (keyword_at_position "LIMIT") parse_limit_clause-Sound ▷ λ limit limit_ok.
      require_limit-Sound order_by limit ▷ λ _ with_limit. skip_semicolon-Sound ▷ λ _ _.
      end_of_input-Sound ▷ λ _ _.
      return-Sound {Q = IsSelect max}
        (names_ok.0, names_ok.1, predicate_ok, order_by_ok, limit_ok, with_limit)

  pub select_distinct_parser-Sound : Sound max (IsSelectDistinct max) select_distinct_parser
  unfolding select_distinct_parser
  select_distinct_parser-Sound = skip_whitespace-Sound ▷ λ _ _. expect_keyword-Sound _ ▷ λ _ _.
      require_whitespace-Sound _ ▷ λ _ _. expect_keyword-Sound _ ▷ λ _ _.
      require_whitespace-Sound _ ▷ λ _ _. parse_column_from-Sound ▷ λ names names_ok.
      skip_semicolon-Sound ▷ λ _ _.
      end_of_input-Sound ▷ λ _ _. return-Sound {Q = IsSelectDistinct max} names_ok
