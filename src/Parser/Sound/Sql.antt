-- ===== src/Parser/Sound/Sql.antt =====
-- src/parser.rs: what parsing a whole statement answers.
use rusthouse.Prelude.{
  ℕ, ◌≤◌, ◌<◌, ◌≡◌, refl, subst, ◌⊎◌, inl, inr, arith, ltb, Bool-cases, length, Result, ok, err,
  map_ok,
}
use rusthouse.Prelude.Bytes.{Bytes}
use rusthouse.Parser.{ParseLimits, ParseError, Parser, Parse, new_parser, statement_too_long}
use rusthouse.Parser.Create.{create_table_parser}
use rusthouse.Parser.Insert.{insert_parser}
use rusthouse.Parser.Select.{select_parser, select_distinct_parser}
use rusthouse.Parser.Joins.{inner_join_parser, left_join_parser}
use rusthouse.Parser.Scalar.{scalar_count_parser, scalar_sum_parser, scalar_min_parser}
use rusthouse.Parser.Sql.{
  run_parser, parse_create_table, parse_insert, parse_select, parse_inner_join, parse_left_join,
  parse_scalar_count, parse_scalar_sum, parse_scalar_min, parse_select_distinct,
}
use rusthouse.Parser.Sound.{Within, Reads, Sound, end_of}
use rusthouse.Parser.Sound.Statements.{
  IsCreate, IsInsert, IsSelect, IsInnerJoin, IsLeftJoin, IsScalarCount, IsScalarSum, IsScalarMin,
  IsSelectDistinct,
}
use rusthouse.Parser.Sound.Writes.{create_table_parser-Sound, insert_parser-Sound}
use rusthouse.Parser.Sound.Queries.{select_parser-Sound, select_distinct_parser-Sound}
use rusthouse.Parser.Sound.Functions.{
  inner_join_parser-Sound, left_join_parser-Sound, scalar_count_parser-Sound,
  scalar_sum_parser-Sound, scalar_min_parser-Sound,
}

-- What parsing a text answers: a statement as stated, of a text within its bound; or an error, of
-- the bound, or at a place within the text.
abbrev pub Parsed :
    {A : Type 0} → (ℕ → A → Type 0) → Bytes → ParseLimits → Result ParseError A → Type 0
Parsed Q input limits (ok statement) =
    Q limits.max_identifier_bytes statement × (length input ≤ limits.max_statement_bytes)
Parsed Q input limits (err e) =
    ((e ≡ statement_too_long (length input) limits.max_statement_bytes)
      × (limits.max_statement_bytes < length input))
    ⊎ (Within (length input) e × (length input ≤ limits.max_statement_bytes))

module _ {A : Type 0} (Q : ℕ → A → Type 0) (input : Bytes) (limits : ParseLimits) where
  map_ok-Parsed :
      (r : Result ParseError (A × Parser))
      → Reads limits.max_identifier_bytes (Q limits.max_identifier_bytes) (length input) r
      → length input ≤ limits.max_statement_bytes
      → Parsed Q input limits (map_ok (λ r. r.0) r)
  map_ok-Parsed (err e) h short = inr (h, short)
  map_ok-Parsed (ok (a, s)) h short = (h.0, short)

  run_parser-Parsed :
      (p : Parse A)
      → Sound limits.max_identifier_bytes (Q limits.max_identifier_bytes) p
      → Parsed Q input limits (run_parser p input limits)
  run_parser-Parsed p m =
      let s = new_parser input limits.max_identifier_bytes in
      let max = limits.max_identifier_bytes in
      let start : end_of s ≡ length input = omega arith in
      let read = subst (λ (n : ℕ). Reads max (Q max) n (p s)) start (m.reads s refl) in
      elim (Bool-cases (ltb limits.max_statement_bytes (length input))) [
        | inl long ↦ rw long (inl (refl, ground arith))
        | inr short ↦ rw short (map_ok-Parsed (p s) read (ground arith))
      ]

module _ (input : Bytes) (limits : ParseLimits) where
  -- Parsing a CREATE TABLE answers with a statement, whose text is within its bound and whose two
  -- names are single words within theirs; or with the error of the statement bound, exactly if
  -- the text is longer; or with an error whose offset lies within the text.
  pub parse_create_table-Parsed : Parsed IsCreate input limits (parse_create_table input limits)
  unfolding parse_create_table
  parse_create_table-Parsed =
      run_parser-Parsed IsCreate input limits create_table_parser create_table_parser-Sound

  pub parse_insert-Parsed : Parsed IsInsert input limits (parse_insert input limits)
  unfolding parse_insert
  parse_insert-Parsed = run_parser-Parsed IsInsert input limits insert_parser insert_parser-Sound

  -- Parsing a SELECT answers with a statement, whose text is within its bound, whose names are
  -- single words within theirs, whose literal is a 64-bit integer, whose LIMIT is a 64-bit size,
  -- and which has a LIMIT if it has an ORDER BY; or with the error of the statement bound,
  -- exactly if the text is longer; or with an error whose offset lies within the text.
  pub parse_select-Parsed : Parsed IsSelect input limits (parse_select input limits)
  unfolding parse_select
  parse_select-Parsed = run_parser-Parsed IsSelect input limits select_parser select_parser-Sound

  pub parse_inner_join-Parsed : Parsed IsInnerJoin input limits (parse_inner_join input limits)
  unfolding parse_inner_join
  parse_inner_join-Parsed =
      run_parser-Parsed IsInnerJoin input limits inner_join_parser inner_join_parser-Sound

  pub parse_left_join-Parsed : Parsed IsLeftJoin input limits (parse_left_join input limits)
  unfolding parse_left_join
  parse_left_join-Parsed =
      run_parser-Parsed IsLeftJoin input limits left_join_parser left_join_parser-Sound

  pub parse_scalar_count-Parsed :
      Parsed IsScalarCount input limits (parse_scalar_count input limits)
  unfolding parse_scalar_count
  parse_scalar_count-Parsed =
      run_parser-Parsed IsScalarCount input limits scalar_count_parser scalar_count_parser-Sound

  pub parse_scalar_sum-Parsed : Parsed IsScalarSum input limits (parse_scalar_sum input limits)
  unfolding parse_scalar_sum
  parse_scalar_sum-Parsed =
      run_parser-Parsed IsScalarSum input limits scalar_sum_parser scalar_sum_parser-Sound

  pub parse_scalar_min-Parsed : Parsed IsScalarMin input limits (parse_scalar_min input limits)
  unfolding parse_scalar_min
  parse_scalar_min-Parsed =
      run_parser-Parsed IsScalarMin input limits scalar_min_parser scalar_min_parser-Sound

  pub parse_select_distinct-Parsed :
      Parsed IsSelectDistinct input limits (parse_select_distinct input limits)
  unfolding parse_select_distinct
  parse_select_distinct-Parsed =
      run_parser-Parsed IsSelectDistinct input limits select_distinct_parser
        select_distinct_parser-Sound
