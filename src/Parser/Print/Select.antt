-- ===== src/Parser/Print/Select.antt =====
-- src/parser.rs: the text of a selection, with its keywords in any letter case, is parsed back to
-- its statement.
use rusthouse.Prelude.{
  ℕ, ◌+◌, ◌≤◌, ◌≡◌, refl, Bool, true, false, some, [], ◌∷◌, ◌++◌, arith, length, ok,
}
use rusthouse.Prelude.Bytes.{Bytes}
use rusthouse.Parser.{
  ParseLimits, Parser, Parse, return, unexpected, branch, take_while, word, keyword_at_position,
  keyword_follows_current_word,
}
use rusthouse.Parser.Sql.{parse_select}
use rusthouse.Parser.Sound.Words.{IsIdentifier}
use rusthouse.Snapshot.Words.{drop-append}
use rusthouse.Parser.Select.{select_parser, column_is_missing}
use rusthouse.Catalog.Queries.{select_all}
use rusthouse.Parser.Print.Words.{
  word-spaces, IsSpelling, expect_keyword-append, at, word-append, require_whitespace-append,
  skip_whitespace_none, parse_identifier-append,
}
use rusthouse.Parser.Print.Run.{after, run_parser-ok}

-- `SELECT column FROM table`, with its keywords in any letter case.
abbrev pub print_select_as : Bytes → Bytes → Bytes → Bytes → Bytes
print_select_as select from column name =
    select ++ (32 ∷ (column ++ (32 ∷ (from ++ (32 ∷ (name ++ []))))))

-- A column before `FROM` is there, even if it is `FROM` itself.
column-present :
    (column from rest : Bytes) (position max : ℕ)
    → word column ≡ some column
    → IsSpelling "FROM" from
    → column_is_missing (at (column ++ (32 ∷ (from ++ (32 ∷ rest)))) position max) ≡ false
unfolding keyword_at_position keyword_follows_current_word take_while
column-present column from rest position max h k =
    let after_column = 32 ∷ (from ++ (32 ∷ rest)) in
    let w = word-append column after_column h refl in
    let follows : keyword_follows_current_word "FROM" (at (column ++ after_column) position max)
        ≡ true =
      rw
        (
          keyword_follows_current_word,
          w,
          drop-append column after_column,
          word-spaces from (32 ∷ rest) k.spelled,
          word-append from (32 ∷ rest) k.spelled refl,
          k.same,
        )
        refl in
    rw follows (ground arith)

unexpected_none :
    {A : Type 0} (test : Parser → Bool) (p q : Parse A) (s : Parser)
    → test s ≡ false
    → branch test p q s ≡ q s
unexpected_none test p q s h = rw h refl

-- The text of `SELECT column FROM table` is parsed to that selection.
pub parse_select-print_select :
    (select from column name : Bytes) (limits : ParseLimits)
    → IsSpelling "SELECT" select
    → IsSpelling "FROM" from
    → IsIdentifier limits.max_identifier_bytes column
    → IsIdentifier limits.max_identifier_bytes name
    → length (print_select_as select from column name) ≤ limits.max_statement_bytes
    → parse_select (print_select_as select from column name) limits ≡ ok (select_all column name)
unfolding parse_select take_while
parse_select-print_select select from column name limits is_select is_from is_column is_name short =
    let max = limits.max_identifier_bytes in
    let text = print_select_as select from column name in
    let after_from = 32 ∷ (name ++ []) in
    let after_column = 32 ∷ (from ++ after_from) in
    let at_column : ℕ = 0 + length select + 1 in
    let at_from : ℕ = at_column + length column + 1 in
    let at_name : ℕ = at_from + length from + 1 in
    run_parser-ok select_parser text limits (select_all column name)
      (at [] (at_name + length name + 0) max) short
      (after _
        (skip_whitespace_none text 0 max
          (word-spaces select (32 ∷ (column ++ after_column)) is_select.spelled))
        (after _
          (expect_keyword-append _ select (32 ∷ (column ++ after_column)) 0 max is_select refl)
          (after _
            (require_whitespace-append _ column after_column (0 + length select) max
              is_column.spelled)
            (after _
              (after _
                (unexpected_none column_is_missing (unexpected "identifier") (return tt)
                  (at (column ++ after_column) at_column max)
                  (column-present column from (name ++ []) at_column max is_column.spelled is_from))
                (after _ (parse_identifier-append column after_column at_column max is_column refl)
                  (after _
                    (require_whitespace-append _ from after_from (at_column + length column) max
                      is_from.spelled)
                    (after _ (expect_keyword-append _ from after_from at_from max is_from refl) (
                      after _
                        (require_whitespace-append _ name [] (at_from + length from) max
                          is_name.spelled)
                        (after _ (parse_identifier-append name [] at_name max is_name refl) (
                          after _ (skip_whitespace_none [] (at_name + length name) max refl)
                            refl)))))))
              refl))))
