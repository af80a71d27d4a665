-- ===== src/Parser/Print/Insert.antt =====
-- src/parser.rs: the text of an insertion, with its keywords in any letter case, is parsed back to
-- its statement.
use rusthouse.Prelude.{◌+◌, ◌≤◌, ◌≡◌, refl, ℕ, [], ◌∷◌, ◌++◌, length, ok}
use rusthouse.Prelude.Bytes.{Bytes, bytes_eq, eq_ignore_ascii_case}
use rusthouse.Order.Ranks.{IsNullableI64}
use rusthouse.Statement.{InsertStatement}
use rusthouse.Parser.{ParseLimits, codes, take_while, word}
use rusthouse.Parser.Insert.{insert_parser}
use rusthouse.Parser.Sql.{parse_insert}
use rusthouse.Parser.Sound.Words.{IsIdentifier}
use rusthouse.Parser.Print.{print_value}
use rusthouse.Parser.Print.Words.{
  word-spaces, IsSpelling, expect_keyword-append, at, require_whitespace-append,
  skip_whitespace_none, skip_whitespace_one, value-spaces, parse_identifier-append,
  parse_int64_value-append,
}
use rusthouse.Parser.Print.Run.{after, run_parser-ok}

-- `INSERT INTO table VALUES (value)`, with its keywords in any letter case.
abbrev pub print_insert_as : Bytes → Bytes → Bytes → InsertStatement → Bytes
print_insert_as insert into values st =
    insert
    ++ (32
        ∷ (into
            ++ (32
                ∷ (st.table_name
                    ++ (32 ∷ (values ++ (codes " (" ++ (print_value st.value ++ codes ")"))))))))

abbrev pub print_insert : InsertStatement → Bytes
print_insert st = print_insert_as (codes "INSERT") (codes "INTO") (codes "VALUES") st

-- An insertion is parsed back with INSERT, INTO and VALUES in any letter case.
pub parse_insert-print_insert_as :
    (insert into values : Bytes) (st : InsertStatement) (limits : ParseLimits)
    → IsSpelling "INSERT" insert
    → IsSpelling "INTO" into
    → IsSpelling "VALUES" values
    → IsIdentifier limits.max_identifier_bytes st.table_name
    → IsNullableI64 st.value
    → length (print_insert_as insert into values st) ≤ limits.max_statement_bytes
    → parse_insert (print_insert_as insert into values st) limits ≡ ok st
unfolding parse_insert take_while
parse_insert-print_insert_as insert into values st limits is_insert is_into is_values is_name
      is_value short =
    let max = limits.max_identifier_bytes in
    let name = st.table_name in
    let text = print_insert_as insert into values st in
    let value = print_value st.value ++ codes ")" in
    let after_values = codes " (" ++ value in
    let after_name = 32 ∷ (values ++ after_values) in
    let after_into = 32 ∷ (name ++ after_name) in
    let after_insert = 32 ∷ (into ++ after_into) in
    let at_into : ℕ = 0 + length insert + 1 in
    let at_name : ℕ = at_into + length into + 1 in
    let at_values : ℕ = at_name + length name + 1 in
    let at_value : ℕ = at_values + length values + 1 + 1 in
    let (q, parsed) = parse_int64_value-append st.value [] (at_value + 0) max is_value in
    run_parser-ok insert_parser text limits st (at [] (q + 0 + 1 + 0) max) short (
      after _ (skip_whitespace_none text 0 max (word-spaces insert after_insert is_insert.spelled))
        (after _ (expect_keyword-append _ insert after_insert 0 max is_insert refl) (
          after _
            (require_whitespace-append _ into after_into (0 + length insert) max is_into.spelled)
            (after _ (expect_keyword-append _ into after_into at_into max is_into refl) (
              after _
                (require_whitespace-append _ name after_name (at_into + length into) max
                  is_name.spelled)
                (after _ (parse_identifier-append name after_name at_name max is_name refl) (
                  after _
                    (require_whitespace-append _ values after_values (at_name + length name) max
                      is_values.spelled)
                    (after _
                      (expect_keyword-append _ values after_values at_values max is_values refl)
                      (after _
                        (skip_whitespace_one (codes "(" ++ value) (at_values + length values) max
                          refl)
                        (after _
                          (skip_whitespace_none value at_value max
                            (value-spaces st.value (codes ")")))
                          (after _ parsed (
                            after _ (skip_whitespace_none (codes ")") q max refl) (
                              after _ (skip_whitespace_none [] (q + 0 + 1) max refl)
                                refl)))))))))))))

-- The canonical text of an insertion, with its value in decimal or NULL, is parsed to that
-- insertion, where its table name is a single word within the identifier bound, its value is a
-- 64-bit integer or NULL, and the text is within the statement bound.
pub parse_insert-print_insert :
    (st : InsertStatement) (limits : ParseLimits)
    → IsIdentifier limits.max_identifier_bytes st.table_name
    → IsNullableI64 st.value
    → length (print_insert st) ≤ limits.max_statement_bytes
    → parse_insert (print_insert st) limits ≡ ok st
unfolding eq_ignore_ascii_case bytes_eq take_while word
parse_insert-print_insert st limits =
    parse_insert-print_insert_as (codes "INSERT") (codes "INTO") (codes "VALUES") st limits
      (record { spelled = refl; same = refl }) (record { spelled = refl; same = refl })
      (record { spelled = refl; same = refl })
