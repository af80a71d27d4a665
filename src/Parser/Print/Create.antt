-- ===== src/Parser/Print/Create.antt =====
-- src/parser.rs: the text of a creation, with CREATE and TABLE in any letter case, is parsed back
-- to its statement.
use rusthouse.Prelude.{
  ℕ, ◌+◌, ◌≤◌, ◌≡◌, refl, Bool, true, false, some, [], ◌∷◌, ◌++◌, arith, length, ok,
}
use rusthouse.Prelude.Bytes.{Bytes, bytes_eq, eq_ignore_ascii_case}
use rusthouse.Storage.{int64}
use rusthouse.Statement.{CreateTableStatement}
use rusthouse.Parser.{
  ParseLimits, Parser, Parse, branch, codes, take_while, word, skip_whitespace, require_whitespace,
  keyword_at_position, keyword_follows_current_word,
}
use rusthouse.Parser.Create.{
  parse_nullable_type, parse_int64_type, parse_if_not_exists, flag, if_not_exists_at_position,
  create_table_parser, parse_not_null,
}
use rusthouse.Parser.Sql.{parse_create_table}
use rusthouse.Parser.Sound.Words.{IsIdentifier}
use rusthouse.Snapshot.Words.{drop-append}
use Prim.Native.String.{String}
use rusthouse.Parser.Print.Words.{
  IsSpelling, expect_keyword-append, at, word-append, require_whitespace-append,
  skip_whitespace_none, skip_whitespace_one, word-spaces, parse_identifier-append,
}
use rusthouse.Parser.Print.Run.{after, run_parser-ok}

-- The text of a creation: a nullable column, or one that is not.
abbrev print_type : Bool → Bytes
print_type true = codes "Nullable(Int64))"
print_type false = codes "Int64 NOT NULL)"

-- A creation with CREATE and TABLE in any letter case.
abbrev pub print_create_as : Bytes → Bytes → Bytes → Bytes → Bool → Bytes
print_create_as create table name column nullable =
    create
    ++ (32
        ∷ (table
            ++ (32 ∷ (name ++ (codes " (" ++ (column ++ (codes " " ++ print_type nullable)))))))

abbrev pub print_create : Bytes → Bytes → Bool → Bytes
print_create name column nullable =
    print_create_as (codes "CREATE") (codes "TABLE") name column nullable

abbrev pub creation : Bytes → Bytes → Bool → CreateTableStatement
creation name column nullable = record {
  table_name = name;
  column = record { name = column; data_type = int64; nullable = nullable };
  if_not_exists = false;
}

parse_type :
    (nullable : Bool) (position max : ℕ)
    → (q : ℕ) × (branch
          (keyword_at_position "Nullable")
          parse_nullable_type
          parse_int64_type
          (at (print_type nullable) position max)
        ≡ ok (nullable, at (codes ")") q max))
unfolding parse_nullable_type parse_int64_type keyword_at_position skip_whitespace
    eq_ignore_ascii_case bytes_eq take_while word parse_not_null
parse_type true position max = (position + 8 + 0 + 1 + 0 + 5 + 0 + 1, refl)
parse_type false position max = (position + 5 + 1 + 3 + 1 + 4, refl)

flag_none :
    (test : Parser → Bool) (p : Parse (Unit {0})) (s : Parser)
    → test s ≡ false
    → flag test p s ≡ ok (false, s)
flag_none test p s h = rw h refl

-- A name before a parenthesis is not `IF NOT`.
if_not_exists-name :
    (name rest : Bytes) (position max : ℕ)
    → word name ≡ some name
    → if_not_exists_at_position (at (name ++ (codes " (" ++ rest)) position max) ≡ false
unfolding keyword_at_position keyword_follows_current_word take_while word
if_not_exists-name name rest position max h =
    let w = word-append name (codes " (" ++ rest) h refl in
    rw (keyword_follows_current_word, w, drop-append name (codes " (" ++ rest)) (ground arith)

space-type :
    (expected : String) (nullable : Bool) (position max : ℕ)
    → require_whitespace expected (at (codes " " ++ print_type nullable) position max)
      ≡ ok (tt, at (print_type nullable) (position + 1) max)
unfolding require_whitespace take_while
space-type expected true position max = refl
space-type expected false position max = refl

-- A creation is parsed back with CREATE and TABLE in any letter case.
pub parse_create_table-print_create_as :
    (create table name column : Bytes) (nullable : Bool) (limits : ParseLimits)
    → IsSpelling "CREATE" create
    → IsSpelling "TABLE" table
    → IsIdentifier limits.max_identifier_bytes name
    → IsIdentifier limits.max_identifier_bytes column
    → length (print_create_as create table name column nullable) ≤ limits.max_statement_bytes
    → parse_create_table (print_create_as create table name column nullable) limits
      ≡ ok (creation name column nullable)
unfolding parse_create_table eq_ignore_ascii_case bytes_eq take_while word
parse_create_table-print_create_as create table name column nullable limits is_create is_table
      is_name is_column short =
    let max = limits.max_identifier_bytes in
    let text = print_create_as create table name column nullable in
    let after_column = codes " " ++ print_type nullable in
    let after_name = codes " (" ++ (column ++ after_column) in
    let after_table = 32 ∷ (name ++ after_name) in
    let after_create = 32 ∷ (table ++ after_table) in
    let at_table : ℕ = 0 + length create + 1 in
    let at_name : ℕ = at_table + length table + 1 in
    let at_column : ℕ = at_name + length name + 1 + 1 + 0 in
    let at_type : ℕ = at_column + length column + 1 in
    let (q, parsed) = parse_type nullable at_type max in
    run_parser-ok create_table_parser text limits (creation name column nullable)
      (at [] (q + 0 + 1 + 0) max) short
      (after _ (skip_whitespace_none text 0 max (word-spaces create after_create is_create.spelled))
        (after _ (expect_keyword-append _ create after_create 0 max is_create refl) (
          after _
            (require_whitespace-append _ table after_table (0 + length create) max is_table.spelled)
            (after _ (expect_keyword-append _ table after_table at_table max is_table refl) (
              after _
                (require_whitespace-append _ name after_name (at_table + length table) max
                  is_name.spelled)
                (after _
                  (flag_none if_not_exists_at_position parse_if_not_exists
                    (at (name ++ after_name) at_name max)
                    (if_not_exists-name name (column ++ after_column) at_name max is_name.spelled))
                  (after _ (parse_identifier-append name after_name at_name max is_name refl) (
                    after _
                      (skip_whitespace_one (codes "(" ++ (column ++ after_column))
                        (at_name + length name) max refl)
                      (after _
                        (skip_whitespace_none (column ++ after_column)
                          (at_name + length name + 1 + 1) max
                          (word-spaces column after_column is_column.spelled))
                        (after _
                          (parse_identifier-append column after_column at_column max is_column refl)
                          (after _ (space-type _ nullable (at_column + length column) max) (
                            after _ parsed (
                              after _ (skip_whitespace_none (codes ")") q max refl) (
                                after _ (skip_whitespace_none [] (q + 0 + 1) max refl)
                                  refl))))))))))))))

-- The canonical text of a creation, with a Nullable(Int64) or an Int64 NOT NULL column, is parsed
-- to that creation, where both names are single words within the identifier bound, and may be
-- keywords, and the text is within the statement bound.
pub parse_create_table-print_create :
    (name column : Bytes) (nullable : Bool) (limits : ParseLimits)
    → IsIdentifier limits.max_identifier_bytes name
    → IsIdentifier limits.max_identifier_bytes column
    → length (print_create name column nullable) ≤ limits.max_statement_bytes
    → parse_create_table (print_create name column nullable) limits
      ≡ ok (creation name column nullable)
unfolding eq_ignore_ascii_case bytes_eq take_while word
parse_create_table-print_create name column nullable limits =
    parse_create_table-print_create_as (codes "CREATE") (codes "TABLE") name column nullable limits
      (record { spelled = refl; same = refl }) (record { spelled = refl; same = refl })
