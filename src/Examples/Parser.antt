-- ===== src/Examples/Parser.antt =====
-- Texts of statements.
use rusthouse.Prelude.{◌≡◌, refl, true, false, Option, none, some, List, [], ◌∷◌, ok, err}
use rusthouse.Prelude.Int.{negsuc}
use rusthouse.Prelude.Decimal.{parse_i64}
use rusthouse.Storage.{int64}
use rusthouse.Scan.{ge}
use rusthouse.Order.{desc, first}
use rusthouse.Statement.{comparison}
use rusthouse.Parser.{ParseLimits, codes, unexpected_input, take_while}
use rusthouse.Prelude.Bytes.{Bytes}
use rusthouse.Parser.Sound.Statements.{IsSelect, IsCreate}
use rusthouse.Parser.Sound.Sql.{Parsed, parse_select-Parsed, parse_create_table-Parsed}
use rusthouse.Parser.{word}
use rusthouse.Parser.Sound.Words.{IsIdentifier}
use rusthouse.Parser.Print.{print_value}
use rusthouse.Parser.Print.Insert.{print_insert, parse_insert-print_insert}
use rusthouse.Parser.Print.Create.{print_create, creation, parse_create_table-print_create}
use rusthouse.Prelude.{length, arith, ◌≤◌}
use rusthouse.Statement.{InsertStatement}
use rusthouse.Parser.Sql.{parse_create_table, parse_insert, parse_select}

abbrev limits : ParseLimits
limits = record { max_statement_bytes = 200; max_identifier_bytes = 8 }

create_parsed :
    parse_create_table
      (codes "create table IF not exists t (v Nullable ( Int64 ) )engine=memory")
      limits
    ≡ ok (record {
      table_name = codes "t";
      column = record { name = codes "v"; data_type = int64; nullable = true };
      if_not_exists = true;
    })
unfolding parse_create_table rusthouse.Parser.skip_whitespace
    rusthouse.Prelude.Bytes.eq_ignore_ascii_case rusthouse.Prelude.Bytes.bytes_eq
    rusthouse.Parser.Create.parse_if_not_exists rusthouse.Parser.Create.parse_nullable_type
    rusthouse.Parser.Create.parse_engine
create_parsed = refl

insert_parsed :
    parse_insert (codes " INSERT INTO t VALUES(-12 ) ") limits
    ≡ ok (record { table_name = codes "t"; value = some (negsuc 11) })
unfolding parse_insert rusthouse.Parser.skip_whitespace rusthouse.Prelude.Bytes.eq_ignore_ascii_case
    rusthouse.Prelude.Bytes.bytes_eq rusthouse.Parser.Literals.parse_some_int64 parse_i64
insert_parsed = refl

insert_rejected :
    parse_insert (codes "INSERT INTO t VALUE (1)") limits ≡ err (unexpected_input 14 "VALUES")
unfolding parse_insert rusthouse.Parser.skip_whitespace rusthouse.Prelude.Bytes.eq_ignore_ascii_case
    rusthouse.Prelude.Bytes.bytes_eq
insert_rejected = refl

select_parsed :
    parse_select (codes "SELECT v FROM t WHERE v>= -7 ORDER BY v DESC NULLS FIRST LIMIT 3;") limits
    ≡ ok (record {
      column_name = codes "v";
      table_name = codes "t";
      predicate =
          some (comparison (record { column_name = codes "v"; operator = ge; value = negsuc 6 }));
      order_by = some (record { column_name = codes "v"; direction = desc; null_order = first });
      limit = some 3;
    })
unfolding parse_select rusthouse.Parser.skip_whitespace rusthouse.Prelude.Bytes.eq_ignore_ascii_case
    rusthouse.Prelude.Bytes.bytes_eq parse_i64
select_parsed = refl

abbrev select_text : Bytes
select_text = codes "SELECT v FROM t WHERE v>= -7 ORDER BY v DESC NULLS FIRST LIMIT 3;"

parse_select-Parsed_example : Parsed IsSelect select_text limits (parse_select select_text limits)
parse_select-Parsed_example = parse_select-Parsed select_text limits

abbrev create_text : Bytes
create_text = codes "CREATE TABLE t (v Int64 NOT NULL"

parse_create_table-Parsed_example :
    Parsed IsCreate create_text limits (parse_create_table create_text limits)
parse_create_table-Parsed_example = parse_create_table-Parsed create_text limits

t_IsIdentifier : IsIdentifier 8 (codes "t")
unfolding word
t_IsIdentifier = record { spelled = refl; bounded = omega arith }

v_IsIdentifier : IsIdentifier 8 (codes "v")
unfolding word
v_IsIdentifier = record { spelled = refl; bounded = omega arith }

abbrev insertion_t : InsertStatement
insertion_t = record { table_name = codes "t"; value = some (negsuc 11) }

printed : print_insert insertion_t ≡ codes "INSERT INTO t VALUES (-12)"
unfolding print_value
printed = refl

insertion_short : length (print_insert insertion_t) ≤ limits.max_statement_bytes
unfolding print_value
insertion_short = omega arith

parse_insert-print_insert_example : parse_insert (print_insert insertion_t) limits ≡ ok insertion_t
parse_insert-print_insert_example =
    parse_insert-print_insert insertion_t limits t_IsIdentifier (omega arith) insertion_short

parse_create_table-print_create_example :
    parse_create_table (print_create (codes "t") (codes "v") false) limits
    ≡ ok (creation (codes "t") (codes "v") false)
parse_create_table-print_create_example =
    parse_create_table-print_create (codes "t") (codes "v") false limits t_IsIdentifier
      v_IsIdentifier (omega arith)
