-- ===== src/Examples/Sessions.antt =====
-- A table that is created, filled and read by texts.
use rusthouse.Prelude.{◌≡◌, refl, true, Option, none, some, List, [], ◌∷◌, arith, All, ok}
use rusthouse.Prelude.Int.{ℤ, negsuc}
use rusthouse.Prelude.Bytes.{Bytes, bytes_eq, eq_ignore_ascii_case}
use rusthouse.Parser.{ParseLimits, codes, word, skip_whitespace}
use rusthouse.Parser.Sound.Words.{IsIdentifier}
use rusthouse.Parser.Print.{print_value}
use rusthouse.Catalog.{CatalogLimits, Catalog, new_catalog}
use rusthouse.Catalog.Text.{execute_create, execute_insert, execute_select}
use rusthouse.Catalog.Sessions.{
  Keywords, AreSpelled, create_text, select_text, insert_each_text, Fits,
  execute_select-insert_each_text-execute_create,
}

abbrev limits : ParseLimits
limits = record { max_statement_bytes = 100; max_identifier_bytes = 8 }

abbrev empty : Catalog
empty = new_catalog (record { max_tables = 1; max_rows_per_table = 2 })

abbrev name : Bytes
name = codes "t"

abbrev column : Bytes
column = codes "v"

abbrev values : List (Option ℤ)
values = some (negsuc 6) ∷ none ∷ []

name-IsIdentifier : IsIdentifier 8 name
unfolding word
name-IsIdentifier = record { spelled = refl; bounded = omega arith }

column-IsIdentifier : IsIdentifier 8 column
unfolding word
column-IsIdentifier = record { spelled = refl; bounded = omega arith }

-- Lower case, capitals and a mixture.
abbrev keywords : Keywords
keywords = record {
  create_word = codes "create";
  table_word = codes "Table";
  insert_word = codes "INSERT";
  into_word = codes "into";
  values_word = codes "vALUES";
  select_word = codes "select";
  from_word = codes "FROM";
}

keywords_spelled : AreSpelled keywords
unfolding word eq_ignore_ascii_case bytes_eq
keywords_spelled = record {
  create_spelled = record { spelled = refl; same = refl };
  table_spelled = record { spelled = refl; same = refl };
  insert_spelled = record { spelled = refl; same = refl };
  into_spelled = record { spelled = refl; same = refl };
  values_spelled = record { spelled = refl; same = refl };
  select_spelled = record { spelled = refl; same = refl };
  from_spelled = record { spelled = refl; same = refl };
}

values-Fits : All (Fits keywords limits name) values
unfolding print_value
values-Fits = ((omega arith, omega arith), ((tt, omega arith), tt))

abbrev created : Catalog
created = (execute_create (create_text keywords name column true) limits empty).0

created_accepted : (execute_create (create_text keywords name column true) limits empty).1 ≡ ok tt
unfolding execute_create skip_whitespace eq_ignore_ascii_case bytes_eq
    rusthouse.Parser.Create.parse_nullable_type rusthouse.Catalog.get
created_accepted = refl

values_accepted : (insert_each_text keywords limits name values created).1 ≡ ok tt
unfolding execute_insert print_value skip_whitespace eq_ignore_ascii_case bytes_eq
    rusthouse.Parser.Literals.parse_some_int64 rusthouse.Prelude.Decimal.parse_i64
    rusthouse.Catalog.get execute_create rusthouse.Parser.Create.parse_nullable_type
    rusthouse.Execution.execute_insert rusthouse.Storage.append rusthouse.Parser.Literals.parse_null
    rusthouse.Catalog.set
values_accepted = refl

execute_select-insert_each_text-execute_create_example :
    execute_select
      (select_text keywords column name)
      limits
      (insert_each_text keywords limits name values created).0
    ≡ ok values
execute_select-insert_each_text-execute_create_example =
    execute_select-insert_each_text-execute_create keywords limits name column true values empty
      keywords_spelled name-IsIdentifier column-IsIdentifier (omega arith) (omega arith) values-Fits
      created_accepted values_accepted
