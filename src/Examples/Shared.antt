-- ===== src/Examples/Shared.antt =====
-- A shared catalog and the texts of two clients.
use rusthouse.Prelude.{◌≡◌, refl, true, false, none, some, List, [], ◌∷◌, ok}
use rusthouse.Prelude.Int.{pos}
use rusthouse.Prelude.Bytes.{Bytes, bytes_eq, eq_ignore_ascii_case}
use rusthouse.Prelude.Decimal.{parse_i64}
use rusthouse.Storage
use rusthouse.Storage.{Int64Table, append}
use rusthouse.Execution
use rusthouse.Parser.{ParseLimits, codes, skip_whitespace}
use rusthouse.Catalog.{CatalogLimits, get, set}
use rusthouse.Catalog.Invariant.{IsValid}
use rusthouse.Catalog.Text
use rusthouse.SharedCatalog.{
  SharedCatalog, with_limits, read, catalog_failed, execute_create, execute_insert,
}
use rusthouse.SharedCatalog.Clients.{Shared, start, next, creates, inserts, read-Shared}
use rusthouse.SharedCatalog.Inserts.{Extends, insert_texts, accepted_values, insert_texts-Extends}

abbrev limits : CatalogLimits
limits = record { max_tables = 1; max_rows_per_table = 2 }

abbrev parse_limits : ParseLimits
parse_limits = record { max_statement_bytes = 100; max_identifier_bytes = 8 }

abbrev created : SharedCatalog
created = (execute_create (codes "CREATE TABLE t (v Int64)") parse_limits (with_limits limits)).0

abbrev insert_7 : Bytes
insert_7 = codes "INSERT INTO t VALUES (7)"

abbrev inserted : SharedCatalog
inserted = (execute_insert insert_7 parse_limits created).0

inserted-Shared : Shared limits inserted
inserted-Shared =
    next (next start (creates (codes "CREATE TABLE t (v Int64)") parse_limits (with_limits limits)))
      (inserts insert_7 parse_limits created)

abbrev select_v : Bytes
select_v = codes "SELECT v FROM t"

selected :
    read catalog_failed (Text.execute_select select_v parse_limits) inserted
    ≡ ok (some (pos 7) ∷ [])
unfolding read execute_insert execute_create Text.execute_select skip_whitespace
    eq_ignore_ascii_case bytes_eq get rusthouse.Parser.Literals.parse_some_int64 parse_i64
    rusthouse.Parser.Create.parse_int64_type set Execution.execute_select_with_order_limits
    Execution.execute_insert append Execution.select_unordered
selected = refl

read-Shared_example :
    IsValid inserted.catalog
    × (inserted.catalog.limits ≡ limits)
    × (Text.execute_select select_v parse_limits inserted.catalog ≡ ok (some (pos 7) ∷ []))
read-Shared_example =
    read-Shared limits catalog_failed (Text.execute_select select_v parse_limits)
      (some (pos 7) ∷ []) inserted-Shared selected

-- One value more than fits, and a text that does not parse.
abbrev texts : List Bytes
texts = insert_7 ∷ codes "INSERT t" ∷ codes "INSERT INTO t VALUES (NULL)" ∷ insert_7 ∷ []

abbrev table : Int64Table
table = Storage.new_table (Storage.int64_schema (codes "v") true) 2

created_table : get (codes "t") created.catalog.tables ≡ some table
unfolding get execute_create skip_whitespace eq_ignore_ascii_case bytes_eq
    rusthouse.Parser.Create.parse_int64_type
created_table = refl

created_free : created.poisoned ≡ false
unfolding execute_create
created_free = refl

insert_texts-Extends_example :
    Extends
      (codes "t")
      table
      (accepted_values (codes "t") parse_limits texts created)
      (insert_texts parse_limits texts created).catalog.tables
insert_texts-Extends_example =
    insert_texts-Extends (codes "t") parse_limits texts table created created_free created_table

accepted : accepted_values (codes "t") parse_limits texts created ≡ some (pos 7) ∷ none ∷ []
unfolding rusthouse.Parser.Sql.parse_insert skip_whitespace eq_ignore_ascii_case bytes_eq
    rusthouse.Parser.Literals.parse_some_int64 parse_i64 execute_insert execute_create get
    rusthouse.Parser.Create.parse_int64_type Execution.execute_insert append
    rusthouse.Parser.Literals.parse_null set
accepted = refl
