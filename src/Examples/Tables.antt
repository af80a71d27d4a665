-- ===== src/Examples/Tables.antt =====
-- Appends to a small table, and a catalog that statements fill.
use rusthouse.Prelude.{
  inl, err, ℕ, ◌≡◌, refl, ◌⊎◌, true, false, Option, none, some, List, [], ◌∷◌, arith, ok,
}
use rusthouse.Prelude.Int.{ℤ, pos, negsuc}
use rusthouse.Prelude.Bytes.{Bytes, bytes_eq}
use rusthouse.Storage.{Int64Table, InsertError, append_batch, append, int64_schema}
use rusthouse.Storage.Append.{IsValid, Fits, append_each, append_batch-append_each}
use rusthouse.Statement.{CreateTableStatement}
use rusthouse.Storage.{int64}
use rusthouse.Execution.{execute_insert}
use rusthouse.Catalog.{
  CatalogLimits, Catalog, new_catalog, create, insert, select, get, set, any_ignore_ascii_case,
}
use rusthouse.Catalog.Creation.{Creates, create-Creates}
use rusthouse.Catalog.Invariant.{IsValid as CatalogIsValid, Inserts, insert-Inserts}
use rusthouse.Catalog.Reachability.{
  Reachable, start, next, by_create, by_insert, by_ingest, by_read, by_restore, Reachable-IsValid,
}
use rusthouse.Csv.Reader.{Reader}
use rusthouse.Catalog.Loads.{
  ingest_csv_with_names, ingest_csv_with_names_from_reader, restore_int64_table_from_file,
}
use rusthouse.Catalog.Loads.Outcome.{Restores, restore_int64_table_from_file-Restores}
use rusthouse.Csv.{CsvIngestLimits}
use rusthouse.Snapshot.Rows.{NullableI64PayloadCodec}
use rusthouse.Snapshot.Restore
use rusthouse.Snapshot.Restore.{SnapshotFile}
use rusthouse.Snapshot.Restore.Recovery.{holding}
use rusthouse.Catalog.Queries.{insertion, insert_each, select_all, select-insert_each-create}

-- A column `v` with room for one more row.
abbrev table : Int64Table
table = record { schema = int64_schema (b'v' ∷ []) false; values = some (pos 7) ∷ []; row_cap = 3 }

table-IsValid : IsValid table
table-IsValid = ground arith

abbrev batch : List (Option ℤ)
batch = some (negsuc 0) ∷ some (pos 9) ∷ []

append_batch-append_each_example :
    (Fits table batch
      × (append_batch batch table ≡ (record table { values = some (pos 7) ∷ batch }, ok tt))
      × (append_each batch table ≡ append_batch batch table))
    ⊎ ((¬ (Fits table batch))
        × ((e : InsertError) × (append_batch batch table ≡ (table, err e)))
        × ((e : InsertError) × ((append_each batch table).1 ≡ err e)))
append_batch-append_each_example = append_batch-append_each batch table (omega arith)

batch_accepted : (append_batch batch table).1 ≡ ok tt
unfolding append_batch
batch_accepted = refl

abbrev limits : CatalogLimits
limits = record { max_tables = 1; max_rows_per_table = 2 }

abbrev name : Bytes
name = b't' ∷ []

abbrev create_t : CreateTableStatement
create_t = record {
  table_name = name;
  column = record { name = b'v' ∷ []; data_type = int64; nullable = true };
  if_not_exists = false;
}

abbrev empty : Catalog
empty = new_catalog limits

abbrev values : List (Option ℤ)
values = some (pos 5) ∷ none ∷ []

create_accepted : (create create_t empty).1 ≡ ok tt
unfolding create get any_ignore_ascii_case
create_accepted = refl

values_accepted : (insert_each name values (create create_t empty).0).1 ≡ ok tt
unfolding create insert get set any_ignore_ascii_case execute_insert append bytes_eq
values_accepted = refl

select-insert_each-create_example :
    select (select_all (b'v' ∷ []) name) (insert_each name values (create create_t empty).0).0
    ≡ ok values
select-insert_each-create_example =
    select-insert_each-create create_t values empty (inl refl) create_accepted values_accepted

create-Creates_example : Creates create_t empty (create create_t empty)
create-Creates_example = create-Creates create_t empty

insert-Inserts_example :
    Inserts
      (insertion name none)
      (create create_t empty).0
      (insert (insertion name none) (create create_t empty).0)
insert-Inserts_example = insert-Inserts (insertion name none) (create create_t empty).0

abbrev filled : Catalog
filled = (insert (insertion name none) (create create_t empty).0).0

-- A line of the header and one value more than fits.
abbrev csv : Bytes
csv = b'v' ∷ 10 ∷ b'7' ∷ 10 ∷ b'8' ∷ 10 ∷ []

abbrev csv_limits : CsvIngestLimits
csv_limits = record { max_bytes = 100; max_rows = 2 }

abbrev ingested : Catalog
ingested = (ingest_csv_with_names name csv csv_limits filled).0

-- A reader that fails after a line.
abbrev failing_reader : Reader ℕ
failing_reader = record { bytes = b'v' ∷ 10 ∷ []; failure = some 5 }

abbrev interrupted : Catalog
interrupted = (ingest_csv_with_names_from_reader name failing_reader csv_limits ingested).0

-- A snapshot of the rows -7 and NULL.
abbrev envelope : Bytes
envelope =
    82 ∷ 72 ∷ 79 ∷ 85 ∷ 83 ∷ 69 ∷ 83 ∷ 78 ∷ 1 ∷ 0 ∷ 18 ∷ 0 ∷ 0 ∷ 0 ∷ 0 ∷ 0 ∷ 0 ∷ 0 ∷ 201 ∷ 85 ∷ 60
    ∷ 222 ∷ 2 ∷ 0 ∷ 0 ∷ 0 ∷ 0 ∷ 0 ∷ 0 ∷ 0 ∷ 1 ∷ 249 ∷ 255 ∷ 255 ∷ 255 ∷ 255 ∷ 255 ∷ 255 ∷ 255 ∷ 0
    ∷ []

abbrev file : SnapshotFile ℕ
file = holding envelope

abbrev row_codec : NullableI64PayloadCodec
row_codec = record { max_rows = 3; max_payload_len = 19 }

abbrev other_name : Bytes
other_name = b'u' ∷ []

abbrev loaded : Catalog
loaded =
    (restore_int64_table_from_file other_name file (int64_schema name true)
      (record { max_payload_len = 64 }) row_codec interrupted).0

loaded-Reachable : Reachable ℕ limits loaded
loaded-Reachable =
    next
      (next
        (next
          (next (next start (by_create create_t empty))
            (by_insert (insertion name none) (create create_t empty).0))
          (by_ingest name csv csv_limits filled))
        (by_read name failing_reader csv_limits ingested))
      (by_restore other_name file (int64_schema name true) (record { max_payload_len = 64 })
        row_codec interrupted)

Reachable-IsValid_example : CatalogIsValid loaded × (loaded.limits ≡ limits)
Reachable-IsValid_example = Reachable-IsValid limits loaded-Reachable

restore_int64_table_from_file-Restores_example :
    Restores name
      (Restore.restore_int64_table_from_file file
        (int64_schema name true)
        2
        (record { max_payload_len = 64 })
        row_codec)
      empty
      (restore_int64_table_from_file name file
        (int64_schema name true)
        (record { max_payload_len = 64 })
        row_codec
        empty)
restore_int64_table_from_file-Restores_example =
    restore_int64_table_from_file-Restores name file (int64_schema name true)
      (record { max_payload_len = 64 }) row_codec empty
