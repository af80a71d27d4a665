-- ===== src/Catalog/Loads.antt =====
-- src/catalog.rs: the operations that fill the catalog from bytes: the restoration of a table from
-- a snapshot file, and the ingestion of CSV.
pub mod Outcome
pub mod Readers
use rusthouse.Prelude.{
  ℕ, none, some, ◌∷◌, leb, if◌then◌else◌, saturating_add, length, Result, ok, err, map_err,
}
use rusthouse.Prelude.Int.{is_some}
use rusthouse.Prelude.Bytes.{Bytes}
use rusthouse.Storage.{Int64Table, Schema}
use rusthouse.Csv.{CsvIngestLimits, CsvIngestError}
use rusthouse.Csv
use rusthouse.Csv.Reader.{Reader, CsvReaderIngestError}
use rusthouse.Csv.Reader
use rusthouse.Snapshot.Rows
use rusthouse.Snapshot.Envelope
use rusthouse.Snapshot.Rows.{NullableI64PayloadCodec}
use rusthouse.Snapshot.Envelope.{SnapshotCodec}
use rusthouse.Snapshot.Restore
use rusthouse.Snapshot.Restore.{SnapshotFile, Int64TableFileRestoreError}
use rusthouse.Catalog.{Catalog, get, set}

pub data CatalogCsvIngestError : Type 0 where
  unknown_table : (name : Bytes) → CatalogCsvIngestError
  csv_failed : CsvIngestError → CatalogCsvIngestError

pub data CatalogCsvReaderIngestError (IoError : Type 0) : Type 0 where
  unknown_table : (name : Bytes) → CatalogCsvReaderIngestError IoError
  reader_failed : CsvReaderIngestError IoError → CatalogCsvReaderIngestError IoError

pub data CatalogSnapshotRestoreError (IoError : Type 0) : Type 0 where
  table_already_exists : (name : Bytes) → CatalogSnapshotRestoreError IoError
  table_limit_exceeded : (tables max_tables : ℕ) → CatalogSnapshotRestoreError IoError
  snapshot_failed : Int64TableFileRestoreError IoError → CatalogSnapshotRestoreError IoError

unfoldable pub ingest_csv_with_names :
    Bytes → Bytes → CsvIngestLimits → Catalog → Catalog × Result CatalogCsvIngestError ℕ
ingest_csv_with_names table_name input limits c = elim (get table_name c.tables) [
  | none ↦ (c, err (unknown_table table_name))
  | some table ↦
      let (table', result) = Csv.ingest_csv_with_names input limits table in
      (record c { tables = set table_name table' c.tables }, map_err csv_failed result)
]

unfoldable pub ingest_csv_with_names_from_reader :
    {IoError : Type 0}
    → Bytes
    → Reader IoError
    → CsvIngestLimits
    → Catalog
    → Catalog × Result (CatalogCsvReaderIngestError IoError) ℕ
ingest_csv_with_names_from_reader table_name reader limits c = elim (get table_name c.tables) [
  | none ↦ (c, err (unknown_table table_name))
  | some table ↦
      let (table', result) = Csv.Reader.ingest_csv_with_names_from_reader reader limits table in
      (record c { tables = set table_name table' c.tables }, map_err reader_failed result)
]

-- The insertion of a restored table.
abbrev pub register :
    {E : Type 0} → Bytes → Result E Int64Table → Catalog → Catalog × Result E (Unit {0})
register table_name (ok table) c = (record c { tables = (table_name, table) ∷ c.tables }, ok tt)
register table_name (err e) c = (c, err e)

unfoldable pub restore_int64_table_from_file :
    {IoError : Type 0}
    → Bytes
    → SnapshotFile IoError
    → Schema
    → SnapshotCodec
    → NullableI64PayloadCodec
    → Catalog
    → Catalog × Result (CatalogSnapshotRestoreError IoError) (Unit {0})
unfolding Restore.restore_int64_table_from_file
restore_int64_table_from_file table_name file schema snapshot_codec payload_codec c =
    if is_some (get table_name c.tables)
    then (c, err (table_already_exists table_name))
    else if leb c.limits.max_tables (length c.tables)
    then (c, err (table_limit_exceeded (saturating_add (length c.tables) 1) c.limits.max_tables))
    else register table_name
        (map_err snapshot_failed (
          Restore.restore_int64_table_from_file file schema c.limits.max_rows_per_table
            snapshot_codec payload_codec))
        c
