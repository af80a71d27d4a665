-- ===== src/Catalog/Reachability.antt =====
-- src/catalog.rs: the invariant along any sequence of the operations that change the catalog.
use rusthouse.Prelude.{Option, List, ◌≡◌, refl, ◌∙◌, arith}
use rusthouse.Prelude.Bytes.{Bytes}
use rusthouse.Storage.{Schema}
use rusthouse.Statement.{CreateTableStatement, InsertStatement}
use rusthouse.Csv.{CsvIngestLimits}
use rusthouse.Snapshot.Rows.{NullableI64PayloadCodec}
use rusthouse.Snapshot.Envelope.{SnapshotCodec}
use rusthouse.Snapshot.Restore.{SnapshotFile}
use rusthouse.Catalog.{CatalogLimits, Catalog, new_catalog, create, insert}
use rusthouse.Catalog.Access.{append_through, append_through-IsValid, append_through_limits}
use rusthouse.Prelude.Int.{ℤ}
use rusthouse.Catalog.Invariant.{IsValid, create-IsValid, insert-IsValid}
use rusthouse.Csv.Reader.{Reader}
use rusthouse.Catalog.Loads.Readers.{ingest_csv_with_names_from_reader-IsValid}
use rusthouse.Catalog.Loads.{
  ingest_csv_with_names, ingest_csv_with_names_from_reader, restore_int64_table_from_file,
}
use rusthouse.Catalog.Loads.Outcome.{
  ingest_csv_with_names-IsValid, restore_int64_table_from_file-IsValid,
  restore_int64_table_from_file_limits,
}

-- One accepted or rejected operation that writes.
pub data Step (IoError : Type 0) : Catalog → Catalog → Type 0 where
  by_create :
      (statement : CreateTableStatement) (c : Catalog) → Step IoError c (create statement c).0
  by_insert : (statement : InsertStatement) (c : Catalog) → Step IoError c (insert statement c).0
  by_ingest :
      (name input : Bytes) (limits : CsvIngestLimits) (c : Catalog)
      → Step IoError c (ingest_csv_with_names name input limits c).0
  by_read :
      (name : Bytes) (reader : Reader IoError) (limits : CsvIngestLimits) (c : Catalog)
      → Step IoError c (ingest_csv_with_names_from_reader name reader limits c).0
  by_table_mut :
      (name : Bytes) (vs : List (Option ℤ)) (c : Catalog)
      → Step IoError c (append_through name vs c)
  by_restore :
      (name : Bytes) (file : SnapshotFile IoError) (schema : Schema) (sc : SnapshotCodec)
      (pc : NullableI64PayloadCodec) (c : Catalog)
      → Step IoError c (restore_int64_table_from_file name file schema sc pc c).0

-- The catalogs that operations make from an empty one.
pub data Reachable (IoError : Type 0) (limits : CatalogLimits) : Catalog → Type 0 where
  start : Reachable IoError limits (new_catalog limits)
  next :
      {c d : Catalog} → Reachable IoError limits c → Step IoError c d → Reachable IoError limits d

module _ {IoError : Type 0} where
  Step-IsValid : {c d : Catalog} → Step IoError c d → IsValid c → IsValid d
  Step-IsValid (by_create statement c) v = create-IsValid statement c v
  Step-IsValid (by_insert statement c) v = insert-IsValid statement c v
  Step-IsValid (by_ingest name input limits c) v =
      ingest_csv_with_names-IsValid name input limits c v
  Step-IsValid (by_read name reader limits c) v =
      ingest_csv_with_names_from_reader-IsValid name reader limits c v
  Step-IsValid (by_table_mut name vs c) v = append_through-IsValid name vs c v
  Step-IsValid (by_restore name file schema sc pc c) v =
      restore_int64_table_from_file-IsValid name file schema sc pc c v

  Step-limits : {c d : Catalog} → Step IoError c d → d.limits ≡ c.limits
  unfolding create insert ingest_csv_with_names ingest_csv_with_names_from_reader
  Step-limits (by_create statement c) = ground arith
  Step-limits (by_insert statement c) = ground arith
  Step-limits (by_ingest name input limits c) = ground arith
  Step-limits (by_read name reader limits c) = ground arith
  Step-limits (by_table_mut name vs c) = append_through_limits name vs c
  Step-limits (by_restore name file schema sc pc c) =
      restore_int64_table_from_file_limits name file schema sc pc c

  pub Step-keeps :
      {c d : Catalog} (limits : CatalogLimits)
      → Step IoError c d
      → IsValid c × (c.limits ≡ limits)
      → IsValid d × (d.limits ≡ limits)
  Step-keeps limits s (v, e) = (Step-IsValid s v, Step-limits s ∙ e)

  -- After any sequence of creations, insertions, ingestions of CSV from bytes or from a reader,
  -- batches appended through table_mut and restorations of snapshot files from an empty catalog,
  -- accepted or rejected, the limits are the given ones, the number of tables is within its
  -- bound, no name is taken twice, and every table has the row cap of the catalog, no more rows
  -- than it, and no NULL in a column that is not nullable.
  pub Reachable-IsValid :
      (limits : CatalogLimits) {c : Catalog}
      → Reachable IoError limits c
      → IsValid c × (c.limits ≡ limits)
  Reachable-IsValid limits start = (ground arith, refl)
  Reachable-IsValid limits (next r s) = Step-keeps limits s (Reachable-IsValid limits r)
