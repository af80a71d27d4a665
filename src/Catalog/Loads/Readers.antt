-- ===== src/Catalog/Loads/Readers.antt =====
-- src/catalog.rs: what the ingestion of CSV from a reader keeps.
use rusthouse.Prelude.{
  ◌≡◌, refl, ◌∙◌, inl, inr, ok, err, Bool-cases, Option-cases, ltb, length, Result,
}
use rusthouse.Prelude.Bytes.{Bytes}
use rusthouse.Storage.{Int64Table}
use rusthouse.Storage.Append
use rusthouse.Csv.{CsvIngestLimits}
use rusthouse.Csv.Reader.{Reader, ingest_read}
use rusthouse.Csv.Reader
use rusthouse.Catalog.{Catalog, get}
use rusthouse.Catalog.Invariant.{IsValid, get-IsValid}
use rusthouse.Catalog.Loads.{ingest_csv_with_names_from_reader}
use rusthouse.Catalog.Loads.Outcome.{ingest_csv-IsValid, set-IsValid}

module _ {IoError : Type 0} where
  ingest_read-IsValid :
      (read : Result IoError Bytes) (limits : CsvIngestLimits) (t : Int64Table)
      → Append.IsValid t
      → Append.IsValid (ingest_read read limits t).0
        × ((ingest_read read limits t).0.row_cap ≡ t.row_cap)
  ingest_read-IsValid (err e) limits t v = (v, refl)
  ingest_read-IsValid (ok input) limits t v =
      elim (Bool-cases (ltb limits.max_bytes (length input))) [
        | inl long ↦ rw (long) (v, refl)
        | inr short ↦ rw (short) (ingest_csv-IsValid input limits t v)
      ]

  pub ingest_csv_with_names_from_reader-IsValid :
      (table_name : Bytes) (reader : Reader IoError) (limits : CsvIngestLimits) (c : Catalog)
      → IsValid c
      → IsValid (ingest_csv_with_names_from_reader table_name reader limits c).0
  unfolding ingest_csv_with_names_from_reader Reader.ingest_csv_with_names_from_reader
  ingest_csv_with_names_from_reader-IsValid table_name reader limits c v =
      elim (Option-cases (get table_name c.tables)) [
        | inl absent ↦ rw (ingest_csv_with_names_from_reader, absent) v
        | inr (t, e) ↦
            (let (valid, cap) = get-IsValid _ table_name t c.tables v.well_formed e in
              let (valid', cap') = ingest_read-IsValid _ limits t valid in
              rw (ingest_csv_with_names_from_reader, e)
                (set-IsValid table_name _ c v valid' (cap' ∙ cap)))
      ]
