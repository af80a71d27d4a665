-- ===== src/Catalog/Loads/Outcome.antt =====
-- src/catalog.rs: what loading CSV or a snapshot file leaves behind, and that it keeps the
-- invariant of the catalog.
use rusthouse.Prelude.{
  ℕ, ◌+◌, ◌≤◌, ◌≡◌, refl, ap, ◌∙◌, ◌≢◌, inl, inr, Option, none, some, List, arith, ltb, leb,
  Bool-cases, Option-cases, length, Result, ok, err, map_err, Result-cases, first_ok,
}
use rusthouse.Prelude.Int.{ℤ, is_some}
use rusthouse.Prelude.Bytes.{Bytes, bytes_eq_iff, bytes_eq_refl}
use rusthouse.Storage.{Int64Table, Schema, InsertError, append_batch, new_table}
use rusthouse.Storage.Append.{IsValid as TableIsValid, append_batch-IsValid, new_table-IsValid}
use rusthouse.Csv.{CsvIngestLimits, CsvIngestError, read_input, split_inclusive}
use rusthouse.Csv
use rusthouse.Snapshot.Rows
use rusthouse.Snapshot.Envelope
use rusthouse.Snapshot.Rows.{NullableI64PayloadCodec}
use rusthouse.Snapshot.Envelope.{SnapshotCodec}
use rusthouse.Snapshot.Restore
use rusthouse.Snapshot.Restore.{
  SnapshotFile, Int64TableRestoreError, Int64TableFileRestoreError, restore_int64_table,
  table_of_rows, read_bounded_snapshot_file, file_restore_error,
}
use rusthouse.Catalog.{Catalog, get, set, len}
use rusthouse.Catalog.Tables.{get-cons, length-set}
use rusthouse.Catalog.Invariant.{IsValid, get-IsValid, set-AllTables}
use rusthouse.Catalog.Loads.{ingest_csv_with_names, restore_int64_table_from_file}

-- A table with its rows replaced keeps the invariant of the catalog.
pub set-IsValid :
    (name : Bytes) (t' : Int64Table) (c : Catalog)
    → IsValid c
    → TableIsValid t'
    → t'.row_cap ≡ c.limits.max_rows_per_table
    → IsValid (record c { tables = set name t' c.tables })
set-IsValid name t' c v valid cap = record {
  bounded = rw (length-set name t' c.tables) v.bounded;
  well_formed = set-AllTables c.limits.max_rows_per_table name t' c.tables v.well_formed valid cap;
}

pub append_batch-row_cap :
    (vs : List (Option ℤ)) (t : Int64Table) → (append_batch vs t).0.row_cap ≡ t.row_cap
unfolding append_batch
append_batch-row_cap vs t = ground arith

pub ingest_csv-IsValid :
    (input : Bytes) (limits : CsvIngestLimits) (t : Int64Table)
    → TableIsValid t
    → TableIsValid (Csv.ingest_csv_with_names input limits t).0
      × ((Csv.ingest_csv_with_names input limits t).0.row_cap ≡ t.row_cap)
unfolding Csv.ingest_csv_with_names
ingest_csv-IsValid input limits t v = elim (Bool-cases (ltb limits.max_bytes (length input))) [
  | inl long ↦ rw (Csv.ingest_csv_with_names, long) (v, refl)
  | inr short ↦ elim (Result-cases (read_input t limits.max_rows (split_inclusive input))) [
    | inl (values, e) ↦
        rw (Csv.ingest_csv_with_names, short, e)
          (append_batch-IsValid values t v, append_batch-row_cap values t)
    | inr (x, e) ↦ rw (Csv.ingest_csv_with_names, short, e) (v, refl)
  ]
]

pub ingest_csv_with_names-IsValid :
    (table_name input : Bytes) (limits : CsvIngestLimits) (c : Catalog)
    → IsValid c
    → IsValid (ingest_csv_with_names table_name input limits c).0
unfolding ingest_csv_with_names
ingest_csv_with_names-IsValid table_name input limits c v =
    elim (Option-cases (get table_name c.tables)) [
      | inl absent ↦ rw (ingest_csv_with_names, absent) v
      | inr (t, e) ↦
          (let (valid, cap) = get-IsValid _ table_name t c.tables v.well_formed e in
            let (valid', cap') = ingest_csv-IsValid input limits t valid in
            rw (ingest_csv_with_names, e) (set-IsValid table_name _ c v valid' (cap' ∙ cap)))
    ]

-- A restored table is well formed and has the given cap.
restored-IsValid :
    (rows : List (Option ℤ)) (schema : Schema) (cap : ℕ) {E : Type 0} (f : InsertError → E)
    (t : Int64Table)
    → table_of_rows f rows schema cap ≡ ok t
    → TableIsValid t × (t.row_cap ≡ cap)
restored-IsValid rows schema cap f t h =
    let empty = new_table schema cap in
    let done : (append_batch rows empty).0 ≡ t = ground arith in
    rw (← done) (
      append_batch-IsValid rows empty (new_table-IsValid schema cap),
      append_batch-row_cap rows empty,
    )

restore_int64_table-IsValid :
    (envelope : Bytes) (schema : Schema) (cap : ℕ) (sc : SnapshotCodec)
    (pc : NullableI64PayloadCodec) (t : Int64Table)
    → restore_int64_table envelope schema cap sc pc ≡ ok t
    → TableIsValid t × (t.row_cap ≡ cap)
unfolding restore_int64_table
restore_int64_table-IsValid envelope schema cap sc pc t h =
    let (payload, e, rest) =
      first_ok (map_err Int64TableRestoreError.envelope_failed (Envelope.decode sc envelope)) _ h in
    let (rows, e', rest') =
      first_ok (map_err Int64TableRestoreError.payload_failed (Rows.decode pc payload)) _ rest in
    restored-IsValid rows schema cap _ t rest'

map_err-ok : {E F A : Type 0} (f : E → F) (r : Result E A) (a : A) → map_err f r ≡ ok a → r ≡ ok a
map_err-ok f (ok b) a h = cc
map_err-ok f (err e) a h = cc

restore_file-IsValid :
    {IoError : Type 0} (file : SnapshotFile IoError) (schema : Schema) (cap : ℕ)
    (sc : SnapshotCodec) (pc : NullableI64PayloadCodec) (t : Int64Table)
    → Restore.restore_int64_table_from_file file schema cap sc pc ≡ ok t
    → TableIsValid t × (t.row_cap ≡ cap)
unfolding Restore.restore_int64_table_from_file
restore_file-IsValid file schema cap sc pc t h =
    let (envelope, e, rest) =
      first_ok (map_err file_restore_error (read_bounded_snapshot_file file sc.max_payload_len)) _
        h in
    restore_int64_table-IsValid envelope schema cap sc pc t (map_err-ok _ _ t rest)

-- What a restoration leaves behind: after an error nothing has changed; otherwise the name was
-- free, it now has the table of the file, every other name is as before, and there is one more
-- table, within the bound.
abbrev pub Restores :
    {E IoError : Type 0}
    → Bytes
    → Result (Int64TableFileRestoreError IoError) Int64Table
    → Catalog
    → Catalog × Result E (Unit {0})
    → Type 0
Restores name restored c (c', err e) = c' ≡ c
Restores name restored c (c', ok _) =
    (t : Int64Table) × (restored ≡ ok t)
    × (get name c.tables ≡ none)
    × (get name c'.tables ≡ some t)
    × ((other : Bytes) → name ≢ other → get other c'.tables ≡ get other c.tables)
    × (c'.limits ≡ c.limits)
    × (len c' ≡ len c + 1)
    × (len c' ≤ c'.limits.max_tables)

limits_of :
    {E IoError : Type 0} (name : Bytes)
    (restored : Result (Int64TableFileRestoreError IoError) Int64Table) (c : Catalog)
    (after : Catalog × Result E (Unit {0}))
    → Restores name restored c after
    → after.0.limits ≡ c.limits
limits_of name restored c (c', err e) h = ap (λ (d : Catalog). d.limits) h
limits_of name restored c (c', ok _) (t, h1, h2, h3, h4, same, h5, h6) = same

module _ {IoError : Type 0} (name : Bytes) (file : SnapshotFile IoError) (schema : Schema)
    (sc : SnapshotCodec) (pc : NullableI64PayloadCodec) (c : Catalog) where
  abbrev restored : Result (Int64TableFileRestoreError IoError) Int64Table
  restored = Restore.restore_int64_table_from_file file schema c.limits.max_rows_per_table sc pc

  -- A restoration into the catalog changes nothing after an error; otherwise the name was free,
  -- it now has the table of the file, every other name and the limits are as before, and there is
  -- one more table, within the bound.
  pub restore_int64_table_from_file-Restores :
      Restores name restored c (restore_int64_table_from_file name file schema sc pc c)
  unfolding restore_int64_table_from_file
  restore_int64_table_from_file-Restores = elim (Bool-cases (is_some (get name c.tables))) [
    | inl taken ↦ rw (restore_int64_table_from_file, taken) refl
    | inr free ↦ elim (Bool-cases (leb c.limits.max_tables (length c.tables))) [
      | inl full ↦ rw (restore_int64_table_from_file, free, full) refl
      | inr room ↦ elim (Result-cases restored) [
        | inr (e, q) ↦ rw (restore_int64_table_from_file, free, room, q) refl
        | inl (t, q) ↦
            rw (restore_int64_table_from_file, free, room, q)
              (
                t,
                refl,
                ground arith,
                rw (get-cons name name t c.tables, bytes_eq_refl name) refl,
                λ other ne. ground (arith, get-cons other name t c.tables, bytes_eq_iff name other),
                refl,
                omega arith,
                ground arith,
              )
      ]
    ]
  ]

  pub restore_int64_table_from_file-IsValid :
      IsValid c → IsValid (restore_int64_table_from_file name file schema sc pc c).0
  unfolding restore_int64_table_from_file
  restore_int64_table_from_file-IsValid v = elim (Bool-cases (is_some (get name c.tables))) [
    | inl taken ↦ rw (restore_int64_table_from_file, taken) v
    | inr free ↦ elim (Bool-cases (leb c.limits.max_tables (length c.tables))) [
      | inl full ↦ rw (restore_int64_table_from_file, free, full) v
      | inr room ↦ elim (Result-cases restored) [
        | inr (e, q) ↦ rw (restore_int64_table_from_file, free, room, q) v
        | inl (t, q) ↦
            (let (valid, cap) = restore_file-IsValid file schema _ sc pc t q in
              rw (restore_int64_table_from_file, free, room, q)
                (record {
                  bounded = ground arith;
                  well_formed = (valid, cap, ground arith, v.well_formed);
                }))
      ]
    ]
  ]

  pub restore_int64_table_from_file_limits :
      (restore_int64_table_from_file name file schema sc pc c).0.limits ≡ c.limits
  restore_int64_table_from_file_limits =
      limits_of name restored c (restore_int64_table_from_file name file schema sc pc c)
        restore_int64_table_from_file-Restores
