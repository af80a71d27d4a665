-- ===== src/Examples/Csv.antt =====
-- The ingestion of three lines.
use rusthouse.Prelude.{
  ℕ, ◌≡◌, refl, inl, true, Option, none, some, List, [], ◌∷◌, ◌++◌, arith, ok, err,
}
use rusthouse.Prelude.Int.{ℤ, negsuc}
use rusthouse.Prelude.Bytes.{Bytes, bytes_eq}
use rusthouse.Prelude.Decimal.{decimal, parse_i64}
use rusthouse.Storage.{Int64Table, int64_schema, append_batch}
use rusthouse.Csv.{
  CsvIngestLimits, ingest_csv_with_names, split_inclusive, strip_suffix, line_contents,
  parse_record, row_limit_exceeded, read_input, read_lines,
}
use rusthouse.Csv.Reader.{
  Reader, ingest_csv_with_names_from_reader, ingest_csv_with_names_from_reader-whole,
}
use rusthouse.Csv.Reader
use rusthouse.Csv.Ingest.{
  Ingests, Contents, ingest_csv_with_names-Ingests, ingest_csv_with_names_accepts,
}

abbrev table : Int64Table
table = record { schema = int64_schema (b'v' ∷ []) true; values = []; row_cap = 2 }

-- "v\r\n-7\nNULL"
abbrev input : Bytes
input = b'v' ∷ 13 ∷ 10 ∷ b'-' ∷ b'7' ∷ 10 ∷ b'N' ∷ b'U' ∷ b'L' ∷ b'L' ∷ []

abbrev limits : CsvIngestLimits
limits = record { max_bytes = 10; max_rows = 2 }

abbrev one_row : CsvIngestLimits
one_row = record { max_bytes = 10; max_rows = 1 }

-- A reader with a byte too many that would fail after it.
abbrev reader : Reader ℕ
reader = record { bytes = input ++ (10 ∷ []); failure = some 5 }

ingest_csv_with_names_from_reader-whole_example :
    ingest_csv_with_names_from_reader reader limits table
    ≡ (table, err (Reader.byte_limit_exceeded 11 10))
ingest_csv_with_names_from_reader-whole_example =
    ingest_csv_with_names_from_reader-whole reader limits table (omega arith)

abbrev values : List (Option ℤ)
values = some (negsuc 6) ∷ none ∷ []

too_many_rows : (ingest_csv_with_names input one_row table).1 ≡ err (row_limit_exceeded 3 2 1)
unfolding ingest_csv_with_names read_input read_lines split_inclusive strip_suffix line_contents
    decimal parse_i64 parse_record bytes_eq
too_many_rows = refl

input-Contents : Contents table (split_inclusive input) values
unfolding split_inclusive strip_suffix line_contents decimal parse_i64 parse_record bytes_eq
input-Contents = (refl, (refl, (refl, tt)))

ingest_csv_with_names-Ingests_example :
    Ingests input 2 table (ingest_csv_with_names input limits table)
ingest_csv_with_names-Ingests_example =
    ingest_csv_with_names-Ingests input limits table (omega arith)

ingest_csv_with_names_accepts_example :
    ingest_csv_with_names input limits table ≡ ((append_batch values table).0, ok 2)
ingest_csv_with_names_accepts_example =
    ingest_csv_with_names_accepts input limits table values input-Contents (omega arith)
      (omega arith) (omega arith) (inl refl)
