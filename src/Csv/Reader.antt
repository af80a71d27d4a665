-- ===== src/Csv/Reader.antt =====
-- src/csv.rs: the ingestion of CSV from a reader, which is read up to one byte past the bound.
use rusthouse.Prelude.{
  ℕ, ◌+◌, ◌≤◌, ◌<◌, ◌≡◌, refl, true, false, Option, none, some, arith, ltb, leb, if◌then◌else◌,
  Bool-cases, saturating_add, u64_max, inl, inr, length, take, length-take, Result, ok, err,
  map_err,
}
use rusthouse.Prelude.Bytes.{Bytes}
use rusthouse.Storage.{Int64Table}
use rusthouse.Csv.{CsvIngestLimits, CsvIngestError, ingest_csv_with_names}

-- What a reader yields before its end, or before it fails.
pub record Reader (IoError : Type 0) : Type 0 where
  pub bytes : Bytes
  pub failure : Option IoError

pub data CsvReaderIngestError (IoError : Type 0) : Type 0 where
  read_failed : IoError → CsvReaderIngestError IoError
  byte_limit_exceeded : (bytes max_bytes : ℕ) → CsvReaderIngestError IoError
  csv_failed : CsvIngestError → CsvReaderIngestError IoError

module _ {IoError : Type 0} where
  abbrev pub at_end : Option IoError → Bytes → Result IoError Bytes
  at_end none bytes = ok bytes
  at_end (some e) bytes = err e

  -- `reader.take(limit).read_to_end(..)`: the reader is not asked again after `limit` bytes.
  abbrev pub read_to_limit : Reader IoError → ℕ → Result IoError Bytes
  read_to_limit reader limit =
      if leb limit (length reader.bytes)
      then ok (take limit reader.bytes)
      else at_end reader.failure reader.bytes

  -- `map_err(Into::into)` beside the table
  abbrev pub reader_result :
      Int64Table × Result CsvIngestError ℕ → Int64Table × Result (CsvReaderIngestError IoError) ℕ
  reader_result (t, result) = (t, map_err csv_failed result)

  -- What follows the read.
  abbrev pub ingest_read :
      Result IoError Bytes
      → CsvIngestLimits
      → Int64Table
      → Int64Table × Result (CsvReaderIngestError IoError) ℕ
  ingest_read (err e) limits t = (t, err (read_failed e))
  ingest_read (ok input) limits t =
      if ltb limits.max_bytes (length input)
      then (t, err (byte_limit_exceeded (length input) limits.max_bytes))
      else reader_result (ingest_csv_with_names input limits t)

  unfoldable pub ingest_csv_with_names_from_reader :
      Reader IoError
      → CsvIngestLimits
      → Int64Table
      → Int64Table × Result (CsvReaderIngestError IoError) ℕ
  ingest_csv_with_names_from_reader reader limits t =
      ingest_read (read_to_limit reader (saturating_add limits.max_bytes 1)) limits t

  -- What an ingestion from a reader answers, from all that the reader yields.
  abbrev pub whole_outcome :
      Option IoError
      → Bytes
      → CsvIngestLimits
      → Int64Table
      → Int64Table × Result (CsvReaderIngestError IoError) ℕ
  whole_outcome (some e) input limits t = (t, err (read_failed e))
  whole_outcome none input limits t = reader_result (ingest_csv_with_names input limits t)

  ingest_read-at_end :
      (failure : Option IoError) (input : Bytes) (limits : CsvIngestLimits) (t : Int64Table)
      → ltb limits.max_bytes (length input) ≡ false
      → ingest_read (at_end failure input) limits t ≡ whole_outcome failure input limits t
  ingest_read-at_end none input limits t short = rw (short) refl
  ingest_read-at_end (some e) input limits t short = refl

  -- With a byte bound below the largest 64-bit size, an ingestion from a reader answers as a
  -- description of all that the reader yields does: that the bound is passed by one byte if there
  -- is more, even if the reader fails after that; otherwise with the failure of the reader, if it
  -- has one; and otherwise as the ingestion of its bytes.
  pub ingest_csv_with_names_from_reader-whole :
      (reader : Reader IoError) (limits : CsvIngestLimits) (t : Int64Table)
      → limits.max_bytes < u64_max
      → ingest_csv_with_names_from_reader reader limits t ≡ (
          if ltb limits.max_bytes (length reader.bytes)
          then (t, err (byte_limit_exceeded (limits.max_bytes + 1) limits.max_bytes))
          else whole_outcome reader.failure reader.bytes limits t)
  unfolding ingest_csv_with_names_from_reader
  ingest_csv_with_names_from_reader-whole reader limits t h =
      let max = limits.max_bytes in
      let limit : saturating_add max 1 ≡ max + 1 = ground arith in
      elim (Bool-cases (ltb max (length reader.bytes))) [
        | inl over ↦
            let reached : leb (max + 1) (length reader.bytes) ≡ true = ground arith in
            let longer : max + 1 ≤ length reader.bytes = ground arith in
            let read : length (take (max + 1) reader.bytes) ≡ max + 1 =
              omega (arith, longer, length-take (max + 1) reader.bytes) in
            let past : ltb max (max + 1) ≡ true = ground arith in
            rw (limit, reached, over, read, past) refl
        | inr short ↦
            let ended : leb (max + 1) (length reader.bytes) ≡ false = ground arith in
            rw (limit, ended, short) (ingest_read-at_end reader.failure reader.bytes limits t short)
      ]
