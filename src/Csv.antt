-- ===== src/Csv.antt =====
-- src/csv.rs: the ingestion of one-column CSV with a header. A line number is at most one more than
-- the number of lines.
pub mod Ingest
pub mod Reader
use rusthouse.Prelude.{
  ℕ, zero, suc, ◌+◌, ◌-◌, ◌*◌, Bool, true, false, not, ◌&&◌, ◌||◌, Option, none, some, List, [],
  ◌∷◌, ◌++◌, ltb, leb, ◌==◌, if◌then◌else◌, saturating_add, length, filter, any, Result, ok, err,
  ◌>>=◌, ◌>>◌, map_err, map_ok, ok_or, reject_if,
}
use rusthouse.Prelude.Int.{ℤ, pos, negsuc, is_i64, is_none}
use rusthouse.Prelude.Bytes.{Bytes, bytes_eq}
use rusthouse.Prelude.Decimal.{is_ascii_digit, unsigned, parse_i64}
use rusthouse.Storage.{Int64Table, InsertError, append_batch, column_name, is_nullable}

pub record CsvIngestLimits : Type 0 where
  pub max_bytes : ℕ
  pub max_rows : ℕ

pub data CsvIngestError : Type 0 where
  byte_limit_exceeded : (bytes max_bytes : ℕ) → CsvIngestError
  missing_header : (line : ℕ) → CsvIngestError
  header_mismatch : (line : ℕ) (expected : Bytes) → CsvIngestError
  row_limit_exceeded : (line rows max_rows : ℕ) → CsvIngestError
  empty_record : (line : ℕ) → CsvIngestError
  wrong_column_count : (line columns : ℕ) → CsvIngestError
  invalid_int64 : (line : ℕ) → CsvIngestError
  null_not_allowed : (line : ℕ) (column : Bytes) → CsvIngestError
  table_insert : InsertError → CsvIngestError

-- A byte before the first of the lines that follow.
abbrev pub extend_line : ℕ → List Bytes → List Bytes
extend_line b [] = (b ∷ []) ∷ []
extend_line b (line ∷ lines) = (b ∷ line) ∷ lines

-- `split_inclusive(|byte| *byte == b'\n')`
unfoldable pub split_inclusive : Bytes → List Bytes
split_inclusive [] = []
split_inclusive (b ∷ bs) =
    let rest = split_inclusive bs in if b == 10 then (b ∷ []) ∷ rest else extend_line b rest

abbrev pub prepend : ℕ → Option Bytes → Option Bytes
prepend b none = none
prepend b (some bs) = some (b ∷ bs)

-- `strip_suffix` of one byte
unfoldable pub strip_suffix : ℕ → Bytes → Option Bytes
strip_suffix c [] = none
strip_suffix c (b ∷ []) = if b == c then some [] else none
strip_suffix c (b ∷ b' ∷ bs) = prepend b (strip_suffix c (b' ∷ bs))

abbrev pub unwrap_or : Option Bytes → Bytes → Bytes
unwrap_or none line = line
unwrap_or (some rest) line = rest

unfoldable pub line_contents : Bytes → Bytes
unfolding strip_suffix
line_contents line = elim (strip_suffix 10 line) [
  | none ↦ line
  | some without_lf ↦ unwrap_or (strip_suffix 13 without_lf) without_lf
]

abbrev pub is_comma : ℕ → Bool
is_comma b = b == b','

abbrev pub is_empty_record : Bytes → Bool
is_empty_record [] = true
is_empty_record (b ∷ bs) = false

unfoldable pub parse_record : Bytes → ℕ → Result CsvIngestError (Option ℤ)
unfolding parse_i64
parse_record field line = do
  reject_if (is_empty_record field) (empty_record line)
  reject_if (any is_comma field) (wrong_column_count line (length (filter is_comma field) + 1))
  let digits = unsigned field
  (if bytes_eq field (b'N' ∷ b'U' ∷ b'L' ∷ b'L' ∷ [])
      then ok none
      else if is_empty_record digits || any (λ b. not (is_ascii_digit b)) digits
      then err (invalid_int64 line)
      else map_ok some (ok_or (parse_i64 field) (invalid_int64 line)))

-- The loop over the lines after the header, from a line on, with the values so far.
unfoldable pub read_lines :
    Int64Table → ℕ → ℕ → List Bytes → List (Option ℤ) → Result CsvIngestError (List (Option ℤ))
read_lines t max_rows line [] values = ok values
read_lines t max_rows line (raw_line ∷ lines) values = do
  let rows = saturating_add (length values) 1
  reject_if (ltb max_rows rows) (row_limit_exceeded line rows max_rows)
  value ← parse_record (line_contents raw_line) line
  reject_if (is_none value && not (is_nullable t)) (null_not_allowed line (column_name t))
  read_lines t max_rows (line + 1) lines (values ++ (value ∷ []))

-- `ingest_csv_with_names` up to the append: no line, or the header and the rest.
unfoldable pub read_input : Int64Table → ℕ → List Bytes → Result CsvIngestError (List (Option ℤ))
unfolding read_lines
read_input t max_rows [] = err (missing_header 1)
read_input t max_rows (header ∷ lines) = do
  reject_if (not (bytes_eq (line_contents header) (column_name t)))
      (header_mismatch 1 (column_name t))
  read_lines t max_rows 2 lines []

-- The append of the batch, and its answer.
abbrev pub append_values : List (Option ℤ) → Int64Table → Int64Table × Result CsvIngestError ℕ
append_values values t =
    let (t', result) = append_batch values t in
    (t', map_ok (λ (u : Unit {0}). length values) (map_err table_insert result))

unfoldable pub ingest_csv_with_names :
    Bytes → CsvIngestLimits → Int64Table → Int64Table × Result CsvIngestError ℕ
unfolding read_input split_inclusive
ingest_csv_with_names input limits t =
    if ltb limits.max_bytes (length input)
    then (t, err (byte_limit_exceeded (length input) limits.max_bytes))
    else elim (read_input t limits.max_rows (split_inclusive input)) [
      | ok values ↦ append_values values t
      | err e ↦ (t, err e)
    ]
