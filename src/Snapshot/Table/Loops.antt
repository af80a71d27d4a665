-- ===== src/Snapshot/Table/Loops.antt =====
-- The validation of the rows of a table on encoded rows.
use rusthouse.Prelude.{
  ℕ, ◌+◌, ◌≤◌, ◌≡◌, ◌⊎◌, Bool, true, false, Option, none, some, List, [], ◌∷◌, ◌++◌, arith, u64_max,
  length, any, length-append, ok,
}
use rusthouse.Prelude.Int.{ℤ, is_none}
use rusthouse.Prelude.Bytes.{Bytes}
use mathlib.Core.List.{append-nil}
use rusthouse.Order.{as_u64}
use rusthouse.Snapshot.Words.{to_le_bytes, length-to_le_bytes, get_elem?-append}
use rusthouse.Snapshot.Rows.{row_len, encode_row, encode_rows}
use rusthouse.Snapshot.Rows.RoundTrip.{length-encode_row, split_row, length-split_row}
use rusthouse.Snapshot.Table.{table_row_end, validate_table_rows}

-- A row fits the nullability of its column.
abbrev pub Allows : Bool → Bool → Type 0
Allows nullable has_null = (nullable ≡ true) ⊎ (has_null ≡ false)

table_row_end-encode_row :
    (pre rest : Bytes) (v : Option ℤ) (nullable : Bool) (i : ℕ)
    → Allows nullable (is_none v)
    → length pre + row_len v + length rest ≤ u64_max
    → table_row_end (pre ++ (encode_row v ++ rest)) nullable i (length pre)
      ≡ ok (length pre + row_len v)
unfolding table_row_end
table_row_end-encode_row pre rest none nullable i a h =
    rw (get_elem?-append pre rest 0) (ground arith)
table_row_end-encode_row pre rest (some v) nullable i a h =
    let bytes = to_le_bytes 8 (as_u64 v) in
    rw (get_elem?-append pre (bytes ++ rest) 1) (
      ground (
        arith,
        length-append pre (1 ∷ (bytes ++ rest)),
        length-append bytes rest,
        length-to_le_bytes 8 (as_u64 v),
      ))

pub validate_table_rows-encode_rows :
    (pre : Bytes) (nullable : Bool) (i : ℕ) (vs : List (Option ℤ))
    → Allows nullable (any is_none vs)
    → length pre + length (encode_rows vs) ≤ u64_max
    → validate_table_rows (pre ++ encode_rows vs) nullable i (length pre) (length vs) ≡ ok tt
unfolding validate_table_rows encode_rows
validate_table_rows-encode_rows pre nullable i [] a h = rw (append-nil pre) (ground arith)
validate_table_rows-encode_rows pre nullable i (v ∷ vs) a h =
    let rest = encode_rows vs in
    let total : length (encode_row v ++ rest) ≡ row_len v + length rest =
      omega (arith, length-append (encode_row v) rest, length-encode_row v) in
    let here : Allows nullable (is_none v) = ground arith in
    let there : Allows nullable (any is_none vs) = ground arith in
    rw (table_row_end-encode_row pre rest v nullable i here (omega arith)) (
      rw (split_row pre v vs, length-split_row pre v) at
        (validate_table_rows-encode_rows (pre ++ encode_row v) nullable (i + 1) vs there
          (omega (arith, length-split_row pre v))))
