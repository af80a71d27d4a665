-- ===== src/Snapshot/Table.antt =====
-- src/snapshot.rs: the self-describing payload of one table. A `usize` is a `u64`, so that the
-- conversions between them never fail. The rows have the bytes of the row payload.
pub mod Loops
pub mod Layout
pub mod RoundTrip
pub mod Bounds
use rusthouse.Prelude.{
  ℕ, zero, suc, ◌+◌, Bool, true, false, not, Option, none, some, List, [], ◌∷◌, ◌++◌, ltb, ◌==◌,
  if◌then◌else◌, saturating_add, checked_add, u64_max, length, get_elem?, get_or, Result, ok, err,
  ◌>>=◌, ◌>>◌, ok_or, reject_if,
}
use rusthouse.Prelude.Int.{ℤ}
use rusthouse.Prelude.Bytes.{Bytes, bytes_eq}
use rusthouse.Prelude.Utf8.{utf8_error}
use rusthouse.Storage.{Int64Table, append_batch, column_name, is_nullable, int64_schema, new_table}
use rusthouse.Snapshot.Words.{to_le_bytes, from_le_bytes, read_array}
use rusthouse.Snapshot.Rows.{fold_len, encode_rows, decode_rows}

pub record Int64TablePayloadCodec : Type 0 where
  pub max_name_len : ℕ
  pub max_rows : ℕ
  pub max_payload_len : ℕ

pub data Int64TablePayloadError : Type 0 where
  name_too_long : (name_len max_name_len : ℕ) → Int64TablePayloadError
  row_cap_limit_exceeded : (row_cap max_rows : ℕ) → Int64TablePayloadError
  row_limit_exceeded : (row_count max_rows : ℕ) → Int64TablePayloadError
  payload_too_large : (payload_len max_payload_len : ℕ) → Int64TablePayloadError
  truncated : (expected_len actual_len : ℕ) → Int64TablePayloadError
  incompatible_magic : (found : Bytes) → Int64TablePayloadError
  unsupported_version : (found supported : ℕ) → Int64TablePayloadError
  unknown_column_type_tag : (tag : ℕ) → Int64TablePayloadError
  unknown_nullability_tag : (tag : ℕ) → Int64TablePayloadError
  invalid_column_name_utf8 : (valid_up_to : ℕ) (error_len : Option ℕ) → Int64TablePayloadError
  rows_exceed_row_cap : (row_count row_cap : ℕ) → Int64TablePayloadError
  unknown_row_tag : (row_index tag : ℕ) → Int64TablePayloadError
  null_not_allowed : (row_index : ℕ) → Int64TablePayloadError
  trailing_data : (expected_len actual_len : ℕ) → Int64TablePayloadError

-- `b"RHITBLP\0"`
abbrev pub table_magic : Bytes
table_magic = b'R' ∷ b'H' ∷ b'I' ∷ b'T' ∷ b'B' ∷ b'L' ∷ b'P' ∷ 0 ∷ []

abbrev pub table_version : ℕ
table_version = 1

-- The fixed bytes of a payload, and where the name starts.
abbrev pub table_fixed_len : ℕ
table_fixed_len = 36

abbrev pub name_offset : ℕ
name_offset = 20

abbrev pub nullability_tag : Bool → ℕ
nullability_tag true = 1
nullability_tag false = 0

unfoldable pub validate_metadata :
    Int64TablePayloadCodec → Bytes → ℕ → ℕ → Result Int64TablePayloadError (Unit {0})
validate_metadata codec name row_cap row_count = do
  reject_if (ltb codec.max_name_len (length name)) (name_too_long (length name) codec.max_name_len)
  reject_if (ltb codec.max_rows row_cap) (row_cap_limit_exceeded row_cap codec.max_rows)
  reject_if (ltb codec.max_rows row_count) (row_limit_exceeded row_count codec.max_rows)

-- The length of the payload, if it fits in a `usize`.
abbrev pub table_payload_len : Option ℕ → ℕ → Option ℕ
table_payload_len none name_len = none
table_payload_len (some rows_len) name_len = elim (checked_add table_fixed_len name_len) [
  | none ↦ none
  | some fixed_len ↦ checked_add fixed_len rows_len
]

unfoldable pub encode_prefix :
    Int64TablePayloadCodec → Bytes → Bool → ℕ → ℕ → Option ℕ → Result Int64TablePayloadError Bytes
encode_prefix codec name nullable row_cap row_count rows_len = do
  payload_len ←
      ok_or (table_payload_len rows_len (length name))
        (payload_too_large u64_max codec.max_payload_len)
  reject_if (ltb codec.max_payload_len payload_len)
      (payload_too_large payload_len codec.max_payload_len)
  ok (
      table_magic
      ++ (to_le_bytes 2 table_version
          ++ (1
              ∷ nullability_tag nullable
              ∷ (to_le_bytes 8 (length name)
                  ++ (name ++ (to_le_bytes 8 row_cap ++ to_le_bytes 8 row_count))))))

-- `encode_optional_values`
unfoldable pub encode_values :
    Int64TablePayloadCodec
    → Bytes
    → Bool
    → ℕ
    → List (Option ℤ)
    → Result Int64TablePayloadError Bytes
unfolding validate_metadata encode_prefix
encode_values codec name nullable row_cap values = do
  validate_metadata codec name row_cap (length values)
  prefix ← encode_prefix codec name nullable row_cap (length values) (fold_len 0 values)
  ok (prefix ++ encode_rows values)

unfoldable pub encode : Int64TablePayloadCodec → Int64Table → Result Int64TablePayloadError Bytes
unfolding encode_values
encode codec t = encode_values codec (column_name t) (is_nullable t) t.row_cap t.values

-- One step of `validate_int64_table_rows`: the offset after the row at `offset`.
unfoldable pub table_row_end : Bytes → Bool → ℕ → ℕ → Result Int64TablePayloadError ℕ
table_row_end payload nullable row_index offset = do
  let tag_end = saturating_add offset 1
  tag ← ok_or (get_elem? payload offset) (truncated tag_end (length payload))
  let value_end = saturating_add tag_end 8
  (if tag == 0
      then if nullable then ok tag_end else err (null_not_allowed row_index)
      else if tag == 1
      then if ltb (length payload) value_end
        then err (truncated value_end (length payload))
        else ok value_end
      else err (unknown_row_tag row_index tag))

-- `validate_int64_table_rows`, from a row on.
unfoldable pub validate_table_rows :
    Bytes → Bool → ℕ → ℕ → ℕ → Result Int64TablePayloadError (Unit {0})
validate_table_rows payload nullable row_index offset zero =
    reject_if (ltb offset (length payload)) (trailing_data offset (length payload))
validate_table_rows payload nullable row_index offset (suc n) = do
  offset' ← table_row_end payload nullable row_index offset
  validate_table_rows payload nullable (row_index + 1) offset' n

abbrev pub nullability_of : ℕ → Result Int64TablePayloadError Bool
nullability_of tag =
    if tag == 0 then ok false else if tag == 1 then ok true else err (unknown_nullability_tag tag)

-- `str::from_utf8(..).map_err(..)`
abbrev pub utf8_name : Option (ℕ × Option ℕ) → Bytes → Result Int64TablePayloadError Bytes
utf8_name none name = ok name
utf8_name (some (valid_up_to, error_len)) name =
    err (invalid_column_name_utf8 valid_up_to error_len)

-- The part of `decode` up to the column's name: the nullability, the name and its end.
unfoldable pub decode_column :
    Int64TablePayloadCodec → Bytes → Result Int64TablePayloadError (Bool × Bytes × ℕ)
decode_column codec payload = do
  let len = length payload
  reject_if (ltb codec.max_payload_len len) (payload_too_large len codec.max_payload_len)
  reject_if (ltb len name_offset) (truncated name_offset len)
  let found_magic = read_array 8 payload 0
  reject_if (not (bytes_eq found_magic table_magic)) (incompatible_magic found_magic)
  let found_version = from_le_bytes (read_array 2 payload 8)
  reject_if (not (found_version == table_version)) (unsupported_version found_version table_version)
  let type_tag = get_or payload 10 0
  reject_if (not (type_tag == 1)) (unknown_column_type_tag type_tag)
  nullable ← nullability_of (get_or payload 11 0)
  let name_len = from_le_bytes (read_array 8 payload 12)
  reject_if (ltb codec.max_name_len name_len) (name_too_long name_len codec.max_name_len)
  name_end ←
      ok_or (checked_add name_offset name_len) (payload_too_large u64_max codec.max_payload_len)
  reject_if (ltb len name_end) (truncated name_end len)
  let name_bytes = read_array name_len payload name_offset
  name ← utf8_name (utf8_error name_bytes) name_bytes
  ok (nullable, name, name_end)

-- The part of `decode` from the end of the name to the rows.
unfoldable pub decode_counts :
    Int64TablePayloadCodec → Bytes → ℕ → Result Int64TablePayloadError (ℕ × ℕ × ℕ)
decode_counts codec payload name_end = do
  let len = length payload
  rows_offset ← ok_or (checked_add name_end 16) (payload_too_large u64_max codec.max_payload_len)
  reject_if (ltb codec.max_payload_len rows_offset)
      (payload_too_large rows_offset codec.max_payload_len)
  reject_if (ltb len rows_offset) (truncated rows_offset len)
  let row_cap = from_le_bytes (read_array 8 payload name_end)
  reject_if (ltb codec.max_rows row_cap) (row_cap_limit_exceeded row_cap codec.max_rows)
  let row_count = from_le_bytes (read_array 8 payload (name_end + 8))
  reject_if (ltb codec.max_rows row_count) (row_limit_exceeded row_count codec.max_rows)
  reject_if (ltb row_cap row_count) (rows_exceed_row_cap row_count row_cap)
  minimum_len ←
      ok_or (checked_add rows_offset row_count) (payload_too_large u64_max codec.max_payload_len)
  reject_if (ltb codec.max_payload_len minimum_len)
      (payload_too_large minimum_len codec.max_payload_len)
  reject_if (ltb len minimum_len) (truncated minimum_len len)
  ok (row_cap, row_count, rows_offset)

-- The append that `decode` expects to succeed.
unfoldable pub decode : Int64TablePayloadCodec → Bytes → Result Int64TablePayloadError Int64Table
unfolding decode_column decode_counts validate_table_rows
decode codec payload = do
  (nullable, name, name_end) ← decode_column codec payload
  (row_cap, row_count, rows_offset) ← decode_counts codec payload name_end
  validate_table_rows payload nullable 0 rows_offset row_count
  let rows = decode_rows payload rows_offset row_count
  ok (append_batch rows (new_table (int64_schema name nullable) row_cap)).0
