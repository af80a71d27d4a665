-- ===== src/Snapshot/Rows.antt =====
-- src/snapshot.rs: the payload codec of nullable rows. A `usize` is a `u64`, so that the
-- conversions between them never fail.
pub mod RoundTrip
use rusthouse.Prelude.{
  ℕ, zero, suc, ◌+◌, Option, none, some, List, [], ◌∷◌, ◌++◌, ltb, ◌==◌, if◌then◌else◌,
  saturating_add, checked_add, u64_max, length, get_elem?, get_or, Result, ok, err, ◌>>=◌, ◌>>◌,
  ok_or, reject_if,
}
use rusthouse.Prelude.Int.{ℤ}
use rusthouse.Prelude.Bytes.{Bytes}
use rusthouse.Order.{as_u64}
use rusthouse.Snapshot.Words.{to_le_bytes, from_le_bytes, as_i64, read_array}

pub record NullableI64PayloadCodec : Type 0 where
  pub max_rows : ℕ
  pub max_payload_len : ℕ

pub data NullableI64PayloadError : Type 0 where
  row_limit_exceeded : (row_count max_rows : ℕ) → NullableI64PayloadError
  payload_too_large : (payload_len max_payload_len : ℕ) → NullableI64PayloadError
  truncated : (expected_len actual_len : ℕ) → NullableI64PayloadError
  invalid_tag : (row_index tag : ℕ) → NullableI64PayloadError
  trailing_data : (expected_len actual_len : ℕ) → NullableI64PayloadError

abbrev pub header_len : ℕ
header_len = 8

abbrev pub row_len : Option ℤ → ℕ
row_len none = 1
row_len (some v) = 1 + 8

-- `rows.iter().try_fold(..)`
unfoldable pub fold_len : ℕ → List (Option ℤ) → Option ℕ
fold_len len [] = some len
fold_len len (v ∷ vs) = elim (checked_add len (row_len v)) [
  | none ↦ none
  | some len' ↦ fold_len len' vs
]

abbrev pub encode_row : Option ℤ → Bytes
encode_row none = 0 ∷ []
encode_row (some v) = 1 ∷ to_le_bytes 8 (as_u64 v)

unfoldable pub encode_rows : List (Option ℤ) → Bytes
encode_rows [] = []
encode_rows (v ∷ vs) = encode_row v ++ encode_rows vs

unfoldable pub encode :
    NullableI64PayloadCodec → List (Option ℤ) → Result NullableI64PayloadError Bytes
encode codec rows = do
  let row_count = length rows
  reject_if (ltb codec.max_rows row_count) (row_limit_exceeded row_count codec.max_rows)
  payload_len ← ok_or (fold_len header_len rows) (payload_too_large u64_max codec.max_payload_len)
  reject_if (ltb codec.max_payload_len payload_len)
      (payload_too_large payload_len codec.max_payload_len)
  ok (to_le_bytes 8 row_count ++ encode_rows rows)

-- One step of `validate_nullable_i64_rows`: the offset after the row at `offset`.
unfoldable pub row_end : Bytes → ℕ → ℕ → Result NullableI64PayloadError ℕ
row_end payload row_index offset = do
  let tag_end = saturating_add offset 1
  tag ← ok_or (get_elem? payload offset) (truncated tag_end (length payload))
  let value_end = saturating_add tag_end 8
  (if tag == 0
      then ok tag_end
      else if tag == 1
      then if ltb (length payload) value_end
        then err (truncated value_end (length payload))
        else ok value_end
      else err (invalid_tag row_index tag))

-- `validate_nullable_i64_rows`, from a row on.
unfoldable pub validate_rows : Bytes → ℕ → ℕ → ℕ → Result NullableI64PayloadError (Unit {0})
validate_rows payload row_index offset zero =
    reject_if (ltb offset (length payload)) (trailing_data offset (length payload))
validate_rows payload row_index offset (suc n) = do
  offset' ← row_end payload row_index offset
  validate_rows payload (row_index + 1) offset' n

-- One step of the loop of `decode`: the row at `offset`, and the offset after it.
unfoldable pub read_row : Bytes → ℕ → Option ℤ × ℕ
read_row payload offset =
    if get_or payload offset 0 == 0
    then (none, offset + 1)
    else (some (as_i64 (from_le_bytes (read_array 8 payload (offset + 1)))), offset + 1 + 8)

unfoldable pub decode_rows : Bytes → ℕ → ℕ → List (Option ℤ)
decode_rows payload offset zero = []
decode_rows payload offset (suc n) =
    let (row, offset') = read_row payload offset in row ∷ decode_rows payload offset' n

unfoldable pub decode :
    NullableI64PayloadCodec → Bytes → Result NullableI64PayloadError (List (Option ℤ))
decode codec payload = do
  reject_if (ltb codec.max_payload_len (length payload))
      (payload_too_large (length payload) codec.max_payload_len)
  reject_if (ltb (length payload) header_len) (truncated header_len (length payload))
  let row_count = from_le_bytes (read_array 8 payload 0)
  reject_if (ltb codec.max_rows row_count) (row_limit_exceeded row_count codec.max_rows)
  minimum_len ←
      ok_or (checked_add header_len row_count) (payload_too_large u64_max codec.max_payload_len)
  reject_if (ltb codec.max_payload_len minimum_len)
      (payload_too_large minimum_len codec.max_payload_len)
  reject_if (ltb (length payload) minimum_len) (truncated minimum_len (length payload))
  validate_rows payload 0 header_len row_count
  ok (decode_rows payload header_len row_count)
