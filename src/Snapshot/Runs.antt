-- ===== src/Snapshot/Runs.antt =====
-- src/snapshot.rs: the run-length encoded payload of nullable rows. A `usize` is a `u64`, so that the
-- conversions between them never fail, and storage for the decoded rows can be reserved.
pub mod Maximal
pub mod Loops
pub mod RoundTrip
use rusthouse.Prelude.{
  ℕ, zero, suc, ◌+◌, true, false, not, ◌||◌, Option, none, some, List, [], ◌∷◌, ◌++◌, ltb, ◌==◌,
  if◌then◌else◌, saturating_add, checked_add, checked_mul, u64_max, length, get_elem?, get_or,
  replicate, Result, ok, err, ◌>>=◌, ◌>>◌, ok_or, reject_if,
}
use rusthouse.Prelude.Int.{ℤ, eqb_option}
use rusthouse.Prelude.Bytes.{Bytes, bytes_eq}
use rusthouse.Order.{as_u64}
use rusthouse.Snapshot.Words.{to_le_bytes, from_le_bytes, as_i64, read_array}

pub record NullableI64RlePayloadCodec : Type 0 where
  pub max_rows : ℕ
  pub max_runs : ℕ
  pub max_payload_len : ℕ

pub data NullableI64RlePayloadError : Type 0 where
  row_limit_exceeded : (row_count max_rows : ℕ) → NullableI64RlePayloadError
  run_limit_exceeded : (run_count max_runs : ℕ) → NullableI64RlePayloadError
  payload_too_large : (payload_len max_payload_len : ℕ) → NullableI64RlePayloadError
  truncated : (expected_len actual_len : ℕ) → NullableI64RlePayloadError
  incompatible_magic : (found : Bytes) → NullableI64RlePayloadError
  unsupported_version : (found supported : ℕ) → NullableI64RlePayloadError
  unknown_run_tag : (run_index tag : ℕ) → NullableI64RlePayloadError
  zero_length_run : (run_index : ℕ) → NullableI64RlePayloadError
  row_count_overflow : (run_index decoded_rows run_length : ℕ) → NullableI64RlePayloadError
  row_count_mismatch : (declared_rows decoded_rows : ℕ) → NullableI64RlePayloadError
  trailing_data : (expected_len actual_len : ℕ) → NullableI64RlePayloadError

-- `b"RHNRLEP\0"`
abbrev pub rle_magic : Bytes
rle_magic = b'R' ∷ b'H' ∷ b'N' ∷ b'R' ∷ b'L' ∷ b'E' ∷ b'P' ∷ 0 ∷ []

abbrev pub rle_version : ℕ
rle_version = 1

abbrev pub rle_header_len : ℕ
rle_header_len = 26

abbrev pub run_header_len : ℕ
run_header_len = 9

-- 1 for a value, 0 for NULL: the tag of a run, and its share in the count of value runs.
abbrev pub run_tag : Option ℤ → ℕ
run_tag none = 0
run_tag (some v) = 1

-- The first pass over the rows: the runs and the runs of a value, after the row `previous`.
unfoldable pub count_runs_after : Option ℤ → List (Option ℤ) → ℕ → ℕ → ℕ × ℕ
count_runs_after previous [] run_count value_run_count = (run_count, value_run_count)
count_runs_after previous (v ∷ vs) run_count value_run_count = elim (eqb_option v previous) [
  | true ↦ count_runs_after v vs run_count value_run_count
  | false ↦ count_runs_after v vs (run_count + 1) (value_run_count + run_tag v)
]

abbrev pub count_runs : List (Option ℤ) → ℕ × ℕ
count_runs [] = (0, 0)
count_runs (v ∷ vs) = count_runs_after v vs 1 (run_tag v)

-- `Option::and_then`
abbrev pub and_then : Option ℕ → (ℕ → Option ℕ) → Option ℕ
and_then none next = none
and_then (some a) next = next a

abbrev pub rle_payload_len : ℕ → ℕ → Option ℕ
rle_payload_len run_count value_run_count =
    and_then
      (and_then (checked_mul run_count run_header_len) (λ run_bytes.
        and_then (checked_mul value_run_count 8)
          (λ value_bytes. checked_add run_bytes value_bytes)))
      (λ run_bytes. checked_add rle_header_len run_bytes)

abbrev pub value_bytes : Option ℤ → Bytes
value_bytes none = []
value_bytes (some v) = to_le_bytes 8 (as_u64 v)

-- `append_nullable_i64_rle_run`
abbrev pub encode_run : Option ℤ → ℕ → Bytes
encode_run v run_length = run_tag v ∷ (to_le_bytes 8 run_length ++ value_bytes v)

-- The second pass: the open run of `value`, and the rows after it.
unfoldable pub encode_runs_after : Option ℤ → ℕ → List (Option ℤ) → Bytes
encode_runs_after value run_length [] = encode_run value run_length
encode_runs_after value run_length (next ∷ vs) = elim (eqb_option next value) [
  | true ↦ encode_runs_after value (run_length + 1) vs
  | false ↦ encode_run value run_length ++ encode_runs_after next 1 vs
]

abbrev pub encode_runs : List (Option ℤ) → Bytes
encode_runs [] = []
encode_runs (v ∷ vs) = encode_runs_after v 1 vs

unfoldable pub encode :
    NullableI64RlePayloadCodec → List (Option ℤ) → Result NullableI64RlePayloadError Bytes
encode codec rows = do
  let row_count = length rows
  reject_if (ltb codec.max_rows row_count) (row_limit_exceeded row_count codec.max_rows)
  let run_count = (count_runs rows).0
  reject_if (ltb codec.max_runs run_count) (run_limit_exceeded run_count codec.max_runs)
  payload_len ←
      ok_or (rle_payload_len run_count (count_runs rows).1)
        (payload_too_large u64_max codec.max_payload_len)
  reject_if (ltb codec.max_payload_len payload_len)
      (payload_too_large payload_len codec.max_payload_len)
  ok (
      rle_magic
      ++ (to_le_bytes 2 rle_version
          ++ (to_le_bytes 8 row_count ++ (to_le_bytes 8 run_count ++ encode_runs rows))))

-- One step of `validate_nullable_i64_rle_runs`: the length of the run at `offset`, and its end.
unfoldable pub run_end : Bytes → ℕ → ℕ → Result NullableI64RlePayloadError (ℕ × ℕ)
run_end payload run_index offset = do
  let tag_end = saturating_add offset 1
  tag ← ok_or (get_elem? payload offset) (truncated tag_end (length payload))
  reject_if (not (tag == 0 || tag == 1)) (unknown_run_tag run_index tag)
  let run_length_end = saturating_add tag_end 8
  reject_if (ltb (length payload) run_length_end) (truncated run_length_end (length payload))
  let run_length = from_le_bytes (read_array 8 payload tag_end)
  reject_if (run_length == 0) (zero_length_run run_index)
  let value_end = saturating_add run_length_end 8
  (if tag == 1
      then if ltb (length payload) value_end
        then err (truncated value_end (length payload))
        else ok (run_length, value_end)
      else ok (run_length, run_length_end))

-- `validate_nullable_i64_rle_runs`, from a run on.
unfoldable pub validate_runs : Bytes → ℕ → ℕ → ℕ → ℕ → Result NullableI64RlePayloadError (ℕ × ℕ)
validate_runs payload run_index offset decoded_rows zero = ok (decoded_rows, offset)
validate_runs payload run_index offset decoded_rows (suc n) = do
  (run_length, offset') ← run_end payload run_index offset
  decoded_rows' ←
      ok_or (checked_add decoded_rows run_length)
        (row_count_overflow run_index decoded_rows run_length)
  validate_runs payload (run_index + 1) offset' decoded_rows' n

-- One step of the loop of `decode`: the run at `offset`, and its end.
unfoldable pub read_run : Bytes → ℕ → Option ℤ × ℕ × ℕ
read_run payload offset =
    let run_length = from_le_bytes (read_array 8 payload (offset + 1)) in
    if get_or payload offset 0 == 0 then (none, run_length, offset + 1 + 8) else (
      some (as_i64 (from_le_bytes (read_array 8 payload (offset + 1 + 8)))),
      run_length,
      offset + 1 + 8 + 8,
    )

unfoldable pub decode_runs : Bytes → ℕ → ℕ → List (Option ℤ) → List (Option ℤ)
decode_runs payload offset zero rows = rows
decode_runs payload offset (suc n) rows =
    let (value, run_length, offset') = read_run payload offset in
    decode_runs payload offset' n (rows ++ replicate run_length value)

unfoldable pub decode :
    NullableI64RlePayloadCodec → Bytes → Result NullableI64RlePayloadError (List (Option ℤ))
decode codec payload = do
  let len = length payload
  reject_if (ltb codec.max_payload_len len) (payload_too_large len codec.max_payload_len)
  reject_if (ltb len rle_header_len) (truncated rle_header_len len)
  let found_magic = read_array 8 payload 0
  reject_if (not (bytes_eq found_magic rle_magic)) (incompatible_magic found_magic)
  let found_version = from_le_bytes (read_array 2 payload 8)
  reject_if (not (found_version == rle_version)) (unsupported_version found_version rle_version)
  let row_count = from_le_bytes (read_array 8 payload 10)
  reject_if (ltb codec.max_rows row_count) (row_limit_exceeded row_count codec.max_rows)
  let run_count = from_le_bytes (read_array 8 payload 18)
  reject_if (ltb codec.max_runs run_count) (run_limit_exceeded run_count codec.max_runs)
  minimum_len ←
      ok_or
        (and_then (checked_mul run_count run_header_len)
          (λ run_bytes. checked_add rle_header_len run_bytes))
        (payload_too_large u64_max codec.max_payload_len)
  reject_if (ltb codec.max_payload_len minimum_len)
      (payload_too_large minimum_len codec.max_payload_len)
  (decoded_rows, runs_end) ← validate_runs payload 0 rle_header_len 0 run_count
  reject_if (ltb codec.max_rows decoded_rows) (row_limit_exceeded decoded_rows codec.max_rows)
  reject_if (not (decoded_rows == row_count)) (row_count_mismatch row_count decoded_rows)
  reject_if (ltb runs_end len) (trailing_data runs_end len)
  ok (decode_runs payload rle_header_len run_count [])
