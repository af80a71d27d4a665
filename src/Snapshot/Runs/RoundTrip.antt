-- ===== src/Snapshot/Runs/RoundTrip.antt =====
-- Decoding expands what run-length encoding wrote.
use rusthouse.Prelude.{
  ℕ, ◌+◌, ◌*◌, ◌≤◌, ◌≡◌, refl, ap, ◌∙◌, ◌≢◌, inl, inr, Option, none, some, List, [], ◌∷◌, ◌++◌,
  arith, Option-cases, u64_max, length, All, length-append, ok,
}
use rusthouse.Prelude.Int.{ℤ}
use rusthouse.Prelude.Bytes.{Bytes, bytes_eq_refl}
use mathlib.Core.Path.{ap₂}
use rusthouse.Order.Ranks.{IsNullableI64}
use rusthouse.Snapshot.Words.{to_le_bytes, from_le_bytes, read_array, from_le_bytes-to_le_bytes}
use rusthouse.Snapshot.Runs.{
  NullableI64RlePayloadCodec, rle_magic, rle_version, count_runs, rle_payload_len, encode_run,
  encode_runs, encode, validate_runs, decode_runs, decode,
}
use rusthouse.Snapshot.Runs.Maximal.{
  Runs, runs_of, encode_all, run_rows, encode_runs-runs_of, count_runs-length, count_runs-values,
  value_runs, expand-runs_of, run_rows-expand, AllRuns-runs_of,
}
use rusthouse.Snapshot.Runs.Loops.{
  length-encode_run, validate_runs-encode_all, decode_runs-encode_all,
}

length-encode_all : (rs : Runs) → length (encode_all rs) ≡ 9 * length rs + 8 * value_runs rs
length-encode_all [] = omega arith
length-encode_all ((none, n) ∷ rs) = omega (
  arith,
  length-encode_all rs,
  length-append (encode_run none n) (encode_all rs),
  length-encode_run none n,
)
length-encode_all ((some v, n) ∷ rs) = omega (
  arith,
  length-encode_all rs,
  length-append (encode_run (some v) n) (encode_all rs),
  length-encode_run (some v) n,
)

-- The payload of a number of rows in a number of runs.
abbrev pub payload_of : ℕ → ℕ → Bytes → Bytes
payload_of row_count run_count runs =
    rle_magic
    ++ (to_le_bytes 2 rle_version ++ (to_le_bytes 8 row_count ++ (to_le_bytes 8 run_count ++ runs)))

rle_payload_len-some :
    (runs value_count k : ℕ)
    → rle_payload_len runs value_count ≡ some k
    → (k ≡ 26 + 9 * runs + 8 * value_count) × (k ≤ u64_max)
rle_payload_len-some runs value_count k h = ground arith

encode-raw :
    (codec : NullableI64RlePayloadCodec) (rows : List (Option ℤ)) (payload : Bytes) (k : ℕ)
    → encode codec rows ≡ ok payload
    → rle_payload_len (count_runs rows).0 (count_runs rows).1 ≡ some k
    → (payload ≡ payload_of (length rows) (count_runs rows).0 (encode_runs rows))
      × (length rows ≤ codec.max_rows)
      × ((count_runs rows).0 ≤ codec.max_runs)
      × (k ≤ codec.max_payload_len)
unfolding encode
encode-raw codec rows payload k h e = ground arith

encode-no_len :
    (codec : NullableI64RlePayloadCodec) (rows : List (Option ℤ)) (payload : Bytes)
    → encode codec rows ≡ ok payload
    → rle_payload_len (count_runs rows).0 (count_runs rows).1 ≢ none
unfolding encode
encode-no_len codec rows payload h e = ground arith

encode-parts :
    (codec : NullableI64RlePayloadCodec) (rows : List (Option ℤ)) (payload : Bytes)
    → encode codec rows ≡ ok payload
    → let runs = runs_of rows in
      (payload ≡ payload_of (length rows) (length runs) (encode_all runs))
      × (length rows ≤ codec.max_rows)
      × (length runs ≤ codec.max_runs)
      × (26 + length (encode_all runs) ≤ codec.max_payload_len)
      × (26 + length (encode_all runs) ≤ u64_max)
encode-parts codec rows payload h =
    let runs = runs_of rows in
    let size = length-encode_all runs in
    let count = count_runs-length rows in
    let values = count_runs-values rows in
    elim (Option-cases (rle_payload_len (count_runs rows).0 (count_runs rows).1)) [
      | inl e ↦ absurd (encode-no_len codec rows payload h e)
      | inr (k, e) ↦
          (let (total, fits) = rle_payload_len-some (count_runs rows).0 (count_runs rows).1 k e in
            let (p, few, some_runs, short) = encode-raw codec rows payload k h e in
            (
              p ∙ ap₂ (payload_of (length rows)) count (encode_runs-runs_of rows),
              few,
              omega arith,
              omega arith,
              omega arith,
            ))
    ]

module _ (row_count run_count : ℕ) (runs : Bytes) where
  abbrev p : Bytes
  p = payload_of row_count run_count runs

  payload_of_magic : read_array 8 p 0 ≡ rle_magic
  unfolding to_le_bytes read_array
  payload_of_magic = refl

  payload_of_version : from_le_bytes (read_array 2 p 8) ≡ rle_version
  unfolding to_le_bytes read_array from_le_bytes
  payload_of_version = refl

  payload_of_rows : row_count ≤ u64_max → from_le_bytes (read_array 8 p 10) ≡ row_count
  unfolding to_le_bytes read_array
  payload_of_rows h = from_le_bytes-to_le_bytes 8 row_count (omega arith)

  payload_of_runs : run_count ≤ u64_max → from_le_bytes (read_array 8 p 18) ≡ run_count
  unfolding to_le_bytes read_array
  payload_of_runs h = from_le_bytes-to_le_bytes 8 run_count (omega arith)

  length-payload_of : length p ≡ 26 + length runs
  unfolding to_le_bytes
  length-payload_of = omega arith

-- The header, before the runs.
abbrev header_of : ℕ → ℕ → Bytes
header_of row_count run_count =
    rle_magic ++ (to_le_bytes 2 rle_version ++ (to_le_bytes 8 row_count ++ to_le_bytes 8 run_count))

length-header_of : (row_count run_count : ℕ) → length (header_of row_count run_count) ≡ 26
unfolding to_le_bytes
length-header_of row_count run_count = refl

header_of_runs :
    (row_count run_count : ℕ) (runs : Bytes)
    → header_of row_count run_count ++ runs ≡ payload_of row_count run_count runs
unfolding to_le_bytes
header_of_runs row_count run_count runs = refl

-- Decoding what the run-length encoder wrote, with a codec whose row bound is a 64-bit size,
-- gives back the rows, which are 64-bit values or NULL, in their order.
pub decode-encode_runs :
    (codec : NullableI64RlePayloadCodec) (rows : List (Option ℤ)) (payload : Bytes)
    → codec.max_rows ≤ u64_max
    → All IsNullableI64 rows
    → encode codec rows ≡ ok payload
    → decode codec payload ≡ ok rows
unfolding decode
decode-encode_runs codec rows payload wide a h =
    let (q, few, some_runs, short, fits) = encode-parts codec rows payload h in
    let runs = runs_of rows in
    let bytes = encode_all runs in
    let p = payload_of (length rows) (length runs) bytes in
    let all = AllRuns-runs_of rows a in
    let size = length-encode_all runs in
    let total : run_rows runs ≡ length rows =
      run_rows-expand runs ∙ ap length (expand-runs_of rows) in
    let header = header_of (length rows) (length runs) in
    let joined = header_of_runs (length rows) (length runs) bytes in
    let start = length-header_of (length rows) (length runs) in
    let valid : validate_runs p 0 26 0 (length runs) ≡ ok (0 + run_rows runs, 26 + length bytes) =
      rw (joined, start) at
        (validate_runs-encode_all header 0 0 runs all (omega arith) (omega arith)) in
    let read : decode_runs p 26 (length runs) [] ≡ rows =
      rw (joined, start) at (decode_runs-encode_all header runs [] all (omega arith))
      ∙ expand-runs_of rows in
    rw
      (
        q,
        length-payload_of (length rows) (length runs) bytes,
        payload_of_magic (length rows) (length runs) bytes,
        payload_of_version (length rows) (length runs) bytes,
        payload_of_rows (length rows) (length runs) bytes (omega arith),
        payload_of_runs (length rows) (length runs) bytes (omega arith),
        bytes_eq_refl rle_magic,
        valid,
        read,
      )
      (ground arith)
