-- ===== src/Snapshot/Table/RoundTrip.antt =====
-- Decoding reads back the table that was encoded.
use rusthouse.Prelude.{
  ℕ, ◌+◌, ◌≤◌, ◌≡◌, refl, sym, ap, ◌∙◌, inl, inr, Bool, true, false, Option, none, some, List, ◌++◌,
  arith, Option-cases, u64_max, length, All, Result, ok, first_ok,
}
use rusthouse.Prelude.Int.{ℤ}
use rusthouse.Prelude.Bytes.{Bytes, bytes_eq_refl}
use rusthouse.Prelude.Utf8.{utf8_error}
use rusthouse.Order.Ranks.{IsNullableI64}
use rusthouse.Storage.{
  DataType, int64, Schema, InsertError, Int64Table, append_batch, column_name, is_nullable,
  int64_schema, new_table,
}
use rusthouse.Storage.Append.{IsValid}
use rusthouse.Snapshot.Rows.{fold_len, encode_rows, decode_rows}
use rusthouse.Snapshot.Rows.RoundTrip.{
  fold_len-encode_rows, length-le-encode_rows, decode_rows-encode_rows,
}
use rusthouse.Snapshot.Table.{
  Int64TablePayloadCodec, table_magic, nullability_tag, validate_metadata, table_payload_len,
  encode_prefix, encode_values, encode, validate_table_rows, nullability_of, decode_column,
  decode_counts, decode,
}
use rusthouse.Snapshot.Table.Loops.{validate_table_rows-encode_rows}
use rusthouse.Snapshot.Table.Layout.{
  table_payload, prefix_of, prefix_bytes, length-table_payload, payload_magic, payload_version,
  payload_type, payload_nullability, payload_name_len, payload_name, payload_row_cap,
  payload_row_count, length-prefix_of,
}

table_payload_len-some :
    (rows_len : Option ℕ) (name_len k : ℕ)
    → table_payload_len rows_len name_len ≡ some k
    → (r : ℕ) × (rows_len ≡ some r) × (k ≡ 36 + name_len + r) × (k ≤ u64_max)
table_payload_len-some none name_len k h = cc
table_payload_len-some (some r) name_len k h =
    let (total, fits) : (k ≡ 36 + name_len + r) × (k ≤ u64_max) = ground arith in
    (r, refl, total, fits)

encode_prefix-ok :
    (codec : Int64TablePayloadCodec) (name : Bytes) (nullable : Bool) (row_cap row_count : ℕ)
    (rows_len : Option ℕ) (prefix : Bytes)
    → encode_prefix codec name nullable row_cap row_count rows_len ≡ ok prefix
    → (prefix ≡ prefix_of nullable name row_cap row_count)
      × ((k : ℕ) × (table_payload_len rows_len (length name) ≡ some k)
          × (k ≤ codec.max_payload_len))
unfolding encode_prefix
encode_prefix-ok codec name nullable row_cap row_count rows_len prefix h =
    elim (Option-cases (table_payload_len rows_len (length name))) [
      | inl e ↦ absurd (ground arith)
      | inr (k, e) ↦
          (let (p, few) : (prefix ≡ prefix_of nullable name row_cap row_count)
                × (k ≤ codec.max_payload_len) =
              ground arith in
            (p, (k, e, few)))
    ]

validate_metadata-ok :
    (codec : Int64TablePayloadCodec) (name : Bytes) (row_cap row_count : ℕ)
    → validate_metadata codec name row_cap row_count ≡ ok tt
    → (length name ≤ codec.max_name_len) × (row_cap ≤ codec.max_rows) × (row_count ≤ codec.max_rows)
unfolding validate_metadata
validate_metadata-ok codec name row_cap row_count h = ground arith

encode_values-parts :
    (codec : Int64TablePayloadCodec) (name : Bytes) (nullable : Bool) (row_cap : ℕ)
    (values : List (Option ℤ)) (payload : Bytes)
    → encode_values codec name nullable row_cap values ≡ ok payload
    → (payload ≡ table_payload nullable name row_cap (length values) (encode_rows values))
      × (length name ≤ codec.max_name_len)
      × (row_cap ≤ codec.max_rows)
      × (length values ≤ codec.max_rows)
      × (36 + length name + length (encode_rows values) ≤ codec.max_payload_len)
      × (36 + length name + length (encode_rows values) ≤ u64_max)
unfolding encode_values
encode_values-parts codec name nullable row_cap values payload h =
    let n = length values in
    let (_, valid, h1) = first_ok (validate_metadata codec name row_cap n) _ h in
    let (prefix, he, h2) =
      first_ok (encode_prefix codec name nullable row_cap n (fold_len 0 values)) _ h1 in
    let (a, b, c) = validate_metadata-ok codec name row_cap n valid in
    let (p, (k, e, short)) =
      encode_prefix-ok codec name nullable row_cap n (fold_len 0 values) prefix he in
    let (r, er, total, fits) = table_payload_len-some (fold_len 0 values) (length name) k e in
    let (rows, _) = fold_len-encode_rows 0 r values (omega arith) er in
    let q : prefix ++ encode_rows values ≡ payload = cc in
    (
      sym q
          ∙ ap (λ t. t ++ encode_rows values) p
          ∙ prefix_bytes nullable name row_cap n (encode_rows values),
      a,
      b,
      c,
      omega arith,
      omega arith,
    )

nullability_of_tag : (nullable : Bool) → nullability_of (nullability_tag nullable) ≡ ok nullable
nullability_of_tag true = refl
nullability_of_tag false = refl

module _ (codec : Int64TablePayloadCodec) (nullable : Bool) (name : Bytes) (row_cap row_count : ℕ)
    (rows : Bytes) (fits : 36 + length name + length rows ≤ u64_max)
    (short : 36 + length name + length rows ≤ codec.max_payload_len) where
  abbrev bytes : Bytes
  bytes = table_payload nullable name row_cap row_count rows

  decode_column_payload :
      length name ≤ codec.max_name_len
      → utf8_error name ≡ none
      → decode_column codec bytes ≡ ok (nullable, name, 20 + length name)
  unfolding decode_column
  decode_column_payload few valid =
      rw
        (
          length-table_payload nullable name row_cap row_count rows,
          payload_magic nullable name row_cap row_count rows,
          bytes_eq_refl table_magic,
          payload_version nullable name row_cap row_count rows,
          payload_type nullable name row_cap row_count rows,
          payload_nullability nullable name row_cap row_count rows,
          nullability_of_tag nullable,
          payload_name_len nullable name row_cap row_count rows (omega arith),
          payload_name nullable name row_cap row_count rows,
          valid,
        )
        (ground arith)

  decode_counts_payload :
      row_cap ≤ codec.max_rows
      → codec.max_rows ≤ u64_max
      → row_count ≤ row_cap
      → row_count ≤ length rows
      → decode_counts codec bytes (20 + length name)
        ≡ ok (row_cap, row_count, 20 + length name + 16)
  unfolding decode_counts
  decode_counts_payload few wide capped each =
      rw
        (
          length-table_payload nullable name row_cap row_count rows,
          payload_row_cap nullable name row_cap row_count rows (omega arith),
          payload_row_count nullable name row_cap row_count rows (omega arith),
        )
        (ground arith)

only_int64 : (d : DataType) → int64 ≡ d
only_int64 int64 = refl

schema_of_column : (s : Schema) → int64_schema s.column.name s.column.nullable ≡ s
schema_of_column s =
    ap
      (λ (d : DataType). record {
        column = record { name = s.column.name; data_type = d; nullable = s.column.nullable };
      })
      (only_int64 s.column.data_type)

-- Rebuilding the table from its schema, cap and values.
rebuild :
    (t : Int64Table)
    → IsValid t
    → (append_batch t.values (new_table (int64_schema (column_name t) (is_nullable t)) t.row_cap)).0
      ≡ t
unfolding append_batch
rebuild t v =
    let s = int64_schema (column_name t) (is_nullable t) in
    let appended : append_batch t.values (new_table s t.row_cap)
        ≡ (record t { schema = s }, ok tt) =
      ground arith in
    ap (λ (r : Int64Table × Result InsertError (Unit {0})). r.0) appended
    ∙ ap (λ (x : Schema). record t { schema = x }) (schema_of_column t.schema)

-- Decoding the payload that a table was encoded to gives back the same table, with its column
-- name, nullability, row cap and rows, where the table is well formed, its rows are 64-bit values
-- or NULL, its column name is UTF-8 and the row bound of the codec is a 64-bit size.
pub decode-encode_table :
    (codec : Int64TablePayloadCodec) (t : Int64Table) (payload : Bytes)
    → codec.max_rows ≤ u64_max
    → IsValid t
    → All IsNullableI64 t.values
    → utf8_error (column_name t) ≡ none
    → encode codec t ≡ ok payload
    → decode codec payload ≡ ok t
unfolding encode decode
decode-encode_table codec t payload wide v a valid h =
    let name = column_name t in
    let nullable = is_nullable t in
    let n = length t.values in
    let rows = encode_rows t.values in
    let (q, few, cap, count, short, fits) =
      encode_values-parts codec name nullable t.row_cap t.values payload h in
    let header = prefix_of nullable name t.row_cap n in
    let joined = prefix_bytes nullable name t.row_cap n rows in
    let start : length header ≡ 20 + length name + 16 =
      omega (arith, length-prefix_of nullable name t.row_cap n rows) in
    let bytes = table_payload nullable name t.row_cap n rows in
    let ok_rows : validate_table_rows bytes nullable 0 (20 + length name + 16) n ≡ ok tt =
      rw (joined, start) at
        (validate_table_rows-encode_rows header nullable 0 t.values v.nulls (omega arith)) in
    let read : decode_rows bytes (20 + length name + 16) n ≡ t.values =
      rw (joined, start) at (decode_rows-encode_rows header t.values a) in
    rw
      (
        q,
        decode_column_payload codec nullable name t.row_cap n rows fits short few valid,
        decode_counts_payload codec nullable name t.row_cap n rows fits short cap wide v.capped
            (length-le-encode_rows t.values),
        ok_rows,
        read,
        rebuild t v,
      )
      refl
