-- ===== src/Snapshot/Columns.antt =====
-- src/snapshot.rs: payloads from the values of a column alone, without a table.
use rusthouse.Prelude.{
  ℕ, ◌+◌, ◌*◌, ◌≤◌, ◌<◌, ◌≡◌, refl, sym, ap, ◌∙◌, inl, inr, true, false, Option, none, some, List,
  [], ◌∷◌, ◌++◌, map, arith, leb, if◌then◌else◌, Bool-cases, checked_add, checked_mul, u64_max,
  length, any, All, length-map, Result, ok, ◌>>=◌, ◌>>◌,
}
use rusthouse.Prelude.Int.{ℤ, IsI64, is_none}
use rusthouse.Prelude.Bytes.{Bytes}
use rusthouse.Prelude.Utf8.{utf8_error}
use rusthouse.Order.{as_u64}
use rusthouse.Order.Ranks.{IsNullableI64}
use rusthouse.Storage.{Int64Table, int64_schema}
use rusthouse.Snapshot.Words.{to_le_bytes}
use rusthouse.Snapshot.Rows.{fold_len, encode_rows}
use rusthouse.Snapshot.Runs
use rusthouse.Snapshot.Runs.{NullableI64RlePayloadCodec, NullableI64RlePayloadError}
use rusthouse.Snapshot.Runs.RoundTrip.{decode-encode_runs}
use rusthouse.Snapshot.Table.{
  Int64TablePayloadCodec, Int64TablePayloadError, validate_metadata, encode_prefix, encode_values,
  encode, decode,
}
use rusthouse.Snapshot.Table.RoundTrip.{decode-encode_table}

unfoldable pub encode_value_rows : List ℤ → Bytes
encode_value_rows [] = []
encode_value_rows (v ∷ vs) = 1 ∷ (to_le_bytes 8 (as_u64 v) ++ encode_value_rows vs)

unfoldable pub encode_nullable_values :
    Int64TablePayloadCodec → Bytes → ℕ → List (Option ℤ) → Result Int64TablePayloadError Bytes
unfolding encode_values
encode_nullable_values codec name row_cap values = encode_values codec name true row_cap values

unfoldable pub encode_non_nullable_values :
    Int64TablePayloadCodec → Bytes → ℕ → List ℤ → Result Int64TablePayloadError Bytes
unfolding validate_metadata encode_prefix
encode_non_nullable_values codec name row_cap values = do
  validate_metadata codec name row_cap (length values)
  let rows_len = checked_mul (length values) (1 + 8)
  prefix ← encode_prefix codec name false row_cap (length values) rows_len
  ok (prefix ++ encode_value_rows values)

encode_rows-some : (vs : List ℤ) → encode_rows (map some vs) ≡ encode_value_rows vs
unfolding encode_rows encode_value_rows
encode_rows-some [] = refl
encode_rows-some (v ∷ vs) = ap (λ t. 1 ∷ (to_le_bytes 8 (as_u64 v) ++ t)) (encode_rows-some vs)

-- A length, if it fits in a `usize`.
abbrev if_fits : ℕ → Option ℕ
if_fits t = if leb t u64_max then some t else none

checked_add_fits : (a b : ℕ) → a + b ≤ u64_max → checked_add a b ≡ some (a + b)
checked_add_fits a b h = ground arith

checked_add_overflows : (a b : ℕ) → u64_max < a + b → checked_add a b ≡ none
checked_add_overflows a b h = ground arith

fold_len-some :
    (len : ℕ) (vs : List ℤ)
    → len ≤ u64_max
    → fold_len len (map some vs) ≡ checked_add len (length vs * 9)
unfolding fold_len
fold_len-some len [] h = ground arith
fold_len-some len (v ∷ vs) h = elim (Bool-cases (leb (len + 9) u64_max)) [
  | inl fits ↦
      rw (fold_len, fits) ((fold_len-some (len + 9) vs (ground arith)) ∙ ap if_fits (omega arith))
  | inr over ↦
      rw (fold_len, over, checked_add_overflows len (length (v ∷ vs) * 9) (ground arith)) refl
]

fold_len-checked_mul : (vs : List ℤ) → fold_len 0 (map some vs) ≡ checked_mul (length vs) 9
fold_len-checked_mul vs = fold_len-some 0 vs (omega arith) ∙ ap if_fits (omega arith)

-- Encoding the values of a column that is not nullable is encoding them as optional values.
pub encode_non_nullable_values-encode_values :
    (codec : Int64TablePayloadCodec) (name : Bytes) (row_cap : ℕ) (vs : List ℤ)
    → encode_non_nullable_values codec name row_cap vs
      ≡ encode_values codec name false row_cap (map some vs)
unfolding encode_non_nullable_values encode_values
encode_non_nullable_values-encode_values codec name row_cap vs =
    rw (length-map some vs, encode_rows-some vs, fold_len-checked_mul vs) refl

-- `NullableI64RlePayloadCodec::encode_non_nullable_values`
unfoldable pub encode_non_nullable_runs :
    NullableI64RlePayloadCodec → List ℤ → Result NullableI64RlePayloadError Bytes
encode_non_nullable_runs codec values = Runs.encode codec (map some values)

-- A table with a column that is not nullable and holds the values.
abbrev pub table_of_values : Bytes → ℕ → List ℤ → Int64Table
table_of_values name row_cap vs = record {
  schema = int64_schema name false;
  row_cap = row_cap;
  values = map some vs;
}

any-is_none-some : (vs : List ℤ) → any is_none (map some vs) ≡ false
any-is_none-some [] = refl
any-is_none-some (v ∷ vs) = any-is_none-some vs

All-some : (vs : List ℤ) → All IsI64 vs → All IsNullableI64 (map some vs)
All-some [] a = tt
All-some (v ∷ vs) (b, a) = (b, All-some vs a)

-- Decoding what the values of a column that is not nullable were encoded to gives back the table
-- that holds them, where they are 64-bit values within its row cap, the name is UTF-8 and the row
-- bound of the codec is a 64-bit size.
pub decode-encode_non_nullable_values :
    (codec : Int64TablePayloadCodec) (name : Bytes) (row_cap : ℕ) (vs : List ℤ) (payload : Bytes)
    → codec.max_rows ≤ u64_max
    → length vs ≤ row_cap
    → All IsI64 vs
    → utf8_error name ≡ none
    → encode_non_nullable_values codec name row_cap vs ≡ ok payload
    → decode codec payload ≡ ok (table_of_values name row_cap vs)
unfolding encode
decode-encode_non_nullable_values codec name row_cap vs payload wide fits a valid h =
    decode-encode_table codec (table_of_values name row_cap vs) payload wide
      (record { capped = rw (length-map some vs) fits; nulls = inr (any-is_none-some vs) })
      (All-some vs a) valid
      (sym (encode_non_nullable_values-encode_values codec name row_cap vs) ∙ h)

-- Decoding the runs of a column that is not nullable gives back its values, in their order, where
-- they are 64-bit values and the row bound of the codec is a 64-bit size.
pub decode-encode_non_nullable_runs :
    (codec : NullableI64RlePayloadCodec) (vs : List ℤ) (payload : Bytes)
    → codec.max_rows ≤ u64_max
    → All IsI64 vs
    → encode_non_nullable_runs codec vs ≡ ok payload
    → Runs.decode codec payload ≡ ok (map some vs)
unfolding encode_non_nullable_runs
decode-encode_non_nullable_runs codec vs payload wide a h =
    decode-encode_runs codec (map some vs) payload wide (All-some vs a) h
