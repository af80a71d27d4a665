-- ===== src/Snapshot/Rows/RoundTrip.antt =====
-- Decoding reads back what encoding wrote.
use rusthouse.Prelude.{
  ℕ, suc, ◌+◌, ◌≤◌, ◌≡◌, refl, ap, inl, inr, Option, none, some, List, [], ◌∷◌, ◌++◌, arith,
  Option-cases, u64_max, length, All, length-append, ok,
}
use rusthouse.Prelude.Int.{ℤ}
use rusthouse.Prelude.Bytes.{Bytes}
use mathlib.Core.List.{append-nil, append_assoc}
use rusthouse.Order.{as_u64}
use rusthouse.Order.Ranks.{IsNullableI64}
use rusthouse.Snapshot.Words.{
  to_le_bytes, from_le_bytes-to_le_bytes, length-to_le_bytes, as_u64_bound, as_i64-as_u64,
  get_elem?-append, get_or-append, read_array-append, read_array-cons,
}
use rusthouse.Snapshot.Rows.{
  NullableI64PayloadCodec, header_len, row_len, fold_len, encode_row, encode_rows, encode, row_end,
  validate_rows, read_row, decode_rows, decode,
}

pub length-encode_row : (v : Option ℤ) → length (encode_row v) ≡ row_len v
length-encode_row none = refl
length-encode_row (some v) = ap suc (length-to_le_bytes 8 (as_u64 v))

-- The folded length is that of the encoding, if it fits in a `usize`.
pub fold_len-encode_rows :
    (len k : ℕ) (vs : List (Option ℤ))
    → len ≤ u64_max
    → fold_len len vs ≡ some k
    → (len + length (encode_rows vs) ≡ k) × (k ≤ u64_max)
unfolding fold_len encode_rows
fold_len-encode_rows len k [] b h = ground arith
fold_len-encode_rows len k (v ∷ vs) b h = ground (
  arith,
  fold_len-encode_rows (len + row_len v) k vs,
  length-append (encode_row v) (encode_rows vs),
  length-encode_row v,
)

pub length-le-encode_rows : (vs : List (Option ℤ)) → length vs ≤ length (encode_rows vs)
unfolding encode_rows
length-le-encode_rows [] = omega arith
length-le-encode_rows (none ∷ vs) = omega (arith, length-le-encode_rows vs)
length-le-encode_rows (some v ∷ vs) =
    omega (arith, length-le-encode_rows vs, length-append (encode_row (some v)) (encode_rows vs))

row_end-encode_row :
    (pre rest : Bytes) (v : Option ℤ) (i : ℕ)
    → length pre + row_len v + length rest ≤ u64_max
    → row_end (pre ++ (encode_row v ++ rest)) i (length pre) ≡ ok (length pre + row_len v)
unfolding row_end
row_end-encode_row pre rest none i h = rw (get_elem?-append pre rest 0) (ground arith)
row_end-encode_row pre rest (some v) i h =
    let bytes = to_le_bytes 8 (as_u64 v) in
    rw (get_elem?-append pre (bytes ++ rest) 1) (
      ground (
        arith,
        length-append pre (1 ∷ (bytes ++ rest)),
        length-append bytes rest,
        length-to_le_bytes 8 (as_u64 v),
      ))

read_row-encode_row :
    (pre rest : Bytes) (v : Option ℤ)
    → IsNullableI64 v
    → read_row (pre ++ (encode_row v ++ rest)) (length pre) ≡ (v, length pre + row_len v)
unfolding read_row
read_row-encode_row pre rest none h = rw (get_or-append pre rest 0 0) (ground arith)
read_row-encode_row pre rest (some v) h =
    let bytes = to_le_bytes 8 (as_u64 v) in
    rw
      (
        get_or-append pre (bytes ++ rest) 1 0,
        read_array-cons 8 pre bytes rest 1 (length-to_le_bytes 8 (as_u64 v)),
        from_le_bytes-to_le_bytes 8 (as_u64 v) (as_u64_bound v),
        as_i64-as_u64 v h,
      )
      (ground arith)

-- The bytes of the rows from `v` on, after the rows before.
pub split_row :
    (pre : Bytes) (v : Option ℤ) (vs : List (Option ℤ))
    → (pre ++ encode_row v) ++ encode_rows vs ≡ pre ++ encode_rows (v ∷ vs)
unfolding encode_rows
split_row pre v vs = append_assoc pre (encode_row v) (encode_rows vs)

pub length-split_row :
    (pre : Bytes) (v : Option ℤ) → length (pre ++ encode_row v) ≡ length pre + row_len v
length-split_row pre v = omega (arith, length-append pre (encode_row v), length-encode_row v)

validate_rows-encode_rows :
    (pre : Bytes) (i : ℕ) (vs : List (Option ℤ))
    → length pre + length (encode_rows vs) ≤ u64_max
    → validate_rows (pre ++ encode_rows vs) i (length pre) (length vs) ≡ ok tt
unfolding validate_rows encode_rows
validate_rows-encode_rows pre i [] h = rw (append-nil pre) (ground arith)
validate_rows-encode_rows pre i (v ∷ vs) h =
    let rest = encode_rows vs in
    let total : length (encode_row v ++ rest) ≡ row_len v + length rest =
      omega (arith, length-append (encode_row v) rest, length-encode_row v) in
    rw (row_end-encode_row pre rest v i (omega arith)) (
      rw (split_row pre v vs, length-split_row pre v) at
        (validate_rows-encode_rows (pre ++ encode_row v) (i + 1) vs
          (omega (arith, length-split_row pre v))))

pub decode_rows-encode_rows :
    (pre : Bytes) (vs : List (Option ℤ))
    → All IsNullableI64 vs
    → decode_rows (pre ++ encode_rows vs) (length pre) (length vs) ≡ vs
unfolding decode_rows encode_rows
decode_rows-encode_rows pre [] a = refl
decode_rows-encode_rows pre (v ∷ vs) a = rw (read_row-encode_row pre (encode_rows vs) v a.0) (
    ap (λ t. v ∷ t)
      (rw (split_row pre v vs, length-split_row pre v) at
        (decode_rows-encode_rows (pre ++ encode_row v) vs a.1)))

-- What an accepted encoding is, and its bounds.
encode-parts :
    (codec : NullableI64PayloadCodec) (rows : List (Option ℤ)) (payload : Bytes)
    → encode codec rows ≡ ok payload
    → (payload ≡ to_le_bytes 8 (length rows) ++ encode_rows rows)
      × (length rows ≤ codec.max_rows)
      × (8 + length (encode_rows rows) ≤ codec.max_payload_len)
      × (8 + length (encode_rows rows) ≤ u64_max)
unfolding encode
encode-parts codec rows payload h = elim (Option-cases (fold_len header_len rows)) [
  | inl e ↦ ground arith
  | inr (k, e) ↦
      (let (total, fits) = fold_len-encode_rows header_len k rows (omega arith) e in ground arith)
]

-- Decoding what the row encoder wrote gives back the rows, which are 64-bit values or NULL, in
-- their order.
pub decode-encode_payload :
    (codec : NullableI64PayloadCodec) (rows : List (Option ℤ)) (payload : Bytes)
    → All IsNullableI64 rows
    → encode codec rows ≡ ok payload
    → decode codec payload ≡ ok rows
unfolding decode
decode-encode_payload codec rows payload a h =
    let (e, few, short, fits) = encode-parts codec rows payload h in
    let header = to_le_bytes 8 (length rows) in
    let len : length header ≡ 8 = length-to_le_bytes 8 (length rows) in
    let more = length-le-encode_rows rows in
    let total : length (header ++ encode_rows rows) ≡ 8 + length (encode_rows rows) =
      omega (arith, length-append header (encode_rows rows)) in
    let valid : validate_rows (header ++ encode_rows rows) 0 8 (length rows) ≡ ok tt =
      rw len at (validate_rows-encode_rows header 0 rows (omega arith)) in
    let read : decode_rows (header ++ encode_rows rows) 8 (length rows) ≡ rows =
      rw len at (decode_rows-encode_rows header rows a) in
    rw
      (
        e,
        total,
        read_array-append 8 0 [] header (encode_rows rows) len refl,
        from_le_bytes-to_le_bytes 8 (length rows) (omega arith),
        valid,
        read,
      )
      (ground arith)
