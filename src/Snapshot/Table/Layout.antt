-- ===== src/Snapshot/Table/Layout.antt =====
-- Where the fields of a table's payload stand.
use rusthouse.Prelude.{
  ℕ, ◌+◌, ◌≤◌, ◌≡◌, refl, sym, ap, ◌∙◌, Bool, ◌∷◌, ◌++◌, arith, u64_max, length, get_or,
  length-append,
}
use rusthouse.Prelude.Bytes.{Bytes}
use mathlib.Core.List.{append_assoc}
use rusthouse.Snapshot.Words.{
  to_le_bytes, from_le_bytes, read_array, from_le_bytes-to_le_bytes, length-to_le_bytes,
  read_array-append, take-append,
}
use rusthouse.Snapshot.Table.{table_magic, table_version, nullability_tag}

-- The bytes before the name, and the payload of a name and two counts.
abbrev pub fixed_bytes : Bool → ℕ → Bytes
fixed_bytes nullable name_len =
    table_magic
    ++ (to_le_bytes 2 table_version ++ (1 ∷ nullability_tag nullable ∷ to_le_bytes 8 name_len))

abbrev pub table_payload : Bool → Bytes → ℕ → ℕ → Bytes → Bytes
table_payload nullable name row_cap row_count rows =
    fixed_bytes nullable (length name)
    ++ (name ++ (to_le_bytes 8 row_cap ++ (to_le_bytes 8 row_count ++ rows)))

-- The bytes before the rows.
abbrev pub prefix_of : Bool → Bytes → ℕ → ℕ → Bytes
prefix_of nullable name row_cap row_count =
    table_magic
    ++ (to_le_bytes 2 table_version
        ++ (1
            ∷ nullability_tag nullable
            ∷ (to_le_bytes 8 (length name)
                ++ (name ++ (to_le_bytes 8 row_cap ++ to_le_bytes 8 row_count)))))

-- The four parts of the bytes before the rows.
pub prefix_bytes :
    (nullable : Bool) (name : Bytes) (row_cap row_count : ℕ) (rows : Bytes)
    → prefix_of nullable name row_cap row_count ++ rows
      ≡ table_payload nullable name row_cap row_count rows
unfolding to_le_bytes
prefix_bytes nullable name row_cap row_count rows =
    ap (λ t. fixed_bytes nullable (length name) ++ t)
      (append_assoc name (to_le_bytes 8 row_cap ++ to_le_bytes 8 row_count) rows)

module _ (nullable : Bool) (name : Bytes) (row_cap row_count : ℕ) (rows : Bytes) where
  abbrev p : Bytes
  p = table_payload nullable name row_cap row_count rows

  pub length-table_payload : length p ≡ 36 + length name + length rows
  unfolding to_le_bytes
  length-table_payload =
      omega (arith, length-append name (to_le_bytes 8 row_cap ++ (to_le_bytes 8 row_count ++ rows)))

  pub payload_magic : read_array 8 p 0 ≡ table_magic
  unfolding to_le_bytes read_array
  payload_magic = refl

  pub payload_version : from_le_bytes (read_array 2 p 8) ≡ table_version
  unfolding to_le_bytes read_array from_le_bytes
  payload_version = refl

  pub payload_type : get_or p 10 0 ≡ 1
  unfolding to_le_bytes
  payload_type = refl

  pub payload_nullability : get_or p 11 0 ≡ nullability_tag nullable
  unfolding to_le_bytes
  payload_nullability = refl

  pub payload_name_len : length name ≤ u64_max → from_le_bytes (read_array 8 p 12) ≡ length name
  unfolding to_le_bytes read_array
  payload_name_len h = from_le_bytes-to_le_bytes 8 (length name) (omega arith)

  pub payload_name : read_array (length name) p 20 ≡ name
  unfolding to_le_bytes read_array
  payload_name = take-append name (to_le_bytes 8 row_cap ++ (to_le_bytes 8 row_count ++ rows))

  name_end_len : length (fixed_bytes nullable (length name) ++ name) ≡ 20 + length name
  unfolding to_le_bytes
  name_end_len = omega arith

  pub payload_row_cap :
      row_cap ≤ u64_max → from_le_bytes (read_array 8 p (20 + length name)) ≡ row_cap
  payload_row_cap h =
      let word = to_le_bytes 8 row_cap in
      let rest = to_le_bytes 8 row_count ++ rows in
      ap (λ t. from_le_bytes (read_array 8 t (20 + length name)))
        (sym (append_assoc (fixed_bytes nullable (length name)) name (word ++ rest)))
      ∙ ap from_le_bytes (
          read_array-append 8 (20 + length name) (fixed_bytes nullable (length name) ++ name) word
            rest (length-to_le_bytes 8 row_cap) name_end_len)
      ∙ from_le_bytes-to_le_bytes 8 row_cap (omega arith)

  counts_offset :
      length (fixed_bytes nullable (length name) ++ (name ++ to_le_bytes 8 row_cap))
      ≡ 20 + length name + 8
  unfolding to_le_bytes
  counts_offset = omega (arith, length-append name (to_le_bytes 8 row_cap))

  pub payload_row_count :
      row_count ≤ u64_max → from_le_bytes (read_array 8 p (20 + length name + 8)) ≡ row_count
  payload_row_count h =
      let cap = to_le_bytes 8 row_cap in
      let word = to_le_bytes 8 row_count in
      let fixed = fixed_bytes nullable (length name) in
      ap (λ t. from_le_bytes (read_array 8 t (20 + length name + 8)))
        (sym (
          append_assoc fixed (name ++ cap) (word ++ rows)
          ∙ ap (λ t. fixed ++ t) (append_assoc name cap (word ++ rows))))
      ∙ ap from_le_bytes (
          read_array-append 8 (20 + length name + 8) (fixed ++ (name ++ cap)) word rows
            (length-to_le_bytes 8 row_count) counts_offset)
      ∙ from_le_bytes-to_le_bytes 8 row_count (omega arith)

  pub length-prefix_of : length (prefix_of nullable name row_cap row_count) ≡ 36 + length name
  unfolding to_le_bytes
  length-prefix_of =
      omega (arith, length-append name (to_le_bytes 8 row_cap ++ to_le_bytes 8 row_count))
