-- ===== src/Csv/Ingest.antt =====
-- What an ingestion leaves behind.
use rusthouse.Prelude.{
  ℕ, ◌+◌, ◌≤◌, ◌<◌, ◌≡◌, refl, sym, ap, ◌∙◌, ◌⊎◌, inl, inr, true, false, Option, List, [], ◌∷◌,
  ◌++◌, arith, ltb, Bool-cases, u64_max, length, any, length-append, Result, ok, err, map_err,
  map_ok, Result-cases,
}
use rusthouse.Prelude.Int.{ℤ, is_none}
use rusthouse.Prelude.Bytes.{Bytes, bytes_eq_iff, bytes_eq_refl}
use mathlib.Core.List.{append-nil, append_assoc}
use rusthouse.Storage.{Int64Table, InsertError, append_batch, column_name, is_nullable}
use rusthouse.Storage.Append.{Appends, append_batch_atomic, append_batch-ok_iff}
use rusthouse.Csv.{
  CsvIngestLimits, CsvIngestError, split_inclusive, line_contents, parse_record, read_lines,
  read_input, table_insert, ingest_csv_with_names,
}

-- The values are those of the lines, one by one, from a line on.
abbrev pub Records : ℕ → List Bytes → List (Option ℤ) → Type 0
Records line [] [] = Unit
Records line [] (v ∷ vs) = ⊥
Records line (l ∷ ls) [] = ⊥
Records line (l ∷ ls) (v ∷ vs) =
    (parse_record (line_contents l) line ≡ ok v) × Records (line + 1) ls vs

-- The lines are a header with the table's column name, and the values.
abbrev pub Contents : Int64Table → List Bytes → List (Option ℤ) → Type 0
Contents t [] vs = ⊥
Contents t (header ∷ lines) vs = (line_contents header ≡ column_name t) × Records 2 lines vs

read_lines-Records :
    (t : Int64Table) (m line : ℕ) (lines : List Bytes) (values all : List (Option ℤ))
    → m < u64_max
    → length values ≤ m
    → read_lines t m line lines values ≡ ok all
    → (vs : List (Option ℤ)) × (all ≡ values ++ vs) × Records line lines vs × (length all ≤ m)
unfolding read_lines
read_lines-Records t m line [] values all w b h =
    let e : values ≡ all = cc in ([], sym e ∙ sym (append-nil values), tt, rw (← e) b)
read_lines-Records t m line (l ∷ ls) values all w b h =
    elim (Result-cases (parse_record (line_contents l) line)) [
      | inl (v, e) ↦
          (let h' : read_lines t m (line + 1) ls (values ++ (v ∷ [])) ≡ ok all = ground arith in
            let b' : length values + 1 ≤ m = ground arith in
            let (vs, q, r, few) =
              read_lines-Records t m (line + 1) ls (values ++ (v ∷ [])) all w
                (omega (arith, length-append values (v ∷ []))) h' in
            (v ∷ vs, q ∙ append_assoc values (v ∷ []) vs, (e, r), few))
      | inr (x, e) ↦ absurd (ground arith)
    ]

read_input-Contents :
    (t : Int64Table) (m : ℕ) (lines : List Bytes) (vs : List (Option ℤ))
    → m < u64_max
    → read_input t m lines ≡ ok vs
    → Contents t lines vs × (length vs ≤ m)
unfolding read_input
read_input-Contents t m [] vs w h = cc
read_input-Contents t m (header ∷ lines) vs w h =
    let named : line_contents header ≡ column_name t =
      ground (arith, bytes_eq_iff (line_contents header) (column_name t)) in
    let read : read_lines t m 2 lines [] ≡ ok vs = ground arith in
    let (us, q, r, few) = read_lines-Records t m 2 lines [] vs w (omega arith) read in
    ((named, rw (← q) at r), few)

-- What an ingestion leaves behind: after an error the table is unchanged; otherwise the values of
-- all lines after the header are appended, and the answer is their number.
abbrev pub Ingests : Bytes → ℕ → Int64Table → Int64Table × Result CsvIngestError ℕ → Type 0
Ingests input max_rows t (t', err e) = t' ≡ t
Ingests input max_rows t (t', ok n) =
    (vs : List (Option ℤ)) × Contents t (split_inclusive input) vs
    × Appends t vs (t', ok tt)
    × (n ≡ length vs)
    × (n ≤ max_rows)

append_values-Ingests :
    (input : Bytes) (max_rows : ℕ) (t : Int64Table) (vs : List (Option ℤ))
    (after : Int64Table × Result InsertError (Unit {0}))
    → Contents t (split_inclusive input) vs
    → length vs ≤ max_rows
    → Appends t vs after
    → Ingests input max_rows t
        (after.0, map_ok (λ (u : Unit {0}). length vs) (map_err table_insert after.1))
append_values-Ingests input max_rows t vs (t', ok _) c b a = (vs, c, a, refl, b)
append_values-Ingests input max_rows t vs (t', err e) c b a = a

-- With a row bound below the largest 64-bit size, an ingestion either answers with an error and
-- leaves the table unchanged, or the first line is the name of the column, each further line
-- parses as the value in its place, these values and no others are appended, with schema and cap
-- unchanged, and the answer is their number, which is within the row bound.
pub ingest_csv_with_names-Ingests :
    (input : Bytes) (limits : CsvIngestLimits) (t : Int64Table)
    → limits.max_rows < u64_max
    → Ingests input limits.max_rows t (ingest_csv_with_names input limits t)
unfolding ingest_csv_with_names
ingest_csv_with_names-Ingests input limits t w =
    elim (Bool-cases (ltb limits.max_bytes (length input))) [
      | inl long ↦ rw long refl
      | inr f ↦ elim (Result-cases (read_input t limits.max_rows (split_inclusive input))) [
        | inl (vs, e) ↦
            (let (c, few) = read_input-Contents t limits.max_rows (split_inclusive input) vs w e in
              rw (f, e)
                (append_values-Ingests input limits.max_rows t vs (append_batch vs t) c few
                  (append_batch_atomic vs t)))
        | inr (x, e) ↦ rw (f, e) refl
      ]
    ]

read_lines_accepts :
    (t : Int64Table) (m line : ℕ) (lines : List Bytes) (values vs : List (Option ℤ))
    → Records line lines vs
    → (is_nullable t ≡ true) ⊎ (any is_none vs ≡ false)
    → length values + length vs ≤ m
    → read_lines t m line lines values ≡ ok (values ++ vs)
unfolding read_lines
read_lines_accepts t m line [] values [] r n b = ap ok (sym (append-nil values))
read_lines_accepts t m line [] values (v ∷ vs) r n b = absurd r
read_lines_accepts t m line (l ∷ ls) values [] r n b = absurd r
read_lines_accepts t m line (l ∷ ls) values (v ∷ vs) r n b =
    let rest =
      read_lines_accepts t m (line + 1) ls (values ++ (v ∷ [])) vs r.1 (ground arith)
        (omega (arith, length-append values (v ∷ []))) in
    rw (r.0) (ground (arith, rest, append_assoc values (v ∷ []) vs))

read_input_accepts :
    (t : Int64Table) (m : ℕ) (lines : List Bytes) (vs : List (Option ℤ))
    → Contents t lines vs
    → (is_nullable t ≡ true) ⊎ (any is_none vs ≡ false)
    → length vs ≤ m
    → read_input t m lines ≡ ok vs
unfolding read_input
read_input_accepts t m [] vs c n b = absurd c
read_input_accepts t m (header ∷ lines) vs c n b =
    rw (c.0, bytes_eq_refl (column_name t))
      (read_lines_accepts t m 2 lines [] vs c.1 n (omega arith))

-- An input within both bounds whose first line is the name of the column and whose further lines
-- parse as values that fit under the cap of the table, with no NULL unless the column is
-- nullable, is accepted: the table is what append_batch of the values leaves, and the answer is
-- their number.
pub ingest_csv_with_names_accepts :
    (input : Bytes) (limits : CsvIngestLimits) (t : Int64Table) (vs : List (Option ℤ))
    → Contents t (split_inclusive input) vs
    → length input ≤ limits.max_bytes
    → length vs ≤ limits.max_rows
    → length t.values + length vs ≤ t.row_cap
    → (is_nullable t ≡ true) ⊎ (any is_none vs ≡ false)
    → ingest_csv_with_names input limits t ≡ ((append_batch vs t).0, ok (length vs))
unfolding ingest_csv_with_names
ingest_csv_with_names_accepts input limits t vs c short few cap nulls =
    let read = read_input_accepts t limits.max_rows (split_inclusive input) vs c nulls few in
    let appended : (append_batch vs t).1 ≡ ok tt =
      (append_batch-ok_iff vs t (omega arith)).1 (cap, nulls) in
    rw (read) (ground arith)
