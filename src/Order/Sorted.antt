-- ===== src/Order/Sorted.antt =====
-- The sorted keys as rows in SQL order, without the ranks of a key.
use rusthouse.Prelude.{
  ℕ, zero, suc, ◌+◌, ◌≡◌, refl, sym, ap, ◌∙◌, inl, inr, false, Option, none, List, [], ◌∷◌, map,
  arith, Bool-cases, get_or, take, All,
}
use rusthouse.Prelude.Int.{ℤ}
use mathlib.Core.List.{append-nil}
use rusthouse.Order.{OrderDirection, NullOrder, OrderKey, new_key, key_ltb, push}
use rusthouse.Order.Ranks.{row_before, IsNullableI64, key_ltb-new_key}
use rusthouse.Order.Heap.{IsSorted}
use rusthouse.Order.Rows.{
  keys_from, sorted_from, sorted_from-IsSorted, sorted_from-perm, source_rows,
}
use mathlib.Core.List.{Perm}
use mathlib.Core.List.Perm

-- A row by its position and its value.
abbrev pub Row : Type 0
Row = ℕ × Option ℤ

abbrev pub rows_from : ℕ → List (Option ℤ) → List Row
rows_from i [] = []
rows_from i (v ∷ vs) = (i, v) ∷ rows_from (i + 1) vs

abbrev pub row_values : List Row → List (Option ℤ)
row_values rows = map (λ (row : Row). row.1) rows

abbrev row_of : List (Option ℤ) → OrderKey → Row
row_of values k = (k.source_index, get_or values k.source_index none)

module _ (direction : OrderDirection) (null_order : NullOrder) where
  -- No row stands before one that SQL orders before it.
  abbrev pub IsOrdered : List Row → Type 0
  IsOrdered [] = Unit
  IsOrdered (r ∷ rows) =
      All (λ (s : Row). row_before direction null_order s.1 s.0 r.1 r.0 ≡ false) rows
      × IsOrdered rows

  -- A key of a row of `values`, whose value is one of an `i64`.
  abbrev IsKeyOf : List (Option ℤ) → OrderKey → Type 0
  IsKeyOf values k =
      let (i, v) = row_of values k in (k ≡ new_key v i direction null_order) × IsNullableI64 v

  All-push :
      (P : OrderKey → Type 0) (k : OrderKey) (xs : List OrderKey)
      → P k
      → All P xs
      → All P (push k xs)
  unfolding push
  All-push P k [] p h = (p, tt)
  All-push P k (x ∷ xs) p h = elim (Bool-cases (key_ltb k x)) [
    | inl t ↦ rw t (p, h)
    | inr f ↦ rw f (h.0, All-push P k xs p h.1)
  ]

-- The values from position `i` on.
abbrev ReadsFrom : List (Option ℤ) → ℕ → List (Option ℤ) → Type 0
ReadsFrom values i vs = (j : ℕ) → get_or values (i + j) none ≡ get_or vs j none

ReadsFrom-head :
    (values : List (Option ℤ)) (i : ℕ) (v : Option ℤ) (vs : List (Option ℤ))
    → ReadsFrom values i (v ∷ vs)
    → get_or values i none ≡ v
ReadsFrom-head values i v vs h = ap (λ j. get_or values j none) (omega arith) ∙ h 0

ReadsFrom-tail :
    (values : List (Option ℤ)) (i : ℕ) (v : Option ℤ) (vs : List (Option ℤ))
    → ReadsFrom values i (v ∷ vs)
    → ReadsFrom values (i + 1) vs
ReadsFrom-tail values i v vs h j = ap (λ j. get_or values j none) (omega arith) ∙ h (suc j)

module _ (direction : OrderDirection) (null_order : NullOrder) (values : List (Option ℤ)) where
  sorted_from-IsKeyOf :
      (i : ℕ) (vs : List (Option ℤ)) (sorted : List OrderKey)
      → ReadsFrom values i vs
      → All IsNullableI64 vs
      → All (IsKeyOf direction null_order values) sorted
      → All (IsKeyOf direction null_order values) (sorted_from direction null_order i vs sorted)
  sorted_from-IsKeyOf i [] sorted r a h = h
  sorted_from-IsKeyOf i (v ∷ vs) sorted r a h =
      let k = new_key v i direction null_order in
      let here : IsKeyOf direction null_order values k =
        unfold new_key in rw (ReadsFrom-head values i v vs r) (refl, a.0) in
      sorted_from-IsKeyOf (i + 1) vs (push k sorted) (ReadsFrom-tail values i v vs r) a.1
        (All-push direction null_order (IsKeyOf direction null_order values) k sorted here h)

  map-keys_from :
      (i : ℕ) (vs : List (Option ℤ))
      → ReadsFrom values i vs
      → map (row_of values) (keys_from direction null_order i vs) ≡ rows_from i vs
  unfolding new_key
  map-keys_from i [] r = refl
  map-keys_from i (v ∷ vs) r =
      rw (ReadsFrom-head values i v vs r, map-keys_from (i + 1) vs (ReadsFrom-tail values i v vs r))
        refl

  -- Keys in order are rows in order.
  row_of-ordered :
      (k l : OrderKey)
      → IsKeyOf direction null_order values k
      → IsKeyOf direction null_order values l
      → key_ltb l k ≡ false
      → row_before direction null_order
          (row_of values l).1
          l.source_index
          (row_of values k).1
          k.source_index
        ≡ false
  row_of-ordered k l p q h =
      sym (
        key_ltb-new_key direction null_order (row_of values l).1 (row_of values k).1 l.source_index
          k.source_index q.1 p.1)
      ∙ ap (λ x. key_ltb x (new_key (row_of values k).1 k.source_index direction null_order))
          (sym q.0)
      ∙ ap (key_ltb l) (sym p.0)
      ∙ h

  map-row_of-ordered :
      (k : OrderKey) (xs : List OrderKey)
      → IsKeyOf direction null_order values k
      → All (IsKeyOf direction null_order values) xs
      → All (λ y. key_ltb y k ≡ false) xs
      → All
          (λ (s : Row).
            row_before direction null_order s.1 s.0 (row_of values k).1 k.source_index ≡ false)
          (map (row_of values) xs)
  map-row_of-ordered k [] p a h = tt
  map-row_of-ordered k (x ∷ xs) p a h =
      (row_of-ordered k x p a.0 h.0, map-row_of-ordered k xs p a.1 h.1)

  map-row_of-IsOrdered :
      (xs : List OrderKey)
      → All (IsKeyOf direction null_order values) xs
      → IsSorted xs
      → IsOrdered direction null_order (map (row_of values) xs)
  map-row_of-IsOrdered [] a s = tt
  map-row_of-IsOrdered (x ∷ xs) a s =
      (map-row_of-ordered x xs a.0 a.1 s.0, map-row_of-IsOrdered xs a.1 s.1)

  -- All rows in SQL order.
  abbrev pub sorted_rows : List Row
  sorted_rows = map (row_of values) (sorted_from direction null_order 0 values [])

  ReadsFrom-all : ReadsFrom values 0 values
  ReadsFrom-all j = ap (λ i. get_or values i none) (omega arith)

  pub sorted_rows-IsOrdered : All IsNullableI64 values → IsOrdered direction null_order sorted_rows
  sorted_rows-IsOrdered a =
      map-row_of-IsOrdered (sorted_from direction null_order 0 values [])
        (sorted_from-IsKeyOf 0 values [] ReadsFrom-all a tt)
        (sorted_from-IsSorted direction null_order 0 values [] tt)

  pub sorted_rows-perm : Perm sorted_rows (rows_from 0 values)
  sorted_rows-perm =
      rw
        (append-nil (keys_from direction null_order 0 values), map-keys_from 0 values ReadsFrom-all)
        at (Perm.map (row_of values) (sorted_from-perm direction null_order 0 values []))

  row_values-take :
      (n : ℕ) (keys : List OrderKey)
      → map (λ (i : ℕ). get_or values i none) (source_rows (take n keys))
        ≡ row_values (take n (map (row_of values) keys))
  row_values-take zero keys = refl
  row_values-take (suc n) [] = refl
  row_values-take (suc n) (k ∷ keys) =
      ap (λ vs. get_or values k.source_index none ∷ vs) (row_values-take n keys)

  -- The values of the first rows are those of the first keys.
  pub row_values-sorted_rows :
      (n : ℕ)
      → map
          (λ (i : ℕ). get_or values i none)
          (source_rows (take n (sorted_from direction null_order 0 values [])))
        ≡ row_values (take n sorted_rows)
  row_values-sorted_rows n = row_values-take n (sorted_from direction null_order 0 values [])
