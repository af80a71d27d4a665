-- ===== src/Order/Rows.antt =====
-- The rows that the top-k order returns: the first `limit` of all rows in SQL order.
use rusthouse.Prelude.{
  ℕ, zero, suc, ◌+◌, ◌≤◌, min, ◌≡◌, refl, sym, ap, ◌∙◌, inl, inr, ◌||◌, Option, List, [], ◌∷◌, ◌++◌,
  map, arith, ◌==◌, if◌then◌else◌, Bool-cases, length, take, take-nil, take-min, ok,
}
use rusthouse.Prelude.Int.{ℤ}
use mathlib.Core.List.{append-nil}
use rusthouse.Order.{
  OrderDirection, NullOrder, OrderLimits, OrderKey, new_key, key_ltb, push, order_loop,
  order_nullable_i64, is_empty,
}
use rusthouse.Order.Heap.{IsSorted, push-IsSorted, offer-take, length-push}
use mathlib.Core.List.{Perm, perm_middle}
use mathlib.Core.List.Perm

push-perm : (k : OrderKey) (xs : List OrderKey) → Perm (push k xs) (k ∷ xs)
unfolding push
push-perm k [] = Perm.refl (k ∷ [])
push-perm k (x ∷ xs) = elim (Bool-cases (key_ltb k x)) [
  | inl t ↦ rw t (Perm.refl (k ∷ x ∷ xs))
  | inr f ↦ rw f (Perm.trans (Perm.cons x (push-perm k xs)) (Perm.swap k x xs))
]

module _ (direction : OrderDirection) (null_order : NullOrder) where
  -- The keys of the rows from `i` on, in source order.
  abbrev pub keys_from : ℕ → List (Option ℤ) → List OrderKey
  keys_from i [] = []
  keys_from i (v ∷ vs) = new_key v i direction null_order ∷ keys_from (i + 1) vs

  -- The rows from `i` on inserted into sorted keys.
  abbrev pub sorted_from : ℕ → List (Option ℤ) → List OrderKey → List OrderKey
  sorted_from i [] sorted = sorted
  sorted_from i (v ∷ vs) sorted =
      sorted_from (i + 1) vs (push (new_key v i direction null_order) sorted)

  pub sorted_from-IsSorted :
      (i : ℕ) (vs : List (Option ℤ)) (sorted : List OrderKey)
      → IsSorted sorted
      → IsSorted (sorted_from i vs sorted)
  sorted_from-IsSorted i [] sorted s = s
  sorted_from-IsSorted i (v ∷ vs) sorted s =
      sorted_from-IsSorted (i + 1) vs (push (new_key v i direction null_order) sorted)
        (push-IsSorted (new_key v i direction null_order) sorted s)

  length-sorted_from :
      (i : ℕ) (vs : List (Option ℤ)) (sorted : List OrderKey)
      → length (sorted_from i vs sorted) ≡ length vs + length sorted
  length-sorted_from i [] sorted = omega arith
  length-sorted_from i (v ∷ vs) sorted =
      let k = new_key v i direction null_order in
      omega (arith, length-sorted_from (i + 1) vs (push k sorted), length-push k sorted)

  order_loop-take :
      (n i : ℕ) (vs : List (Option ℤ)) (sorted : List OrderKey)
      → IsSorted sorted
      → order_loop direction null_order n i vs (take n sorted) ≡ take n (sorted_from i vs sorted)
  unfolding order_loop
  order_loop-take n i [] sorted s = refl
  order_loop-take n i (v ∷ vs) sorted s =
      let k = new_key v i direction null_order in
      rw (offer-take n k sorted s)
        (order_loop-take n (i + 1) vs (push k sorted) (push-IsSorted k sorted s))

  pub sorted_from-perm :
      (i : ℕ) (vs : List (Option ℤ)) (sorted : List OrderKey)
      → Perm (sorted_from i vs sorted) (keys_from i vs ++ sorted)
  sorted_from-perm i [] sorted = Perm.refl sorted
  sorted_from-perm i (v ∷ vs) sorted =
      let k = new_key v i direction null_order in
      Perm.trans (sorted_from-perm (i + 1) vs (push k sorted)) (
        Perm.trans (Perm.append (Perm.refl (keys_from (i + 1) vs)) (push-perm k sorted))
          (perm_middle (keys_from (i + 1) vs) sorted))

-- The rows of sorted keys.
abbrev pub source_rows : List OrderKey → List ℕ
source_rows keys = map (λ (row : OrderKey). row.source_index) keys

-- The heap, once all rows are offered, holds the first `limit` rows.
order_loop-top :
    (direction : OrderDirection) (null_order : NullOrder) (limit : ℕ) (values : List (Option ℤ))
    → order_loop direction null_order (min limit (length values)) 0 values []
      ≡ take limit (sorted_from direction null_order 0 values [])
order_loop-top direction null_order limit values =
    let n = min limit (length values) in
    let sorted = sorted_from direction null_order 0 values [] in
    let len : length sorted ≡ length values =
      omega (arith, length-sorted_from direction null_order 0 values []) in
    ap (order_loop direction null_order n 0 values) (sym (take-nil n))
    ∙ order_loop-take direction null_order n 0 values [] tt
    ∙ ap (λ (m : ℕ). take (min limit m) sorted) (sym len)
    ∙ take-min limit sorted

-- No row, or a limit of zero, is no exception.
selected_rows :
    (direction : OrderDirection) (null_order : NullOrder) (limit : ℕ) (values : List (Option ℤ))
    → (if limit == 0 || is_empty values
        then []
        else source_rows (order_loop direction null_order (min limit (length values)) 0 values []))
      ≡ source_rows (take limit (sorted_from direction null_order 0 values []))
selected_rows direction null_order zero values = refl
selected_rows direction null_order (suc n) [] = ground arith
selected_rows direction null_order (suc n) (v ∷ vs) =
    ground (arith, ap source_rows (order_loop-top direction null_order (suc n) (v ∷ vs)))

module _ (direction : OrderDirection) (null_order : NullOrder) (values : List (Option ℤ)) where
  pub order_nullable_i64-sorted_from :
      (limit : ℕ) (limits : OrderLimits)
      → length values ≤ limits.max_input_rows
      → limit ≤ limits.max_limit
      → order_nullable_i64 values direction null_order limit limits
        ≡ ok (source_rows (take limit (sorted_from direction null_order 0 values [])))
  unfolding order_nullable_i64
  order_nullable_i64-sorted_from limit limits a b =
      ground (arith, selected_rows direction null_order limit values)

  -- An order within its bounds, which keeps a heap of at most LIMIT rows, returns the first LIMIT
  -- rows of a sorted permutation of all rows.
  pub order_nullable_i64-top :
      (limit : ℕ) (limits : OrderLimits)
      → length values ≤ limits.max_input_rows
      → limit ≤ limits.max_limit
      → (sorted : List OrderKey) × IsSorted sorted
        × Perm sorted (keys_from direction null_order 0 values)
        × (order_nullable_i64 values direction null_order limit limits
            ≡ ok (source_rows (take limit sorted)))
  order_nullable_i64-top limit limits a b = (
    sorted_from direction null_order 0 values [],
    sorted_from-IsSorted direction null_order 0 values [] tt,
    rw append-nil at (sorted_from-perm direction null_order 0 values []),
    order_nullable_i64-sorted_from limit limits a b,
  )
