-- ===== src/Join/Outcome.antt =====
-- What the joins answer: the nested loops, unless a bound is passed.
use rusthouse.Prelude.{
  ℕ, ◌+◌, ◌≤◌, ◌<◌, ◌≡◌, refl, sym, ap, ◌∙◌, Option, none, some, List, [], ◌∷◌, ◌++◌, map, arith,
  ltb, if◌then◌else◌, saturating_add, length, length-append, length-map, Result, ok, err,
}
use rusthouse.Prelude.Int.{ℤ}
use mathlib.Core.List.{append_assoc}
use rusthouse.Join.{
  JoinLimits, JoinRowPair, LeftOuterJoinRowPair, JoinError, left_input_limit_exceeded,
  right_input_limit_exceeded, output_limit_exceeded, get, index_right_rows, rows_for, rows_len_or,
  count_output_pairs, count_left_outer_output_pairs, inner_equi_join_nullable_i64,
  left_outer_equi_join_nullable_i64,
}
use rusthouse.Join.Pairs.{
  right_matches, found_rows, rows_for-matches, outer_rows, inner_join, left_outer_join,
  inner_pairs_from-join, outer_pairs_from-join,
}

abbrev pair_of : ℕ → ℕ → JoinRowPair
pair_of l r = record { left_row = l; right_row = r }

abbrev matched_of : ℕ → ℕ → LeftOuterJoinRowPair
matched_of l r = record { left_row = l; right_row = some r }

rows_len-inner : (rows : List ℕ) → rows_len_or 0 (found_rows rows) ≡ length rows
rows_len-inner [] = refl
rows_len-inner (r ∷ rs) = refl

rows_len-outer :
    (l : ℕ) (rows : List ℕ) → rows_len_or 1 (found_rows rows) ≡ length (outer_rows l rows)
rows_len-outer l [] = refl
rows_len-outer l (r ∷ rs) = sym (length-map (matched_of l) (r ∷ rs))

module _ (right : List (Option ℤ)) (m : ℕ) where
  inner_step :
      (l : ℕ) (v : ℤ) (vs : List (Option ℤ))
      → length (inner_join l (some v ∷ vs) right)
        ≡ rows_len_or 0 (get v (index_right_rows right)) + length (inner_join (l + 1) vs right)
  inner_step l v vs =
      let rows = right_matches (some v) right in
      let e = ap (rows_len_or 0) (rows_for-matches (some v) right) ∙ rows_len-inner rows in
      omega (
        arith,
        e,
        length-append (map (pair_of l) rows) (inner_join (l + 1) vs right),
        length-map (pair_of l) rows,
      )

  outer_step :
      (l : ℕ) (v : Option ℤ) (vs : List (Option ℤ))
      → length (left_outer_join l (v ∷ vs) right)
        ≡ rows_len_or 1 (rows_for v (index_right_rows right))
          + length (left_outer_join (l + 1) vs right)
  outer_step l v vs =
      let rows = right_matches v right in
      let e = ap (rows_len_or 1) (rows_for-matches v right) ∙ rows_len-outer l rows in
      omega (arith, e, length-append (outer_rows l rows) (left_outer_join (l + 1) vs right))

  count_output_pairs-ok :
      (l : ℕ) (vs : List (Option ℤ)) (pairs : ℕ)
      → pairs + length (inner_join l vs right) ≤ m
      → count_output_pairs vs (index_right_rows right) m pairs
        ≡ ok (pairs + length (inner_join l vs right))
  unfolding count_output_pairs
  count_output_pairs-ok l [] pairs h = ap ok (omega arith)
  count_output_pairs-ok l (none ∷ vs) pairs h = count_output_pairs-ok (l + 1) vs pairs h
  count_output_pairs-ok l (some v ∷ vs) pairs h = ground (
    arith,
    inner_step l v vs,
    count_output_pairs-ok (l + 1) vs (pairs + rows_len_or 0 (get v (index_right_rows right))),
  )

  count_output_pairs-err :
      (l : ℕ) (vs : List (Option ℤ)) (pairs : ℕ)
      → pairs ≤ m
      → m < pairs + length (inner_join l vs right)
      → count_output_pairs vs (index_right_rows right) m pairs
        ≡ err (output_limit_exceeded (saturating_add m 1) m)
  unfolding count_output_pairs
  count_output_pairs-err l [] pairs c h = absurd (omega arith)
  count_output_pairs-err l (none ∷ vs) pairs c h = count_output_pairs-err (l + 1) vs pairs c h
  count_output_pairs-err l (some v ∷ vs) pairs c h = ground (
    arith,
    inner_step l v vs,
    count_output_pairs-err (l + 1) vs (pairs + rows_len_or 0 (get v (index_right_rows right))),
  )

  count_left_outer-ok :
      (l : ℕ) (vs : List (Option ℤ)) (pairs : ℕ)
      → pairs + length (left_outer_join l vs right) ≤ m
      → count_left_outer_output_pairs vs (index_right_rows right) m pairs
        ≡ ok (pairs + length (left_outer_join l vs right))
  unfolding count_left_outer_output_pairs
  count_left_outer-ok l [] pairs h = ap ok (omega arith)
  count_left_outer-ok l (v ∷ vs) pairs h = ground (
    arith,
    outer_step l v vs,
    count_left_outer-ok (l + 1) vs (pairs + rows_len_or 1 (rows_for v (index_right_rows right))),
  )

  count_left_outer-err :
      (l : ℕ) (vs : List (Option ℤ)) (pairs : ℕ)
      → pairs ≤ m
      → m < pairs + length (left_outer_join l vs right)
      → count_left_outer_output_pairs vs (index_right_rows right) m pairs
        ≡ err (output_limit_exceeded (saturating_add m 1) m)
  unfolding count_left_outer_output_pairs
  count_left_outer-err l [] pairs c h = absurd (omega arith)
  count_left_outer-err l (v ∷ vs) pairs c h = ground (
    arith,
    outer_step l v vs,
    count_left_outer-err (l + 1) vs (pairs + rows_len_or 1 (rows_for v (index_right_rows right))),
  )

-- The answer of a join whose unbounded result is `pairs`: the bounds are inclusive, the left input
-- is tested before the right one, and both before the output.
abbrev pub join_outcome :
    {A : Type 0}
    → List (Option ℤ)
    → List (Option ℤ)
    → JoinLimits
    → List A
    → Result JoinError (List A)
join_outcome left right limits pairs =
    if ltb limits.max_input_rows (length left)
    then err (left_input_limit_exceeded (length left) limits.max_input_rows)
    else if ltb limits.max_input_rows (length right)
    then err (right_input_limit_exceeded (length right) limits.max_input_rows)
    else if ltb limits.max_output_pairs (length pairs)
    then err
        (output_limit_exceeded (saturating_add limits.max_output_pairs 1) limits.max_output_pairs)
    else ok pairs

-- The inner join answers with every pair of a left and a right row whose values are equal and not
-- NULL, in left-major order, as two nested loops find them, unless an inclusive bound is passed,
-- the left input, the right input and the output being tested in that order.
pub inner_equi_join_nullable_i64-outcome :
    (left right : List (Option ℤ)) (limits : JoinLimits)
    → inner_equi_join_nullable_i64 left right limits
      ≡ join_outcome left right limits (inner_join 0 left right)
unfolding inner_equi_join_nullable_i64
inner_equi_join_nullable_i64-outcome left right limits = ground (
  arith,
  count_output_pairs-ok right limits.max_output_pairs 0 left 0,
  count_output_pairs-err right limits.max_output_pairs 0 left 0,
  inner_pairs_from-join right 0 left,
)

-- The left outer join answers with the pairs of the nested loops and each left row with no match
-- once, in left-major order, unless a bound is passed.
pub left_outer_equi_join_nullable_i64-outcome :
    (left right : List (Option ℤ)) (limits : JoinLimits)
    → left_outer_equi_join_nullable_i64 left right limits
      ≡ join_outcome left right limits (left_outer_join 0 left right)
unfolding left_outer_equi_join_nullable_i64
left_outer_equi_join_nullable_i64-outcome left right limits = ground (
  arith,
  count_left_outer-ok right limits.max_output_pairs 0 left 0,
  count_left_outer-err right limits.max_output_pairs 0 left 0,
  outer_pairs_from-join right 0 left,
)

abbrev matched_pair : ℕ → Option ℕ → List JoinRowPair
matched_pair l none = []
matched_pair l (some r) = pair_of l r ∷ []

-- The pairs of a left outer join that have a right row.
abbrev pub matched : List LeftOuterJoinRowPair → List JoinRowPair
matched [] = []
matched (p ∷ ps) = matched_pair p.left_row p.right_row ++ matched ps

matched-append : (ps qs : List LeftOuterJoinRowPair) → matched (ps ++ qs) ≡ matched ps ++ matched qs
matched-append [] qs = refl
matched-append (p ∷ ps) qs =
    rw (matched-append ps qs)
      (sym (append_assoc (matched_pair p.left_row p.right_row) (matched ps) (matched qs)))

matched-map : (l : ℕ) (rows : List ℕ) → matched (map (matched_of l) rows) ≡ map (pair_of l) rows
matched-map l [] = refl
matched-map l (r ∷ rs) = ap (λ t. pair_of l r ∷ t) (matched-map l rs)

matched-outer_rows : (l : ℕ) (rows : List ℕ) → matched (outer_rows l rows) ≡ map (pair_of l) rows
matched-outer_rows l [] = refl
matched-outer_rows l (r ∷ rs) = matched-map l (r ∷ rs)

matched-left_outer_join :
    (l : ℕ) (left right : List (Option ℤ))
    → matched (left_outer_join l left right) ≡ inner_join l left right
matched-left_outer_join l [] right = refl
matched-left_outer_join l (v ∷ vs) right =
    matched-append (outer_rows l (right_matches v right)) (left_outer_join (l + 1) vs right)
    ∙ rw (matched-outer_rows l (right_matches v right), matched-left_outer_join (l + 1) vs right)

-- The inner join is the left outer join without its unmatched rows, where both are accepted.
pub left_outer-inner :
    (left right : List (Option ℤ)) (limits outer_limits : JoinLimits) (ps : List JoinRowPair)
    (qs : List LeftOuterJoinRowPair)
    → inner_equi_join_nullable_i64 left right limits ≡ ok ps
    → left_outer_equi_join_nullable_i64 left right outer_limits ≡ ok qs
    → matched qs ≡ ps
left_outer-inner left right limits outer_limits ps qs h k =
    let a : inner_join 0 left right ≡ ps =
      ground (arith, inner_equi_join_nullable_i64-outcome left right limits) in
    let b : left_outer_join 0 left right ≡ qs =
      ground (arith, left_outer_equi_join_nullable_i64-outcome left right outer_limits) in
    ap matched (sym b) ∙ matched-left_outer_join 0 left right ∙ a
