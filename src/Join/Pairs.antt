-- ===== src/Join/Pairs.antt =====
-- The joins against nested loops over the two columns.
use rusthouse.Prelude.{
  ℕ, ◌+◌, ◌≡◌, refl, sym, ap, inl, inr, Option, none, some, List, [], ◌∷◌, ◌++◌, map, arith,
  if◌then◌else◌, Bool-cases,
}
use rusthouse.Prelude.Int.{ℤ, eqb_ℤ, eqb_ℤ_iff}
use mathlib.Core.List.{append-nil, append_assoc}
use rusthouse.Scan.{eq, matches_comparison}
use rusthouse.Scan.Matching.{matching_rows}
use rusthouse.Join.{
  JoinRowPair, LeftOuterJoinRowPair, RowIndex, get, push_row, index_from, index_right_rows,
  rows_for, inner_pairs_of, outer_pairs_of, inner_pairs_from, outer_pairs_from,
}

-- The rows of a column that equal a value.
abbrev pub equal_rows : ℤ → ℕ → List (Option ℤ) → List ℕ
equal_rows v r vs = matching_rows (matches_comparison eq v) r vs

-- An entry of the index after more rows of its value.
abbrev pub with_rows : Option (List ℕ) → List ℕ → Option (List ℕ)
with_rows none [] = none
with_rows none (r ∷ rs) = some (r ∷ rs)
with_rows (some rows) rs = some (rows ++ rs)

get-push_row :
    (v w : ℤ) (r : ℕ) (index : RowIndex)
    → get v (push_row w r index)
      ≡ (if eqb_ℤ w v then with_rows (get v index) (r ∷ []) else get v index)
unfolding get push_row
get-push_row v w r [] = refl
get-push_row v w r ((u, rows) ∷ index) =
    ground (arith, get-push_row v w r index, eqb_ℤ_iff u v, eqb_ℤ_iff w v, eqb_ℤ_iff u w)

with_rows-nil : (o : Option (List ℕ)) → with_rows o [] ≡ o
with_rows-nil none = refl
with_rows-nil (some rows) = ap some (append-nil rows)

with_rows-cons :
    (o : Option (List ℕ)) (r : ℕ) (rs : List ℕ)
    → with_rows (with_rows o (r ∷ [])) rs ≡ with_rows o (r ∷ rs)
with_rows-cons none r rs = refl
with_rows-cons (some rows) r rs = ap some (append_assoc rows (r ∷ []) rs)

get-index_from :
    (v : ℤ) (r : ℕ) (vs : List (Option ℤ)) (index : RowIndex)
    → get v (index_from r vs index) ≡ with_rows (get v index) (equal_rows v r vs)
unfolding index_from
get-index_from v r [] index = sym (with_rows-nil (get v index))
get-index_from v r (none ∷ vs) index = get-index_from v (r + 1) vs index
get-index_from v r (some w ∷ vs) index =
    let rest = get-index_from v (r + 1) vs (push_row w r index) in
    elim (Bool-cases (eqb_ℤ w v)) [
      | inl t ↦
          rw (rest, get-push_row v w r index, t)
            (with_rows-cons (get v index) r (equal_rows v (r + 1) vs))
      | inr f ↦ rw (rest, get-push_row v w r index, f) refl
    ]

-- The right rows that match a left value; NULL matches nothing.
abbrev pub right_matches : Option ℤ → List (Option ℤ) → List ℕ
right_matches none right = []
right_matches (some v) right = equal_rows v 0 right

abbrev pub found_rows : List ℕ → Option (List ℕ)
found_rows rows = with_rows none rows

pub rows_for-matches :
    (v : Option ℤ) (right : List (Option ℤ))
    → rows_for v (index_right_rows right) ≡ found_rows (right_matches v right)
unfolding index_right_rows get
rows_for-matches none right = refl
rows_for-matches (some v) right = get-index_from v 0 right []

-- The nested loops.
abbrev pub inner_join : ℕ → List (Option ℤ) → List (Option ℤ) → List JoinRowPair
inner_join l [] right = []
inner_join l (v ∷ vs) right =
    map (λ r. record { left_row = l; right_row = r }) (right_matches v right)
    ++ inner_join (l + 1) vs right

-- One row with no right row where nothing matches.
abbrev pub outer_rows : ℕ → List ℕ → List LeftOuterJoinRowPair
outer_rows l [] = record { left_row = l; right_row = none } ∷ []
outer_rows l (r ∷ rs) = map (λ r. record { left_row = l; right_row = some r }) (r ∷ rs)

abbrev pub left_outer_join : ℕ → List (Option ℤ) → List (Option ℤ) → List LeftOuterJoinRowPair
left_outer_join l [] right = []
left_outer_join l (v ∷ vs) right =
    outer_rows l (right_matches v right) ++ left_outer_join (l + 1) vs right

inner_pairs_of-found :
    (l : ℕ) (rows : List ℕ)
    → inner_pairs_of l (found_rows rows) ≡ map (λ r. record { left_row = l; right_row = r }) rows
inner_pairs_of-found l [] = refl
inner_pairs_of-found l (r ∷ rs) = refl

outer_pairs_of-found :
    (l : ℕ) (rows : List ℕ) → outer_pairs_of l (found_rows rows) ≡ outer_rows l rows
outer_pairs_of-found l [] = refl
outer_pairs_of-found l (r ∷ rs) = refl

module _ (right : List (Option ℤ)) where
  pub inner_pairs_from-join :
      (l : ℕ) (left : List (Option ℤ))
      → inner_pairs_from l left (index_right_rows right) ≡ inner_join l left right
  unfolding inner_pairs_from
  inner_pairs_from-join l [] = refl
  inner_pairs_from-join l (v ∷ vs) = rw (
    rows_for-matches v right,
    inner_pairs_of-found l (right_matches v right),
    inner_pairs_from-join (l + 1) vs,
  )

  pub outer_pairs_from-join :
      (l : ℕ) (left : List (Option ℤ))
      → outer_pairs_from l left (index_right_rows right) ≡ left_outer_join l left right
  unfolding outer_pairs_from
  outer_pairs_from-join l [] = refl
  outer_pairs_from-join l (v ∷ vs) = rw (
    rows_for-matches v right,
    outer_pairs_of-found l (right_matches v right),
    outer_pairs_from-join (l + 1) vs,
  )
