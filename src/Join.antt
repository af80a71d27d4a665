-- ===== src/Join.antt =====
-- src/join.rs: bounded equi-joins of two nullable columns. The `HashMap` from values to right rows is
-- an association list, which is only looked up, so its order does not show.
pub mod Pairs
pub mod Outcome
use rusthouse.Prelude.{
  ℕ, ◌+◌, ◌-◌, Option, none, some, List, [], ◌∷◌, ◌++◌, map, ltb, if◌then◌else◌, saturating_add,
  length, Result, ok, ◌>>=◌, ◌>>◌, reject_if,
}
use rusthouse.Prelude.Int.{ℤ, eqb_ℤ}

pub record JoinLimits : Type 0 where
  pub max_input_rows : ℕ
  pub max_output_pairs : ℕ

pub record JoinRowPair : Type 0 where
  pub left_row : ℕ
  pub right_row : ℕ

pub record LeftOuterJoinRowPair : Type 0 where
  pub left_row : ℕ
  pub right_row : Option ℕ

pub data JoinError : Type 0 where
  left_input_limit_exceeded : (rows max_rows : ℕ) → JoinError
  right_input_limit_exceeded : (rows max_rows : ℕ) → JoinError
  output_limit_exceeded : (pairs max_pairs : ℕ) → JoinError

abbrev pub RowIndex : Type 0
RowIndex = List (ℤ × List ℕ)

-- `map.get(&value)`
unfoldable pub get : ℤ → RowIndex → Option (List ℕ)
get v [] = none
get v ((w, rows) ∷ index) = if eqb_ℤ w v then some rows else get v index

-- `map.entry(value).or_default().push(row)`
unfoldable pub push_row : ℤ → ℕ → RowIndex → RowIndex
push_row v r [] = (v, r ∷ []) ∷ []
push_row v r ((w, rows) ∷ index) =
    if eqb_ℤ w v then (w, rows ++ (r ∷ [])) ∷ index else (w, rows) ∷ push_row v r index

-- The loop of `index_right_rows` from a right row on.
unfoldable pub index_from : ℕ → List (Option ℤ) → RowIndex → RowIndex
index_from r [] index = index
index_from r (none ∷ vs) index = index_from (r + 1) vs index
index_from r (some v ∷ vs) index = index_from (r + 1) vs (push_row v r index)

unfoldable pub index_right_rows : List (Option ℤ) → RowIndex
unfolding index_from
index_right_rows right = index_from 0 right []

unfoldable pub validate_input_limits : ℕ → ℕ → ℕ → Result JoinError (Unit {0})
validate_input_limits left_rows right_rows max_input_rows = do
  reject_if (ltb max_input_rows left_rows) (left_input_limit_exceeded left_rows max_input_rows)
  reject_if (ltb max_input_rows right_rows) (right_input_limit_exceeded right_rows max_input_rows)

-- `value.and_then(|value| right_rows_by_value.get(&value))`
abbrev pub rows_for : Option ℤ → RowIndex → Option (List ℕ)
rows_for none index = none
rows_for (some v) index = get v index

-- The length of the rows, or a default for none: `map_or(d, Vec::len)`.
abbrev pub rows_len_or : ℕ → Option (List ℕ) → ℕ
rows_len_or d none = d
rows_len_or d (some rows) = length rows

-- The loops of `count_output_pairs` and `count_left_outer_output_pairs` after some pairs: the
-- inner loop skips NULL, the outer counts a row with no match once.
unfoldable pub count_output_pairs : List (Option ℤ) → RowIndex → ℕ → ℕ → Result JoinError ℕ
count_output_pairs [] index m pairs = ok pairs
count_output_pairs (none ∷ vs) index m pairs = count_output_pairs vs index m pairs
count_output_pairs (some v ∷ vs) index m pairs = do
  let matching = rows_len_or 0 (get v index)
  reject_if (ltb (m - pairs) matching) (output_limit_exceeded (saturating_add m 1) m)
  count_output_pairs vs index m (pairs + matching)

unfoldable pub count_left_outer_output_pairs :
    List (Option ℤ) → RowIndex → ℕ → ℕ → Result JoinError ℕ
count_left_outer_output_pairs [] index m pairs = ok pairs
count_left_outer_output_pairs (v ∷ vs) index m pairs = do
  let matching = rows_len_or 1 (rows_for v index)
  reject_if (ltb (m - pairs) matching) (output_limit_exceeded (saturating_add m 1) m)
  count_left_outer_output_pairs vs index m (pairs + matching)

-- The pairs of one left row.
abbrev pub inner_pairs_of : ℕ → Option (List ℕ) → List JoinRowPair
inner_pairs_of l none = []
inner_pairs_of l (some rows) = map (λ r. record { left_row = l; right_row = r }) rows

abbrev pub outer_pairs_of : ℕ → Option (List ℕ) → List LeftOuterJoinRowPair
outer_pairs_of l none = record { left_row = l; right_row = none } ∷ []
outer_pairs_of l (some rows) = map (λ r. record { left_row = l; right_row = some r }) rows

-- The loops over the left rows, from row `l` on.
unfoldable pub inner_pairs_from : ℕ → List (Option ℤ) → RowIndex → List JoinRowPair
inner_pairs_from l [] index = []
inner_pairs_from l (v ∷ vs) index =
    inner_pairs_of l (rows_for v index) ++ inner_pairs_from (l + 1) vs index

unfoldable pub outer_pairs_from : ℕ → List (Option ℤ) → RowIndex → List LeftOuterJoinRowPair
outer_pairs_from l [] index = []
outer_pairs_from l (v ∷ vs) index =
    outer_pairs_of l (rows_for v index) ++ outer_pairs_from (l + 1) vs index

unfoldable pub inner_equi_join_nullable_i64 :
    List (Option ℤ) → List (Option ℤ) → JoinLimits → Result JoinError (List JoinRowPair)
unfolding validate_input_limits index_right_rows count_output_pairs inner_pairs_from
inner_equi_join_nullable_i64 left right limits = do
  validate_input_limits (length left) (length right) limits.max_input_rows
  let index = index_right_rows right
  count_output_pairs left index limits.max_output_pairs 0
  ok (inner_pairs_from 0 left index)

unfoldable pub left_outer_equi_join_nullable_i64 :
    List (Option ℤ) → List (Option ℤ) → JoinLimits → Result JoinError (List LeftOuterJoinRowPair)
unfolding validate_input_limits index_right_rows count_left_outer_output_pairs outer_pairs_from
left_outer_equi_join_nullable_i64 left right limits = do
  validate_input_limits (length left) (length right) limits.max_input_rows
  let index = index_right_rows right
  count_left_outer_output_pairs left index limits.max_output_pairs 0
  ok (outer_pairs_from 0 left index)
