-- ===== src/Distinct/Outcome.antt =====
-- What a distinct operation returns.
use rusthouse.Prelude.{
  ℕ, ◌≤◌, ◌<◌, ◌≡◌, refl, inl, inr, true, Option, List, [], ◌∷◌, arith, ltb, if◌then◌else◌,
  Bool-cases, saturating_add, length, Result, ok, err,
}
use rusthouse.Prelude.Int.{ℤ, eqb_option_iff}
use rusthouse.Distinct.{
  DistinctLimits, DistinctError, input_limit_exceeded, distinct_value_limit_exceeded, contains,
  insert, distinct_loop, distinct_nullable_i64,
}
use rusthouse.Distinct.Set.{IsAscending, insert-IsAscending, length-insert, contains-insert}

-- Every value inserted, with no bound.
abbrev pub collect : List (Option ℤ) → List (Option ℤ) → List (Option ℤ)
collect [] xs = xs
collect (v ∷ vs) xs = collect vs (if contains v xs then xs else insert v xs)

pub length-collect : (vs xs : List (Option ℤ)) → length xs ≤ length (collect vs xs)
length-collect [] xs = omega arith
length-collect (v ∷ vs) xs =
    ground
      (arith, length-collect vs (if contains v xs then xs else insert v xs), length-insert v xs)

distinct_loop-ok :
    (m : ℕ) (vs xs : List (Option ℤ))
    → length (collect vs xs) ≤ m
    → distinct_loop m vs xs ≡ ok (collect vs xs)
unfolding distinct_loop
distinct_loop-ok m [] xs h = refl
distinct_loop-ok m (v ∷ vs) xs h = elim (Bool-cases (contains v xs)) [
  | inl t ↦ ground (arith, distinct_loop-ok m vs xs)
  | inr f ↦ ground (
    arith,
    distinct_loop-ok m vs (insert v xs),
    length-collect vs (insert v xs),
    length-insert v xs,
  )
]

distinct_loop-err :
    (m : ℕ) (vs xs : List (Option ℤ))
    → length xs ≤ m
    → m < length (collect vs xs)
    → distinct_loop m vs xs ≡ err (distinct_value_limit_exceeded (saturating_add m 1) m)
unfolding distinct_loop
distinct_loop-err m [] xs c h = absurd (omega arith)
distinct_loop-err m (v ∷ vs) xs c h = elim (Bool-cases (contains v xs)) [
  | inl t ↦ ground (arith, distinct_loop-err m vs xs)
  | inr f ↦ ground (arith, distinct_loop-err m vs (insert v xs), length-insert v xs)
]

-- What a distinct operation answers, as a function of its input alone.
abbrev pub distinct_outcome :
    List (Option ℤ) → DistinctLimits → Result DistinctError (List (Option ℤ))
distinct_outcome values limits =
    if ltb limits.max_input_rows (length values)
    then err (input_limit_exceeded (length values) limits.max_input_rows)
    else if ltb limits.max_distinct_values (length (collect values []))
    then err (
        distinct_value_limit_exceeded (saturating_add limits.max_distinct_values 1)
          limits.max_distinct_values)
    else ok (collect values [])

-- A DISTINCT, which stops at the first value past its bound, answers on every input as the
-- unbounded set of the values does: an error if the input or that set is larger than its bound,
-- and the set otherwise.
pub distinct_nullable_i64-outcome :
    (values : List (Option ℤ)) (limits : DistinctLimits)
    → distinct_nullable_i64 values limits ≡ distinct_outcome values limits
unfolding distinct_nullable_i64
distinct_nullable_i64-outcome values limits = ground (
  arith,
  distinct_loop-ok limits.max_distinct_values values [],
  distinct_loop-err limits.max_distinct_values values [],
)

pub collect-IsAscending : (vs xs : List (Option ℤ)) → IsAscending xs → IsAscending (collect vs xs)
collect-IsAscending [] xs s = s
collect-IsAscending (v ∷ vs) xs s = elim (Bool-cases (contains v xs)) [
  | inl t ↦ rw t (collect-IsAscending vs xs s)
  | inr f ↦ rw f (collect-IsAscending vs (insert v xs) (insert-IsAscending v xs f s))
]

pub contains-collect :
    (w : Option ℤ) (vs xs : List (Option ℤ))
    → contains w (collect vs xs) ≡ (if contains w vs then true else contains w xs)
unfolding contains
contains-collect w [] xs = refl
contains-collect w (v ∷ vs) xs = elim (Bool-cases (contains v xs)) [
  | inl t ↦ rw (t, contains-collect w vs xs) (same t)
  | inr f ↦ rw (f, contains-collect w vs (insert v xs), contains-insert w v xs) (ground arith)
]
  where
    same :
        contains v xs ≡ true
        → (if contains w vs then true else contains w xs)
          ≡ (if contains w (v ∷ vs) then true else contains w xs)
    same t = ground (arith, eqb_option_iff w v, t)

contains-collect_nil :
    (w : Option ℤ) (vs : List (Option ℤ)) → contains w (collect vs []) ≡ contains w vs
unfolding contains
contains-collect_nil w vs = ground (arith, contains-collect w vs [])

-- An accepted DISTINCT returns NULL first and then ascending values, each once, and exactly the
-- values of the column.
pub distinct_nullable_i64-set :
    (values : List (Option ℤ)) (limits : DistinctLimits) (r : List (Option ℤ))
    → distinct_nullable_i64 values limits ≡ ok r
    → IsAscending r × ((v : Option ℤ) → contains v r ≡ contains v values)
distinct_nullable_i64-set values limits r h =
    let e : collect values [] ≡ r = ground (arith, distinct_nullable_i64-outcome values limits) in
    rw (← e) (collect-IsAscending values [] tt, λ v. contains-collect_nil v values)
