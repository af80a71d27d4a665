-- ===== src/Distinct.antt =====
-- src/distinct.rs: the bounded distinct values of a nullable column. A `BTreeSet` is the ascending
-- list of its elements, NULL first.
pub mod Set
pub mod Outcome
use rusthouse.Prelude.{
  ℕ, Bool, true, false, Option, none, some, List, [], ◌∷◌, ltb, ◌==◌, if◌then◌else◌, saturating_add,
  length, any, Result, ok, err, ◌>>=◌, ◌>>◌, reject_if,
}
use rusthouse.Prelude.Int.{ℤ, ltb_ℤ, eqb_option}

pub record DistinctLimits : Type 0 where
  pub max_input_rows : ℕ
  pub max_distinct_values : ℕ

pub data DistinctError : Type 0 where
  input_limit_exceeded : (rows max_rows : ℕ) → DistinctError
  distinct_value_limit_exceeded : (values max_values : ℕ) → DistinctError

-- The derived `<` of `Option<i64>`.
abbrev pub option_ltb : Option ℤ → Option ℤ → Bool
option_ltb none none = false
option_ltb none (some b) = true
option_ltb (some a) none = false
option_ltb (some a) (some b) = ltb_ℤ a b

-- `BTreeSet::contains`
unfoldable pub contains : Option ℤ → List (Option ℤ) → Bool
contains v xs = any (eqb_option v) xs

-- `BTreeSet::insert` of a value that is not there.
unfoldable pub insert : Option ℤ → List (Option ℤ) → List (Option ℤ)
insert v [] = v ∷ []
insert v (x ∷ xs) = if option_ltb v x then v ∷ x ∷ xs else x ∷ insert v xs

unfoldable pub distinct_loop :
    ℕ → List (Option ℤ) → List (Option ℤ) → Result DistinctError (List (Option ℤ))
distinct_loop m [] distinct = ok distinct
distinct_loop m (v ∷ vs) distinct = elim (contains v distinct) [
  | true ↦ distinct_loop m vs distinct
  | false ↦ elim (length distinct == m) [
    | true ↦ err (distinct_value_limit_exceeded (saturating_add (length distinct) 1) m)
    | false ↦ distinct_loop m vs (insert v distinct)
  ]
]

unfoldable pub distinct_nullable_i64 :
    List (Option ℤ) → DistinctLimits → Result DistinctError (List (Option ℤ))
unfolding distinct_loop
distinct_nullable_i64 values limits = do
  reject_if (ltb limits.max_input_rows (length values))
      (input_limit_exceeded (length values) limits.max_input_rows)
  distinct_loop limits.max_distinct_values values []
