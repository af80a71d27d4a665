-- ===== src/Scan.antt =====
-- src/scan.rs: bounded scans for the rows that a predicate matches.
pub mod Matching
use rusthouse.Prelude.{
  ℕ, ◌+◌, List, [], ◌++◌, ◌∷◌, Bool, true, false, not, Option, none, some, ltb, ◌==◌, length,
  saturating_add, Result, ok, err, reject_if, ◌>>◌, ◌>>=◌,
}
use rusthouse.Prelude.Int.{ℤ, is_none, is_some, ltb_ℤ, leb_ℤ, eqb_ℤ}

pub data ComparisonOperator : Type 0 where
  eq ne lt le gt ge : ComparisonOperator

-- `ComparisonOperator::matches`
abbrev pub compares : ComparisonOperator → ℤ → ℤ → Bool
compares eq l r = eqb_ℤ l r
compares ne l r = not (eqb_ℤ l r)
compares lt l r = ltb_ℤ l r
compares le l r = leb_ℤ l r
compares gt l r = ltb_ℤ r l
compares ge l r = leb_ℤ r l

pub data NullPredicate : Type 0 where
  is_null is_not_null : NullPredicate

-- `NullPredicate::matches`
abbrev pub matches_null : NullPredicate → Option ℤ → Bool
matches_null is_null v = is_none v
matches_null is_not_null v = is_some v

pub record ScanLimits : Type 0 where
  pub max_input_rows : ℕ
  pub max_result_rows : ℕ

pub data ScanError : Type 0 where
  input_limit_exceeded : (rows max_rows : ℕ) → ScanError
  result_limit_exceeded : (rows max_rows : ℕ) → ScanError

-- The loop of `scan_matching_rows` at row `i`, with the rows found so far.
unfoldable pub scan_loop :
    (Option ℤ → Bool) → ℕ → ℕ → List (Option ℤ) → List ℕ → Result ScanError (List ℕ)
scan_loop p m i [] found = ok found
scan_loop p m i (v ∷ vs) found = elim (p v) [
  | true ↦ elim (length found == m) [
    | true ↦ err (result_limit_exceeded (saturating_add (length found) 1) m)
    | false ↦ scan_loop p m (i + 1) vs (found ++ (i ∷ []))
  ]
  | false ↦ scan_loop p m (i + 1) vs found
]

unfoldable pub scan_matching_rows :
    List (Option ℤ) → ScanLimits → (Option ℤ → Bool) → Result ScanError (List ℕ)
unfolding scan_loop
scan_matching_rows values limits p = do
  reject_if (ltb limits.max_input_rows (length values))
      (input_limit_exceeded (length values) limits.max_input_rows)
  scan_loop p limits.max_result_rows 0 values []

-- `value.is_some_and(|value| operator.matches(value, comparison_value))`
abbrev pub matches_comparison : ComparisonOperator → ℤ → Option ℤ → Bool
matches_comparison op c none = false
matches_comparison op c (some v) = compares op v c

unfoldable pub scan_nullable_i64 :
    List (Option ℤ) → ComparisonOperator → ℤ → ScanLimits → Result ScanError (List ℕ)
unfolding scan_matching_rows
scan_nullable_i64 values op c limits = scan_matching_rows values limits (matches_comparison op c)

unfoldable pub scan_nullable_i64_nullness :
    List (Option ℤ) → NullPredicate → ScanLimits → Result ScanError (List ℕ)
unfolding scan_matching_rows
scan_nullable_i64_nullness values np limits = scan_matching_rows values limits (matches_null np)
