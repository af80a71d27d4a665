-- ===== src/Aggregate/Selection.antt =====
-- `validate_selection` and `validate_aggregate_input` decide exactly the documented conditions.
use rusthouse.Prelude.{ℕ, ◌+◌, ◌≤◌, ◌≡◌, refl, ◌↔◌, Option, none, some, List, [], ◌∷◌, arith, ok}
use rusthouse.Scan.Matching.{IsSelection}
use rusthouse.Aggregate.{
  RowSelection, all_rows, indices, row_count, AggregateLimits, validate_rows, validate_selection,
  validate_aggregate_input, validate_indices,
}

-- The least row that may follow.
abbrev next_row : Option ℕ → ℕ
next_row none = 0
next_row (some previous) = previous + 1

validate_rows-ok_iff :
    (position : ℕ) (previous : Option ℕ) (rows : List ℕ) (n : ℕ)
    → (validate_rows position previous rows n ≡ ok tt) ↔ IsSelection (next_row previous) n rows
unfolding validate_rows
validate_rows-ok_iff position previous [] n = (λ e. tt, λ s. refl)
validate_rows-ok_iff position none (r ∷ rows) n =
    ground (arith, validate_rows-ok_iff (position + 1) (some r) rows n)
validate_rows-ok_iff position (some p) (r ∷ rows) n =
    ground (arith, validate_rows-ok_iff (position + 1) (some r) rows n)

-- A list of row indices is accepted exactly when it is strictly increasing and in bounds.
pub validate_selection-ok_iff :
    (rows : List ℕ) (n : ℕ) → (validate_selection rows n ≡ ok tt) ↔ IsSelection 0 n rows
unfolding validate_selection
validate_selection-ok_iff rows n = validate_rows-ok_iff 0 none rows n

-- A selection of rows of a column of `n` rows is well formed.
abbrev pub IsValidSelection : RowSelection → ℕ → Type 0
IsValidSelection all_rows n = Unit
IsValidSelection (indices rows) n = IsSelection 0 n rows

validate_indices-ok_iff :
    (s : RowSelection) (n : ℕ) → (validate_indices s n ≡ ok tt) ↔ IsValidSelection s n
unfolding validate_indices
validate_indices-ok_iff all_rows n = (λ e. tt, λ t. refl)
validate_indices-ok_iff (indices rows) n = validate_selection-ok_iff rows n

-- The input of an aggregate passes validation exactly when both bounds hold and the selection is
-- strictly increasing and in bounds, and the answer is then the number of selected rows.
pub validate_aggregate_input-ok_iff :
    (n : ℕ) (s : RowSelection) (limits : AggregateLimits) (k : ℕ)
    → (validate_aggregate_input n s limits ≡ ok k) ↔ (
        (n ≤ limits.max_input_rows)
        × (row_count s n ≤ limits.max_selected_rows)
        × IsValidSelection s n
        × (k ≡ row_count s n))
unfolding validate_aggregate_input
validate_aggregate_input-ok_iff n s limits k = ground (arith, validate_indices-ok_iff s n)
