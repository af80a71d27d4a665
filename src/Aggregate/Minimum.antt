-- ===== src/Aggregate/Minimum.antt =====
-- What MIN computes.
use rusthouse.Prelude.{
  ◌≡◌, refl, ap, ◌⊎◌, inl, inr, Option, none, some, List, [], ◌∷◌, arith, Bool-cases, length,
  filter, Member, ok, first_ok,
}
use rusthouse.Prelude.Int.{ℤ, ◌≤ℤ◌, ltb_ℤ, is_some}
use rusthouse.Aggregate.{
  RowSelection, AggregateLimits, selected_values, min_values, min_nullable_i64,
  validate_aggregate_input,
}

-- Every value that is not NULL is at least `m`.
abbrev pub IsLowerBound : ℤ → List (Option ℤ) → Type 0
IsLowerBound m [] = Unit
IsLowerBound m (none ∷ vs) = IsLowerBound m vs
IsLowerBound m (some v ∷ vs) = (m ≤ℤ v) × IsLowerBound m vs

IsLowerBound-le : (m n : ℤ) (vs : List (Option ℤ)) → m ≤ℤ n → IsLowerBound n vs → IsLowerBound m vs
IsLowerBound-le m n [] h b = tt
IsLowerBound-le m n (none ∷ vs) h b = IsLowerBound-le m n vs h b
IsLowerBound-le m n (some v ∷ vs) h b = (omega arith, IsLowerBound-le m n vs h b.1)

-- From a least value `m` so far, the loop returns the least of `m` and the rest.
min_values-some :
    (m : ℤ) (vs : List (Option ℤ))
    → (r : ℤ) × (min_values (some m) vs ≡ some r)
      × (r ≤ℤ m)
      × IsLowerBound r vs
      × ((r ≡ m) ⊎ Member (some r) vs)
unfolding min_values
min_values-some m [] = (m, refl, omega arith, tt, inl refl)
min_values-some m (none ∷ vs) =
    let (r, e, le, b, w) = min_values-some m vs in
    (r, e, le, b, elim w [ inl x ↦ inl x | inr x ↦ inr (inr x) ])
min_values-some m (some v ∷ vs) = elim (Bool-cases (ltb_ℤ v m)) [
  | inl t ↦
      (let (r, e, le, b, w) = min_values-some v vs in
        rw t (
          r,
          e,
          ground arith,
          (le, b),
          elim w [ inl x ↦ inr (inl (ap some x)) | inr x ↦ inr (inr x) ],
        ))
  | inr f ↦
      (let (r, e, le, b, w) = min_values-some m vs in
        rw f (r, e, le, (ground arith, b), elim w [ inl x ↦ inl x | inr x ↦ inr (inr x) ]))
]

-- What MIN answers: NULL if every value is NULL, and otherwise a value of the column that no
-- other value is below.
abbrev pub IsMinimum : List (Option ℤ) → Option ℤ → Type 0
IsMinimum vs none = filter is_some vs ≡ []
IsMinimum vs (some m) = Member (some m) vs × IsLowerBound m vs

min_values-IsMinimum : (vs : List (Option ℤ)) → IsMinimum vs (min_values none vs)
unfolding min_values
min_values-IsMinimum [] = refl
min_values-IsMinimum (none ∷ vs) = skip (min_values none vs) (min_values-IsMinimum vs)
  where
    skip : (r : Option ℤ) → IsMinimum vs r → IsMinimum (none ∷ vs) r
    skip none h = h
    skip (some m) (w, b) = (inr w, b)
min_values-IsMinimum (some v ∷ vs) =
    let (r, e, le, b, w) = min_values-some v vs in
    rw e (elim w [ inl x ↦ inl (ap some x) | inr x ↦ inr x ], (le, b))

-- A MIN that succeeds is one of the selected values that no other selected value is below, and
-- NULL only if every selected value is NULL.
pub min_nullable_i64-IsMinimum :
    (values : List (Option ℤ)) (s : RowSelection) (limits : AggregateLimits) (r : Option ℤ)
    → min_nullable_i64 values s limits ≡ ok r
    → IsMinimum (selected_values values s) r
unfolding min_nullable_i64
min_nullable_i64-IsMinimum values s limits r h =
    let (k, e, d) = first_ok (validate_aggregate_input (length values) s limits) _ h in
    let q : min_values none (selected_values values s) ≡ r = cc in
    rw (← q) (min_values-IsMinimum (selected_values values s))
