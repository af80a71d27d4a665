-- ===== src/Grouping.antt =====
-- src/grouping.rs: COUNT(*) for each distinct key of a nullable column. A `BTreeMap` is the list of
-- its entries in ascending order of the keys, NULL first; a count is at most the number of rows.
pub mod Counts
use rusthouse.Prelude.{
  ℕ, ◌+◌, Bool, true, false, Option, List, [], ◌∷◌, ltb, ◌==◌, if◌then◌else◌, saturating_add,
  length, any, Result, ok, err, ◌>>=◌, ◌>>◌, reject_if,
}
use rusthouse.Prelude.Int.{ℤ, eqb_option}
use rusthouse.Distinct.{option_ltb}

pub record GroupedCountLimits : Type 0 where
  pub max_input_rows : ℕ
  pub max_distinct_groups : ℕ

pub record NullableI64GroupedCount : Type 0 where
  pub key : Option ℤ
  pub count : ℕ

pub data GroupedCountError : Type 0 where
  input_limit_exceeded : (rows max_rows : ℕ) → GroupedCountError
  distinct_group_limit_exceeded : (groups max_groups : ℕ) → GroupedCountError

abbrev pub Groups : Type 0
Groups = List NullableI64GroupedCount

abbrev pub has_key : Option ℤ → Groups → Bool
has_key k gs = any (λ (g : NullableI64GroupedCount). eqb_option k g.key) gs

-- `if let Some(count) = counts.get_mut(&key) { *count += 1; }`
unfoldable pub increment : Option ℤ → Groups → Groups
increment k [] = []
increment k (g ∷ gs) =
    if eqb_option k g.key then record g { count = g.count + 1 } ∷ gs else g ∷ increment k gs

-- `counts.insert(key, 1)` of a key that is not there.
unfoldable pub insert_group : Option ℤ → Groups → Groups
insert_group k [] = record { key = k; count = 1 } ∷ []
insert_group k (g ∷ gs) =
    if option_ltb k g.key then record { key = k; count = 1 } ∷ g ∷ gs else g ∷ insert_group k gs

unfoldable pub grouped_count_loop : ℕ → List (Option ℤ) → Groups → Result GroupedCountError Groups
grouped_count_loop m [] counts = ok counts
grouped_count_loop m (k ∷ ks) counts = elim (has_key k counts) [
  | true ↦ grouped_count_loop m ks (increment k counts)
  | false ↦ elim (length counts == m) [
    | true ↦ err (distinct_group_limit_exceeded (saturating_add (length counts) 1) m)
    | false ↦ grouped_count_loop m ks (insert_group k counts)
  ]
]

unfoldable pub grouped_count_nullable_i64 :
    List (Option ℤ) → GroupedCountLimits → Result GroupedCountError Groups
unfolding grouped_count_loop
grouped_count_nullable_i64 values limits = do
  reject_if (ltb limits.max_input_rows (length values))
      (input_limit_exceeded (length values) limits.max_input_rows)
  grouped_count_loop limits.max_distinct_groups values []
