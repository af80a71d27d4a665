-- ===== src/Grouping/Counts.antt =====
-- What a grouped count returns.
use rusthouse.Prelude.{
  ℕ, ◌+◌, ◌≤◌, ◌<◌, ◌≡◌, refl, ap, ◌∙◌, inl, inr, true, false, Option, none, some, List, [], ◌∷◌,
  map, arith, ltb, if◌then◌else◌, Bool-cases, saturating_add, length, filter, length-map, Result,
  ok, err,
}
use rusthouse.Prelude.Int.{ℤ, eqb_option, eqb_option_iff}
use rusthouse.Distinct.{contains, insert, DistinctError, distinct_nullable_i64}
use rusthouse.Distinct.Set.{IsAscending}
use rusthouse.Distinct.Outcome.{collect, collect-IsAscending, distinct_nullable_i64-outcome}
use rusthouse.Grouping.{
  GroupedCountLimits, NullableI64GroupedCount, GroupedCountError, input_limit_exceeded,
  distinct_group_limit_exceeded, Groups, has_key, increment, insert_group, grouped_count_loop,
  grouped_count_nullable_i64,
}

abbrev pub group_key : NullableI64GroupedCount → Option ℤ
group_key g = g.key

-- The keys of the groups.
abbrev pub keys : Groups → List (Option ℤ)
keys gs = map group_key gs

-- The count of a key, 0 if it has no group.
abbrev pub count_in : Option ℤ → Groups → ℕ
count_in k [] = 0
count_in k (g ∷ gs) = if eqb_option k g.key then g.count else count_in k gs

-- All counts together.
abbrev pub total_count : Groups → ℕ
total_count [] = 0
total_count (g ∷ gs) = g.count + total_count gs

-- The rows that hold a key.
abbrev pub occurrences : Option ℤ → List (Option ℤ) → ℕ
occurrences k vs = length (filter (eqb_option k) vs)

has_key-contains : (k : Option ℤ) (gs : Groups) → has_key k gs ≡ contains k (keys gs)
unfolding contains
has_key-contains k [] = refl
has_key-contains k (g ∷ gs) = ground (arith, has_key-contains k gs)

keys-increment : (k : Option ℤ) (gs : Groups) → keys (increment k gs) ≡ keys gs
unfolding increment
keys-increment k [] = refl
keys-increment k (g ∷ gs) = ground (arith, keys-increment k gs)

keys-insert_group : (k : Option ℤ) (gs : Groups) → keys (insert_group k gs) ≡ insert k (keys gs)
unfolding insert_group insert
keys-insert_group k [] = refl
keys-insert_group k (g ∷ gs) = ground (arith, keys-insert_group k gs)

count_in-increment :
    (j k : Option ℤ) (gs : Groups)
    → has_key k gs ≡ true
    → count_in j (increment k gs) ≡ (if eqb_option j k then 1 else 0) + count_in j gs
unfolding increment
count_in-increment j k [] h = cc
count_in-increment j k (g ∷ gs) h = ground (
  arith,
  count_in-increment j k gs,
  eqb_option_iff j k,
  eqb_option_iff k g.key,
  eqb_option_iff j g.key,
)

count_in-absent : (k : Option ℤ) (gs : Groups) → has_key k gs ≡ false → count_in k gs ≡ 0
count_in-absent k [] h = refl
count_in-absent k (g ∷ gs) h = ground (arith, count_in-absent k gs)

count_in-insert_group :
    (j k : Option ℤ) (gs : Groups)
    → has_key k gs ≡ false
    → count_in j (insert_group k gs) ≡ (if eqb_option j k then 1 else 0) + count_in j gs
unfolding insert_group
count_in-insert_group j k [] h = ground arith
count_in-insert_group j k (g ∷ gs) h = ground (
  arith,
  count_in-insert_group j k gs,
  count_in-absent k gs,
  eqb_option_iff j k,
  eqb_option_iff k g.key,
  eqb_option_iff j g.key,
)

total_count-increment :
    (k : Option ℤ) (gs : Groups)
    → has_key k gs ≡ true
    → total_count (increment k gs) ≡ total_count gs + 1
unfolding increment
total_count-increment k [] h = cc
total_count-increment k (g ∷ gs) h = ground (arith, total_count-increment k gs)

total_count-insert_group :
    (k : Option ℤ) (gs : Groups) → total_count (insert_group k gs) ≡ total_count gs + 1
unfolding insert_group
total_count-insert_group k [] = omega arith
total_count-insert_group k (g ∷ gs) = ground (arith, total_count-insert_group k gs)

-- One more row of a key.
abbrev bump : Option ℤ → Groups → Groups
bump k gs = if has_key k gs then increment k gs else insert_group k gs

-- All rows counted, with no bound.
abbrev pub tally : List (Option ℤ) → Groups → Groups
tally [] gs = gs
tally (k ∷ ks) gs = tally ks (bump k gs)

keys-tally : (ks : List (Option ℤ)) (gs : Groups) → keys (tally ks gs) ≡ collect ks (keys gs)
keys-tally [] gs = refl
keys-tally (k ∷ ks) gs = keys-tally ks (bump k gs) ∙ ap (collect ks) one
  where
    one : keys (bump k gs) ≡ (if contains k (keys gs) then keys gs else insert k (keys gs))
    one = ground (arith, has_key-contains k gs, keys-increment k gs, keys-insert_group k gs)

count_in-tally :
    (j : Option ℤ) (ks : List (Option ℤ)) (gs : Groups)
    → count_in j (tally ks gs) ≡ occurrences j ks + count_in j gs
count_in-tally j [] gs = omega arith
count_in-tally j (k ∷ ks) gs = ground (
  arith,
  count_in-tally j ks (bump k gs),
  count_in-increment j k gs,
  count_in-insert_group j k gs,
)

total_count-tally :
    (ks : List (Option ℤ)) (gs : Groups) → total_count (tally ks gs) ≡ length ks + total_count gs
total_count-tally [] gs = omega arith
total_count-tally (k ∷ ks) gs = ground (
  arith,
  total_count-tally ks (bump k gs),
  total_count-increment k gs,
  total_count-insert_group k gs,
)

length-increment : (k : Option ℤ) (gs : Groups) → length (increment k gs) ≡ length gs
unfolding increment
length-increment k [] = refl
length-increment k (g ∷ gs) = ground (arith, length-increment k gs)

length-insert_group : (k : Option ℤ) (gs : Groups) → length (insert_group k gs) ≡ length gs + 1
unfolding insert_group
length-insert_group k [] = omega arith
length-insert_group k (g ∷ gs) = ground (arith, length-insert_group k gs)

length-tally : (ks : List (Option ℤ)) (gs : Groups) → length gs ≤ length (tally ks gs)
length-tally [] gs = omega arith
length-tally (k ∷ ks) gs =
    ground (arith, length-tally ks (bump k gs), length-increment k gs, length-insert_group k gs)

grouped_count_loop-ok :
    (m : ℕ) (ks : List (Option ℤ)) (gs : Groups)
    → length (tally ks gs) ≤ m
    → grouped_count_loop m ks gs ≡ ok (tally ks gs)
unfolding grouped_count_loop
grouped_count_loop-ok m [] gs h = refl
grouped_count_loop-ok m (k ∷ ks) gs h = elim (Bool-cases (has_key k gs)) [
  | inl t ↦ ground (arith, grouped_count_loop-ok m ks (increment k gs))
  | inr f ↦ ground (
    arith,
    grouped_count_loop-ok m ks (insert_group k gs),
    length-tally ks (insert_group k gs),
    length-insert_group k gs,
  )
]

grouped_count_loop-err :
    (m : ℕ) (ks : List (Option ℤ)) (gs : Groups)
    → length gs ≤ m
    → m < length (tally ks gs)
    → grouped_count_loop m ks gs ≡ err (distinct_group_limit_exceeded (saturating_add m 1) m)
unfolding grouped_count_loop
grouped_count_loop-err m [] gs c h = absurd (omega arith)
grouped_count_loop-err m (k ∷ ks) gs c h = elim (Bool-cases (has_key k gs)) [
  | inl t ↦ ground (arith, grouped_count_loop-err m ks (increment k gs), length-increment k gs)
  | inr f ↦
      ground (arith, grouped_count_loop-err m ks (insert_group k gs), length-insert_group k gs)
]

-- What a grouped count answers, as a function of its input alone.
abbrev pub grouped_outcome : List (Option ℤ) → GroupedCountLimits → Result GroupedCountError Groups
grouped_outcome values limits =
    if ltb limits.max_input_rows (length values)
    then err (input_limit_exceeded (length values) limits.max_input_rows)
    else if ltb limits.max_distinct_groups (length (tally values []))
    then err (
        distinct_group_limit_exceeded (saturating_add limits.max_distinct_groups 1)
          limits.max_distinct_groups)
    else ok (tally values [])

pub grouped_count_nullable_i64-outcome :
    (values : List (Option ℤ)) (limits : GroupedCountLimits)
    → grouped_count_nullable_i64 values limits ≡ grouped_outcome values limits
unfolding grouped_count_nullable_i64
grouped_count_nullable_i64-outcome values limits = ground (
  arith,
  grouped_count_loop-ok limits.max_distinct_groups values [],
  grouped_count_loop-err limits.max_distinct_groups values [],
)

-- An accepted grouped count has the groups in ascending order of their keys, NULL first, the
-- count of every value is the number of the rows that hold it, and all counts together are the
-- rows.
pub grouped_count_nullable_i64-counts :
    (values : List (Option ℤ)) (limits : GroupedCountLimits) (gs : Groups)
    → grouped_count_nullable_i64 values limits ≡ ok gs
    → IsAscending (keys gs)
      × ((k : Option ℤ) → count_in k gs ≡ occurrences k values)
      × (total_count gs ≡ length values)
grouped_count_nullable_i64-counts values limits gs h =
    let e : tally values [] ≡ gs =
      ground (arith, grouped_count_nullable_i64-outcome values limits) in
    rw (← e) (
      rw (keys-tally values []) (collect-IsAscending values [] tt),
      λ k. omega (arith, count_in-tally k values []),
      omega (arith, total_count-tally values []),
    )

-- The answer of an accepted operation.
abbrev pub grouped_keys : Result GroupedCountError Groups → Option (List (Option ℤ))
grouped_keys (ok gs) = some (keys gs)
grouped_keys (err e) = none

abbrev pub distinct_values : Result DistinctError (List (Option ℤ)) → Option (List (Option ℤ))
distinct_values (ok vs) = some vs
distinct_values (err e) = none

-- GROUP BY agrees with DISTINCT: under the same bounds the keys of the groups are the distinct
-- values, and one of the two is accepted exactly if the other is.
pub grouped-distinct :
    (values : List (Option ℤ)) (max_input_rows max_values : ℕ)
    → grouped_keys (
        grouped_count_nullable_i64 values
          (record { max_input_rows = max_input_rows; max_distinct_groups = max_values }))
      ≡ distinct_values (
          distinct_nullable_i64 values
            (record { max_input_rows = max_input_rows; max_distinct_values = max_values }))
grouped-distinct values rows m =
    rw (grouped_count_nullable_i64-outcome values _, distinct_nullable_i64-outcome values _)
      (ground (arith, keys-tally values [], length-map group_key (tally values [])))
