-- ===== src/Storage/Append.antt =====
-- What `append` and `append_batch` promise: the invariant, atomicity, when they succeed, and
-- that a batch is the same as its values one by one.
use rusthouse.Prelude.{
  ℕ, ◌+◌, ◌≤◌, ◌≡◌, ◌↔◌, ◌⊎◌, refl, List, [], ◌∷◌, ◌++◌, true, false, Option, arith, length, any,
  length-append, any-append, Result, ok, err, Result-cases, inl, inr,
}
use rusthouse.Prelude.Int.{ℤ, is_none}
use rusthouse.Storage.{
  Schema, Int64Table, InsertError, new_table, is_nullable, append, append_batch,
}
use mathlib.Core.List.{append-nil, append_assoc}

-- The cap bounds the rows, and a column that is not nullable holds no NULL.
pub record IsValid (t : Int64Table) : Type 0 where
  pub capped : length t.values ≤ t.row_cap
  pub nulls : (is_nullable t ≡ true) ⊎ (any is_none t.values ≡ false)

pub new_table-IsValid : (s : Schema) (cap : ℕ) → IsValid (new_table s cap)
new_table-IsValid s cap = ground arith

-- What a batch leaves behind, by how it ended.
abbrev pub Appends :
    Int64Table → List (Option ℤ) → Int64Table × Result InsertError (Unit {0}) → Type 0
Appends t vs (t', ok _) =
    (t'.values ≡ t.values ++ vs) × (t'.schema ≡ t.schema) × (t'.row_cap ≡ t.row_cap)
Appends t vs (t', err _) = t' ≡ t

-- A batch is appended whole, or rejected with the table unchanged; schema and cap never change.
pub append_batch_atomic : (vs : List (Option ℤ)) (t : Int64Table) → Appends t vs (append_batch vs t)
unfolding append_batch
append_batch_atomic vs t = ground arith

pub append_batch-ok_iff :
    (vs : List (Option ℤ)) (t : Int64Table)
    → length t.values ≤ t.row_cap
    → ((append_batch vs t).1 ≡ ok tt) ↔ (
        (length t.values + length vs ≤ t.row_cap)
        × ((is_nullable t ≡ true) ⊎ (any is_none vs ≡ false)))
unfolding append_batch
append_batch-ok_iff vs t h = ground arith

-- Every batch, accepted or not, leaves a table within its cap, with no NULL in a column that is
-- not nullable, if the table was so before.
pub append_batch-IsValid :
    (vs : List (Option ℤ)) (t : Int64Table) → IsValid t → IsValid (append_batch vs t).0
unfolding append_batch
append_batch-IsValid vs t h =
    ground (arith, length-append t.values vs, any-append is_none t.values vs)

pub append_batch_lem :
    (vs : List (Option ℤ)) (t : Int64Table)
    → (append_batch vs t).1 ≡ ok tt
    → append_batch vs t ≡ (record t { values = t.values ++ vs }, ok tt)
unfolding append_batch
append_batch_lem vs t h = ground arith

append_batch_error :
    (vs : List (Option ℤ)) (t : Int64Table) (e : InsertError)
    → (append_batch vs t).1 ≡ err e
    → append_batch vs t ≡ (t, err e)
unfolding append_batch
append_batch_error vs t e h = ground arith

-- The values one by one, up to the first error.
abbrev pub append_each : List (Option ℤ) → Int64Table → Int64Table × Result InsertError (Unit {0})
append_each [] t = (t, ok tt)
append_each (v ∷ vs) t =
    let (t', r) = append v t in elim r [ ok _ ↦ append_each vs t' | err e ↦ (t', err e) ]

-- On a table within its cap an accepted batch is the same as appending its values one by one.
pub append_each-eq_append_batch :
    (vs : List (Option ℤ)) (t : Int64Table)
    → length t.values ≤ t.row_cap
    → (append_batch vs t).1 ≡ ok tt
    → append_each vs t ≡ append_batch vs t
unfolding append append_batch
append_each-eq_append_batch [] t c h = ground (arith, append-nil t.values)
append_each-eq_append_batch (v ∷ vs) t c h =
    let t' : Int64Table = record t { values = t.values ++ (v ∷ []) } in
    ground (
      arith,
      append_each-eq_append_batch vs t',
      length-append t.values (v ∷ []),
      append_assoc t.values (v ∷ []) vs,
    )

-- A batch fits under the cap, and has no NULL for a column that is not nullable.
abbrev pub Fits : Int64Table → List (Option ℤ) → Type 0
Fits t vs =
    (length t.values + length vs ≤ t.row_cap) × ((is_nullable t ≡ true) ⊎ (any is_none vs ≡ false))

append_each-Fits :
    (vs : List (Option ℤ)) (t : Int64Table)
    → length t.values ≤ t.row_cap
    → (append_each vs t).1 ≡ ok tt
    → Fits t vs
unfolding append
append_each-Fits [] t c h = ground arith
append_each-Fits (v ∷ vs) t c h =
    let t' : Int64Table = record t { values = t.values ++ (v ∷ []) } in
    ground (arith, append_each-Fits vs t', length-append t.values (v ∷ []))

-- On a table within its cap, either the batch fits under the cap and has no NULL for a column
-- that is not nullable, it is appended whole with schema and cap unchanged, and appending its
-- values one by one leaves the same; or it does not fit, the batch is an error that leaves the
-- table unchanged, and appending its values one by one ends in an error.
pub append_batch-append_each :
    (vs : List (Option ℤ)) (t : Int64Table)
    → length t.values ≤ t.row_cap
    → (Fits t vs
        × (append_batch vs t ≡ (record t { values = t.values ++ vs }, ok tt))
        × (append_each vs t ≡ append_batch vs t))
      ⊎ ((¬ (Fits t vs))
          × ((e : InsertError) × (append_batch vs t ≡ (t, err e)))
          × ((e : InsertError) × ((append_each vs t).1 ≡ err e)))
append_batch-append_each vs t c = elim (Result-cases (append_batch vs t).1) [
  | inl (_, e) ↦ inl (
    (append_batch-ok_iff vs t c).0 e,
    append_batch_lem vs t e,
    append_each-eq_append_batch vs t c e,
  )
  | inr (x, e) ↦
      let unfit : ¬ (Fits t vs) =
        λ fits. (let accepted = (append_batch-ok_iff vs t c).1 fits in cc) in
      inr (
        unfit,
        (x, append_batch_error vs t x e),
        elim (Result-cases (append_each vs t).1) [
          | inl (_, q) ↦ absurd (unfit (append_each-Fits vs t c q))
          | inr (y, q) ↦ (y, q)
        ],
      )
]

-- A single value is the batch of one.
pub append-eq_append_batch : (v : Option ℤ) (t : Int64Table) → append v t ≡ append_batch (v ∷ []) t
unfolding append append_batch
append-eq_append_batch v t = refl

pub append_atomic : (v : Option ℤ) (t : Int64Table) → Appends t (v ∷ []) (append v t)
append_atomic v t = rw (append-eq_append_batch v t) (append_batch_atomic (v ∷ []) t)

pub append-IsValid : (v : Option ℤ) (t : Int64Table) → IsValid t → IsValid (append v t).0
append-IsValid v t h = rw (append-eq_append_batch v t) (append_batch-IsValid (v ∷ []) t h)
