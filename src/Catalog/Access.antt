-- ===== src/Catalog/Access.antt =====
-- src/catalog.rs: the tables of a catalog by name, and what appends through `table_mut` keep.
use rusthouse.Prelude.{
  ◌≡◌, ◌∙◌, inl, inr, Bool, Option, none, some, List, arith, ◌==◌, Option-cases, length,
}
use rusthouse.Prelude.Int.{ℤ}
use rusthouse.Prelude.Bytes.{Bytes}
use rusthouse.Storage.{Int64Table, append_batch}
use rusthouse.Storage.Append.{append_batch-IsValid}
use rusthouse.Catalog.{Catalog, get, set}
use rusthouse.Catalog.Invariant.{IsValid, get-IsValid}
use rusthouse.Catalog.Loads.Outcome.{set-IsValid, append_batch-row_cap}

abbrev pub table : Bytes → Catalog → Option Int64Table
table name c = get name c.tables

abbrev pub is_empty : Catalog → Bool
is_empty c = length c.tables == 0

-- The table of the name, and the catalog that a write through the reference leaves.
unfoldable pub table_mut : Bytes → Catalog → Option (Int64Table × (Int64Table → Catalog))
table_mut name c = elim (get name c.tables) [
  | none ↦ none
  | some t ↦ some (t, λ written. record c { tables = set name written c.tables })
]

-- A batch that a caller appends through `table_mut`, where the table is there.
unfoldable pub append_through : Bytes → List (Option ℤ) → Catalog → Catalog
unfolding table_mut
append_through name vs c = elim (table_mut name c) [
  | none ↦ c
  | some (t, write) ↦ write (append_batch vs t).0
]

pub append_through-IsValid :
    (name : Bytes) (vs : List (Option ℤ)) (c : Catalog)
    → IsValid c
    → IsValid (append_through name vs c)
unfolding append_through
append_through-IsValid name vs c v = elim (Option-cases (get name c.tables)) [
  | inl absent ↦ rw (append_through, absent) v
  | inr (t, e) ↦
      (let (valid, cap) = get-IsValid _ name t c.tables v.well_formed e in
        rw (append_through, e)
          (set-IsValid name _ c v (append_batch-IsValid vs t valid)
            (append_batch-row_cap vs t ∙ cap)))
]

pub append_through_limits :
    (name : Bytes) (vs : List (Option ℤ)) (c : Catalog)
    → (append_through name vs c).limits ≡ c.limits
unfolding append_through
append_through_limits name vs c = ground arith
