-- ===== src/Catalog/Creation.antt =====
-- src/catalog.rs: what `create` answers and leaves behind.
use rusthouse.Prelude.{
  ◌+◌, ◌≤◌, ◌≡◌, refl, ap, ◌<◌, ◌≢◌, ◌⊎◌, inl, inr, true, false, ◌&&◌, none, some, [], ◌∷◌, arith,
  leb, Member, saturating_add, Bool-cases, Option-cases, length, Result, ok, err,
}
use rusthouse.Prelude.Bytes.{Bytes, bytes_eq_iff, bytes_eq_refl, eq_ignore_ascii_case}
use rusthouse.Storage.{Int64Table, int64_schema, new_table}
use rusthouse.Statement.{CreateTableStatement}
use rusthouse.Catalog.{
  Tables, Catalog, CatalogError, get, any_ignore_ascii_case, len, create, table_already_exists,
  table_limit_exceeded,
}
use rusthouse.Catalog.Tables.{get-cons}

-- The table that a creation registers.
abbrev pub created_table : CreateTableStatement → Catalog → Int64Table
created_table statement c =
    new_table (int64_schema statement.column.name statement.column.nullable)
      c.limits.max_rows_per_table

-- A table has the name up to ASCII case.
abbrev pub IsTaken : Bytes → Tables → Type 0
IsTaken name tables =
    (key : Bytes) × (t : Int64Table) × Member (key, t) tables
    × (eq_ignore_ascii_case key name ≡ true)

any_ignore_ascii_case-IsTaken :
    (name : Bytes) (tables : Tables)
    → any_ignore_ascii_case name tables ≡ true
    → IsTaken name tables
unfolding any_ignore_ascii_case
any_ignore_ascii_case-IsTaken name [] h = cc
any_ignore_ascii_case-IsTaken name ((key, t) ∷ tables) h =
    elim (Bool-cases (eq_ignore_ascii_case key name)) [
      | inl e ↦ (key, t, inl refl, e)
      | inr f ↦
          (let (k, u, m, e) = any_ignore_ascii_case-IsTaken name tables (ground arith) in
            (k, u, inr m, e))
    ]

any_ignore_ascii_case_none :
    (name : Bytes) (tables : Tables)
    → any_ignore_ascii_case name tables ≡ false
    → ¬ (IsTaken name tables)
unfolding any_ignore_ascii_case
any_ignore_ascii_case_none name [] h (k, u, m, e) = m
any_ignore_ascii_case_none name ((key, t) ∷ tables) h (k, u, inl q, e) =
    let same : k ≡ key = ap (λ (entry : Bytes × Int64Table). entry.0) q in
    let taken : eq_ignore_ascii_case key name ≡ true = rw same at e in cc
any_ignore_ascii_case_none name ((key, t) ∷ tables) h (k, u, inr m, e) =
    any_ignore_ascii_case_none name tables (ground arith) (k, u, m, e)

-- What a creation answers and leaves behind. IF NOT EXISTS changes nothing where the name is taken
-- up to ASCII case. Otherwise a taken name is an error, and then a full catalog is one, which
-- change nothing; else the name has the empty table, every other name is as before, and there is
-- one more table.
abbrev pub Creates :
    CreateTableStatement → Catalog → Catalog × Result CatalogError (Unit {0}) → Type 0
Creates statement c (c', r) =
    let name = statement.table_name in
    ((statement.if_not_exists ≡ true) × IsTaken name c.tables × (c' ≡ c) × (r ≡ ok tt))
    ⊎ (((statement.if_not_exists ≡ false) ⊎ ¬ (IsTaken name c.tables))
        × (((t : Int64Table) × (get name c.tables ≡ some t)
              × (c' ≡ c)
              × (r ≡ err (table_already_exists name)))
            ⊎ ((get name c.tables ≡ none)
                × (c.limits.max_tables ≤ len c)
                × (c' ≡ c)
                × (r ≡ err (table_limit_exceeded (saturating_add (len c) 1) c.limits.max_tables)))
            ⊎ ((get name c.tables ≡ none)
                × (len c < c.limits.max_tables)
                × (r ≡ ok tt)
                × (get name c'.tables ≡ some (created_table statement c))
                × ((other : Bytes) → name ≢ other → get other c'.tables ≡ get other c.tables)
                × (len c' ≡ len c + 1)
                × (c'.limits ≡ c.limits))))

create-free :
    (statement : CreateTableStatement) (c : Catalog)
    → let name = statement.table_name in
      let tables = (name, created_table statement c) ∷ c.tables in
      (get name tables ≡ some (created_table statement c))
      × ((other : Bytes) → name ≢ other → get other tables ≡ get other c.tables)
create-free statement c =
    let name = statement.table_name in
    let table = created_table statement c in
    (
      rw (get-cons name name table c.tables, bytes_eq_refl name) refl,
      λ other ne. ground (arith, get-cons other name table c.tables, bytes_eq_iff name other),
    )

not_skipped :
    (statement : CreateTableStatement) (c : Catalog)
    → statement.if_not_exists && any_ignore_ascii_case statement.table_name c.tables ≡ false
    → (statement.if_not_exists ≡ false) ⊎ ¬ (IsTaken statement.table_name c.tables)
not_skipped statement c h = elim (Bool-cases statement.if_not_exists) [
  | inl t ↦ inr (any_ignore_ascii_case_none statement.table_name c.tables (ground arith))
  | inr f ↦ inl f
]

-- A creation with IF NOT EXISTS of a name that a table has up to ASCII case is accepted and
-- changes nothing. Any other is an error that changes nothing if its exact name is taken, or else
-- if the catalog is full; and otherwise it is accepted: the name now has the empty table, every
-- other name and the limits are as before, and there is one more table.
pub create-Creates :
    (statement : CreateTableStatement) (c : Catalog) → Creates statement c (create statement c)
unfolding create
create-Creates statement c =
    let name = statement.table_name in
    elim (Bool-cases (statement.if_not_exists && any_ignore_ascii_case name c.tables)) [
      | inl t ↦ rw t (
          inl
            (ground arith, any_ignore_ascii_case-IsTaken name c.tables (ground arith), refl, refl))
      | inr p ↦
          let new = not_skipped statement c p in
          elim (Option-cases (get name c.tables)) [
            | inr (u, q) ↦ rw (p, q) (inr (new, inl (u, refl, refl, refl)))
            | inl q ↦ elim (Bool-cases (leb c.limits.max_tables (length c.tables))) [
              | inl t ↦ rw (p, q, t) (inr (new, inr (inl (refl, ground arith, refl, refl))))
              | inr r ↦
                  (let (self, others) = create-free statement c in
                    rw (p, q, r)
                      (inr (
                        new,
                        inr (inr (refl, ground arith, refl, self, others, omega arith, refl)),
                      )))
            ]
          ]
    ]
