-- ===== src/Catalog/Invariant.antt =====
-- The invariant of the catalog, and what `insert` leaves behind.
use rusthouse.Prelude.{
  ℕ, ◌≤◌, ◌≡◌, refl, ap, ◌∙◌, ◌≢◌, inl, inr, Option, none, some, [], ◌∷◌, arith, Bool-cases,
  Option-cases, length, Result, ok, err, map_err,
}
use rusthouse.Prelude.Int.{ℤ}
use rusthouse.Prelude.Bytes.{Bytes, bytes_eq, bytes_eq_refl}
use rusthouse.Storage.{Int64Table, InsertError, append}
use rusthouse.Storage.Append.{
  IsValid as TableIsValid, Appends, append_atomic, append-IsValid, new_table-IsValid,
}
use rusthouse.Statement.{CreateTableStatement, InsertStatement}
use rusthouse.Execution.{execute_insert, insert_error, InsertExecutionError}
use rusthouse.Catalog.{Tables, Catalog, CatalogError, get, set, create, insert, insert_failed}
use rusthouse.Catalog.Creation.{created_table}
use rusthouse.Catalog.Tables.{get-set_self, get-set_ne, get-set-none, length-set, set-get}

-- Every table is well formed, has the catalog's row cap, and has a name of its own.
abbrev pub AllTables : ℕ → Tables → Type 0
AllTables cap [] = Unit
AllTables cap ((key, t) ∷ tables) =
    TableIsValid t × (t.row_cap ≡ cap) × (get key tables ≡ none) × AllTables cap tables

pub record IsValid (c : Catalog) : Type 0 where
  pub bounded : length c.tables ≤ c.limits.max_tables
  pub well_formed : AllTables c.limits.max_rows_per_table c.tables

pub get-IsValid :
    (cap : ℕ) (name : Bytes) (t : Int64Table) (tables : Tables)
    → AllTables cap tables
    → get name tables ≡ some t
    → TableIsValid t × (t.row_cap ≡ cap)
unfolding get
get-IsValid cap name t [] a h = cc
get-IsValid cap name t ((key, u) ∷ tables) a h = elim (Bool-cases (bytes_eq key name)) [
  | inl e ↦ (let q : u ≡ t = ground arith in rw (← q) (a.0, a.1))
  | inr f ↦ get-IsValid cap name t tables a.3 (ground arith)
]

pub set-AllTables :
    (cap : ℕ) (name : Bytes) (t : Int64Table) (tables : Tables)
    → AllTables cap tables
    → TableIsValid t
    → t.row_cap ≡ cap
    → AllTables cap (set name t tables)
unfolding set
set-AllTables cap name t [] a v e = tt
set-AllTables cap name t ((key, u) ∷ tables) a v e = elim (Bool-cases (bytes_eq key name)) [
  | inl q ↦ rw q (v, e, a.2, a.3)
  | inr f ↦
      rw f (a.0, a.1, get-set-none name key t tables a.2, set-AllTables cap name t tables a.3 v e)
]

-- A creation keeps the invariant, whether it is accepted or not.
pub create-IsValid :
    (statement : CreateTableStatement) (c : Catalog) → IsValid c → IsValid (create statement c).0
unfolding create
create-IsValid statement c v =
    ground (arith, new_table-IsValid (created_table statement c).schema c.limits.max_rows_per_table)

-- What an insertion leaves behind: after an error nothing has changed; otherwise the value is the
-- last one of the named table, whose schema and cap are as before, and every other name is as before.
abbrev pub Inserts : InsertStatement → Catalog → Catalog × Result CatalogError (Unit {0}) → Type 0
Inserts statement c (c', err e) = c' ≡ c
Inserts statement c (c', ok _) =
    (t : Int64Table) × (t' : Int64Table) × (get statement.table_name c.tables ≡ some t)
    × (get statement.table_name c'.tables ≡ some t')
    × Appends t (statement.value ∷ []) (t', ok tt)
    × ((other : Bytes) → statement.table_name ≢ other → get other c'.tables ≡ get other c.tables)
    × (c'.limits ≡ c.limits)

insert_into : InsertStatement → Int64Table → Catalog → Catalog × Result CatalogError (Unit {0})
insert_into statement t c =
    let (t', result) = append statement.value t in
    (
      record c { tables = set statement.table_name t' c.tables },
      map_err insert_failed (map_err insert_error result),
    )

insert_lem :
    (statement : InsertStatement) (t : Int64Table) (c : Catalog)
    → get statement.table_name c.tables ≡ some t
    → insert statement c ≡ insert_into statement t c
unfolding insert execute_insert insert_into
insert_lem statement t c h = ground (arith, bytes_eq_refl statement.table_name)

insert_absent :
    (statement : InsertStatement) (c : Catalog)
    → get statement.table_name c.tables ≡ none
    → insert statement c
      ≡ (c, err (insert_failed (InsertExecutionError.unknown_table statement.table_name)))
unfolding insert
insert_absent statement c h = ground arith

insert_into-Inserts :
    (statement : InsertStatement) (t : Int64Table) (c : Catalog)
    → get statement.table_name c.tables ≡ some t
    → (t' : Int64Table) (r : Result InsertError (Unit {0}))
    → Appends t (statement.value ∷ []) (t', r)
    → Inserts statement c (
      record c { tables = set statement.table_name t' c.tables },
      map_err insert_failed (map_err insert_error r),
    )
insert_into-Inserts statement t c h t' (ok _) a = (
  t,
  t',
  h,
  get-set_self statement.table_name t' t c.tables h,
  a,
  λ other ne. get-set_ne statement.table_name other t' c.tables ne,
  refl,
)
insert_into-Inserts statement t c h t' (err e) a =
    rw a
      (ap (λ (ts : Tables). record c { tables = ts }) (set-get statement.table_name t c.tables h))

-- An insertion changes nothing after an error; otherwise the value is the last one of the named
-- table, whose schema and cap are as before, and every other name is as before.
pub insert-Inserts :
    (statement : InsertStatement) (c : Catalog) → Inserts statement c (insert statement c)
insert-Inserts statement c = elim (Option-cases (get statement.table_name c.tables)) [
  | inl absent ↦ rw (insert_absent statement c absent) refl
  | inr (t, e) ↦ rw (insert_lem statement t c e) (
      unfold insert_into in
      insert_into-Inserts statement t c e (append statement.value t).0 (append statement.value t).1
        (append_atomic statement.value t))
]

append-row_cap : (v : Option ℤ) (t : Int64Table) → (append v t).0.row_cap ≡ t.row_cap
unfolding append
append-row_cap v t = ground arith

insert_into-IsValid :
    (statement : InsertStatement) (t : Int64Table) (c : Catalog)
    → IsValid c
    → TableIsValid t
    → t.row_cap ≡ c.limits.max_rows_per_table
    → IsValid (insert_into statement t c).0
unfolding insert_into
insert_into-IsValid statement t c v valid cap =
    let t' = (append statement.value t).0 in
    record {
      bounded = rw (length-set statement.table_name t' c.tables) v.bounded;
      well_formed =
          set-AllTables c.limits.max_rows_per_table statement.table_name t' c.tables v.well_formed
            (append-IsValid statement.value t valid) (append-row_cap statement.value t ∙ cap);
    }

-- An insertion keeps the invariant, whether it is accepted or not.
pub insert-IsValid :
    (statement : InsertStatement) (c : Catalog) → IsValid c → IsValid (insert statement c).0
insert-IsValid statement c v = elim (Option-cases (get statement.table_name c.tables)) [
  | inl absent ↦ rw (insert_absent statement c absent) v
  | inr (t, e) ↦
      (let (valid, cap) = get-IsValid _ statement.table_name t c.tables v.well_formed e in
        rw (insert_lem statement t c e) (insert_into-IsValid statement t c v valid cap))
]
