-- ===== src/Catalog/Queries.antt =====
-- Queries through the catalog: reads see writes.
use rusthouse.Prelude.{
  ◌≡◌, refl, ap, ◌∙◌, ◌⊎◌, inl, inr, false, Option, none, some, List, [], ◌∷◌, ◌++◌, arith, length,
  take_all, take-min, Result, ok, err, Result-cases,
}
use rusthouse.Prelude.Int.{ℤ}
use rusthouse.Prelude.Bytes.{Bytes, bytes_eq_refl}
use mathlib.Core.List.{append-nil, append_assoc}
use rusthouse.Storage.{Int64Table, Schema, column_name}
use rusthouse.Statement.{CreateTableStatement, InsertStatement, SelectStatement}
use rusthouse.Execution.{execute_select_with_order_limits, select_unordered}
use rusthouse.Catalog.{Catalog, CatalogError, get, create, insert, select}
use rusthouse.Catalog.Creation.{IsTaken, Creates, create-Creates, created_table}
use rusthouse.Catalog.Invariant.{Inserts, insert-Inserts}

-- `SELECT column FROM table`
abbrev pub select_all : Bytes → Bytes → SelectStatement
select_all column name = record {
  column_name = column;
  table_name = name;
  predicate = none;
  order_by = none;
  limit = none;
}

select_all-values :
    (name : Bytes) (t : Int64Table) (c : Catalog)
    → get name c.tables ≡ some t
    → select (select_all (column_name t) name) c ≡ ok t.values
unfolding select execute_select_with_order_limits select_unordered
select_all-values name t c h =
    rw (h, bytes_eq_refl name, bytes_eq_refl (column_name t))
      (ap ok
        (take-min (length t.values) t.values ∙ take_all (length t.values) t.values (omega arith)))

abbrev pub insertion : Bytes → Option ℤ → InsertStatement
insertion name v = record { table_name = name; value = v }

-- The values one after the other, up to the first error.
abbrev pub insert_each :
    Bytes → List (Option ℤ) → Catalog → Catalog × Result CatalogError (Unit {0})
insert_each name [] c = (c, ok tt)
insert_each name (v ∷ vs) c =
    let (c', r) = insert (insertion name v) c in
    elim r [ ok _ ↦ insert_each name vs c' | err e ↦ (c', err e) ]

-- The named table holds `values` in a column named `column`.
abbrev pub Holds : Bytes → Bytes → List (Option ℤ) → Catalog → Type 0
Holds name column values c =
    (t : Int64Table) × (get name c.tables ≡ some t) × (t.values ≡ values) × (column_name t ≡ column)

pub Holds-select :
    (name column : Bytes) (values : List (Option ℤ)) (c : Catalog)
    → Holds name column values c
    → select (select_all column name) c ≡ ok values
Holds-select name column values c (t, h, e, n) = rw (← n, ← e) (select_all-values name t c h)

Holds-insert :
    (name column : Bytes) (values : List (Option ℤ)) (v : Option ℤ) (c : Catalog)
    (after : Catalog × Result CatalogError (Unit {0}))
    → Inserts (insertion name v) c after
    → Holds name column values c
    → after.1 ≡ ok tt
    → Holds name column (values ++ (v ∷ [])) after.0
Holds-insert name column values v c (c', err e) i held h = cc
Holds-insert name column values v c (c', ok _) (u, t', eu, et, (vals, schema, _), _, _) (t, e, q, n)
      h =
    let same : u ≡ t = cc in
    (
      t',
      et,
      vals ∙ ap (λ (x : Int64Table). x.values ++ (v ∷ [])) same ∙ ap (λ xs. xs ++ (v ∷ [])) q,
      ap (λ (s : Schema). s.column.name) schema ∙ ap column_name same ∙ n,
    )

Holds-insert_each :
    (name column : Bytes) (vs values : List (Option ℤ)) (c : Catalog)
    → Holds name column values c
    → (insert_each name vs c).1 ≡ ok tt
    → Holds name column (values ++ vs) (insert_each name vs c).0
Holds-insert_each name column [] values c held h = rw append-nil held
Holds-insert_each name column (v ∷ vs) values c held h =
    elim (Result-cases (insert (insertion name v) c).1) [
      | inl (_, e) ↦
          (let after = insert (insertion name v) c in
            let held' =
              Holds-insert name column values v c after (insert-Inserts (insertion name v) c) held
                e in
            let same : insert_each name (v ∷ vs) c ≡ insert_each name vs after.0 = ground arith in
            let h' = rw same at h in
            rw (same, ← append_assoc values (v ∷ []) vs)
              (Holds-insert_each name column vs (values ++ (v ∷ [])) after.0 held' h'))
      | inr (x, e) ↦ absurd (ground arith)
    ]

Holds-create :
    (statement : CreateTableStatement) (c : Catalog)
    (after : Catalog × Result CatalogError (Unit {0}))
    → Creates statement c after
    → (statement.if_not_exists ≡ false) ⊎ ¬ (IsTaken statement.table_name c.tables)
    → after.1 ≡ ok tt
    → Holds statement.table_name statement.column.name [] after.0
Holds-create statement c after (inl (f, taken, _, _)) new h = absurd (ground arith)
Holds-create statement c after (inr (_, inl (_, _, _, e))) new h = absurd (ground arith)
Holds-create statement c after (inr (_, inr (inl (_, _, _, e)))) new h = absurd (ground arith)
Holds-create statement c after (inr (_, inr (inr (_, _, _, e, _, _, _)))) new h =
    (created_table statement c, e, refl, refl)

-- A table that is created and filled by single insertions, all accepted, answers SELECT of its
-- column with exactly the inserted values, in their order, provided the creation is without IF
-- NOT EXISTS or no table has its name up to ASCII case.
pub select-insert_each-create :
    (statement : CreateTableStatement) (vs : List (Option ℤ)) (c : Catalog)
    → (statement.if_not_exists ≡ false) ⊎ ¬ (IsTaken statement.table_name c.tables)
    → (create statement c).1 ≡ ok tt
    → (insert_each statement.table_name vs (create statement c).0).1 ≡ ok tt
    → select
        (select_all statement.column.name statement.table_name)
        (insert_each statement.table_name vs (create statement c).0).0
      ≡ ok vs
select-insert_each-create statement vs c new created inserted =
    let name = statement.table_name in
    let c1 = (create statement c).0 in
    let held =
      Holds-create statement c (create statement c) (create-Creates statement c) new created in
    Holds-select name statement.column.name vs (insert_each name vs c1).0
      (Holds-insert_each name statement.column.name vs [] c1 held inserted)
