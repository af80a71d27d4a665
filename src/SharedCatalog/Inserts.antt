-- ===== src/SharedCatalog/Inserts.antt =====
-- src/shared_catalog.rs: the insertions of any number of clients into a shared catalog, in the order
-- in which they take the lock. None is lost, and none is applied twice.
use rusthouse.Prelude.{
  ◌≡◌, refl, sym, ap, ◌∙◌, ◌≢◌, inl, inr, false, Option, some, List, [], ◌∷◌, ◌++◌, arith,
  if◌then◌else◌, Bool-cases, Result, ok, err, map_err, Result-cases,
}
use rusthouse.Prelude.Int.{ℤ}
use rusthouse.Prelude.Bytes.{Bytes, bytes_eq, bytes_eq_iff}
use mathlib.Core.List.{append-nil, append_assoc}
use mathlib.Core.List.{append-nil, append_assoc}
use rusthouse.Storage.{Int64Table}
use rusthouse.Statement.{InsertStatement}
use rusthouse.Parser.{ParseLimits, ParseError}
use rusthouse.Parser.Sql.{parse_insert}
use rusthouse.Catalog.{Tables, Catalog, CatalogError, get, insert}
use rusthouse.Catalog.Invariant.{Inserts, insert-Inserts}
use rusthouse.Catalog.Text
use rusthouse.SharedCatalog.{SharedCatalog, catalog_failed, execute_insert}
use rusthouse.SharedCatalog.Clients.{write_free}

-- The state after the texts of insertions, one after another.
abbrev pub insert_texts : ParseLimits → List Bytes → SharedCatalog → SharedCatalog
insert_texts limits [] s = s
insert_texts limits (input ∷ inputs) s =
    insert_texts limits inputs (execute_insert input limits s).0

-- The value that one request puts into a table: none if it is rejected or names another table.
abbrev pub put_value :
    {E E' : Type 0} → Bytes → Result E InsertStatement → Result E' (Unit {0}) → List (Option ℤ)
put_value name (err e) answer = []
put_value name (ok st) (err e) = []
put_value name (ok st) (ok _) = if bytes_eq st.table_name name then st.value ∷ [] else []

-- The values that accepted requests put into a table, in their order.
abbrev pub accepted_values : Bytes → ParseLimits → List Bytes → SharedCatalog → List (Option ℤ)
accepted_values name limits [] s = []
accepted_values name limits (input ∷ inputs) s =
    let (s', answer) = execute_insert input limits s in
    put_value name (parse_insert input limits) answer ++ accepted_values name limits inputs s'

-- The table of a name has these values at the end of what it had.
pub record Extends (name : Bytes) (t : Int64Table) (vs : List (Option ℤ)) (after : Tables)
    : Type 0 where
  pub table : Int64Table
  pub found : get name after ≡ some table
  pub values : table.values ≡ t.values ++ vs
  pub schema : table.schema ≡ t.schema
  pub row_cap : table.row_cap ≡ t.row_cap

unchanged :
    (name : Bytes) (t : Int64Table) (tables : Tables)
    → get name tables ≡ some t
    → Extends name t [] tables
unchanged name t tables h = record {
  table = t;
  found = h;
  values = sym (append-nil t.values);
  schema = refl;
  row_cap = refl;
}

insert-Extends :
    (name : Bytes) (t : Int64Table) (st : InsertStatement) (c : Catalog)
    (after : Catalog × Result CatalogError (Unit {0}))
    → get name c.tables ≡ some t
    → Inserts st c after
    → Extends name t (put_value {E = ParseError} name (ok st) after.1) after.0.tables
insert-Extends name t st c (c', err e) h k = rw k (unchanged name t c.tables h)
insert-Extends name t st c (c', ok _) h (u, u', old, new, (values, schema, cap), others, limits) =
    elim (Bool-cases (bytes_eq st.table_name name)) [
      | inl e ↦
          (let q : st.table_name ≡ name = (bytes_eq_iff st.table_name name).0 e in
            let same : u ≡ t = ground (arith, h, old, q) in
            rw e (record {
              table = u';
              found = rw q at new;
              values = rw same at values;
              schema = rw same at schema;
              row_cap = rw same at cap;
            }))
      | inr f ↦
          (let other : st.table_name ≢ name = ground (arith, bytes_eq_iff st.table_name name) in
            rw f (unchanged name t c'.tables (others name other ∙ h)))
    ]

text-Extends :
    (name input : Bytes) (limits : ParseLimits) (t : Int64Table) (c : Catalog)
    → get name c.tables ≡ some t
    → Extends name t
        (put_value name (parse_insert input limits) (Text.execute_insert input limits c).1)
        (Text.execute_insert input limits c).0.tables
unfolding Text.execute_insert
text-Extends name input limits t c h = elim (Result-cases (parse_insert input limits)) [
  | inl (st, q) ↦
      rw (Text.execute_insert, q) (insert-Extends name t st c (insert st c) h (insert-Inserts st c))
  | inr (e, q) ↦ rw (Text.execute_insert, q) (unchanged name t c.tables h)
]

put_value-map_err :
    {E E' F : Type 0} (name : Bytes) (f : E' → F) (parsed : Result E InsertStatement)
    (answer : Result E' (Unit {0}))
    → put_value name parsed (map_err f answer) ≡ put_value name parsed answer
put_value-map_err name f (err e) answer = refl
put_value-map_err name f (ok st) (err e) = refl
put_value-map_err name f (ok st) (ok _) = refl

-- One request of a client, while the lock is not poisoned.
shared-Extends :
    (name input : Bytes) (limits : ParseLimits) (t : Int64Table) (s : SharedCatalog)
    → s.poisoned ≡ false
    → get name s.catalog.tables ≡ some t
    → Extends name t
        (put_value name (parse_insert input limits) (execute_insert input limits s).1)
        (execute_insert input limits s).0.catalog.tables
      × ((execute_insert input limits s).0.poisoned ≡ false)
unfolding execute_insert
shared-Extends name input limits t s free h =
    let op = Text.execute_insert input limits in
    rw
      (
        write_free catalog_failed op s free,
        put_value-map_err name catalog_failed (parse_insert input limits) (op s.catalog).1,
      )
      (text-Extends name input limits t s.catalog h, free)

extend_again :
    (name : Bytes) (t : Int64Table) (vs ws : List (Option ℤ)) (before after : Tables)
    → (e : Extends name t vs before) → Extends name e.table ws after
    → Extends name t (vs ++ ws) after
extend_again name t vs ws before after e f = record {
  table = f.table;
  found = f.found;
  values = f.values ∙ ap (λ us. us ++ ws) e.values ∙ append_assoc t.values vs ws;
  schema = f.schema ∙ e.schema;
  row_cap = f.row_cap ∙ e.row_cap;
}

-- After the texts of insertions that any clients send, in the order in which they take the lock,
-- a table has its earlier values and then exactly the values of the accepted insertions that name
-- it, in that order, with its schema and cap, provided the lock is not poisoned and the table is
-- there.
pub insert_texts-Extends :
    (name : Bytes) (limits : ParseLimits) (inputs : List Bytes) (t : Int64Table) (s : SharedCatalog)
    → s.poisoned ≡ false
    → get name s.catalog.tables ≡ some t
    → Extends name t
        (accepted_values name limits inputs s)
        (insert_texts limits inputs s).catalog.tables
insert_texts-Extends name limits [] t s free h = unchanged name t s.catalog.tables h
insert_texts-Extends name limits (input ∷ inputs) t s free h =
    let (e, free') = shared-Extends name input limits t s free h in
    extend_again name t _ _ _ _ e (
      insert_texts-Extends name limits inputs e.table (execute_insert input limits s).0 free'
        e.found)
