-- ===== src/Catalog/Sessions.antt =====
-- src/catalog.rs and src/parser.rs together: a table that is created, filled and read by the texts
-- of statements.
use rusthouse.Prelude.{
  inl, ◌≤◌, ◌≡◌, refl, ap, ◌∙◌, Bool, Option, List, [], ◌∷◌, length, All, Result, ok, err,
}
use rusthouse.Prelude.Int.{ℤ}
use rusthouse.Prelude.Bytes.{Bytes}
use rusthouse.Order.Ranks.{IsNullableI64}
use rusthouse.Parser.{ParseLimits}
use rusthouse.Parser.Sound.Words.{IsIdentifier}
use rusthouse.Parser.Print.Insert.{print_insert_as, parse_insert-print_insert_as}
use rusthouse.Parser.Print.Create.{print_create_as, creation, parse_create_table-print_create_as}
use rusthouse.Parser.Print.Words.{IsSpelling}
use rusthouse.Parser.Print.Select.{print_select_as, parse_select-print_select}
use rusthouse.Catalog.{Catalog, CatalogError, create, insert, select}
use rusthouse.Catalog.Queries.{select_all, insertion, insert_each, select-insert_each-create}
use rusthouse.Catalog.Text.{execute_create, execute_insert, execute_select}

-- The keywords as they are written.
pub record Keywords : Type 0 where
  pub create_word : Bytes
  pub table_word : Bytes
  pub insert_word : Bytes
  pub into_word : Bytes
  pub values_word : Bytes
  pub select_word : Bytes
  pub from_word : Bytes

-- Each keyword is written in some letter case.
pub record AreSpelled (k : Keywords) : Type 0 where
  pub create_spelled : IsSpelling "CREATE" k.create_word
  pub table_spelled : IsSpelling "TABLE" k.table_word
  pub insert_spelled : IsSpelling "INSERT" k.insert_word
  pub into_spelled : IsSpelling "INTO" k.into_word
  pub values_spelled : IsSpelling "VALUES" k.values_word
  pub select_spelled : IsSpelling "SELECT" k.select_word
  pub from_spelled : IsSpelling "FROM" k.from_word

-- The three texts.
abbrev pub create_text : Keywords → Bytes → Bytes → Bool → Bytes
create_text k = print_create_as k.create_word k.table_word

abbrev pub insert_text : Keywords → Bytes → Option ℤ → Bytes
insert_text k name v = print_insert_as k.insert_word k.into_word k.values_word (insertion name v)

abbrev pub select_text : Keywords → Bytes → Bytes → Bytes
select_text k = print_select_as k.select_word k.from_word

abbrev Outcome : Type 0
Outcome = Catalog × Result CatalogError (Unit {0})

-- What follows an operation that was accepted.
abbrev if_accepted : (Catalog → Outcome) → Outcome → Outcome
if_accepted next (c, ok _) = next c
if_accepted next (c, err e) = (c, err e)

-- The texts of insertions, up to the first error.
abbrev pub insert_each_text :
    Keywords
    → ParseLimits
    → Bytes
    → List (Option ℤ)
    → Catalog
    → Catalog × Result CatalogError (Unit {0})
insert_each_text k limits name [] c = (c, ok tt)
insert_each_text k limits name (v ∷ vs) c =
    if_accepted (insert_each_text k limits name vs) (execute_insert (insert_text k name v) limits c)

if_accepted-elim :
    (next next' : Catalog → Outcome) (after : Outcome)
    → ((c : Catalog) → next c ≡ next' c)
    → if_accepted next after ≡ elim after.1 [ ok _ ↦ next' after.0 | err e ↦ (after.0, err e) ]
if_accepted-elim next next' (c, ok _) h = h c
if_accepted-elim next next' (c, err e) h = refl

-- A value of an `i64`, or NULL, whose insertion is within the statement bound.
abbrev pub Fits : Keywords → ParseLimits → Bytes → Option ℤ → Type 0
Fits k limits name v =
    IsNullableI64 v × (length (insert_text k name v) ≤ limits.max_statement_bytes)

module _ (k : Keywords) (spelled : AreSpelled k) (limits : ParseLimits) (name : Bytes)
    (is_name : IsIdentifier limits.max_identifier_bytes name) where
  execute_insert-insert_text :
      (v : Option ℤ) (c : Catalog)
      → Fits k limits name v
      → execute_insert (insert_text k name v) limits c ≡ insert (insertion name v) c
  unfolding execute_insert
  execute_insert-insert_text v c (is_value, short) =
      rw
        (
          execute_insert,
          parse_insert-print_insert_as k.insert_word k.into_word k.values_word (insertion name v)
              limits spelled.insert_spelled spelled.into_spelled spelled.values_spelled is_name
              is_value short,
        )
        refl

  insert_each_text-insert_each :
      (vs : List (Option ℤ)) (c : Catalog)
      → All (Fits k limits name) vs
      → insert_each_text k limits name vs c ≡ insert_each name vs c
  insert_each_text-insert_each [] c h = refl
  insert_each_text-insert_each (v ∷ vs) c (h, hs) =
      ap (if_accepted (insert_each_text k limits name vs)) (execute_insert-insert_text v c h)
      ∙ if_accepted-elim (insert_each_text k limits name vs) (insert_each name vs)
          (insert (insertion name v) c) (λ d. insert_each_text-insert_each vs d hs)

  module _ (column : Bytes) (is_column : IsIdentifier limits.max_identifier_bytes column) where
    execute_create-create_text :
        (nullable : Bool) (c : Catalog)
        → length (create_text k name column nullable) ≤ limits.max_statement_bytes
        → execute_create (create_text k name column nullable) limits c
          ≡ create (creation name column nullable) c
    unfolding execute_create
    execute_create-create_text nullable c short =
        rw
          (
            execute_create,
            parse_create_table-print_create_as k.create_word k.table_word name column nullable
                limits spelled.create_spelled spelled.table_spelled is_name is_column short,
          )
          refl

    execute_select-select_text :
        (c : Catalog)
        → length (select_text k column name) ≤ limits.max_statement_bytes
        → execute_select (select_text k column name) limits c ≡ select (select_all column name) c
    unfolding execute_select select
    execute_select-select_text c short =
        rw
          (
            execute_select,
            parse_select-print_select k.select_word k.from_word column name limits
                spelled.select_spelled spelled.from_spelled is_column is_name short,
          )
          refl

-- On texts of statements whose keywords CREATE, TABLE, INSERT, INTO, VALUES, SELECT and FROM are
-- in any letter case, with single blanks between words, the column type in its canonical
-- spelling, no IF NOT EXISTS and no trailing semicolon: a table that the text of a creation makes
-- and the texts of single insertions fill, all accepted, answers the text of a SELECT of its
-- column, without further clauses, with exactly the inserted values, in their order. The names
-- are single words within the identifier bound, the values are 64-bit integers in decimal or
-- NULL, and each text is within the statement bound.
pub execute_select-insert_each_text-execute_create :
    (k : Keywords) (limits : ParseLimits) (name column : Bytes) (nullable : Bool)
    (vs : List (Option ℤ)) (c : Catalog)
    → AreSpelled k
    → IsIdentifier limits.max_identifier_bytes name
    → IsIdentifier limits.max_identifier_bytes column
    → length (create_text k name column nullable) ≤ limits.max_statement_bytes
    → length (select_text k column name) ≤ limits.max_statement_bytes
    → All (Fits k limits name) vs
    → (execute_create (create_text k name column nullable) limits c).1 ≡ ok tt
    → (insert_each_text k limits name vs
        (execute_create (create_text k name column nullable) limits c).0).1
      ≡ ok tt
    → execute_select
        (select_text k column name)
        limits
        (insert_each_text k limits name vs
          (execute_create (create_text k name column nullable) limits c).0).0
      ≡ ok vs
execute_select-insert_each_text-execute_create k limits name column nullable vs c spelled is_name
      is_column short_create short_select fits created inserted =
    let st = creation name column nullable in
    let begun : execute_create (create_text k name column nullable) limits c ≡ create st c =
      execute_create-create_text k spelled limits name is_name column is_column nullable c
        short_create in
    let filled =
      insert_each_text-insert_each k spelled limits name is_name vs (create st c).0 fits in
    let created' : (create st c).1 ≡ ok tt = rw begun at created in
    let inserted' : (insert_each name vs (create st c).0).1 ≡ ok tt =
      rw (begun, filled) at inserted in
    rw
      (
        begun,
        filled,
        execute_select-select_text k spelled limits name is_name column is_column
            (insert_each name vs (create st c).0).0 short_select,
      )
      (select-insert_each-create st vs c (inl refl) created' inserted')
