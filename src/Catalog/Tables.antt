-- ===== src/Catalog/Tables.antt =====
-- Lookups after a creation and after a write.
use rusthouse.Prelude.{
  ◌≡◌, refl, ◌≢◌, inl, inr, true, none, some, [], ◌∷◌, arith, if◌then◌else◌, Bool-cases, length,
}
use rusthouse.Prelude.Int.{is_some}
use rusthouse.Prelude.Bytes.{Bytes, bytes_eq, bytes_eq_iff, eq_ignore_ascii_case_refl}
use rusthouse.Storage.{Int64Table}
use rusthouse.Catalog.{Tables, get, set, any_ignore_ascii_case}

pub get-cons :
    (name key : Bytes) (table : Int64Table) (tables : Tables)
    → get name ((key, table) ∷ tables) ≡ (if bytes_eq key name then some table else get name tables)
unfolding get
get-cons name key table tables = refl

pub get-set_self :
    (name : Bytes) (table old : Int64Table) (tables : Tables)
    → get name tables ≡ some old
    → get name (set name table tables) ≡ some table
unfolding get set
get-set_self name table old [] h = cc
get-set_self name table old ((key, t) ∷ tables) h =
    ground (arith, get-set_self name table old tables)

pub get-set_ne :
    (name other : Bytes) (table : Int64Table) (tables : Tables)
    → name ≢ other
    → get other (set name table tables) ≡ get other tables
unfolding get set
get-set_ne name other table [] h = refl
get-set_ne name other table ((key, t) ∷ tables) h =
    ground
      (arith, get-set_ne name other table tables h, bytes_eq_iff key name, bytes_eq_iff key other)

pub length-set :
    (name : Bytes) (table : Int64Table) (tables : Tables)
    → length (set name table tables) ≡ length tables
unfolding set
length-set name table [] = refl
length-set name table ((key, t) ∷ tables) = ground (arith, length-set name table tables)

-- A name that is there is found up to case.
pub any_ignore_ascii_case-get :
    (name : Bytes) (tables : Tables)
    → is_some (get name tables) ≡ true
    → any_ignore_ascii_case name tables ≡ true
unfolding get any_ignore_ascii_case
any_ignore_ascii_case-get name [] h = cc
any_ignore_ascii_case-get name ((key, t) ∷ tables) h = elim (Bool-cases (bytes_eq key name)) [
  | inl e ↦ rw ((bytes_eq_iff key name).0 e, eq_ignore_ascii_case_refl name) refl
  | inr f ↦ ground (arith, any_ignore_ascii_case-get name tables)
]

pub get-set-none :
    (name other : Bytes) (table : Int64Table) (tables : Tables)
    → get other tables ≡ none
    → get other (set name table tables) ≡ none
unfolding get set
get-set-none name other table [] h = refl
get-set-none name other table ((key, t) ∷ tables) h =
    ground (arith, get-set-none name other table tables)

-- Writing back the table that is there changes nothing.
pub set-get :
    (name : Bytes) (table : Int64Table) (tables : Tables)
    → get name tables ≡ some table
    → set name table tables ≡ tables
unfolding get set
set-get name table [] h = refl
set-get name table ((key, t) ∷ tables) h = ground (arith, set-get name table tables)
