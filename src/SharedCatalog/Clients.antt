-- ===== src/SharedCatalog/Clients.antt =====
-- src/shared_catalog.rs: the shared catalog under the operations of any number of clients, in the
-- order in which they take the lock.
use rusthouse.Prelude.{
  ◌≡◌, refl, ◌⊎◌, inl, inr, true, false, arith, Bool-cases, Result, ok, err, map_err, Result-cases,
}
use rusthouse.Prelude.Bytes.{Bytes}
use rusthouse.Csv.{CsvIngestLimits}
use rusthouse.Parser.{ParseLimits}
use rusthouse.Parser.Sql.{parse_create_table, parse_insert}
use rusthouse.Catalog.{CatalogLimits, Catalog, new_catalog, create, insert}
use rusthouse.Catalog.Invariant.{IsValid}
use rusthouse.Catalog.Loads
use rusthouse.Catalog.Text
use rusthouse.Catalog.Reachability.{
  Step as CatalogStep, Step-keeps, by_create, by_insert, by_ingest, Reachable, Reachable-IsValid,
}
use rusthouse.Catalog.Reachability
use rusthouse.SharedCatalog.{
  SharedCatalog, SharedCatalogError, catalog_failed, csv_ingest_failed, lock_poisoned, with_limits,
  read, write, poison, execute_create, execute_insert, ingest_csv_with_names,
}

-- One operation of a client that writes, accepted or not, or a panic while a client writes, which
-- leaves any catalog behind.
pub data Access : SharedCatalog → SharedCatalog → Type 0 where
  creates :
      (input : Bytes) (l : ParseLimits) (s : SharedCatalog) → Access s (execute_create input l s).0
  inserts :
      (input : Bytes) (l : ParseLimits) (s : SharedCatalog) → Access s (execute_insert input l s).0
  ingests :
      (name input : Bytes) (l : CsvIngestLimits) (s : SharedCatalog)
      → Access s (ingest_csv_with_names name input l s).0
  panics : (c : Catalog) (s : SharedCatalog) → Access s (poison c s)

-- The states that the clients make from an empty catalog.
pub data Shared (limits : CatalogLimits) : SharedCatalog → Type 0 where
  start : Shared limits (with_limits limits)
  next : {s s' : SharedCatalog} → Shared limits s → Access s s' → Shared limits s'

-- The lock is poisoned, or the catalog is well formed under its limits.
abbrev pub Guarded : CatalogLimits → SharedCatalog → Type 0
Guarded limits s = (s.poisoned ≡ true) ⊎ (IsValid s.catalog × (s.catalog.limits ≡ limits))

-- A catalog under given limits.
abbrev Keeps : CatalogLimits → Catalog → Type 0
Keeps limits c = IsValid c × (c.limits ≡ limits)

module _ {E A : Type 0} (convert : E → SharedCatalogError) (op : Catalog → Catalog × Result E A)
    (s : SharedCatalog) where
  write_poisoned : s.poisoned ≡ true → write convert op s ≡ (s, err lock_poisoned)
  unfolding write
  write_poisoned p = ground arith

  pub write_free :
      s.poisoned ≡ false
      → write convert op s
        ≡ (record s { catalog = (op s.catalog).0 }, map_err convert (op s.catalog).1)
  unfolding write
  write_free p = ground arith

module _ (lim : CatalogLimits) where
  write-Guarded :
      {E A : Type 0} (convert : E → SharedCatalogError) (op : Catalog → Catalog × Result E A)
      (s : SharedCatalog)
      → ((c : Catalog) → Keeps lim c → Keeps lim (op c).0)
      → Guarded lim s
      → Guarded lim (write convert op s).0
  write-Guarded convert op s k (inl p) = rw (write_poisoned convert op s p) (inl p)
  write-Guarded convert op s k (inr valid) = elim (Bool-cases s.poisoned) [
    | inl p ↦ rw (write_poisoned convert op s p) (inl p)
    | inr free ↦ rw (write_free convert op s free) (inr (k s.catalog valid))
  ]

  execute_create-Keeps :
      (input : Bytes) (l : ParseLimits) (c : Catalog)
      → Keeps lim c
      → Keeps lim (Text.execute_create input l c).0
  unfolding Text.execute_create
  execute_create-Keeps input l c k = elim (Result-cases (parse_create_table input l)) [
    | inl (st, q) ↦
        (let step : CatalogStep (Unit {0}) c (create st c).0 = by_create st c in
          rw (Text.execute_create, q) (Step-keeps lim step k))
    | inr (x, q) ↦ rw (Text.execute_create, q) k
  ]

  execute_insert-Keeps :
      (input : Bytes) (l : ParseLimits) (c : Catalog)
      → Keeps lim c
      → Keeps lim (Text.execute_insert input l c).0
  unfolding Text.execute_insert
  execute_insert-Keeps input l c k = elim (Result-cases (parse_insert input l)) [
    | inl (st, q) ↦
        (let step : CatalogStep (Unit {0}) c (insert st c).0 = by_insert st c in
          rw (Text.execute_insert, q) (Step-keeps lim step k))
    | inr (x, q) ↦ rw (Text.execute_insert, q) k
  ]

  ingest-Keeps :
      (name input : Bytes) (l : CsvIngestLimits) (c : Catalog)
      → Keeps lim c
      → Keeps lim (Loads.ingest_csv_with_names name input l c).0
  ingest-Keeps name input l c k =
      let step : CatalogStep (Unit {0}) c (Loads.ingest_csv_with_names name input l c).0 =
        by_ingest name input l c in
      Step-keeps lim step k

  Access-Guarded : {s s' : SharedCatalog} → Access s s' → Guarded lim s → Guarded lim s'
  unfolding execute_create execute_insert ingest_csv_with_names
  Access-Guarded (creates input l s) g =
      write-Guarded catalog_failed (Text.execute_create input l) s (execute_create-Keeps input l) g
  Access-Guarded (inserts input l s) g =
      write-Guarded catalog_failed (Text.execute_insert input l) s (execute_insert-Keeps input l) g
  Access-Guarded (ingests name input l s) g =
      write-Guarded csv_ingest_failed (Loads.ingest_csv_with_names name input l) s
        (ingest-Keeps name input l) g
  Access-Guarded (panics c s) g = inl refl

  Shared-Guarded : {s : SharedCatalog} → Shared lim s → Guarded lim s
  Shared-Guarded start =
      let fresh : Reachable (Unit {0}) lim (new_catalog lim) = Reachability.start in
      inr (Reachable-IsValid lim fresh)
  Shared-Guarded (next r a) = Access-Guarded a (Shared-Guarded r)

  unguarded : (s : SharedCatalog) → s.poisoned ≡ false → Guarded lim s → Keeps lim s.catalog
  unguarded s free (inl p) = cc
  unguarded s free (inr k) = k

  read_ok :
      {E A : Type 0} (convert : E → SharedCatalogError) (operation : Catalog → Result E A)
      (answer : A) (s : SharedCatalog)
      → read convert operation s ≡ ok answer
      → (s.poisoned ≡ false) × (operation s.catalog ≡ ok answer)
  unfolding read
  read_ok convert operation answer s h = elim (Bool-cases s.poisoned) [
    | inl p ↦ ground arith
    | inr p ↦ (p, ground arith)
  ]

  -- Whatever clients of a shared catalog have done before, creations, insertions and ingestions
  -- from any text and panics that leave any catalog behind, an operation that reads and succeeds
  -- has seen a catalog that is well formed and has the given limits, and its answer is the one of
  -- that catalog.
  pub read-Shared :
      {s : SharedCatalog} {E A : Type 0} (convert : E → SharedCatalogError)
      (operation : Catalog → Result E A) (answer : A)
      → Shared lim s
      → read convert operation s ≡ ok answer
      → IsValid s.catalog × (s.catalog.limits ≡ lim) × (operation s.catalog ≡ ok answer)
  unfolding read
  read-Shared {s} convert operation answer r h =
      let (free, q) = read_ok convert operation answer s h in
      let (v, e) = unguarded s free (Shared-Guarded r) in (v, e, q)
