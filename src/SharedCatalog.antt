-- ===== src/SharedCatalog.antt =====
-- src/shared_catalog.rs: the catalog behind a lock that many threads share. A guard is held for the
-- whole of an operation, so that an operation is one step of the shared state, and the order in
-- which the lock is taken is the order of the steps. A thread that panics while it writes poisons
-- the lock.
pub mod Clients
pub mod Inserts
use rusthouse.Prelude.{
  ℕ, Bool, true, false, Option, List, ◌==◌, if◌then◌else◌, Result, ok, err, map_err,
}
use rusthouse.Prelude.Int.{ℤ}
use rusthouse.Prelude.Bytes.{Bytes}
use rusthouse.Scan.{ScanLimits}
use rusthouse.Aggregate.{AggregateLimits}
use rusthouse.Distinct.{DistinctLimits}
use rusthouse.Join.{JoinLimits}
use rusthouse.Csv.{CsvIngestLimits}
use rusthouse.Parser.{ParseLimits}
use rusthouse.Catalog.{CatalogLimits, Catalog, CatalogError, new_catalog, len as catalog_len}
use rusthouse.Catalog.Loads
use rusthouse.Catalog.Loads.{CatalogCsvIngestError}
use rusthouse.Catalog.Text

pub data SharedCatalogError : Type 0 where
  catalog_failed : CatalogError → SharedCatalogError
  csv_ingest_failed : CatalogCsvIngestError → SharedCatalogError
  lock_poisoned : SharedCatalogError

-- `Arc<RwLock<Catalog>>`
pub record SharedCatalog : Type 0 where
  pub catalog : Catalog
  pub poisoned : Bool

-- `SharedCatalog::new` and `with_limits`
abbrev pub new_shared : Catalog → SharedCatalog
new_shared c = record { catalog = c; poisoned = false }

abbrev pub with_limits : CatalogLimits → SharedCatalog
with_limits limits = new_shared (new_catalog limits)

-- `read`, with the operation on the guard.
unfoldable pub read :
    {E A : Type 0}
    → (E → SharedCatalogError)
    → (Catalog → Result E A)
    → SharedCatalog
    → Result SharedCatalogError A
read convert operation s =
    if s.poisoned then err lock_poisoned else map_err convert (operation s.catalog)

-- `write`, with the operation on the guard.
unfoldable pub write :
    {E A : Type 0}
    → (E → SharedCatalogError)
    → (Catalog → Catalog × Result E A)
    → SharedCatalog
    → SharedCatalog × Result SharedCatalogError A
write convert operation s =
    if s.poisoned
    then (s, err lock_poisoned)
    else let (c, result) = operation s.catalog in (record s { catalog = c }, map_err convert result)

-- A thread panics while it holds the guard for writing, and leaves this catalog.
abbrev pub poison : Catalog → SharedCatalog → SharedCatalog
poison c s = record { catalog = c; poisoned = true }

abbrev infallible : {A : Type 0} → (Catalog → A) → Catalog → Result CatalogError A
infallible f c = ok (f c)

unfoldable pub limits : SharedCatalog → Result SharedCatalogError CatalogLimits
unfolding read
limits = read catalog_failed (infallible (λ c. c.limits))

unfoldable pub len : SharedCatalog → Result SharedCatalogError ℕ
unfolding read
len = read catalog_failed (infallible catalog_len)

unfoldable pub is_empty : SharedCatalog → Result SharedCatalogError Bool
unfolding read
is_empty = read catalog_failed (infallible (λ c. catalog_len c == 0))

unfoldable pub execute_create :
    Bytes → ParseLimits → SharedCatalog → SharedCatalog × Result SharedCatalogError (Unit {0})
unfolding write Text.execute_create
execute_create input parse_limits = write catalog_failed (Text.execute_create input parse_limits)

unfoldable pub execute_insert :
    Bytes → ParseLimits → SharedCatalog → SharedCatalog × Result SharedCatalogError (Unit {0})
unfolding write Text.execute_insert
execute_insert input parse_limits = write catalog_failed (Text.execute_insert input parse_limits)

unfoldable pub ingest_csv_with_names :
    Bytes → Bytes → CsvIngestLimits → SharedCatalog → SharedCatalog × Result SharedCatalogError ℕ
unfolding write Loads.ingest_csv_with_names
ingest_csv_with_names table_name input csv_limits =
    write csv_ingest_failed (Loads.ingest_csv_with_names table_name input csv_limits)

unfoldable pub execute_scalar_count_with_limits :
    Bytes → ParseLimits → ScanLimits → AggregateLimits → SharedCatalog → Result SharedCatalogError ℕ
unfolding read Text.execute_scalar_count_with_limits
execute_scalar_count_with_limits input parse_limits scan_limits aggregate_limits =
    read catalog_failed
      (Text.execute_scalar_count_with_limits input parse_limits scan_limits aggregate_limits)

unfoldable pub execute_scalar_count :
    Bytes → ParseLimits → AggregateLimits → SharedCatalog → Result SharedCatalogError ℕ
unfolding read Text.execute_scalar_count
execute_scalar_count input parse_limits aggregate_limits =
    read catalog_failed (Text.execute_scalar_count input parse_limits aggregate_limits)

unfoldable pub execute_scalar_sum_with_limits :
    Bytes
    → ParseLimits
    → ScanLimits
    → AggregateLimits
    → SharedCatalog
    → Result SharedCatalogError (Option ℤ)
unfolding read Text.execute_scalar_sum_with_limits
execute_scalar_sum_with_limits input parse_limits scan_limits aggregate_limits =
    read catalog_failed
      (Text.execute_scalar_sum_with_limits input parse_limits scan_limits aggregate_limits)

unfoldable pub execute_scalar_sum :
    Bytes → ParseLimits → AggregateLimits → SharedCatalog → Result SharedCatalogError (Option ℤ)
unfolding read Text.execute_scalar_sum
execute_scalar_sum input parse_limits aggregate_limits =
    read catalog_failed (Text.execute_scalar_sum input parse_limits aggregate_limits)

unfoldable pub execute_scalar_min :
    Bytes → ParseLimits → AggregateLimits → SharedCatalog → Result SharedCatalogError (Option ℤ)
unfolding read Text.execute_scalar_min
execute_scalar_min input parse_limits aggregate_limits =
    read catalog_failed (Text.execute_scalar_min input parse_limits aggregate_limits)

unfoldable pub execute_select_with_limits :
    Bytes → ParseLimits → ScanLimits → SharedCatalog → Result SharedCatalogError (List (Option ℤ))
unfolding read Text.execute_select_with_limits
execute_select_with_limits input parse_limits scan_limits =
    read catalog_failed (Text.execute_select_with_limits input parse_limits scan_limits)

unfoldable pub execute_select :
    Bytes → ParseLimits → SharedCatalog → Result SharedCatalogError (List (Option ℤ))
unfolding read Text.execute_select
execute_select input parse_limits = read catalog_failed (Text.execute_select input parse_limits)

unfoldable pub execute_inner_join :
    Bytes → ParseLimits → JoinLimits → SharedCatalog → Result SharedCatalogError (List (Option ℤ))
unfolding read Text.execute_inner_join
execute_inner_join input parse_limits join_limits =
    read catalog_failed (Text.execute_inner_join input parse_limits join_limits)

unfoldable pub execute_left_join :
    Bytes → ParseLimits → JoinLimits → SharedCatalog → Result SharedCatalogError (List (Option ℤ))
unfolding read Text.execute_left_join
execute_left_join input parse_limits join_limits =
    read catalog_failed (Text.execute_left_join input parse_limits join_limits)

unfoldable pub execute_select_distinct :
    Bytes
    → ParseLimits
    → DistinctLimits
    → SharedCatalog
    → Result SharedCatalogError (List (Option ℤ))
unfolding read Text.execute_select_distinct
execute_select_distinct input parse_limits distinct_limits =
    read catalog_failed (Text.execute_select_distinct input parse_limits distinct_limits)
