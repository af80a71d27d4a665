-- ===== src/Lib.antt =====
-- A model of RustHouse, a small in-memory column store with SQL over tables of one nullable
-- `Int64` column, in the order in which the program is layered. Paths are from the repository's
-- root. A type keeps the source's name and a function keeps its name and the order of its
-- arguments, with the receiver (`self`) last where a method changes it.
--
-- - Prelude: what all parts share. `Prelude.Int` has the signed integers (an `i64` is one in the
--   range `IsI64`, the `i128` of a sum is an exact one: a sum of at most 2^64 values of an `i64`
--   fits), `Prelude.Bytes` the byte strings that stand for `String`, `Prelude.Outcome` the
--   `Result` with its `?`, `Prelude.Utf8` the check of `str::from_utf8`, and `Prelude.Decimal` the
--   `parse` of integers.
-- - Storage (src/storage.rs): the table with its schema, values and row cap; `append` and
--   `append_batch` return the table that they leave beside their result.
-- - Scan (src/scan.rs): the bounded scans for matching rows.
-- - Aggregate (src/aggregate.rs): selections of rows and their validation, COUNT, MIN and SUM.
-- - Order (src/order.rs): the bounded top-k order. The key of a row is computed on the bits of a
--   `u64`; `BinaryHeap` is the ascending list of its keys.
-- - Distinct (src/distinct.rs) and Grouping (src/grouping.rs): bounded sets and counts. `BTreeSet`
--   and `BTreeMap` are ascending lists.
-- - Join (src/join.rs): the index of the right column, the counting pass that tests the bound
--   before any pair is made, and both joins.
-- - Statement and Parser (src/parser.rs): the parsed statements, and the parser as functions of its
--   state. Parser.Literals has the literals and operators, Parser.Create, Insert, Select, Joins and
--   Scalar the statements, Parser.Sql the functions on a whole text, Parser.Sound what all of
--   them keep, and Parser.Print texts of statements, which the source does not write.
-- - Execution (src/execution.rs): the statements on tables, with their checks of names and the
--   conversions of errors.
-- - Catalog (src/catalog.rs): the map of named tables, the creations and insertions that change
--   it, and the queries that look tables up and call Execution. Catalog.Text has the operations on
--   text, Catalog.Loads those on CSV and snapshot files, Catalog.Access the tables by name, and
--   Catalog.Sessions runs of several texts.
-- - SharedCatalog (src/shared_catalog.rs): the catalog behind its lock, each operation one step.
-- - Csv (src/csv.rs): the ingestion of one-column CSV, from its bytes to one `append_batch`, and
--   Csv.Reader the bounded read before it; a reader is what it yields before it ends or fails.
-- - Snapshot (src/snapshot.rs): the payload of rows (Snapshot.Rows), its run-length encoding
--   (Snapshot.Runs), the payload of a whole table (Snapshot.Table) and the envelope with its CRC-32
--   (Snapshot.Envelope), on little-endian words (Snapshot.Words). Offsets into the input are those
--   of the source. Snapshot.Columns encodes the column of a table alone, and Snapshot.Restore reads
--   files, as the operating system answers, into tables.
-- - Examples: concrete runs.
--
-- A loop is a recursion on the list that it runs over, so no fuel is needed. A machine-width
-- operation that can wrap or saturate is written out (`saturating_add`, the ranks of a key);
-- counters that never pass the number of rows are plain numbers. An index into a slice that the
-- code has checked reads a default out of range, where the source would panic. The containers of
-- the Rust library that the source uses (`HashMap`, `BTreeSet`, `BTreeMap`, `BinaryHeap`) are
-- lists with the documented behaviour of the operations that are called.
--
-- Not modelled: texts of errors, the command line, the HTTP server, writing snapshot files with
-- their directories, locks and durability, and the batch engine under src/batch, which has
-- storage and SQL of its own.
pub mod Prelude
pub mod Storage
pub mod Scan
pub mod Aggregate
pub mod Order
pub mod Distinct
pub mod Grouping
pub mod Join
pub mod Csv
pub mod Snapshot
pub mod Statement
pub mod Parser
pub mod Execution
pub mod Catalog
pub mod SharedCatalog
pub mod Examples
