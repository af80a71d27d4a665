-- ===== src/Examples.antt =====
-- Concrete runs, and the theorems at concrete inputs.
mod Operators
mod Tables
mod Restore
mod Statements
mod Snapshots
mod Csv
mod Parser
mod Shared
mod Sessions
