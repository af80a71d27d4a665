-- ===== src/Snapshot.antt =====
-- src/snapshot.rs: the payload of rows and the checksummed envelope. A byte is a number below 256.
pub mod Words
pub mod Rows
pub mod Envelope
pub mod Runs
pub mod Table
pub mod Restore
pub mod Columns
