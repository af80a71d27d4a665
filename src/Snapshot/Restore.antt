-- ===== src/Snapshot/Restore.antt =====
-- src/snapshot.rs: reading a snapshot file within its bound, and restoring a table from it, from
-- an explicit backup where the first file fails. What the operating system answers while a file is
-- read is a value: the metadata at each of the four times it is asked for, and the contents. A
-- `usize` is a `u64`.
pub mod Recovery
use rusthouse.Prelude.{
  ℕ, Bool, not, Option, List, ltb, saturating_add, take, Result, ok, err, ◌>>=◌, ◌>>◌, map_err,
  reject_if,
}
use rusthouse.Prelude.Int.{ℤ}
use rusthouse.Prelude.Bytes.{Bytes}
use rusthouse.Storage.{Int64Table, Schema, InsertError, append_batch, new_table}
use rusthouse.Snapshot.Rows
use rusthouse.Snapshot.Rows.{NullableI64PayloadCodec, NullableI64PayloadError}
use rusthouse.Snapshot.Runs
use rusthouse.Snapshot.Runs.{NullableI64RlePayloadCodec, NullableI64RlePayloadError}
use rusthouse.Snapshot.Table
use rusthouse.Snapshot.Table.{Int64TablePayloadCodec, Int64TablePayloadError}
use rusthouse.Snapshot.Envelope
use rusthouse.Snapshot.Envelope.{SnapshotCodec, SnapshotError, envelope_header_len}

pub record Metadata : Type 0 where
  pub is_file : Bool
  pub len : ℕ

-- The answers of the operating system for one path, in the order they are asked for.
pub record SnapshotFile (IoError : Type 0) : Type 0 where
  pub path_metadata : Result IoError Metadata
  pub open_result : Result IoError (Unit {0})
  pub opened_metadata : Result IoError Metadata
  pub sized_metadata : Result IoError Metadata
  pub contents : Result IoError Bytes
  pub final_metadata : Result IoError Metadata

pub data SnapshotFileReadError (IoError : Type 0) : Type 0 where
  open_failed : IoError → SnapshotFileReadError IoError
  not_regular_file : SnapshotFileReadError IoError
  read_failed : IoError → SnapshotFileReadError IoError
  file_too_large : (file_len max_file_len : ℕ) → SnapshotFileReadError IoError

pub data Int64TableRestoreError : Type 0 where
  envelope_failed : SnapshotError → Int64TableRestoreError
  payload_failed : NullableI64PayloadError → Int64TableRestoreError
  table_failed : InsertError → Int64TableRestoreError

pub data Int64TableFileRestoreError (IoError : Type 0) : Type 0 where
  open_failed : IoError → Int64TableFileRestoreError IoError
  not_regular_file : Int64TableFileRestoreError IoError
  read_failed : IoError → Int64TableFileRestoreError IoError
  file_too_large : (file_len max_file_len : ℕ) → Int64TableFileRestoreError IoError
  restore_failed : Int64TableRestoreError → Int64TableFileRestoreError IoError

pub data Int64TablePayloadFileRestoreError (IoError : Type 0) : Type 0 where
  open_failed : IoError → Int64TablePayloadFileRestoreError IoError
  not_regular_file : Int64TablePayloadFileRestoreError IoError
  read_failed : IoError → Int64TablePayloadFileRestoreError IoError
  file_too_large : (file_len max_file_len : ℕ) → Int64TablePayloadFileRestoreError IoError
  envelope_failed : SnapshotError → Int64TablePayloadFileRestoreError IoError
  payload_failed : Int64TablePayloadError → Int64TablePayloadFileRestoreError IoError

pub data Int64TableRleFileRestoreError (IoError : Type 0) : Type 0 where
  open_failed : IoError → Int64TableRleFileRestoreError IoError
  not_regular_file : Int64TableRleFileRestoreError IoError
  read_failed : IoError → Int64TableRleFileRestoreError IoError
  file_too_large : (file_len max_file_len : ℕ) → Int64TableRleFileRestoreError IoError
  envelope_failed : SnapshotError → Int64TableRleFileRestoreError IoError
  payload_failed : NullableI64RlePayloadError → Int64TableRleFileRestoreError IoError
  table_failed : InsertError → Int64TableRleFileRestoreError IoError

pub data Int64TableFileRecoverySource : Type 0 where
  primary : Int64TableFileRecoverySource
  backup : Int64TableFileRecoverySource

pub record Int64TableFileRecovery : Type 0 where
  pub table : Int64Table
  pub source : Int64TableFileRecoverySource

pub data Int64TableFileRecoveryError (IoError : Type 0) : Type 0 where
  both_failed :
      (primary backup : Int64TableFileRestoreError IoError) → Int64TableFileRecoveryError IoError

pub data Int64TablePayloadFileRecoveryError (IoError : Type 0) : Type 0 where
  both_failed :
      (primary backup : Int64TablePayloadFileRestoreError IoError)
      → Int64TablePayloadFileRecoveryError IoError

-- The bound of the file for a bound of the payload.
abbrev pub max_file_len : ℕ → ℕ
max_file_len max_payload_len = saturating_add envelope_header_len max_payload_len

abbrev pub recovered : Int64TableFileRecoverySource → Int64Table → Int64TableFileRecovery
recovered source table = record { table = table; source = source }

module _ {IoError : Type 0} where
  abbrev pub require_regular_snapshot_path :
      SnapshotFile IoError → Result (SnapshotFileReadError IoError) (Unit {0})
  require_regular_snapshot_path file = do
    metadata ← map_err open_failed file.path_metadata
    reject_if (not metadata.is_file) not_regular_file

  abbrev pub open_regular_snapshot_path :
      SnapshotFile IoError → Result (SnapshotFileReadError IoError) (Unit {0})
  open_regular_snapshot_path file = do
    map_err open_failed file.open_result
    metadata ← map_err read_failed file.opened_metadata
    reject_if (not metadata.is_file) not_regular_file

  abbrev pub bounded_file_len :
      Result IoError Metadata → ℕ → Result (SnapshotFileReadError IoError) ℕ
  bounded_file_len asked max_file_len = do
    metadata ← map_err read_failed asked
    reject_if (not metadata.is_file) not_regular_file
    reject_if (ltb max_file_len metadata.len) (file_too_large metadata.len max_file_len)
    ok metadata.len

  unfoldable pub read_bounded_snapshot_file :
      SnapshotFile IoError → ℕ → Result (SnapshotFileReadError IoError) Bytes
  read_bounded_snapshot_file file max_payload_len = do
    require_regular_snapshot_path file
    open_regular_snapshot_path file
    bounded_file_len file.sized_metadata (max_file_len max_payload_len)
    contents ← map_err read_failed file.contents
    bounded_file_len file.final_metadata (max_file_len max_payload_len)
    ok (take (max_file_len max_payload_len) contents)

  abbrev pub file_restore_error : SnapshotFileReadError IoError → Int64TableFileRestoreError IoError
  file_restore_error (SnapshotFileReadError.open_failed e) = open_failed e
  file_restore_error SnapshotFileReadError.not_regular_file = not_regular_file
  file_restore_error (SnapshotFileReadError.read_failed e) = read_failed e
  file_restore_error (SnapshotFileReadError.file_too_large n m) = file_too_large n m

  abbrev pub payload_restore_error :
      SnapshotFileReadError IoError → Int64TablePayloadFileRestoreError IoError
  payload_restore_error (SnapshotFileReadError.open_failed e) = open_failed e
  payload_restore_error SnapshotFileReadError.not_regular_file = not_regular_file
  payload_restore_error (SnapshotFileReadError.read_failed e) = read_failed e
  payload_restore_error (SnapshotFileReadError.file_too_large n m) = file_too_large n m

  abbrev pub rle_restore_error :
      SnapshotFileReadError IoError → Int64TableRleFileRestoreError IoError
  rle_restore_error (SnapshotFileReadError.open_failed e) = open_failed e
  rle_restore_error SnapshotFileReadError.not_regular_file = not_regular_file
  rle_restore_error (SnapshotFileReadError.read_failed e) = read_failed e
  rle_restore_error (SnapshotFileReadError.file_too_large n m) = file_too_large n m

-- A table with the rows appended to it, if they fit.
abbrev pub table_of_rows :
    {E : Type 0} → (InsertError → E) → List (Option ℤ) → Schema → ℕ → Result E Int64Table
table_of_rows convert rows schema row_cap =
    let (table, result) = append_batch rows (new_table schema row_cap) in
    map_err convert result >> ok table

unfoldable pub restore_int64_table :
    Bytes
    → Schema
    → ℕ
    → SnapshotCodec
    → NullableI64PayloadCodec
    → Result Int64TableRestoreError Int64Table
unfolding Envelope.decode Rows.decode append_batch
restore_int64_table envelope schema row_cap snapshot_codec payload_codec = do
  payload ← map_err envelope_failed (Envelope.decode snapshot_codec envelope)
  rows ← map_err payload_failed (Rows.decode payload_codec payload)
  table_of_rows table_failed rows schema row_cap

module _ {IoError : Type 0} where
  unfoldable pub restore_int64_table_from_file :
      SnapshotFile IoError
      → Schema
      → ℕ
      → SnapshotCodec
      → NullableI64PayloadCodec
      → Result (Int64TableFileRestoreError IoError) Int64Table
  restore_int64_table_from_file file schema row_cap snapshot_codec payload_codec = do
    envelope ←
        map_err file_restore_error (read_bounded_snapshot_file file snapshot_codec.max_payload_len)
    map_err restore_failed
        (restore_int64_table envelope schema row_cap snapshot_codec payload_codec)

  unfoldable pub restore_int64_table_rle_from_file :
      SnapshotFile IoError
      → Schema
      → ℕ
      → SnapshotCodec
      → NullableI64RlePayloadCodec
      → Result (Int64TableRleFileRestoreError IoError) Int64Table
  restore_int64_table_rle_from_file file schema row_cap snapshot_codec payload_codec = do
    envelope ←
        map_err rle_restore_error (read_bounded_snapshot_file file snapshot_codec.max_payload_len)
    payload ← map_err envelope_failed (Envelope.decode snapshot_codec envelope)
    rows ← map_err payload_failed (Runs.decode payload_codec payload)
    table_of_rows table_failed rows schema row_cap

  unfoldable pub restore_int64_table_payload_from_file :
      SnapshotFile IoError
      → SnapshotCodec
      → Int64TablePayloadCodec
      → Result (Int64TablePayloadFileRestoreError IoError) Int64Table
  restore_int64_table_payload_from_file file snapshot_codec payload_codec = do
    envelope ←
        map_err payload_restore_error
          (read_bounded_snapshot_file file snapshot_codec.max_payload_len)
    payload ← map_err envelope_failed (Envelope.decode snapshot_codec envelope)
    map_err payload_failed (Table.decode payload_codec payload)

  unfoldable pub restore_int64_table_from_file_with_backup :
      SnapshotFile IoError
      → SnapshotFile IoError
      → Schema
      → ℕ
      → SnapshotCodec
      → NullableI64PayloadCodec
      → Result (Int64TableFileRecoveryError IoError) Int64TableFileRecovery
  unfolding restore_int64_table_from_file
  restore_int64_table_from_file_with_backup file spare schema row_cap snapshot_codec payload_codec =
      elim (restore_int64_table_from_file file schema row_cap snapshot_codec payload_codec) [
        | ok table ↦ ok (recovered primary table)
        | err e ↦
            elim (restore_int64_table_from_file spare schema row_cap snapshot_codec payload_codec) [
              | ok table ↦ ok (recovered backup table)
              | err e' ↦ err (both_failed e e')
            ]
      ]

  unfoldable pub restore_int64_table_payload_from_file_with_backup :
      SnapshotFile IoError
      → SnapshotFile IoError
      → SnapshotCodec
      → Int64TablePayloadCodec
      → Result (Int64TablePayloadFileRecoveryError IoError) Int64TableFileRecovery
  unfolding restore_int64_table_payload_from_file
  restore_int64_table_payload_from_file_with_backup file spare snapshot_codec payload_codec =
      elim (restore_int64_table_payload_from_file file snapshot_codec payload_codec) [
        | ok table ↦ ok (recovered primary table)
        | err e ↦ elim (restore_int64_table_payload_from_file spare snapshot_codec payload_codec) [
          | ok table ↦ ok (recovered backup table)
          | err e' ↦ err (both_failed e e')
        ]
      ]
