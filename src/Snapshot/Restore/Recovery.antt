-- ===== src/Snapshot/Restore/Recovery.antt =====
-- src/snapshot.rs: what restoring gives for files that hold a saved table.
use rusthouse.Prelude.{
  ℕ, ◌≤◌, ◌≡◌, refl, ◌⊎◌, inl, inr, true, false, none, arith, ltb, u64_max, length, All, take_all,
  Result, ok, err, Result-cases,
}
use rusthouse.Prelude.Bytes.{Bytes}
use rusthouse.Prelude.Utf8.{utf8_error}
use rusthouse.Storage.{Int64Table, append_batch, column_name, new_table}
use rusthouse.Storage.Append.{IsValid}
use rusthouse.Snapshot.Rows
use rusthouse.Snapshot.Rows.{NullableI64PayloadCodec}
use rusthouse.Snapshot.Rows.RoundTrip.{decode-encode_payload}
use rusthouse.Order.Ranks.{IsNullableI64}
use rusthouse.Snapshot.Runs
use rusthouse.Snapshot.Runs.{NullableI64RlePayloadCodec}
use rusthouse.Snapshot.Runs.RoundTrip.{decode-encode_runs}
use rusthouse.Snapshot.Table
use rusthouse.Snapshot.Table.{Int64TablePayloadCodec}
use rusthouse.Snapshot.Table.RoundTrip.{decode-encode_table}
use rusthouse.Snapshot.Envelope
use rusthouse.Snapshot.Envelope.{SnapshotCodec}
use rusthouse.Snapshot.Envelope.RoundTrip.{decode-encode_envelope, length-encode_envelope}
use rusthouse.Snapshot.Restore.{
  Metadata, SnapshotFile, max_file_len, recovered, Int64TableFileRecovery, primary, backup,
  read_bounded_snapshot_file, restore_int64_table, restore_int64_table_from_file,
  restore_int64_table_rle_from_file, restore_int64_table_payload_from_file,
  restore_int64_table_from_file_with_backup, restore_int64_table_payload_from_file_with_backup,
}

module _ {IoError : Type 0} where
  -- A regular file with these bytes, which does not change while it is read.
  abbrev pub holding : Bytes → SnapshotFile IoError
  holding bytes =
      let asked : Result IoError Metadata = ok (record { is_file = true; len = length bytes }) in
      record {
        path_metadata = asked;
        open_result = ok tt;
        opened_metadata = asked;
        sized_metadata = asked;
        contents = ok bytes;
        final_metadata = asked;
      }

  read_holding :
      (bytes : Bytes) (n : ℕ)
      → length bytes ≤ max_file_len n
      → read_bounded_snapshot_file (holding bytes) n ≡ ok bytes
  unfolding read_bounded_snapshot_file
  read_holding bytes n h =
      let small : ltb (max_file_len n) (length bytes) ≡ false = ground arith in
      rw (small, take_all (max_file_len n) bytes h) refl

-- A recovery answers with the table of the first file, or with the saved table of the backup when
-- the first file cannot be restored.
abbrev pub Recovers :
    {E F : Type 0} → Result E Int64Table → Int64Table → Result F Int64TableFileRecovery → Type 0
Recovers {E} first t recovery =
    ((u : Int64Table) × (first ≡ ok u) × (recovery ≡ ok (recovered primary u)))
    ⊎ ((e : E) × (first ≡ err e) × (recovery ≡ ok (recovered backup t)))

-- The rows of a table, appended to an empty one of its schema and cap.
refill :
    (t : Int64Table) → IsValid t → append_batch t.values (new_table t.schema t.row_cap) ≡ (t, ok tt)
unfolding append_batch
refill t v = let capped = v.capped in let nulls = v.nulls in ground arith

restore_rows :
    (snapshot_codec : SnapshotCodec) (codec : NullableI64PayloadCodec) (t : Int64Table)
    (payload envelope : Bytes)
    → Envelope.encode snapshot_codec payload ≡ ok envelope
    → All IsNullableI64 t.values
    → IsValid t
    → Rows.encode codec t.values ≡ ok payload
    → restore_int64_table envelope t.schema t.row_cap snapshot_codec codec ≡ ok t
unfolding restore_int64_table
restore_rows snapshot_codec codec t payload envelope saved a v h =
    rw
      (
        decode-encode_envelope snapshot_codec payload envelope saved,
        decode-encode_payload codec t.values payload a h,
        refill t v,
      )
      refl

module _ {IoError : Type 0} (snapshot_codec : SnapshotCodec) (t : Int64Table)
    (payload envelope : Bytes) (saved : Envelope.encode snapshot_codec payload ≡ ok envelope) where
  abbrev file : SnapshotFile IoError
  file = holding envelope

  read_file : read_bounded_snapshot_file file snapshot_codec.max_payload_len ≡ ok envelope
  read_file =
      read_holding envelope snapshot_codec.max_payload_len
        (length-encode_envelope snapshot_codec payload envelope saved)

  module _ (a : All IsNullableI64 t.values) (v : IsValid t) where
    -- A file of saved rows is restored to the table under its schema and cap.
    pub restore_int64_table_from_file_saved :
        (codec : NullableI64PayloadCodec)
        → Rows.encode codec t.values ≡ ok payload
        → restore_int64_table_from_file file t.schema t.row_cap snapshot_codec codec ≡ ok t
    unfolding restore_int64_table_from_file
    restore_int64_table_from_file_saved codec h =
        rw (read_file, restore_rows snapshot_codec codec t payload envelope saved a v h) refl

    -- A file that holds the envelope of the run-length encoded rows of a table, and does not
    -- change while it is read, is restored to that table under its schema and cap, where the
    -- table is well formed, its rows are 64-bit values or NULL and the row bound of the codec is
    -- a 64-bit size.
    pub restore_int64_table_rle_from_file_saved :
        (codec : NullableI64RlePayloadCodec)
        → codec.max_rows ≤ u64_max
        → Runs.encode codec t.values ≡ ok payload
        → restore_int64_table_rle_from_file file t.schema t.row_cap snapshot_codec codec ≡ ok t
    unfolding restore_int64_table_rle_from_file
    restore_int64_table_rle_from_file_saved codec wide h =
        rw
          (
            read_file,
            decode-encode_envelope snapshot_codec payload envelope saved,
            decode-encode_runs codec t.values payload wide a h,
            refill t v,
          )
          refl

    -- A file of a saved table is restored to that table.
    pub restore_int64_table_payload_from_file_saved :
        (codec : Int64TablePayloadCodec)
        → codec.max_rows ≤ u64_max
        → utf8_error (column_name t) ≡ none
        → Table.encode codec t ≡ ok payload
        → restore_int64_table_payload_from_file file snapshot_codec codec ≡ ok t
    unfolding restore_int64_table_payload_from_file
    restore_int64_table_payload_from_file_saved codec wide valid h =
        rw
          (
            read_file,
            decode-encode_envelope snapshot_codec payload envelope saved,
            decode-encode_table codec t payload wide v a valid h,
          )
          refl

    -- A backup of saved rows is recovered where the first file cannot be restored.
    pub restore_int64_table_from_file_with_backup-Recovers :
        (codec : NullableI64PayloadCodec) (first : SnapshotFile IoError)
        → Rows.encode codec t.values ≡ ok payload
        → Recovers (restore_int64_table_from_file first t.schema t.row_cap snapshot_codec codec) t (
            restore_int64_table_from_file_with_backup first file t.schema t.row_cap snapshot_codec
              codec)
    unfolding restore_int64_table_from_file_with_backup
    restore_int64_table_from_file_with_backup-Recovers codec first h =
        let spare = restore_int64_table_from_file_saved codec h in
        elim (Result-cases
          (restore_int64_table_from_file first t.schema t.row_cap snapshot_codec codec)) [
            | inl (u, e) ↦ inl (u, e, rw (restore_int64_table_from_file_with_backup, e) refl)
            | inr (failure, e) ↦
                inr (failure, e, rw (restore_int64_table_from_file_with_backup, e, spare) refl)
          ]

    -- If the backup file holds the envelope of the payload of a table and does not change while
    -- it is read, the recovery succeeds whatever the first file answers: with the table of the
    -- first file and the source primary if that file can be restored, and otherwise with the
    -- saved table and the source backup. The table is well formed, its rows are 64-bit values or
    -- NULL, its column name is UTF-8 and the row bound of the codec is a 64-bit size.
    pub restore_int64_table_payload_from_file_with_backup-Recovers :
        (codec : Int64TablePayloadCodec) (first : SnapshotFile IoError)
        → codec.max_rows ≤ u64_max
        → utf8_error (column_name t) ≡ none
        → Table.encode codec t ≡ ok payload
        → Recovers
            (restore_int64_table_payload_from_file first snapshot_codec codec)
            t
            (restore_int64_table_payload_from_file_with_backup first file snapshot_codec codec)
    unfolding restore_int64_table_payload_from_file_with_backup
    restore_int64_table_payload_from_file_with_backup-Recovers codec first wide valid h =
        let spare = restore_int64_table_payload_from_file_saved codec wide valid h in
        elim (Result-cases (restore_int64_table_payload_from_file first snapshot_codec codec)) [
          | inl (u, e) ↦ inl (u, e, rw (restore_int64_table_payload_from_file_with_backup, e) refl)
          | inr (failure, e) ↦
              inr
                (failure, e, rw (restore_int64_table_payload_from_file_with_backup, e, spare) refl)
        ]
