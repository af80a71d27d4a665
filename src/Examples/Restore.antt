-- ===== src/Examples/Restore.antt =====
-- Snapshot files that hold a saved table of three rows.
use rusthouse.Prelude.{ℕ, ◌≡◌, refl, true, none, some, [], ◌∷◌, arith, All, ok, err}
use rusthouse.Prelude.Int.{negsuc}
use rusthouse.Prelude.Bytes.{Bytes}
use rusthouse.Prelude.Utf8.{utf8_error}
use rusthouse.Storage.{Int64Table, int64_schema}
use rusthouse.Storage.Append.{IsValid}
use rusthouse.Order.Ranks.{IsNullableI64}
use rusthouse.Snapshot.Words.{to_le_bytes}
use rusthouse.Snapshot.Rows
use rusthouse.Snapshot.Rows.{NullableI64PayloadCodec}
use rusthouse.Snapshot.Runs
use rusthouse.Snapshot.Runs.{NullableI64RlePayloadCodec, encode_runs_after, count_runs_after}
use rusthouse.Snapshot.Table
use rusthouse.Snapshot.Table.{Int64TablePayloadCodec}
use rusthouse.Snapshot.Table.RoundTrip.{decode-encode_table}
use rusthouse.Snapshot.Envelope
use rusthouse.Snapshot.Envelope.{SnapshotCodec, crc32, crc_loop, crc_bits}
use rusthouse.Snapshot.Restore.{
  SnapshotFile, read_bounded_snapshot_file, restore_int64_table_rle_from_file,
  restore_int64_table_payload_from_file, restore_int64_table_payload_from_file_with_backup,
}
use rusthouse.Snapshot.Restore.Recovery.{
  holding, Recovers, restore_int64_table_rle_from_file_saved,
  restore_int64_table_payload_from_file_with_backup-Recovers,
}

abbrev table : Int64Table
table = record {
  schema = int64_schema (b'v' ∷ []) true;
  values = some (negsuc 6) ∷ none ∷ none ∷ [];
  row_cap = 3;
}

table-IsValid : IsValid table
table-IsValid = ground arith

values-IsNullableI64 : All IsNullableI64 table.values
values-IsNullableI64 = (omega arith, (tt, (tt, tt)))

name_valid : utf8_error (b'v' ∷ []) ≡ none
unfolding utf8_error
name_valid = refl

abbrev snapshot_codec : SnapshotCodec
snapshot_codec = record { max_payload_len = 64 }

abbrev row_codec : NullableI64PayloadCodec
row_codec = record { max_rows = 3; max_payload_len = 19 }

abbrev rle_codec : NullableI64RlePayloadCodec
rle_codec = record { max_rows = 3; max_runs = 2; max_payload_len = 52 }

abbrev table_codec : Int64TablePayloadCodec
table_codec = record { max_name_len = 1; max_rows = 3; max_payload_len = 48 }

abbrev row_payload : Bytes
row_payload =
    3 ∷ 0 ∷ 0 ∷ 0 ∷ 0 ∷ 0 ∷ 0 ∷ 0 ∷ 1 ∷ 249 ∷ 255 ∷ 255 ∷ 255 ∷ 255 ∷ 255 ∷ 255 ∷ 255 ∷ 0 ∷ 0 ∷ []

abbrev row_envelope : Bytes
row_envelope =
    82 ∷ 72 ∷ 79 ∷ 85 ∷ 83 ∷ 69 ∷ 83 ∷ 78 ∷ 1 ∷ 0 ∷ 19 ∷ 0 ∷ 0 ∷ 0 ∷ 0 ∷ 0 ∷ 0 ∷ 0 ∷ 148 ∷ 41 ∷ 134
    ∷ 231 ∷ 3 ∷ 0 ∷ 0 ∷ 0 ∷ 0 ∷ 0 ∷ 0 ∷ 0 ∷ 1 ∷ 249 ∷ 255 ∷ 255 ∷ 255 ∷ 255 ∷ 255 ∷ 255 ∷ 255 ∷ 0
    ∷ 0 ∷ []

row_payload_encoded : Rows.encode row_codec table.values ≡ ok row_payload
unfolding Rows.encode Rows.fold_len Rows.encode_rows to_le_bytes
row_payload_encoded = refl

row_envelope_encoded : Envelope.encode snapshot_codec row_payload ≡ ok row_envelope
unfolding Envelope.encode to_le_bytes crc32 crc_loop crc_bits
row_envelope_encoded = refl

abbrev rle_payload : Bytes
rle_payload =
    82 ∷ 72 ∷ 78 ∷ 82 ∷ 76 ∷ 69 ∷ 80 ∷ 0 ∷ 1 ∷ 0 ∷ 3 ∷ 0 ∷ 0 ∷ 0 ∷ 0 ∷ 0 ∷ 0 ∷ 0 ∷ 2 ∷ 0 ∷ 0 ∷ 0 ∷ 0
    ∷ 0 ∷ 0 ∷ 0 ∷ 1 ∷ 1 ∷ 0 ∷ 0 ∷ 0 ∷ 0 ∷ 0 ∷ 0 ∷ 0 ∷ 249 ∷ 255 ∷ 255 ∷ 255 ∷ 255 ∷ 255 ∷ 255 ∷ 255
    ∷ 0 ∷ 2 ∷ 0 ∷ 0 ∷ 0 ∷ 0 ∷ 0 ∷ 0 ∷ 0 ∷ []

abbrev rle_envelope : Bytes
rle_envelope =
    82 ∷ 72 ∷ 79 ∷ 85 ∷ 83 ∷ 69 ∷ 83 ∷ 78 ∷ 1 ∷ 0 ∷ 52 ∷ 0 ∷ 0 ∷ 0 ∷ 0 ∷ 0 ∷ 0 ∷ 0 ∷ 92 ∷ 56 ∷ 137
    ∷ 46 ∷ 82 ∷ 72 ∷ 78 ∷ 82 ∷ 76 ∷ 69 ∷ 80 ∷ 0 ∷ 1 ∷ 0 ∷ 3 ∷ 0 ∷ 0 ∷ 0 ∷ 0 ∷ 0 ∷ 0 ∷ 0 ∷ 2 ∷ 0 ∷ 0
    ∷ 0 ∷ 0 ∷ 0 ∷ 0 ∷ 0 ∷ 1 ∷ 1 ∷ 0 ∷ 0 ∷ 0 ∷ 0 ∷ 0 ∷ 0 ∷ 0 ∷ 249 ∷ 255 ∷ 255 ∷ 255 ∷ 255 ∷ 255
    ∷ 255 ∷ 255 ∷ 0 ∷ 2 ∷ 0 ∷ 0 ∷ 0 ∷ 0 ∷ 0 ∷ 0 ∷ 0 ∷ []

rle_payload_encoded : Runs.encode rle_codec table.values ≡ ok rle_payload
unfolding Runs.encode encode_runs_after count_runs_after to_le_bytes
rle_payload_encoded = refl

rle_envelope_encoded : Envelope.encode snapshot_codec rle_payload ≡ ok rle_envelope
unfolding Envelope.encode to_le_bytes crc32 crc_loop crc_bits
rle_envelope_encoded = refl

abbrev table_payload : Bytes
table_payload =
    82 ∷ 72 ∷ 73 ∷ 84 ∷ 66 ∷ 76 ∷ 80 ∷ 0 ∷ 1 ∷ 0 ∷ 1 ∷ 1 ∷ 1 ∷ 0 ∷ 0 ∷ 0 ∷ 0 ∷ 0 ∷ 0 ∷ 0 ∷ 118 ∷ 3
    ∷ 0 ∷ 0 ∷ 0 ∷ 0 ∷ 0 ∷ 0 ∷ 0 ∷ 3 ∷ 0 ∷ 0 ∷ 0 ∷ 0 ∷ 0 ∷ 0 ∷ 0 ∷ 1 ∷ 249 ∷ 255 ∷ 255 ∷ 255 ∷ 255
    ∷ 255 ∷ 255 ∷ 255 ∷ 0 ∷ 0 ∷ []

abbrev table_envelope : Bytes
table_envelope =
    82 ∷ 72 ∷ 79 ∷ 85 ∷ 83 ∷ 69 ∷ 83 ∷ 78 ∷ 1 ∷ 0 ∷ 48 ∷ 0 ∷ 0 ∷ 0 ∷ 0 ∷ 0 ∷ 0 ∷ 0 ∷ 31 ∷ 68 ∷ 48
    ∷ 249 ∷ 82 ∷ 72 ∷ 73 ∷ 84 ∷ 66 ∷ 76 ∷ 80 ∷ 0 ∷ 1 ∷ 0 ∷ 1 ∷ 1 ∷ 1 ∷ 0 ∷ 0 ∷ 0 ∷ 0 ∷ 0 ∷ 0 ∷ 0
    ∷ 118 ∷ 3 ∷ 0 ∷ 0 ∷ 0 ∷ 0 ∷ 0 ∷ 0 ∷ 0 ∷ 3 ∷ 0 ∷ 0 ∷ 0 ∷ 0 ∷ 0 ∷ 0 ∷ 0 ∷ 1 ∷ 249 ∷ 255 ∷ 255
    ∷ 255 ∷ 255 ∷ 255 ∷ 255 ∷ 255 ∷ 0 ∷ 0 ∷ []

table_payload_encoded : Table.encode table_codec table ≡ ok table_payload
unfolding Table.encode Rows.fold_len Rows.encode_rows to_le_bytes
table_payload_encoded = refl

table_envelope_encoded : Envelope.encode snapshot_codec table_payload ≡ ok table_envelope
unfolding Envelope.encode to_le_bytes crc32 crc_loop crc_bits
table_envelope_encoded = refl

decode-encode_table_example : Table.decode table_codec table_payload ≡ ok table
decode-encode_table_example =
    decode-encode_table table_codec table table_payload (omega arith) table-IsValid
      values-IsNullableI64 name_valid table_payload_encoded

-- The error of the operating system is a code.
abbrev file : Bytes → SnapshotFile ℕ
file = holding

abbrev missing : SnapshotFile ℕ
missing = record (file []) { path_metadata = err 2 }

read_row_file : read_bounded_snapshot_file (file row_envelope) 64 ≡ ok row_envelope
unfolding read_bounded_snapshot_file
read_row_file = refl

restore_int64_table_rle_from_file_saved_example :
    restore_int64_table_rle_from_file (file rle_envelope) table.schema 3 snapshot_codec rle_codec
    ≡ ok table
restore_int64_table_rle_from_file_saved_example =
    restore_int64_table_rle_from_file_saved snapshot_codec table rle_payload rle_envelope
      rle_envelope_encoded values-IsNullableI64 table-IsValid rle_codec (omega arith)
      rle_payload_encoded

restore_int64_table_payload_from_file_with_backup-Recovers_example :
    Recovers (restore_int64_table_payload_from_file missing snapshot_codec table_codec) table (
      restore_int64_table_payload_from_file_with_backup missing
        (file table_envelope)
        snapshot_codec
        table_codec)
restore_int64_table_payload_from_file_with_backup-Recovers_example =
    restore_int64_table_payload_from_file_with_backup-Recovers snapshot_codec table table_payload
      table_envelope table_envelope_encoded values-IsNullableI64 table-IsValid table_codec missing
      (omega arith) name_valid table_payload_encoded
