-- ===== src/Snapshot/Table/Bounds.antt =====
-- What a payload that decodes says about its table, whatever its bytes are.
use rusthouse.Prelude.{◌+◌, ◌≤◌, ◌≡◌, none, length}
use rusthouse.Prelude.Bytes.{Bytes}
use rusthouse.Prelude.Utf8.{utf8_error}
use rusthouse.Storage.{Int64Table, column_name}
use rusthouse.Storage.Append.{IsValid}
use rusthouse.Snapshot.Words.{from_le_bytes, read_array}
use rusthouse.Snapshot.Table.{Int64TablePayloadCodec}

-- A table that a payload decodes to: it is well formed, its name and its cap are within the bounds
-- of the codec, its name is UTF-8, its rows are as many as the payload declares, and each of them
-- takes a byte of the payload.
pub record Decodes (codec : Int64TablePayloadCodec) (payload : Bytes) (t : Int64Table)
    : Type 0 where
  pub well_formed : IsValid t
  pub name_bound : length (column_name t) ≤ codec.max_name_len
  pub name_text : utf8_error (column_name t) ≡ none
  pub cap_bound : t.row_cap ≤ codec.max_rows
  pub declared :
      from_le_bytes (read_array 8 payload (28 + length (column_name t))) ≡ length t.values
  pub rows_bound : 36 + length (column_name t) + length t.values ≤ length payload
  pub payload_bound : length payload ≤ codec.max_payload_len
