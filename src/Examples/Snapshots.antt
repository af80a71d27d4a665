-- ===== src/Examples/Snapshots.antt =====
-- Payloads and envelopes of three rows.
use rusthouse.Prelude.{◌≡◌, refl, Option, none, some, List, [], ◌∷◌, arith, All, ok}
use rusthouse.Prelude.Int.{ℤ, negsuc}
use rusthouse.Prelude.Bytes.{Bytes, bytes_eq}
use rusthouse.Snapshot.Words.{to_le_bytes, from_le_bytes, read_array, IsByte}
use rusthouse.Snapshot.Rows
use rusthouse.Snapshot.Rows.{NullableI64PayloadCodec}
use rusthouse.Snapshot.Rows.RoundTrip.{decode-encode_payload}
use rusthouse.Snapshot.Envelope
use rusthouse.Snapshot.Envelope.{SnapshotCodec, crc32, crc_loop, crc_bits}
use rusthouse.Snapshot.Envelope.RoundTrip.{decode-encode_envelope, encode-decode_envelope}
use rusthouse.Snapshot.Runs
use rusthouse.Snapshot.Runs.{NullableI64RlePayloadCodec, encode_runs_after, count_runs_after}
use rusthouse.Snapshot.Runs.RoundTrip.{decode-encode_runs}

abbrev rows : List (Option ℤ)
rows = some (negsuc 6) ∷ none ∷ none ∷ []

abbrev row_codec : NullableI64PayloadCodec
row_codec = record { max_rows = 3; max_payload_len = 19 }

abbrev row_payload : Bytes
row_payload =
    3 ∷ 0 ∷ 0 ∷ 0 ∷ 0 ∷ 0 ∷ 0 ∷ 0 ∷ 1 ∷ 249 ∷ 255 ∷ 255 ∷ 255 ∷ 255 ∷ 255 ∷ 255 ∷ 255 ∷ 0 ∷ 0 ∷ []

rows_encoded : Rows.encode row_codec rows ≡ ok row_payload
unfolding Rows.encode Rows.fold_len Rows.encode_rows to_le_bytes
rows_encoded = refl

decode-encode_payload_example : Rows.decode row_codec row_payload ≡ ok rows
decode-encode_payload_example =
    decode-encode_payload row_codec rows row_payload (omega arith, (tt, (tt, tt))) rows_encoded

-- The check value of CRC-32/ISO-HDLC.
crc32_check : crc32 (b'1' ∷ b'2' ∷ b'3' ∷ b'4' ∷ b'5' ∷ b'6' ∷ b'7' ∷ b'8' ∷ b'9' ∷ []) ≡ 3421780262
unfolding crc32 crc_loop crc_bits
crc32_check = refl

abbrev snapshot_codec : SnapshotCodec
snapshot_codec = record { max_payload_len = 2 }

abbrev payload : Bytes
payload = b'o' ∷ b'k' ∷ []

abbrev envelope : Bytes
envelope =
    b'R' ∷ b'H' ∷ b'O' ∷ b'U' ∷ b'S' ∷ b'E' ∷ b'S' ∷ b'N' ∷ 1 ∷ 0 ∷ 2 ∷ 0 ∷ 0 ∷ 0 ∷ 0 ∷ 0 ∷ 0 ∷ 0
    ∷ 71 ∷ 221 ∷ 220 ∷ 121 ∷ b'o' ∷ b'k' ∷ []

envelope_encoded : Envelope.encode snapshot_codec payload ≡ ok envelope
unfolding Envelope.encode to_le_bytes crc32 crc_loop crc_bits
envelope_encoded = refl

decode-encode_envelope_example : Envelope.decode snapshot_codec envelope ≡ ok payload
decode-encode_envelope_example =
    decode-encode_envelope snapshot_codec payload envelope envelope_encoded

envelope_decoded : Envelope.decode snapshot_codec envelope ≡ ok payload
unfolding Envelope.decode from_le_bytes read_array crc32 crc_loop crc_bits bytes_eq
envelope_decoded = refl

envelope_bytes : All IsByte envelope
envelope_bytes = ground arith

encode-decode_envelope_example : Envelope.encode snapshot_codec payload ≡ ok envelope
encode-decode_envelope_example =
    encode-decode_envelope snapshot_codec envelope payload envelope_bytes envelope_decoded

abbrev rle_codec : NullableI64RlePayloadCodec
rle_codec = record { max_rows = 3; max_runs = 2; max_payload_len = 52 }

abbrev rle_payload : Bytes
rle_payload =
    b'R' ∷ b'H' ∷ b'N' ∷ b'R' ∷ b'L' ∷ b'E' ∷ b'P' ∷ 0 ∷ 1 ∷ 0 ∷ 3 ∷ 0 ∷ 0 ∷ 0 ∷ 0 ∷ 0 ∷ 0 ∷ 0 ∷ 2
    ∷ 0 ∷ 0 ∷ 0 ∷ 0 ∷ 0 ∷ 0 ∷ 0 ∷ 1 ∷ 1 ∷ 0 ∷ 0 ∷ 0 ∷ 0 ∷ 0 ∷ 0 ∷ 0 ∷ 249 ∷ 255 ∷ 255 ∷ 255 ∷ 255
    ∷ 255 ∷ 255 ∷ 255 ∷ 0 ∷ 2 ∷ 0 ∷ 0 ∷ 0 ∷ 0 ∷ 0 ∷ 0 ∷ 0 ∷ []

runs_encoded : Runs.encode rle_codec rows ≡ ok rle_payload
unfolding Runs.encode encode_runs_after count_runs_after to_le_bytes
runs_encoded = refl

decode-encode_runs_example : Runs.decode rle_codec rle_payload ≡ ok rows
decode-encode_runs_example =
    decode-encode_runs rle_codec rows rle_payload (omega arith) (omega arith, (tt, (tt, tt)))
      runs_encoded
