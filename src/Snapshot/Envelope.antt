-- ===== src/Snapshot/Envelope.antt =====
-- src/snapshot.rs: the versioned envelope of a payload, with its CRC-32. A `usize` is a `u64`.
pub mod RoundTrip
use rusthouse.Prelude.{
  ℕ, zero, suc, ◌-◌, ◌/◌, ◌%◌, ◌^◌, not, ◌||◌, [], ◌∷◌, ◌++◌, ltb, ◌==◌, checked_add, u64_max,
  length, Result, ok, ◌>>=◌, ◌>>◌, ok_or, reject_if,
}
use rusthouse.Prelude.Bytes.{Bytes, bytes_eq}
use rusthouse.Prelude.{bit_and, bit_xor}
use rusthouse.Snapshot.Words.{to_le_bytes, from_le_bytes, read_array}

pub record SnapshotCodec : Type 0 where
  pub max_payload_len : ℕ

pub data SnapshotError : Type 0 where
  payload_too_large : (payload_len max_payload_len : ℕ) → SnapshotError
  truncated : (expected_len actual_len : ℕ) → SnapshotError
  incompatible_magic : (found : Bytes) → SnapshotError
  unsupported_version : (found supported : ℕ) → SnapshotError
  trailing_bytes : (expected_len actual_len : ℕ) → SnapshotError
  checksum_mismatch : (expected actual : ℕ) → SnapshotError

-- `b"RHOUSESN"`
abbrev pub magic : Bytes
magic = b'R' ∷ b'H' ∷ b'O' ∷ b'U' ∷ b'S' ∷ b'E' ∷ b'S' ∷ b'N' ∷ []

abbrev pub version : ℕ
version = 1

abbrev pub envelope_header_len : ℕ
envelope_header_len = 22

-- One bit of the checksum: `0_u32.wrapping_sub(checksum & 1)` masks the polynomial.
abbrev pub crc_bit : ℕ → ℕ
crc_bit c = bit_xor (c / 2) (bit_and 3988292384 ((2 ^ 32 - bit_and c 1) % 2 ^ 32))

unfoldable pub crc_bits : ℕ → ℕ → ℕ
crc_bits zero c = c
crc_bits (suc n) c = crc_bits n (crc_bit c)

unfoldable pub crc_loop : ℕ → Bytes → ℕ
crc_loop c [] = c
crc_loop c (b ∷ bs) = crc_loop (crc_bits 8 (bit_xor c b)) bs

unfoldable pub crc32 : Bytes → ℕ
crc32 bytes = 2 ^ 32 - 1 - crc_loop (2 ^ 32 - 1) bytes

unfoldable pub encode : SnapshotCodec → Bytes → Result SnapshotError Bytes
encode codec payload = do
  let payload_len = length payload
  reject_if (ltb codec.max_payload_len payload_len || payload_len == u64_max)
      (payload_too_large payload_len codec.max_payload_len)
  ok_or (checked_add envelope_header_len payload_len)
      (payload_too_large payload_len codec.max_payload_len)
  ok (
      magic
      ++ (to_le_bytes 2 version
          ++ (to_le_bytes 8 payload_len ++ (to_le_bytes 4 (crc32 payload) ++ payload))))

unfoldable pub decode : SnapshotCodec → Bytes → Result SnapshotError Bytes
decode codec envelope = do
  let len = length envelope
  reject_if (ltb len envelope_header_len) (truncated envelope_header_len len)
  let found_magic = read_array 8 envelope 0
  reject_if (not (bytes_eq found_magic magic)) (incompatible_magic found_magic)
  let found_version = from_le_bytes (read_array 2 envelope 8)
  reject_if (not (found_version == version)) (unsupported_version found_version version)
  let payload_len = from_le_bytes (read_array 8 envelope 10)
  reject_if (ltb codec.max_payload_len payload_len)
      (payload_too_large payload_len codec.max_payload_len)
  expected_len ←
      ok_or (checked_add envelope_header_len payload_len)
        (payload_too_large payload_len codec.max_payload_len)
  reject_if (ltb len expected_len) (truncated expected_len len)
  reject_if (ltb expected_len len) (trailing_bytes expected_len len)
  let expected_checksum = from_le_bytes (read_array 4 envelope 18)
  let payload = read_array payload_len envelope envelope_header_len
  let actual_checksum = crc32 payload
  reject_if (not (actual_checksum == expected_checksum))
      (checksum_mismatch expected_checksum actual_checksum)
  ok payload
