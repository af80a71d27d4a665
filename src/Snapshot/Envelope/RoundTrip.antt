-- ===== src/Snapshot/Envelope/RoundTrip.antt =====
-- The decoder accepts exactly what the encoder writes.
use rusthouse.Prelude.{
  ℕ, ◌+◌, ◌≤◌, ◌<◌, ◌≡◌, refl, sym, ap, ◌∙◌, ◌++◌, arith, u64_max, length, saturating_add, drop,
  All, take_all, ok,
}
use rusthouse.Prelude.Bytes.{Bytes, bytes_eq_iff, bytes_eq_refl}
use mathlib.Core.Path.{ap₂}
use rusthouse.Snapshot.Words.{
  to_le_bytes, from_le_bytes, read_array, capacity, from_le_bytes-to_le_bytes,
  to_le_bytes-from_le_bytes, read_array-drop, IsByte, All-read_array, length-read_array,
  read_array_end,
}
use rusthouse.Snapshot.Envelope.{SnapshotCodec, magic, version, crc32, encode, decode}

-- The envelope of a payload with a length and a checksum.
abbrev pub envelope_of : ℕ → ℕ → Bytes → Bytes
envelope_of len checksum payload =
    magic ++ (to_le_bytes 2 version ++ (to_le_bytes 8 len ++ (to_le_bytes 4 checksum ++ payload)))

crc32_bound : (payload : Bytes) → crc32 payload < capacity 4
unfolding crc32
crc32_bound payload = omega arith

module _ (len checksum : ℕ) (payload : Bytes) where
  abbrev e : Bytes
  e = envelope_of len checksum payload

  length-envelope_of : length e ≡ 22 + length payload
  unfolding to_le_bytes
  length-envelope_of = omega arith

  envelope_of_magic : read_array 8 e 0 ≡ magic
  unfolding to_le_bytes read_array
  envelope_of_magic = refl

  envelope_of_version : read_array 2 e 8 ≡ to_le_bytes 2 version
  unfolding to_le_bytes read_array
  envelope_of_version = refl

  envelope_of_len : read_array 8 e 10 ≡ to_le_bytes 8 len
  unfolding to_le_bytes read_array
  envelope_of_len = refl

  envelope_of_checksum : read_array 4 e 18 ≡ to_le_bytes 4 checksum
  unfolding to_le_bytes read_array
  envelope_of_checksum = refl

  envelope_of_payload : read_array (length payload) e 22 ≡ payload
  unfolding to_le_bytes read_array
  envelope_of_payload = take_all (length payload) payload (omega arith)

encode-parts :
    (codec : SnapshotCodec) (payload envelope : Bytes)
    → encode codec payload ≡ ok envelope
    → (envelope ≡ envelope_of (length payload) (crc32 payload) payload)
      × (length payload ≤ codec.max_payload_len)
      × (22 + length payload ≤ u64_max)
unfolding encode
encode-parts codec payload envelope h = ground arith

-- An envelope is as long as its header and payload, within the bound of the file.
pub length-encode_envelope :
    (codec : SnapshotCodec) (payload envelope : Bytes)
    → encode codec payload ≡ ok envelope
    → length envelope ≤ saturating_add 22 codec.max_payload_len
length-encode_envelope codec payload envelope h =
    let (q, short, fits) = encode-parts codec payload envelope h in
    rw q (rw (length-envelope_of (length payload) (crc32 payload) payload) (ground arith))

-- Decoding an envelope that was encoded gives back its payload.
pub decode-encode_envelope :
    (codec : SnapshotCodec) (payload envelope : Bytes)
    → encode codec payload ≡ ok envelope
    → decode codec envelope ≡ ok payload
unfolding decode
decode-encode_envelope codec payload envelope h =
    let (q, short, fits) = encode-parts codec payload envelope h in
    let len = length payload in
    let sum = crc32 payload in
    rw
      (
        q,
        length-envelope_of len sum payload,
        envelope_of_magic len sum payload,
        envelope_of_version len sum payload,
        envelope_of_len len sum payload,
        envelope_of_checksum len sum payload,
        from_le_bytes-to_le_bytes 2 version (omega arith),
        from_le_bytes-to_le_bytes 8 len (omega arith),
        from_le_bytes-to_le_bytes 4 sum (crc32_bound payload),
        envelope_of_payload len sum payload,
        bytes_eq_refl magic,
      )
      (ground arith)

-- A word read from an envelope is what the encoder writes for its value.
word_of_read :
    (n offset : ℕ) (envelope : Bytes)
    → All IsByte envelope
    → offset + n ≤ length envelope
    → to_le_bytes n (from_le_bytes (read_array n envelope offset)) ≡ read_array n envelope offset
word_of_read n offset envelope a h =
    rw (length-read_array n envelope offset h) at (
      to_le_bytes-from_le_bytes (read_array n envelope offset) (All-read_array n envelope offset a))

-- An envelope is its five parts.
envelope_split :
    (envelope : Bytes)
    → envelope
      ≡ read_array 8 envelope 0
        ++ (read_array 2 envelope 8
            ++ (read_array 8 envelope 10 ++ (read_array 4 envelope 18 ++ drop 22 envelope)))
envelope_split envelope =
    read_array-drop 8 0 8 envelope refl
    ∙ ap (λ t. read_array 8 envelope 0 ++ t)
        (read_array-drop 2 8 10 envelope refl
          ∙ ap (λ t. read_array 2 envelope 8 ++ t)
              (read_array-drop 8 10 18 envelope refl
                ∙ ap (λ t. read_array 8 envelope 10 ++ t) (read_array-drop 4 18 22 envelope refl)))

-- What the decoder has checked when it accepts.
decode-parts :
    (codec : SnapshotCodec) (envelope payload : Bytes)
    → decode codec envelope ≡ ok payload
    → let len = from_le_bytes (read_array 8 envelope 10) in
      (read_array 8 envelope 0 ≡ magic)
      × (from_le_bytes (read_array 2 envelope 8) ≡ version)
      × (len ≤ codec.max_payload_len)
      × (22 + len ≤ u64_max)
      × (length envelope ≡ 22 + len)
      × (payload ≡ read_array len envelope 22)
      × (from_le_bytes (read_array 4 envelope 18) ≡ crc32 payload)
unfolding decode
decode-parts codec envelope payload h = ground (arith, bytes_eq_iff (read_array 8 envelope 0) magic)

-- The accepted envelope is the one of its payload.
accepted_envelope :
    (codec : SnapshotCodec) (envelope payload : Bytes)
    → All IsByte envelope
    → decode codec envelope ≡ ok payload
    → (envelope_of (length payload) (crc32 payload) payload ≡ envelope)
      × (length payload ≤ codec.max_payload_len)
      × (22 + length payload ≤ u64_max)
accepted_envelope codec envelope payload a h =
    let (m, v, short, fits, total, p, sum) = decode-parts codec envelope payload h in
    let len = from_le_bytes (read_array 8 envelope 10) in
    let plen : length payload ≡ len =
      ap length p ∙ length-read_array len envelope 22 (omega arith) in
    let whole : payload ≡ drop 22 envelope = p ∙ read_array_end len 22 envelope (omega arith) in
    let ver = ap (to_le_bytes 2) (sym v) ∙ word_of_read 2 8 envelope a (omega arith) in
    let size = ap (to_le_bytes 8) plen ∙ word_of_read 8 10 envelope a (omega arith) in
    let crc = ap (to_le_bytes 4) (sym sum) ∙ word_of_read 4 18 envelope a (omega arith) in
    (
      ap₂ ◌++◌ (sym m) (ap₂ ◌++◌ ver (ap₂ ◌++◌ size (ap₂ ◌++◌ crc whole)))
          ∙ sym (envelope_split envelope),
      omega arith,
      omega arith,
    )

-- An envelope of bytes that the decoder accepts is exactly what the encoder writes for the
-- decoded payload, so no other magic, version, length or checksum is accepted.
pub encode-decode_envelope :
    (codec : SnapshotCodec) (envelope payload : Bytes)
    → All IsByte envelope
    → decode codec envelope ≡ ok payload
    → encode codec payload ≡ ok envelope
unfolding encode
encode-decode_envelope codec envelope payload a h =
    let (same, short, fits) = accepted_envelope codec envelope payload a h in ground arith
