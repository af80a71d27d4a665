-- ===== src/Prelude/Utf8.antt =====
-- `std::str::from_utf8`: where a byte string stops being UTF-8, and how many bytes are wrong.
use rusthouse.Prelude.Tests.{leb, ◌==◌, if◌then◌else◌}
use rusthouse.Prelude.Bytes.{Bytes}
use Prim.Native.Nat.{ℕ, zero, suc, ◌+◌}
use mathlib.Core.Bool.{Bool, ◌&&◌}
use mathlib.Core.Option.{Option, none, some}
use mathlib.Core.List.{[], ◌∷◌}

-- A character in progress: the bytes read of it, the bytes that it wants, and the range of the next.
pub record Utf8State : Type 0 where
  pub valid_up_to : ℕ
  pub seen : ℕ
  pub wanted : ℕ
  pub low : ℕ
  pub high : ℕ

abbrev between : ℕ → ℕ → ℕ → Bool
between low high b = leb low b && leb b high

abbrev start_at : ℕ → Utf8State
start_at n = record { valid_up_to = n; seen = 0; wanted = 0; low = 128; high = 191 }

abbrev lead : ℕ → ℕ → ℕ → ℕ → Option Utf8State
lead n wanted low high =
    some (record { valid_up_to = n; seen = 1; wanted = wanted; low = low; high = high })

-- The first byte of a character.
unfoldable pub first_byte : ℕ → ℕ → Option Utf8State
first_byte n b =
    if leb b 127
    then some (start_at (n + 1))
    else if between 194 223 b
    then lead n 1 128 191
    else if b == 224
    then lead n 2 160 191
    else if b == 237
    then lead n 2 128 159
    else if between 225 239 b
    then lead n 2 128 191
    else if b == 240
    then lead n 3 144 191
    else if between 241 243 b
    then lead n 3 128 191
    else if b == 244
    then lead n 3 128 143
    else none

-- A byte after the first, where `more` are wanted after it.
unfoldable pub next_byte : Utf8State → ℕ → ℕ → Option Utf8State
next_byte s more b =
    if between s.low s.high b
    then if more == 0
      then some (start_at (s.valid_up_to + s.seen + 1))
      else some (record {
        valid_up_to = s.valid_up_to;
        seen = s.seen + 1;
        wanted = more;
        low = 128;
        high = 191;
      })
    else none

abbrev wrong_bytes : ℕ → ℕ → ℕ
wrong_bytes zero seen = 1
wrong_bytes (suc more) seen = seen

unfoldable pub utf8_step : ℕ → Utf8State → ℕ → Option Utf8State
unfolding first_byte next_byte
utf8_step zero s b = first_byte s.valid_up_to b
utf8_step (suc more) s b = next_byte s more b

abbrev at_end : ℕ → ℕ → Option (ℕ × Option ℕ)
at_end zero valid_up_to = none
at_end (suc more) valid_up_to = some (valid_up_to, none)

-- The error, if there is one: `valid_up_to` and `error_len`.
unfoldable pub utf8_run : Utf8State → Bytes → Option (ℕ × Option ℕ)
unfolding utf8_step
utf8_run s [] = at_end s.wanted s.valid_up_to
utf8_run s (b ∷ bs) = elim (utf8_step s.wanted s b) [
  | none ↦ some (s.valid_up_to, some (wrong_bytes s.wanted s.seen))
  | some s' ↦ utf8_run s' bs
]

unfoldable pub utf8_error : Bytes → Option (ℕ × Option ℕ)
unfolding utf8_run
utf8_error bytes = utf8_run (start_at 0) bytes
