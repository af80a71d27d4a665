-- ===== src/Prelude/Decimal.antt =====
-- Decimal text: the documented `parse` of Rust on an optional sign and ASCII digits.
use rusthouse.Prelude.Tests.{leb, ◌==◌, if◌then◌else◌}
use Prim.Native.Nat.{ℕ, zero, suc, ◌+◌, ◌-◌, ◌*◌}
use mathlib.Core.Bool.{Bool, false, ◌&&◌, ◌||◌}
use mathlib.Core.Option.{Option, none, some}
use mathlib.Core.List.{[], ◌∷◌}
use rusthouse.Prelude.Int.{ℤ, pos, negsuc, is_i64}
use rusthouse.Prelude.Bytes.{Bytes}

abbrev pub is_ascii_digit : ℕ → Bool
is_ascii_digit b = leb b'0' b && leb b b'9'

-- The text without its sign.
abbrev pub unsigned : Bytes → Bytes
unsigned [] = []
unsigned (b ∷ bs) = if b == b'+' || b == b'-' then bs else b ∷ bs

abbrev pub is_negative : Bytes → Bool
is_negative [] = false
is_negative (b ∷ bs) = b == b'-'

-- The number that decimal digits stand for, after the digits before them.
unfoldable pub decimal : ℕ → Bytes → ℕ
decimal n [] = n
decimal n (b ∷ bs) = decimal (10 * n + (b - b'0')) bs

abbrev pub negate : ℕ → ℤ
negate zero = pos 0
negate (suc n) = negsuc n

-- `parse::<i64>` of an optional sign and digits.
unfoldable pub parse_i64 : Bytes → Option ℤ
unfolding decimal
parse_i64 text =
    let n = decimal 0 (unsigned text) in
    let z = if is_negative text then negate n else pos n in if is_i64 z then some z else none
