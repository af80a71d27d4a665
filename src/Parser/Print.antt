-- ===== src/Parser/Print.antt =====
-- The canonical text of a statement, which src/parser.rs parses back: decimal literals.
pub mod Words
pub mod Run
pub mod Insert
pub mod Create
pub mod Select
use rusthouse.Prelude.{
  ℕ, zero, suc, ◌+◌, ◌-◌, ◌*◌, ◌/◌, ◌%◌, ◌≤◌, ◌<◌, ◌≡◌, refl, ap, ◌∙◌, inl, inr, false, Option,
  none, some, [], ◌∷◌, arith, ltb, if◌then◌else◌, Bool-cases, u64_max,
}
use rusthouse.Prelude.Int.{ℤ, pos, negsuc, IsI64}
use rusthouse.Prelude.Bytes.{Bytes}
use rusthouse.Prelude.Decimal.{decimal, parse_i64, is_ascii_digit, unsigned, is_negative}
use rusthouse.Parser.{codes, take_while}
use rusthouse.Parser.Literals.{is_empty}

-- The digits of a number, before other digits; the first argument is enough if the number has no
-- more digits.
unfoldable pub digits : ℕ → ℕ → Bytes → Bytes
digits zero n tail = tail
digits (suc f) n tail =
    let rest = digits f (n / 10) ((b'0' + n % 10) ∷ tail) in
    if ltb n 10 then (b'0' + n % 10) ∷ tail else rest

-- 10 to a power.
abbrev pub power : ℕ → ℕ
power zero = 1
power (suc f) = 10 * power f

-- Every value of an `i64` has at most 19 digits.
abbrev pub print_ℕ : ℕ → Bytes
print_ℕ n = digits 20 n []

unfoldable pub print_i64 : ℤ → Bytes
unfolding digits
print_i64 (pos n) = print_ℕ n
print_i64 (negsuc n) = b'-' ∷ print_ℕ (suc n)

unfoldable pub print_value : Option ℤ → Bytes
unfolding print_i64
print_value none = codes "NULL"
print_value (some z) = print_i64 z

-- One digit at least, and nothing but digits.
pub record IsDigits (text : Bytes) : Type 0 where
  pub digits_only : take_while is_ascii_digit text ≡ text
  pub some_digit : is_empty text ≡ false

more_digits : (f n : ℕ) → 10 ≤ n → n < power (suc f) → 0 < f
more_digits zero n h k = absurd (omega arith)
more_digits (suc f) n h k = omega arith

decimal-digits :
    (f n : ℕ) (tail : Bytes) → n < power f → 0 < f → decimal 0 (digits f n tail) ≡ decimal n tail
unfolding digits decimal
decimal-digits zero n tail h k = absurd (omega arith)
decimal-digits (suc f) n tail h k = elim (Bool-cases (ltb n 10)) [
  | inl t ↦
      (let last : 0 + n % 10 ≡ n = ground arith in
        rw (digits, t) (ap (λ (m : ℕ). decimal m tail) (omega (arith, last))))
  | inr g ↦
      rw (digits, g)
        (decimal-digits f (n / 10) ((b'0' + n % 10) ∷ tail) (ground arith)
            (more_digits f n (ground arith) h)
          ∙ ap (λ (m : ℕ). decimal m tail) (omega arith))
]

cons-IsDigits :
    (d : ℕ) (tail : Bytes)
    → d < 10
    → take_while is_ascii_digit tail ≡ tail
    → IsDigits ((b'0' + d) ∷ tail)
unfolding take_while
cons-IsDigits d tail h k = record { digits_only = ground arith; some_digit = refl }

digits-IsDigits : (f n : ℕ) (tail : Bytes) → IsDigits tail → IsDigits (digits f n tail)
unfolding digits
digits-IsDigits zero n tail h = h
digits-IsDigits (suc f) n tail h =
    let one = cons-IsDigits (n % 10) tail (omega arith) h.digits_only in
    elim (Bool-cases (ltb n 10)) [
      | inl t ↦ rw (digits, t) one
      | inr g ↦ rw (digits, g) (digits-IsDigits f (n / 10) ((b'0' + n % 10) ∷ tail) one)
    ]

pub print_ℕ-IsDigits : (n : ℕ) → IsDigits (print_ℕ n)
unfolding digits take_while
print_ℕ-IsDigits n =
    let one = cons-IsDigits (n % 10) [] (omega arith) refl in
    elim (Bool-cases (ltb n 10)) [
      | inl t ↦ rw (digits, t) one
      | inr g ↦ rw (digits, g) (digits-IsDigits 19 (n / 10) ((b'0' + n % 10) ∷ []) one)
    ]

pub decimal-print_ℕ : (n : ℕ) → n ≤ u64_max → decimal 0 (print_ℕ n) ≡ n
unfolding decimal
decimal-print_ℕ n h = decimal-digits 20 n [] (omega arith) (omega arith)

-- A digit is no sign.
digits-unsigned :
    (text : Bytes) → IsDigits text → (unsigned text ≡ text) × (is_negative text ≡ false)
unfolding take_while
digits-unsigned [] h = let some_digit = h.some_digit in cc
digits-unsigned (b ∷ bs) h = let digits_only = h.digits_only in ground arith

pub parse_i64-print_i64 : (z : ℤ) → IsI64 z → parse_i64 (print_i64 z) ≡ some z
unfolding parse_i64 print_i64
parse_i64-print_i64 (pos n) h =
    let (u, sign) = digits-unsigned (print_ℕ n) (print_ℕ-IsDigits n) in
    rw (u, sign, decimal-print_ℕ n (omega arith)) (ground arith)
parse_i64-print_i64 (negsuc n) h = rw (decimal-print_ℕ (suc n) (omega arith)) (ground arith)
