-- ===== src/Parser/Print/Words.antt =====
-- src/parser.rs: the methods on words and literals at a printed name or value.
use rusthouse.Prelude.{
  ℕ, suc, ◌+◌, ◌≡◌, refl, ◌⊎◌, inl, inr, Bool, true, false, Option, none, some, [], ◌∷◌, ◌++◌,
  arith, ltb, length, ok,
}
use rusthouse.Prelude.Int.{ℤ, pos, negsuc, IsI64}
use rusthouse.Prelude.Bytes.{Bytes, bytes_eq, eq_ignore_ascii_case}
use Prim.Native.String.{String}
use rusthouse.Prelude.Decimal.{is_ascii_digit}
use rusthouse.Order.Ranks.{IsNullableI64}
use rusthouse.Snapshot.Words.{drop-append, take-append}
use rusthouse.Parser.{
  codes, expect_keyword, Parser, take_while, is_some_and, head, word, parse_identifier,
  is_identifier_continue, is_ascii_whitespace, skip_whitespace, require_whitespace,
}
use rusthouse.Parser.Literals.{
  is_empty, sign_len, digits_at, literal_len, parse_int64_number, parse_int64_value, parse_null,
  parse_some_int64,
}
use rusthouse.Parser.Sound.Words.{IsIdentifier}
use rusthouse.Parser.Print.{
  IsDigits, print_ℕ, print_i64, print_value, print_ℕ-IsDigits, parse_i64-print_i64,
}

-- A state in the middle of an input.
abbrev pub at : Bytes → ℕ → ℕ → Parser
at rest position max = record { rest = rest; position = position; max_identifier_bytes = max }

-- A run of a loop ends here.
abbrev pub Stops : (ℕ → Bool) → Bytes → Type 0
Stops test rest = is_some_and test (head rest) ≡ false

take_while-append :
    (test : ℕ → Bool) (xs rest : Bytes)
    → take_while test xs ≡ xs
    → Stops test rest
    → take_while test (xs ++ rest) ≡ xs
unfolding take_while
take_while-append test [] [] h k = refl
take_while-append test [] (r ∷ rest) h k = ground arith
take_while-append test (x ∷ xs) rest h k = ground (arith, take_while-append test xs rest)

pub word-append :
    (name rest : Bytes)
    → word name ≡ some name
    → Stops is_identifier_continue rest
    → word (name ++ rest) ≡ some name
unfolding word
word-append [] rest h k = cc
word-append (b ∷ bs) rest h k = ground (arith, take_while-append is_identifier_continue bs rest)

pub parse_identifier-append :
    (name rest : Bytes) (position max : ℕ)
    → IsIdentifier max name
    → Stops is_identifier_continue rest
    → parse_identifier (at (name ++ rest) position max)
      ≡ ok (name, at rest (position + length name) max)
unfolding parse_identifier
parse_identifier-append name rest position max h k =
    let short : ltb max (length name) ≡ false = let bounded = h.bounded in ground arith in
    rw (parse_identifier, word-append name rest h.spelled k, short, drop-append name rest) refl

-- A literal: digits, perhaps after a minus.
abbrev IsLiteral : Bytes → Bytes → Type 0
IsLiteral ds text = (text ≡ ds) ⊎ (text ≡ b'-' ∷ ds)

literal_digits :
    (ds rest : Bytes)
    → IsDigits ds
    → (sign_len (head (ds ++ rest)) ≡ 0) × (word (ds ++ rest) ≡ none)
unfolding take_while word
literal_digits [] rest h = let some_digit = h.some_digit in cc
literal_digits (b ∷ bs) rest h = let digits_only = h.digits_only in (ground arith, ground arith)

literal_parts :
    (ds text rest : Bytes)
    → IsDigits ds
    → IsLiteral ds text
    → Stops is_ascii_digit rest
    → (digits_at (text ++ rest) ≡ ds)
      × (sign_len (head (text ++ rest)) + length ds ≡ length text)
      × (word (text ++ rest) ≡ none)
unfolding word
literal_parts ds text rest h (inl e) k =
    let (sign, none_here) = literal_digits ds rest h in
    let digits_here = take_while-append is_ascii_digit ds rest h.digits_only k in
    rw e (rw sign (rw digits_here (refl, omega arith, none_here)))
literal_parts ds text rest h (inr e) k =
    let digits_here = take_while-append is_ascii_digit ds rest h.digits_only k in
    rw e (rw digits_here (refl, omega arith, refl))

-- A printed number is a literal.
printed : (z : ℤ) → (ds : Bytes) × IsDigits ds × IsLiteral ds (print_i64 z)
unfolding print_i64
printed (pos n) = (print_ℕ n, print_ℕ-IsDigits n, inl refl)
printed (negsuc n) = (print_ℕ (suc n), print_ℕ-IsDigits (suc n), inr refl)

-- Where a number in parentheses ends.
abbrev closing : Bytes → Bytes
closing rest = b')' ∷ rest

parse_int64_number-append :
    (z : ℤ) (rest : Bytes) (position max : ℕ)
    → IsI64 z
    → (q : ℕ) × (parse_int64_number (at (print_i64 z ++ closing rest) position max)
        ≡ ok (z, at (closing rest) q max))
unfolding parse_int64_number take_while
parse_int64_number-append z rest position max h =
    let text = print_i64 z in
    let (ds, is_digits, literal) = printed z in
    let (digits_here, len, no_word) = literal_parts ds text (closing rest) is_digits literal refl in
    let full : literal_len (text ++ closing rest) ≡ length text = rw digits_here len in
    let some_digit : is_empty ds ≡ false = is_digits.some_digit in
    (
      position + length text + 0,
      rw
          (
            parse_int64_number,
            digits_here,
            some_digit,
            len,
            drop-append text (closing rest),
            full,
            drop-append text (closing rest),
            take-append text (closing rest),
            parse_i64-print_i64 z h,
          )
          refl,
    )

pub parse_int64_value-append :
    (v : Option ℤ) (rest : Bytes) (position max : ℕ)
    → IsNullableI64 v
    → (q : ℕ) × (parse_int64_value (at (print_value v ++ closing rest) position max)
        ≡ ok (v, at (closing rest) q max))
unfolding parse_int64_value print_value parse_null parse_some_int64 word take_while
    eq_ignore_ascii_case bytes_eq
parse_int64_value-append none rest position max h = (position + 4, refl)
parse_int64_value-append (some z) rest position max h =
    let (ds, is_digits, literal) = printed z in
    let (digits_here, len, no_word) =
      literal_parts ds (print_i64 z) (closing rest) is_digits literal refl in
    let (q, parsed) = parse_int64_number-append z rest position max h in
    (q, rw (parse_int64_value, print_value, no_word, parsed) refl)

pub word-spaces :
    (name rest : Bytes) → word name ≡ some name → take_while is_ascii_whitespace (name ++ rest) ≡ []
unfolding word take_while
word-spaces [] rest h = cc
word-spaces (b ∷ bs) rest h = ground arith

digits-spaces : (ds rest : Bytes) → IsDigits ds → take_while is_ascii_whitespace (ds ++ rest) ≡ []
unfolding take_while
digits-spaces [] rest h = let some_digit = h.some_digit in cc
digits-spaces (b ∷ bs) rest h = let digits_only = h.digits_only in ground arith

pub value-spaces :
    (v : Option ℤ) (rest : Bytes) → take_while is_ascii_whitespace (print_value v ++ rest) ≡ []
unfolding print_value print_i64 take_while
value-spaces none rest = refl
value-spaces (some (pos n)) rest = digits-spaces (print_ℕ n) rest (print_ℕ-IsDigits n)
value-spaces (some (negsuc n)) rest = refl

-- One space before a name.
pub require_whitespace-append :
    (expected : String) (name rest : Bytes) (position max : ℕ)
    → word name ≡ some name
    → require_whitespace expected (at (32 ∷ (name ++ rest)) position max)
      ≡ ok (tt, at (name ++ rest) (position + 1) max)
unfolding require_whitespace take_while
require_whitespace-append expected name rest position max h =
    rw (require_whitespace, word-spaces name rest h) refl

-- No space, or one, to skip.
pub skip_whitespace_none :
    (rest : Bytes) (position max : ℕ)
    → take_while is_ascii_whitespace rest ≡ []
    → skip_whitespace (at rest position max) ≡ ok (tt, at rest (position + 0) max)
unfolding skip_whitespace
skip_whitespace_none rest position max h = rw (skip_whitespace, h) refl

pub skip_whitespace_one :
    (rest : Bytes) (position max : ℕ)
    → take_while is_ascii_whitespace rest ≡ []
    → skip_whitespace (at (32 ∷ rest) position max) ≡ ok (tt, at rest (position + 1) max)
unfolding skip_whitespace take_while
skip_whitespace_one rest position max h = rw (skip_whitespace, h) refl

-- A keyword in any letter case.
pub record IsSpelling (keyword : String) (w : Bytes) : Type 0 where
  pub spelled : word w ≡ some w
  pub same : eq_ignore_ascii_case w (codes keyword) ≡ true

pub expect_keyword-append :
    (keyword : String) (w rest : Bytes) (position max : ℕ)
    → IsSpelling keyword w
    → Stops is_identifier_continue rest
    → expect_keyword keyword (at (w ++ rest) position max)
      ≡ ok (tt, at rest (position + length w) max)
unfolding expect_keyword
expect_keyword-append keyword w rest position max h k =
    rw (expect_keyword, word-append w rest h.spelled k, h.same, drop-append w rest) refl
