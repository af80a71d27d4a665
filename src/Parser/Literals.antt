-- ===== src/Parser/Literals.antt =====
-- src/parser.rs: the methods that parse literals, operators and the comparison of a WHERE clause.
use rusthouse.Prelude.{
  ℕ, ◌+◌, Bool, true, false, not, ◌&&◌, ◌||◌, Option, none, some, [], ◌∷◌, leb, ◌==◌, if◌then◌else◌,
  u64_max, length, take, drop, any, Result, ok, err,
}
use rusthouse.Prelude.Int.{ℤ}
use rusthouse.Prelude.Bytes.{Bytes}
use rusthouse.Parser.{
  Parse, Parser, ParseError, ◌>>=◌, ◌>>◌, return, branch, optional, is_ascii_whitespace, take_while,
  head, peek, is_some_and, advance, fail, unexpected, skip_whitespace, require_whitespace,
  keyword_at_position, expect_keyword, parse_identifier, invalid_int64, int64_overflow,
  invalid_limit, limit_overflow,
}
use rusthouse.Prelude.Decimal.{is_ascii_digit, decimal, parse_i64}
use rusthouse.Scan.{ComparisonOperator, eq, ne, lt, le, gt, ge}
use rusthouse.Statement.{ComparisonPredicate}

abbrev pub sign_len : Option ℕ → ℕ
sign_len none = 0
sign_len (some b) = if b == b'+' || b == b'-' then 1 else 0

-- The digits after an optional sign.
abbrev pub digits_at : Bytes → Bytes
digits_at rest = take_while is_ascii_digit (drop (sign_len (head rest)) rest)

abbrev pub literal_len : Bytes → ℕ
literal_len rest = sign_len (head rest) + length (digits_at rest)

abbrev pub is_empty : Bytes → Bool
is_empty [] = true
is_empty (b ∷ bs) = false

-- `literal.parse()`, with the state after the literal.
abbrev pub parse_literal :
    {A : Type 0} → Option A → ParseError → Parser → Result ParseError (A × Parser)
parse_literal none error after = err error
parse_literal (some a) error after = ok (a, after)

-- Neither whitespace nor a semicolon.
abbrev pub in_token : ℕ → Bool
in_token b = not (is_ascii_whitespace b) && not (b == b';')

unfoldable pub parse_where_int64 : Parse ℤ
unfolding take_while
parse_where_int64 s =
    let len = literal_len s.rest in
    if is_empty (digits_at s.rest)
    then err (invalid_int64 s.position)
    else if is_some_and in_token (peek (advance len s))
    then err (invalid_int64 (s.position + len))
    else parse_literal (parse_i64 (take len s.rest)) (int64_overflow s.position) (advance len s)

-- `literal.parse::<usize>()` of digits
abbrev pub parse_usize : Bytes → Option ℕ
parse_usize literal = let n = decimal 0 literal in if leb n u64_max then some n else none

unfoldable pub parse_limit : Parse ℕ
unfolding take_while
parse_limit s =
    let literal = take_while in_token s.rest in
    if is_empty literal || any (λ b. not (is_ascii_digit b)) literal
    then err (invalid_limit s.position)
    else parse_literal (parse_usize literal) (limit_overflow s.position)
        (advance (length literal) s)

-- The part of `parse_int64_value` for a number, which ends after the whitespace before `)`.
unfoldable pub parse_int64_number : Parse ℤ
parse_int64_number s =
    let len = literal_len s.rest in
    if is_empty (digits_at s.rest)
    then err (invalid_int64 s.position)
    else let spaces = length (take_while is_ascii_whitespace (drop len s.rest)) in
      let after = advance spaces (advance len s) in
      elim (peek after) [
        | none ↦ unexpected "')'" after
        | some b ↦
            if b == b')'
            then parse_literal (parse_i64 (take len s.rest)) (int64_overflow s.position) after
            else fail invalid_int64 after
      ]

unfoldable pub parse_null : Parse (Option ℤ)
unfolding expect_keyword
parse_null = expect_keyword "NULL" >> return none

unfoldable pub parse_some_int64 : Parse (Option ℤ)
unfolding parse_int64_number
parse_some_int64 = parse_int64_number >>= λ value. return (some value)

unfoldable pub parse_int64_value : Parse (Option ℤ)
unfolding keyword_at_position
parse_int64_value = branch (keyword_at_position "NULL") parse_null parse_some_int64

abbrev pub is_comparison_operator_byte : ℕ → Bool
is_comparison_operator_byte b = b == b'=' || (b == b'!' || (b == b'<' || b == b'>'))

abbrev pub equals_follows : Bytes → Bool
equals_follows [] = false
equals_follows (b ∷ bs) = b == b'='

abbrev pub after_less : Bytes → ComparisonOperator × ℕ
after_less [] = (lt, 1)
after_less (b ∷ bs) = if b == b'>' then (ne, 2) else if b == b'=' then (le, 2) else (lt, 1)

-- The operator at the start, with its length.
unfoldable pub operator_at : Bytes → Option (ComparisonOperator × ℕ)
operator_at [] = none
operator_at (b ∷ bs) =
    if b == b'='
    then some (eq, 1)
    else if b == b'!'
    then if equals_follows bs then some (ne, 2) else none
    else if b == b'<'
    then some (after_less bs)
    else if b == b'>'
    then if equals_follows bs then some (ge, 2) else some (gt, 1)
    else none

unfoldable pub parse_comparison_operator : Parse ComparisonOperator
unfolding operator_at
parse_comparison_operator s = elim (operator_at s.rest) [
  | none ↦ unexpected "comparison operator" s
  | some (operator, len) ↦
      if is_some_and is_comparison_operator_byte (peek (advance len s))
      then unexpected "comparison operator" s
      else ok (operator, advance len s)
]

-- The comparison after the column of a WHERE clause.
unfoldable pub parse_comparison : Bytes → Parse ComparisonPredicate
unfolding parse_comparison_operator parse_where_int64
parse_comparison column_name = do
  operator ← parse_comparison_operator
  skip_whitespace
  value ← parse_where_int64
  return (record { column_name = column_name; operator = operator; value = value })

unfoldable pub parse_where_comparison : Parse ComparisonPredicate
unfolding expect_keyword require_whitespace parse_identifier
parse_where_comparison = do
  expect_keyword "WHERE"
  require_whitespace "whitespace after WHERE"
  column_name ← parse_identifier
  skip_whitespace
  predicate ← parse_comparison column_name
  skip_whitespace
  return predicate

unfoldable pub parse_optional_comparison_predicate : Parse (Option ComparisonPredicate)
unfolding keyword_at_position
parse_optional_comparison_predicate = optional (keyword_at_position "WHERE") parse_where_comparison
