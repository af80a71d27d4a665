-- ===== src/Parser/Sound/Literals.antt =====
-- src/parser.rs: a literal is in its range, and the methods on literals, operators and the end of
-- a statement stay within the input.
use rusthouse.Prelude.{
  ℕ, ◌≤◌, ◌≡◌, refl, ap, ◌∙◌, subst, ◌⊎◌, inl, inr, not, ◌||◌, Option, none, some, [], ◌∷◌, arith,
  ◌==◌, Bool-cases, Option-cases, u64_max, length, take, drop, any,
}
use rusthouse.Prelude.Int.{ℤ, IsI64, is_i64_iff}
use rusthouse.Prelude.Bytes.{Bytes}
use rusthouse.Prelude.Decimal.{parse_i64, is_ascii_digit}
use rusthouse.Scan.{ComparisonOperator}
use rusthouse.Order.Ranks.{IsNullableI64}
use rusthouse.Parser.{
  Parser, ParseError, advance, peek, head, take_while, skip_whitespace, end_of_input,
  skip_semicolon, is_ascii_whitespace, starts_with, is_some_and,
}
use rusthouse.Parser.Literals.{
  parse_where_int64, parse_limit, parse_int64_number, parse_int64_value, parse_null,
  parse_some_int64, parse_comparison_operator, operator_at, sign_len, digits_at, literal_len,
  in_token, parse_usize, parse_literal, is_empty, is_comparison_operator_byte,
}
use rusthouse.Parser.Insert.{close_row, reject_more_rows}
use rusthouse.Parser.Scalar.{parse_star, parse_argument}
use rusthouse.Statement.{ScalarCountArgument, star, column}
use rusthouse.Parser.Sound.{Within, end_of, Reads, Sound, Any, ◌▷◌, return-Sound, branch-Sound}
use rusthouse.Parser.Sound.Words.{
  length-take_while, end_of-advance, length-drop, starts_with-length, skip_whitespace-Sound,
  expect_keyword-Sound, parse_identifier-Sound, IsIdentifier,
}

sign_len-short : (rest : Bytes) → sign_len (head rest) ≤ length rest
sign_len-short [] = omega arith
sign_len-short (b ∷ bs) = ground arith

-- A literal is a part of the input.
pub literal_len-short : (rest : Bytes) → literal_len rest ≤ length rest
literal_len-short rest =
    let k = sign_len (head rest) in
    omega (
      arith,
      sign_len-short rest,
      length-drop k rest,
      length-take_while is_ascii_digit (drop k rest),
    )

Bytes-cases : (xs : Bytes) → (xs ≡ []) ⊎ ((b : ℕ) × (bs : Bytes) × (xs ≡ b ∷ bs))
Bytes-cases [] = inl refl
Bytes-cases (b ∷ bs) = inr (b, bs, refl)

-- An operator is a part of the input.
operator_at-short :
    (rest : Bytes) (op : ComparisonOperator) (len : ℕ)
    → operator_at rest ≡ some (op, len)
    → len ≤ length rest
unfolding operator_at
operator_at-short [] op len h = cc
operator_at-short (a ∷ []) op len h = ground arith
operator_at-short (a ∷ b ∷ rest) op len h = ground arith

parse_i64-IsI64 : (text : Bytes) (z : ℤ) → parse_i64 text ≡ some z → IsI64 z
unfolding parse_i64
parse_i64-IsI64 text z h = (is_i64_iff z).0 (ground arith)

parse_usize-bound : (text : Bytes) (n : ℕ) → parse_usize text ≡ some n → n ≤ u64_max
parse_usize-bound text n h = ground arith

module _ {max : ℕ} {A : Type 0} {Q : A → Type 0} where
  parse_literal-Sound :
      (parsed : Option A) (error : ParseError) (after : Parser) (end : ℕ)
      → Within end error
      → ((a : A) → parsed ≡ some a → Q a)
      → end_of after ≡ end
      → after.max_identifier_bytes ≡ max
      → Reads max Q end (parse_literal parsed error after)
  parse_literal-Sound none error after end w q same bound = w
  parse_literal-Sound (some a) error after end w q same bound = (q a refl, same, bound)

-- A claim on the argument of COUNT.
abbrev pub IsArgument : ℕ → ScalarCountArgument → Type 0
IsArgument max star = Unit
IsArgument max (column name) = IsIdentifier max name

module _ {max : ℕ} where
  pub end_of_input-Sound : Sound max Any end_of_input
  unfolding end_of_input
  end_of_input-Sound = record {
    reads = λ s bound. elim (Bytes-cases s.rest) [
      | inl e ↦
          (let none_left : length s.rest ≡ 0 = ap length e in
            rw (end_of_input, e) (tt, omega arith, bound))
      | inr (b, bs, e) ↦ rw (end_of_input, e) (omega arith)
    ];
  }

  pub skip_semicolon-Sound : Sound max Any skip_semicolon
  unfolding skip_semicolon
  skip_semicolon-Sound = record {
    reads = λ s bound. elim (Bool-cases (starts_with b';' (head s.rest))) [
      | inl t ↦
          (let same = end_of-advance 1 s (starts_with-length b';' s.rest t) in
            rw (skip_semicolon, t)
              (subst (λ (n : ℕ). Reads max Any n (skip_whitespace (advance 1 s))) same
                (skip_whitespace-Sound.reads (advance 1 s) bound)))
      | inr f ↦ rw (skip_semicolon, f) (tt, refl, bound)
    ];
  }

  pub parse_where_int64-Sound : Sound max IsI64 parse_where_int64
  unfolding parse_where_int64
  parse_where_int64-Sound = record {
    reads = λ s bound.
        let len = literal_len s.rest in
        let short = literal_len-short s.rest in
        elim (Bool-cases (is_empty (digits_at s.rest))) [
          | inl t ↦ rw (parse_where_int64, t) (omega arith)
          | inr f ↦ elim (Bool-cases (is_some_and in_token (peek (advance len s)))) [
            | inl t ↦ rw (parse_where_int64, f, t) (omega arith)
            | inr g ↦
                rw (parse_where_int64, f, g)
                  (parse_literal-Sound _ _ _ _ (omega arith) (parse_i64-IsI64 (take len s.rest))
                    (end_of-advance len s short) bound)
          ]
        ];
  }

  pub parse_limit-Sound : Sound max (λ n. n ≤ u64_max) parse_limit
  unfolding parse_limit
  parse_limit-Sound = record {
    reads = λ s bound.
        let literal = take_while in_token s.rest in
        elim (Bool-cases (is_empty literal || any (λ b. not (is_ascii_digit b)) literal)) [
          | inl t ↦ rw (parse_limit, t) (omega arith)
          | inr f ↦
              rw (parse_limit, f)
                (parse_literal-Sound {Q = λ n. n ≤ u64_max} _ _ _ _ (omega arith)
                  (parse_usize-bound literal)
                  (end_of-advance (length literal) s (length-take_while in_token s.rest)) bound)
        ];
  }

  parse_int64_number-Sound : Sound max IsI64 parse_int64_number
  unfolding parse_int64_number
  parse_int64_number-Sound = record {
    reads = λ s bound.
        let len = literal_len s.rest in
        let spaces = take_while is_ascii_whitespace (drop len s.rest) in
        let after = advance (length spaces) (advance len s) in
        let same : end_of after ≡ end_of s =
          end_of-advance (length spaces) (advance len s)
            (length-take_while is_ascii_whitespace (drop len s.rest))
          ∙ end_of-advance len s (literal_len-short s.rest) in
        elim (Bool-cases (is_empty (digits_at s.rest))) [
          | inl t ↦ rw (parse_int64_number, t) (omega arith)
          | inr f ↦ elim (Option-cases (peek after)) [
            | inl e ↦ rw (parse_int64_number, f, e) (omega arith)
            | inr (b, e) ↦
                rw (parse_int64_number, f, e)
                  (elim (Bool-cases (b == b')')) [
                    | inl t ↦ rw t (
                        parse_literal-Sound _ _ _ _ (omega arith)
                          (parse_i64-IsI64 (take len s.rest)) same bound)
                    | inr g ↦ rw g (omega arith)
                  ])
          ]
        ];
  }

  pub parse_int64_value-Sound : Sound max IsNullableI64 parse_int64_value
  unfolding parse_int64_value parse_null parse_some_int64
  parse_int64_value-Sound =
      branch-Sound _ (expect_keyword-Sound _ ▷ λ a q. return-Sound {Q = IsNullableI64} tt)
        (parse_int64_number-Sound ▷ λ a q. return-Sound {Q = IsNullableI64} q)

  pub parse_comparison_operator-Sound : Sound max Any parse_comparison_operator
  unfolding parse_comparison_operator
  parse_comparison_operator-Sound = record {
    reads = λ s bound. elim (Option-cases (operator_at s.rest)) [
      | inl e ↦ rw (parse_comparison_operator, e) (omega arith)
      | inr ((op, len), e) ↦
          rw (parse_comparison_operator, e)
            (elim (Bool-cases (is_some_and is_comparison_operator_byte (peek (advance len s)))) [
              | inl t ↦ rw t (omega arith)
              | inr f ↦ rw f (tt, end_of-advance len s (operator_at-short s.rest op len e), bound)
            ])
    ];
  }

  pub close_row-Sound : Sound max Any close_row
  unfolding close_row
  close_row-Sound = record {
    reads = λ s bound. elim (Bytes-cases s.rest) [
      | inl e ↦ rw (close_row, e) (omega arith)
      | inr (b, bs, e) ↦ rw (close_row, e) (ground arith)
    ];
  }

  pub reject_more_rows-Sound : Sound max Any reject_more_rows
  unfolding reject_more_rows
  reject_more_rows-Sound = record {
    reads = λ s bound. elim (Bool-cases (starts_with b',' (head s.rest))) [
      | inl t ↦ rw (reject_more_rows, t) (omega arith)
      | inr f ↦ rw (reject_more_rows, f) (tt, refl, bound)
    ];
  }

  pub parse_argument-Sound : Sound max (IsArgument max) parse_argument
  unfolding parse_argument parse_star
  parse_argument-Sound = record {
    reads = λ s bound. elim (Bool-cases (starts_with b'*' (head s.rest))) [
      | inl t ↦
          rw (parse_argument, t) (tt, end_of-advance 1 s (starts_with-length b'*' s.rest t), bound)
      | inr f ↦
          rw (parse_argument, f)
            ((parse_identifier-Sound ▷ λ a q. return-Sound {Q = IsArgument max} q).reads s bound)
    ];
  }
