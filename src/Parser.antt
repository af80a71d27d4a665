-- ===== src/Parser.antt =====
-- src/parser.rs: the state of the parser and its methods on bytes and words. A method on
-- `&mut self` is a function of the state that answers with an error, or with its result and the
-- state that it leaves. The state has the bytes from the position on: no method reads an earlier
-- byte, except those of the literal or word that it has just passed over.
pub mod Literals
pub mod Create
pub mod Insert
pub mod Select
pub mod Joins
pub mod Scalar
pub mod Sql
pub mod Sound
pub mod Print
use rusthouse.Prelude.{
  ℕ, ◌+◌, Bool, false, ◌&&◌, ◌||◌, Option, none, some, [], ◌∷◌, ltb, leb, ◌==◌, if◌then◌else◌,
  length, drop, Result, ok, err,
}
use rusthouse.Prelude.Bytes.{Bytes, eq_ignore_ascii_case}
use Prim.Native.Char.{code}
use rusthouse.Prelude.Decimal.{is_ascii_digit}
use Prim.Native.String.{String}

pub record ParseLimits : Type 0 where
  pub max_statement_bytes : ℕ
  pub max_identifier_bytes : ℕ

pub data ParseError : Type 0 where
  statement_too_long : (bytes max_bytes : ℕ) → ParseError
  identifier_too_long : (offset bytes max_bytes : ℕ) → ParseError
  unexpected_input : (offset : ℕ) (expected : String) → ParseError
  invalid_int64 : (offset : ℕ) → ParseError
  int64_overflow : (offset : ℕ) → ParseError
  invalid_limit : (offset : ℕ) → ParseError
  limit_overflow : (offset : ℕ) → ParseError
  extra_rows : (offset : ℕ) → ParseError
  trailing_input : (offset : ℕ) → ParseError

pub record Parser : Type 0 where
  pub rest : Bytes
  pub position : ℕ
  pub max_identifier_bytes : ℕ

-- `Parser::new`
abbrev pub new_parser : Bytes → ℕ → Parser
new_parser input max = record { rest = input; position = 0; max_identifier_bytes = max }

abbrev pub Parse : Type 0 → Type 0
Parse A = Parser → Result ParseError (A × Parser)

abbrev pub and_then :
    {A B : Type 0} → (A → Parse B) → Result ParseError (A × Parser) → Result ParseError (B × Parser)
and_then next (err e) = err e
and_then next (ok (a, s)) = next a s

infixl 5 ◌>>=◌ ◌>>◌
abbrev pub ◌>>=◌ : {A B : Type 0} → Parse A → (A → Parse B) → Parse B
(p >>= next) s = and_then next (p s)

abbrev pub ◌>>◌ : {A B : Type 0} → Parse A → Parse B → Parse B
p >> rest = p >>= λ _. rest

abbrev pub return : {A : Type 0} → A → Parse A
return a s = ok (a, s)

-- `if test(self) { .. } else { .. }`: a test of the state does not change it.
abbrev pub branch : {A : Type 0} → (Parser → Bool) → Parse A → Parse A → Parse A
branch test p q s = if test s then p s else q s

-- `if test(self) { Some(..) } else { None }`
abbrev pub optional : {A : Type 0} → (Parser → Bool) → Parse A → Parse (Option A)
optional test p = branch test (p >>= λ a. return (some a)) (return none)

-- The bytes of an ASCII text.
abbrev pub codes : String → Bytes
codes String.[] = []
codes (String.◌∷◌ c text) = code c ∷ codes text

-- `u8::is_ascii_whitespace`
abbrev pub is_ascii_whitespace : ℕ → Bool
is_ascii_whitespace b = b == 32 || (b == 9 || (b == 10 || (b == 12 || b == 13)))

abbrev pub is_ascii_alphabetic : ℕ → Bool
is_ascii_alphabetic b = (leb b'A' b && leb b b'Z') || (leb b'a' b && leb b b'z')

abbrev pub is_identifier_start : ℕ → Bool
is_identifier_start b = is_ascii_alphabetic b || b == b'_'

abbrev pub is_identifier_continue : ℕ → Bool
is_identifier_continue b = (is_ascii_alphabetic b || is_ascii_digit b) || b == b'_'

-- The bytes that a loop passes over, while each satisfies the test.
unfoldable pub take_while : (ℕ → Bool) → Bytes → Bytes
take_while test [] = []
take_while test (b ∷ bs) = let rest = take_while test bs in if test b then b ∷ rest else []

-- `peek`
abbrev pub head : Bytes → Option ℕ
head [] = none
head (b ∷ bs) = some b

abbrev pub peek : Parser → Option ℕ
peek s = head s.rest

abbrev pub is_some_and : {A : Type 0} → (A → Bool) → Option A → Bool
is_some_and test none = false
is_some_and test (some a) = test a

abbrev pub advance : ℕ → Parser → Parser
advance n s = record s { rest = drop n s.rest; position = s.position + n }

abbrev pub fail : {A : Type 0} → (ℕ → ParseError) → Parse A
fail e s = err (e s.position)

abbrev pub unexpected : {A : Type 0} → String → Parse A
unexpected expected = fail (λ offset. unexpected_input offset expected)

-- `word_end`: the word that starts here, if one does.
unfoldable pub word : Bytes → Option Bytes
unfolding take_while
word [] = none
word (b ∷ bs) =
    if is_identifier_start b then some (b ∷ take_while is_identifier_continue bs) else none

unfoldable pub skip_whitespace : Parse (Unit {0})
unfolding take_while
skip_whitespace s = ok (tt, advance (length (take_while is_ascii_whitespace s.rest)) s)

unfoldable pub require_whitespace : String → Parse (Unit {0})
unfolding take_while
require_whitespace expected s =
    let spaces = length (take_while is_ascii_whitespace s.rest) in
    if spaces == 0 then unexpected expected s else ok (tt, advance spaces s)

abbrev pub word_is : Bytes → Option Bytes → Bool
word_is keyword none = false
word_is keyword (some w) = eq_ignore_ascii_case w keyword

unfoldable pub keyword_at_position : String → Parser → Bool
unfolding word
keyword_at_position keyword s = word_is (codes keyword) (word s.rest)

-- The word after the word here, if whitespace is between them.
abbrev pub following_word : Bytes → Option Bytes → Option Bytes
following_word rest none = none
following_word rest (some current) =
    let after = drop (length current) rest in
    let spaces = length (take_while is_ascii_whitespace after) in
    if spaces == 0 then none else word (drop spaces after)

unfoldable pub keyword_follows_current_word : String → Parser → Bool
unfolding word
keyword_follows_current_word keyword s =
    word_is (codes keyword) (following_word s.rest (word s.rest))

unfoldable pub expect_keyword : String → Parse (Unit {0})
unfolding word
expect_keyword keyword s = elim (word s.rest) [
  | none ↦ unexpected keyword s
  | some w ↦
      if eq_ignore_ascii_case w (codes keyword)
      then ok (tt, advance (length w) s)
      else unexpected keyword s
]

abbrev pub starts_with : ℕ → Option ℕ → Bool
starts_with byte none = false
starts_with byte (some b) = b == byte

unfoldable pub expect_byte : ℕ → String → Parse (Unit {0})
expect_byte byte expected s =
    if starts_with byte (peek s) then ok (tt, advance 1 s) else unexpected expected s

unfoldable pub parse_identifier : Parse Bytes
unfolding word
parse_identifier s = elim (word s.rest) [
  | none ↦ unexpected "identifier" s
  | some w ↦
      if ltb s.max_identifier_bytes (length w)
      then err (identifier_too_long s.position (length w) s.max_identifier_bytes)
      else ok (w, advance (length w) s)
]

-- `if self.position != self.bytes.len() { return Err(TrailingInput ..) }`
unfoldable pub end_of_input : Parse (Unit {0})
end_of_input s = elim s.rest [ [] ↦ ok (tt, s) | b ∷ bs ↦ fail trailing_input s ]

-- `if self.peek() == Some(b';') { self.position += 1; self.skip_whitespace(); }`
unfoldable pub skip_semicolon : Parse (Unit {0})
skip_semicolon s = if starts_with b';' (peek s) then skip_whitespace (advance 1 s) else ok (tt, s)
