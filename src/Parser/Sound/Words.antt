-- ===== src/Parser/Sound/Words.antt =====
-- src/parser.rs: the methods on bytes, words and literals stay within the input; an identifier is
-- one word within its bound, and a literal is in its range.
use rusthouse.Prelude.{
  ℕ, zero, suc, ◌-◌, ◌≤◌, ◌<◌, ◌≡◌, refl, inl, inr, Bool, true, some, [], ◌∷◌, arith, ltb,
  Bool-cases, Option-cases, length, drop,
}
use rusthouse.Prelude.Bytes.{Bytes}
use Prim.Native.String.{String}
use rusthouse.Parser.{
  Parser, advance, head, take_while, word, skip_whitespace, require_whitespace, expect_keyword,
  expect_byte, parse_identifier, is_identifier_continue, is_ascii_whitespace, starts_with,
}
use rusthouse.Parser.Sound.{end_of, Sound, Any}

pub length-drop : (n : ℕ) (xs : Bytes) → length (drop n xs) ≡ length xs - n
length-drop zero xs = omega arith
length-drop (suc n) [] = omega arith
length-drop (suc n) (x ∷ xs) = omega (arith, length-drop n xs)

pub end_of-advance : (n : ℕ) (s : Parser) → n ≤ length s.rest → end_of (advance n s) ≡ end_of s
end_of-advance n s h = omega (arith, length-drop n s.rest)

pub length-take_while : (test : ℕ → Bool) (xs : Bytes) → length (take_while test xs) ≤ length xs
unfolding take_while
length-take_while test [] = omega arith
length-take_while test (x ∷ xs) = ground (arith, length-take_while test xs)

pub take_while_idem :
    (test : ℕ → Bool) (xs : Bytes) → take_while test (take_while test xs) ≡ take_while test xs
unfolding take_while
take_while_idem test [] = refl
take_while_idem test (x ∷ xs) = ground (arith, take_while_idem test xs)

-- A word is a prefix, and its own word.
word_parts :
    (rest w : Bytes)
    → word rest ≡ some w
    → (word w ≡ some w) × (length w ≤ length rest) × (0 < length w)
unfolding word
word_parts [] w h = cc
word_parts (b ∷ bs) w h =
    ground (
      arith,
      length-take_while is_identifier_continue bs,
      take_while_idem is_identifier_continue bs,
    )

pub starts_with-length : (byte : ℕ) (xs : Bytes) → starts_with byte (head xs) ≡ true → 1 ≤ length xs
starts_with-length byte [] h = cc
starts_with-length byte (x ∷ xs) h = omega arith

-- A name that is one word, within its bound.
pub record IsIdentifier (max : ℕ) (name : Bytes) : Type 0 where
  pub spelled : word name ≡ some name
  pub bounded : length name ≤ max

module _ {max : ℕ} where
  pub skip_whitespace-Sound : Sound max Any skip_whitespace
  unfolding skip_whitespace
  skip_whitespace-Sound = record {
    reads =
        λ s bound. (tt, end_of-advance _ s (length-take_while is_ascii_whitespace s.rest), bound);
  }

  pub require_whitespace-Sound : (expected : String) → Sound max Any (require_whitespace expected)
  unfolding require_whitespace
  require_whitespace-Sound expected = record {
    reads = λ s bound.
        let n = length (take_while is_ascii_whitespace s.rest) in
        ground (arith, end_of-advance n s (length-take_while is_ascii_whitespace s.rest));
  }

  pub expect_keyword-Sound : (keyword : String) → Sound max Any (expect_keyword keyword)
  unfolding expect_keyword
  expect_keyword-Sound keyword = record {
    reads = λ s bound. elim (Option-cases (word s.rest)) [
      | inl e ↦ rw (expect_keyword, e) (omega arith)
      | inr (w, e) ↦
          (let (spelled, short, long) = word_parts s.rest w e in
            rw (expect_keyword, e) (ground (arith, end_of-advance (length w) s short)))
    ];
  }

  pub expect_byte-Sound : (byte : ℕ) (expected : String) → Sound max Any (expect_byte byte expected)
  unfolding expect_byte
  expect_byte-Sound byte expected = record {
    reads = λ s bound. elim (Bool-cases (starts_with byte (head s.rest))) [
      | inl t ↦
          rw (expect_byte, t) (tt, end_of-advance 1 s (starts_with-length byte s.rest t), bound)
      | inr f ↦ rw (expect_byte, f) (omega arith)
    ];
  }

  pub parse_identifier-Sound : Sound max (IsIdentifier max) parse_identifier
  unfolding parse_identifier
  parse_identifier-Sound = record {
    reads = λ s bound. elim (Option-cases (word s.rest)) [
      | inl e ↦ rw (parse_identifier, e) (omega arith)
      | inr (w, e) ↦
          (let (spelled, short, long) = word_parts s.rest w e in
            rw (parse_identifier, e)
              (elim (Bool-cases (ltb s.max_identifier_bytes (length w))) [
                | inl t ↦ rw t (ground arith)
                | inr f ↦ rw f (
                  record { spelled = spelled; bounded = ground arith },
                  end_of-advance (length w) s short,
                  bound,
                )
              ]))
    ];
  }
