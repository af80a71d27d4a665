-- ===== src/Parser/Sound.antt =====
-- src/parser.rs: what every method of the parser keeps. The position moves along the input and
-- stays within it, the offset of an error lies within the input, and a result is as stated.
pub mod Words
pub mod Literals
pub mod Statements
pub mod Writes
pub mod Queries
pub mod Functions
pub mod Sql
use rusthouse.Prelude.{
  ℕ, ◌+◌, ◌-◌, ◌≤◌, ◌<◌, ◌≡◌, refl, subst, inl, inr, Bool, Option, none, some, arith, Bool-cases,
  length, Result, ok, err,
}
use Prim.Native.String.{String}
use rusthouse.Parser.{
  Parser, ParseError, Parse, and_then, ◌>>=◌, return, branch, optional, unexpected,
}

-- The place of a method's error is within an input of this length.
abbrev pub Within : ℕ → ParseError → Type 0
Within end (ParseError.statement_too_long bytes max_bytes) = ⊥
Within end (ParseError.identifier_too_long offset bytes max_bytes) =
    (offset + bytes ≤ end) × (max_bytes < bytes)
Within end (ParseError.unexpected_input offset expected) = offset ≤ end
Within end (ParseError.invalid_int64 offset) = offset ≤ end
Within end (ParseError.int64_overflow offset) = offset ≤ end
Within end (ParseError.invalid_limit offset) = offset ≤ end
Within end (ParseError.limit_overflow offset) = offset ≤ end
Within end (ParseError.extra_rows offset) = offset ≤ end
Within end (ParseError.trailing_input offset) = offset < end

-- Where the input of a state ends.
abbrev pub end_of : Parser → ℕ
end_of s = s.position + length s.rest

module _ (max : ℕ) {A : Type 0} where
  abbrev pub Reads : (A → Type 0) → ℕ → Result ParseError (A × Parser) → Type 0
  Reads Q end (err e) = Within end e
  Reads Q end (ok (a, s)) = Q a × (end_of s ≡ end) × (s.max_identifier_bytes ≡ max)

  pub record Sound (Q : A → Type 0) (p : Parse A) : Type 0 where
    pub reads : (s : Parser) → s.max_identifier_bytes ≡ max → Reads Q (end_of s) (p s)

-- No claim on a result.
abbrev pub Any : {A : Type 0} → A → Type 0
Any a = Unit

module _ {max : ℕ} {A B : Type 0} {Q : A → Type 0} {R : B → Type 0} where
  and_then-Reads :
      (next : A → Parse B) (r : Result ParseError (A × Parser)) (end : ℕ)
      → Reads max Q end r
      → ((a : A) → Q a → Sound max R (next a))
      → Reads max R end (and_then next r)
  and_then-Reads next (err e) end h k = h
  and_then-Reads next (ok (a, s)) end (q, same, bound) k =
      subst (λ n. Reads max R n (next a s)) same ((k a q).reads s bound)

  infixr 6 ◌▷◌
  pub ◌▷◌ :
      {p : Parse A} {next : A → Parse B}
      → Sound max Q p
      → ((a : A) → Q a → Sound max R (next a))
      → Sound max R (p >>= next)
  m ▷ k = record { reads = λ s bound. and_then-Reads _ _ (end_of s) (m.reads s bound) k }

module _ {max : ℕ} {A : Type 0} {Q : A → Type 0} where
  pub return-Sound : {a : A} → Q a → Sound max Q (return a)
  return-Sound q = record { reads = λ s bound. (q, refl, bound) }

  pub unexpected-Sound : {expected : String} → Sound max Q (unexpected expected)
  unexpected-Sound = record { reads = λ s bound. omega arith }

  pub branch-Sound :
      (test : Parser → Bool) {p q : Parse A}
      → Sound max Q p
      → Sound max Q q
      → Sound max Q (branch test p q)
  branch-Sound test m k = record {
    reads = λ s bound. elim (Bool-cases (test s)) [
      | inl t ↦ rw t (m.reads s bound)
      | inr f ↦ rw f (k.reads s bound)
    ];
  }

-- A claim on an optional result.
abbrev pub Maybe : {A : Type 0} → (A → Type 0) → Option A → Type 0
Maybe Q none = Unit
Maybe Q (some a) = Q a

module _ {max : ℕ} {A : Type 0} {Q : A → Type 0} where
  pub optional-Sound :
      (test : Parser → Bool) {p : Parse A} → Sound max Q p → Sound max (Maybe Q) (optional test p)
  optional-Sound test m =
      branch-Sound test (m ▷ λ a q. return-Sound {Q = Maybe Q} q) (return-Sound {Q = Maybe Q} tt)
