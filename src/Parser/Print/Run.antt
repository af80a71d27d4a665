-- ===== src/Parser/Print/Run.antt =====
-- src/parser.rs: how a parser runs on a text, one method after another.
use rusthouse.Prelude.{◌≤◌, ◌≡◌, refl, false, arith, ltb, length, Result, ok}
use rusthouse.Prelude.Bytes.{Bytes}
use rusthouse.Parser.{ParseLimits, Parser, Parse, ParseError, and_then}
use rusthouse.Parser.Sql.{run_parser}
use rusthouse.Parser.Print.Words.{at}

-- One method of a parser, and what follows it.
pub after :
    {A B : Type 0} (next : A → Parse B) {a : A} {s : Parser}
    {first : Result ParseError (A × Parser)} {r : Result ParseError (B × Parser)}
    → first ≡ ok (a, s)
    → next a s ≡ r
    → and_then next first ≡ r
after next h k = rw h k

pub run_parser-ok :
    {A : Type 0} (p : Parse A) (input : Bytes) (limits : ParseLimits) (a : A) (s : Parser)
    → length input ≤ limits.max_statement_bytes
    → p (at input 0 limits.max_identifier_bytes) ≡ ok (a, s)
    → run_parser p input limits ≡ ok a
run_parser-ok p input limits a s short h =
    let room : ltb limits.max_statement_bytes (length input) ≡ false = ground arith in
    rw (room, h) refl
