-- ===== src/Parser/Ends.antt =====
-- The parser of go/internal/engine/internal/parser/parser.go ends on every text.
use jsonata.Base.{
  ℕ, zero, suc, Bool, true, false, Bytes, length, ◌==◌, if◌then◌else◌, ◌≡◌, refl, arith,
}
use jsonata.Lexer.Token.{TokenKind, end_of_file, Token, new_lexer}
use jsonata.Parser.Node.{Node}
use jsonata.Parser.State
use jsonata.Parser.State.{
  ParseError, Parser, Parsed, done, fails, Parse, ◌>>=◌, ◌>>◌, then_do, pure, fail, kind_number,
  is_kind, next_token, read_token, advance, advance_prefix, advance_infix, new_parser,
}
use jsonata.Parser.Prefix.{nud}
use jsonata.Parser.Expression.{expression, parse_end, parse}
use jsonata.Parser.Moves.{left_to_read, IsGenuine, Below, Below-then, read_token-Below}
use jsonata.Parser.LoopMoves.{MovesBelow}
use jsonata.Parser.NudMoves.{nud-Below}
use jsonata.Parser.LedMoves.{led_loop-Keeps}

expression-MovesBelow :
    (compiles : Bytes → Bytes → Bool) (n : ℕ) → MovesBelow n (expression compiles n)
unfolding expression
expression-MovesBelow compiles zero bp p lt = absurd (omega arith)
expression-MovesBelow compiles (suc n) bp p lt =
    Below-then (left_to_read p) (left_to_read p) (nud compiles (expression compiles n) n p) _
      (nud-Below compiles (expression compiles n) n (expression-MovesBelow compiles n) n p
        (omega arith) (omega arith))
      (λ left.
        led_loop-Keeps compiles (expression compiles n) n (expression-MovesBelow compiles n) n
          (suc n) (left_to_read p) bp left (omega arith) (omega arith) (omega arith))

is_end-kind : (t : Token) → is_kind end_of_file t ≡ true → t.kind ≡ end_of_file
is_end-kind t e = of_kind t.kind e
  where
    of_kind : (k : TokenKind) → (kind_number k == 0) ≡ true → k ≡ end_of_file
    of_kind end_of_file e = refl
    of_kind k e = absurd (ground arith)

-- A tree behind which only the end of the text stands, or an error that is no want of fuel.
abbrev pub EndsWell : Parsed Node → Type 0
EndsWell (done n p) = p.token.kind ≡ end_of_file
EndsWell (fails e) = IsGenuine e

parse_end-EndsWell : (left : Node) (p : Parser) → EndsWell (parse_end left p)
unfolding parse_end
parse_end-EndsWell left p = of_test (is_kind end_of_file p.token) refl
  where
    of_test :
        (t : Bool)
        → is_kind end_of_file p.token ≡ t
        → EndsWell ((if t then pure left else fail State.s0201 p.token.value) p)
    of_test true e = is_end-kind p.token e
    of_test false e = tt

then-EndsWell : (b : ℕ) (r : Parsed Node) → Below b r → EndsWell (then_do r parse_end)
then-EndsWell b (done left p) h = parse_end-EndsWell left p
then-EndsWell b (fails e) h = h

-- For every text, and whatever regular expressions the host compiles, `NewParser` and `Parse` return: either a tree,
-- behind which only the token of the end of the text stands, or an error of the syntax, of the lexer or of a signature.
-- With two more units of fuel than the text has bytes, no loop and no recursive call is cut short, be it in the parser,
-- the lexer or the signature parser.
pub parse-EndsWell : (compiles : Bytes → Bytes → Bool) (src : Bytes) → EndsWell (parse compiles src)
unfolding parse new_parser
parse-EndsWell compiles src =
    of_start (next_token (read_token compiles false (new_lexer src)))
      (read_token-Below compiles false (new_lexer src))
  where
    of_start :
        (r : Parsed (Unit {0}))
        → Below (suc (length src)) r
        → EndsWell (
            then_do r
              (λ _. do left ← expression compiles (suc (suc (length src))) 0; parse_end left))
    of_start (fails e) h = h
    of_start (done a p) h =
        then-EndsWell (left_to_read p) _
          (expression-MovesBelow compiles (suc (suc (length src))) 0 p (omega arith))
