-- ===== src/Parser/State.antt =====
-- The state of the parser, its errors, and how it moves on: the fields of `Parser`, `NewParser`, `advance` and
-- `consume` of go/internal/engine/internal/parser/parser.go. `compiles` is the parameter of the lexer.
use jsonata.Base.{codes, ℕ, suc, Bool, true, false, Bytes, length, ◌==◌, if◌then◌else◌}
use jsonata.Lexer.Token.{
  TokenKind, end_of_file, name, variable, string, number, value_word, regex_literal, dot, lbracket,
  rbracket, lbrace, rbrace, lparen, rparen, comma, at, hash, semicolon, colon, question, plus,
  minus, star, slash, percent, pipe, equals, less, greater, caret, ampersand, bang, tilde,
  star_star, dot_dot, assign, not_equal, less_equal, greater_equal, chain, elvis, coalesce,
  and_word, or_word, in_word, Token, LexError, Lexed, lexed, failed, Lexer, new_lexer,
}
use jsonata.Lexer.Next.{next}
use jsonata.Signature.Spec.{SignatureError}

pub data Code : Type 0 where
  s0201 s0202 s0203 s0204 s0207 s0208 s0209 s0210 s0211 s0212 s0214 s0215 s0216 : Code

-- `parseError` with its code and its token; an error of the lexer; one of a signature; and the end of the fuel.
pub data ParseError : Type 0 where
  syntax : Code → Bytes → ParseError
  lexical : LexError → ParseError
  signature : SignatureError → ParseError
  out_of_fuel : ParseError

-- The token that is looked at, what follows it, and `infix`.
pub record Parser : Type 0 where
  pub lex : Lexer
  pub token : Token
  pub infix_next : Bool

pub data Parsed {ℓ} (A : Type ℓ) : Type ℓ where
  done : A → Parser → Parsed A
  fails : ParseError → Parsed A

abbrev pub Parse {ℓ} : Type ℓ → Type ℓ
Parse A = Parser → Parsed A

-- The rest of a computation on a result.
abbrev pub then_do {ℓ κ} : {A : Type ℓ} {B : Type κ} → Parsed A → (A → Parse B) → Parsed B
then_do (done a p) f = f a p
then_do (fails e) f = fails e

infixl 5 ◌>>=◌ ◌>>◌
abbrev pub ◌>>=◌ {ℓ κ} : {A : Type ℓ} {B : Type κ} → Parse A → (A → Parse B) → Parse B
(m >>= f) p = then_do (m p) f

abbrev pub ◌>>◌ {ℓ κ} : {A : Type ℓ} {B : Type κ} → Parse A → Parse B → Parse B
m >> k = m >>= λ _. k

abbrev pub pure {ℓ} : {A : Type ℓ} → A → Parse A
pure a p = done a p

-- `parseError`
abbrev pub fail {ℓ} : {A : Type ℓ} → Code → Bytes → Parse A
fail code token p = fails (syntax code token)

-- The end of the fuel of a loop.
abbrev pub exhausted {ℓ} : {A : Type ℓ} → Parse A
exhausted p = fails out_of_fuel

abbrev pub eof : Bytes
eof = codes "EOF"

abbrev pub get_token : Parse Token
get_token p = done p.token p

-- `p.infix = true`
abbrev pub set_infix : Parse (Unit {0})
set_infix p = done tt (record p { infix_next = true })

abbrev pub set_prefix : Parse (Unit {0})
set_prefix p = done tt (record p { infix_next = false })

abbrev pub next_token : Lexed (Token × Lexer) → Parsed (Unit {0})
next_token (failed e) = fails (lexical e)
next_token (lexed (t, l)) = done tt (record { lex = l; token = t; infix_next = false })

-- Each kind of token by a number, to compare them.
abbrev pub kind_number : TokenKind → ℕ
kind_number end_of_file = 0
kind_number name = 1
kind_number variable = 2
kind_number string = 3
kind_number number = 4
kind_number value_word = 5
kind_number regex_literal = 6
kind_number dot = 7
kind_number lbracket = 8
kind_number rbracket = 9
kind_number lbrace = 10
kind_number rbrace = 11
kind_number lparen = 12
kind_number rparen = 13
kind_number comma = 14
kind_number at = 15
kind_number hash = 16
kind_number semicolon = 17
kind_number colon = 18
kind_number question = 19
kind_number plus = 20
kind_number minus = 21
kind_number star = 22
kind_number slash = 23
kind_number percent = 24
kind_number pipe = 25
kind_number equals = 26
kind_number less = 27
kind_number greater = 28
kind_number caret = 29
kind_number ampersand = 30
kind_number bang = 31
kind_number tilde = 32
kind_number star_star = 33
kind_number dot_dot = 34
kind_number assign = 35
kind_number not_equal = 36
kind_number less_equal = 37
kind_number greater_equal = 38
kind_number chain = 39
kind_number elvis = 40
kind_number coalesce = 41
kind_number and_word = 42
kind_number or_word = 43
kind_number in_word = 44

-- `tok.Type == kind`
abbrev pub is_kind : TokenKind → Token → Bool
is_kind kind t = kind_number t.kind == kind_number kind

module _ (compiles : Bytes → Bytes → Bool) where
  -- A token for `Next` on what is left, with enough fuel.
  unfoldable pub read_token : Bool → Lexer → Lexed (Token × Lexer)
  unfolding next
  read_token after_value l = next compiles (suc (length l.rest)) after_value l

  unfoldable pub advance : Parse (Unit {0})
  unfolding read_token
  advance p = next_token (read_token p.infix_next p.lex)

  unfoldable pub advance_prefix : Parse (Unit {0})
  unfolding advance
  advance_prefix = do set_prefix; advance

  unfoldable pub advance_infix : Parse (Unit {0})
  unfolding advance
  advance_infix = do set_infix; advance

  unfoldable pub consume : TokenKind → Parse (Unit {0})
  unfolding advance
  consume kind = do t ← get_token; if is_kind kind t then advance else fail s0202 t.value

  unfoldable pub consume_prefix : TokenKind → Parse (Unit {0})
  unfolding advance_prefix
  consume_prefix kind = do
    t ← get_token
    if is_kind kind t then advance_prefix else fail s0202 t.value

  -- `NewParser`, with the error of its first token.
  unfoldable pub new_parser : Bytes → Parsed (Unit {0})
  unfolding read_token
  new_parser src = next_token (read_token false (new_lexer src))
