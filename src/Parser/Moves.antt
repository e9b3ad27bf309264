-- ===== src/Parser/Moves.antt =====
-- How the parser of go/internal/engine/internal/parser/parser.go moves forward.
use jsonata.Base.{
  ℕ, suc, ◌+◌, ◌<◌, ◌≤◌, Bool, true, false, Bytes, length, ◌==◌, if◌then◌else◌, ◌≡◌, ◌≢◌, inl, inr,
  refl, arith,
}
use jsonata.Lexer.Token.{TokenKind, end_of_file, Token, LexError, Lexed, lexed, failed, Lexer}
use jsonata.Lexer.Progress.{Moves, next-Moves}
use jsonata.Parser.State.{
  s0202, ParseError, lexical, out_of_fuel, Parser, Parsed, done, fails, Parse, ◌>>=◌, then_do, fail,
  next_token, kind_number, is_kind, read_token, advance, advance_prefix, advance_infix, consume,
  consume_prefix,
}

-- What is left to read: a unit for each byte, and one for the token that is looked at.
abbrev pub token_size : TokenKind → ℕ
token_size end_of_file = 0
token_size _ = 1

abbrev pub left_to_read : Parser → ℕ
left_to_read p = length p.lex.rest + token_size p.token.kind

-- An error that is not for want of fuel, of the parser or of the lexer.
abbrev pub IsGenuine : ParseError → Type 0
IsGenuine out_of_fuel = ⊥
IsGenuine (lexical e) = e ≢ LexError.out_of_fuel
IsGenuine e = Unit

-- A result that leaves less than `b` to read, or an error that is no want of fuel.
abbrev pub Below {ℓ} : {A : Type ℓ} → ℕ → Parsed A → Type 0
Below b (done a p) = left_to_read p < b
Below b (fails e) = IsGenuine e

pub Below-mono {ℓ} : {A : Type ℓ} (b c : ℕ) (r : Parsed A) → b ≤ c → Below b r → Below c r
Below-mono b c (done a p) h k = omega arith
Below-mono b c (fails e) h k = k

-- One computation behind another.
pub Below-then {ℓ κ} :
    {A : Type ℓ} {B : Type κ} (b c : ℕ) (r : Parsed A) (f : A → Parse B)
    → Below b r
    → ((a : A) (p : Parser) → left_to_read p < b → Below c (f a p))
    → Below c (then_do r f)
Below-then b c (done a p) f h k = k a p h
Below-then b c (fails e) f h k = h

-- What leaves less than `b` from less than `b`.
abbrev pub Keeps {ℓ} : {A : Type ℓ} → ℕ → Parse A → Type 0
Keeps b m = (p : Parser) → left_to_read p < b → Below b (m p)

pub Keeps-bind {ℓ κ} :
    {A : Type ℓ} {B : Type κ} (b : ℕ) (m : Parse A) (f : A → Parse B)
    → Keeps b m
    → ((a : A) → Keeps b (f a))
    → Keeps b (m >>= f)
Keeps-bind b m f h k p lt = Below-then b b (m p) f (h p lt) (λ a q l. k a q l)

pub Keeps-if {ℓ} :
    {A : Type ℓ} (b : ℕ) (t : Bool) (m k : Parse A)
    → Keeps b m
    → Keeps b k
    → Keeps b (if t then m else k)
Keeps-if b true m k h g = h
Keeps-if b false m k h g = g

-- The branch that a test takes.
pub Below-if {ℓ} :
    {A : Type ℓ} (b : ℕ) (t : Bool) (m k : Parse A) (p : Parser)
    → (t ≡ true → Below b (m p))
    → (t ≡ false → Below b (k p))
    → Below b ((if t then m else k) p)
Below-if b true m k p h g = h refl
Below-if b false m k p h g = g refl

next_token-Below :
    (l : Lexer) (r : Lexed (Token × Lexer)) → Moves l r → Below (suc (length l.rest)) (next_token r)
next_token-Below l (failed e) h = h
next_token-Below l (lexed (t, l')) (back, place, inl less) = omega (arith, size_le t.kind)
  where
    size_le : (k : TokenKind) → token_size k ≤ 1
    size_le end_of_file = omega arith
    size_le _ = omega arith
next_token-Below l (lexed (t, l')) (back, place, inr (at_end, nothing)) = ground arith

-- A token of a kind that is not that of the end.
pub is_kind-size :
    (kind : TokenKind) (t : Token)
    → token_size kind ≡ 1
    → is_kind kind t ≡ true
    → token_size t.kind ≡ 1
is_kind-size kind t h e = of_kind t.kind (number_size kind h) e
  where
    number_size : (k : TokenKind) → token_size k ≡ 1 → 0 < kind_number k
    number_size end_of_file h = absurd (omega arith)
    number_size k h = omega arith

    of_kind :
        (k : TokenKind)
        → 0 < kind_number kind
        → (kind_number k == kind_number kind) ≡ true
        → token_size k ≡ 1
    of_kind end_of_file l e = absurd (ground arith)
    of_kind k l e = refl

module _ (compiles : Bytes → Bytes → Bool) where
  pub read_token-Below :
      (v : Bool) (l : Lexer) → Below (suc (length l.rest)) (next_token (read_token compiles v l))
  unfolding read_token
  read_token-Below v l =
      next_token-Below l _ (next-Moves compiles (suc (length l.rest)) v l (omega arith))

  -- From a token that is not the last one, less is left.
  pub advance-Below :
      (p : Parser) → token_size p.token.kind ≡ 1 → Below (left_to_read p) (advance compiles p)
  unfolding advance
  advance-Below p h =
      Below-mono (suc (length p.lex.rest)) (left_to_read p) _ (omega arith)
        (read_token-Below p.infix_next p.lex)

  pub advance-Keeps : (b : ℕ) → Keeps b (advance compiles)
  unfolding advance
  advance-Keeps b p h =
      Below-mono (suc (length p.lex.rest)) b _ (omega arith) (read_token-Below p.infix_next p.lex)

  pub advance_prefix-Below :
      (p : Parser)
      → token_size p.token.kind ≡ 1
      → Below (left_to_read p) (advance_prefix compiles p)
  unfolding advance_prefix
  advance_prefix-Below p h = advance-Below (record p { infix_next = false }) h

  pub advance_prefix-Keeps : (b : ℕ) → Keeps b (advance_prefix compiles)
  unfolding advance_prefix
  advance_prefix-Keeps b p h = advance-Keeps b (record p { infix_next = false }) h

  pub advance_infix-Below :
      (p : Parser) → token_size p.token.kind ≡ 1 → Below (left_to_read p) (advance_infix compiles p)
  unfolding advance_infix
  advance_infix-Below p h = advance-Below (record p { infix_next = true }) h

  pub advance_infix-Keeps : (b : ℕ) → Keeps b (advance_infix compiles)
  unfolding advance_infix
  advance_infix-Keeps b p h = advance-Keeps b (record p { infix_next = true }) h

  pub consume-Keeps : (b : ℕ) (kind : TokenKind) → Keeps b (consume compiles kind)
  unfolding consume
  consume-Keeps b kind p h =
      Keeps-if b (is_kind kind p.token) (advance compiles) (fail s0202 p.token.value)
        (advance-Keeps b) (λ q l. tt) p h

  pub consume_prefix-Keeps : (b : ℕ) (kind : TokenKind) → Keeps b (consume_prefix compiles kind)
  unfolding consume_prefix
  consume_prefix-Keeps b kind p h =
      Keeps-if b (is_kind kind p.token) (advance_prefix compiles) (fail s0202 p.token.value)
        (advance_prefix-Keeps b) (λ q l. tt) p h

  pub consume-Below :
      (kind : TokenKind) (p : Parser)
      → token_size kind ≡ 1
      → Below (left_to_read p) (consume compiles kind p)
  unfolding consume
  consume-Below kind p h = of_test (is_kind kind p.token) refl
    where
      of_test :
          (b : Bool)
          → is_kind kind p.token ≡ b
          → Below (left_to_read p) ((if b then advance compiles else fail s0202 p.token.value) p)
      of_test true e = advance-Below p (is_kind-size kind p.token h e)
      of_test false e = tt

pub not_end-size : (t : Token) → is_kind end_of_file t ≡ false → token_size t.kind ≡ 1
not_end-size t e = of_kind t.kind e
  where
    of_kind : (k : TokenKind) → (kind_number k == 0) ≡ false → token_size k ≡ 1
    of_kind end_of_file e = cc
    of_kind k e = refl
