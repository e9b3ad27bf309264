-- ===== src/Lexer/Next.antt =====
-- `Next` of go/internal/engine/internal/lexer/lexer.go. `compiles` stands for `ecmaregex.Compile`, which gives a pattern
-- with its flags to a library.
use jsonata.Base.{
  ℕ, zero, suc, Bool, true, not, ◌&&◌, ◌||◌, [], ◌∷◌, Option, none, some, Bytes, codes, bytes_eq,
  drop, ◌==◌, if◌then◌else◌,
}
use jsonata.Number.Grammar.{is_digit, valid}
use jsonata.Strings.Utf8.{decode_rune}
use jsonata.Lexer.Token.{
  TokenKind, end_of_file, name, variable, string, number, value_word, regex_literal, dot, lbracket,
  rbracket, lbrace, rbrace, lparen, rparen, comma, at, hash, semicolon, colon, question, plus,
  minus, star, slash, percent, pipe, equals, less, greater, caret, ampersand, bang, tilde,
  star_star, dot_dot, assign, not_equal, less_equal, greater_equal, chain, elvis, coalesce,
  and_word, or_word, in_word, Token, Lexed, lexed, failed, s0102, s0105, s0106, out_of_fuel, Lexer,
  advance, plain_token,
}
use jsonata.Lexer.Spans.{
  is_stop_char, skip_white, starts_with, tail, skip_comment, span, number_span,
}
use jsonata.Lexer.Literals.{scan_string}
use jsonata.Lexer.Regex.{scan_regex}

-- The `switch` on two characters.
unfoldable pub two_char_op : ℕ → ℕ → Option TokenKind
two_char_op c d =
    if c == b'.' && d == b'.'
    then some dot_dot
    else if c == b':' && d == b'='
    then some assign
    else if c == b'!' && d == b'='
    then some not_equal
    else if c == b'>' && d == b'='
    then some greater_equal
    else if c == b'<' && d == b'='
    then some less_equal
    else if c == b'*' && d == b'*'
    then some star_star
    else if c == b'~' && d == b'>'
    then some chain
    else if c == b'?' && d == b':'
    then some elvis
    else if c == b'?' && d == b'?'
    then some coalesce
    else none

-- `singleCharOp`
unfoldable pub single_char_op : ℕ → Option TokenKind
single_char_op c =
    if c == b'.'
    then some dot
    else if c == b'['
    then some lbracket
    else if c == b']'
    then some rbracket
    else if c == b'{'
    then some lbrace
    else if c == b'}'
    then some rbrace
    else if c == b'('
    then some lparen
    else if c == b')'
    then some rparen
    else if c == b','
    then some comma
    else if c == b'@'
    then some at
    else if c == b'#'
    then some hash
    else if c == b';'
    then some semicolon
    else if c == b':'
    then some colon
    else if c == b'?'
    then some question
    else if c == b'+'
    then some plus
    else if c == b'-'
    then some minus
    else if c == b'*'
    then some star
    else if c == b'/'
    then some slash
    else if c == b'%'
    then some percent
    else if c == b'|'
    then some pipe
    else if c == b'='
    then some equals
    else if c == b'<'
    then some less
    else if c == b'>'
    then some greater
    else if c == b'^'
    then some caret
    else if c == b'&'
    then some ampersand
    else if c == b'!'
    then some bang
    else if c == b'~'
    then some tilde
    else none

-- A token that starts at `l`, and the lexer behind it.
abbrev pub token_at : Lexer → TokenKind → Bytes → Bytes → Token × Lexer
token_at l k text rest = (plain_token l.pos k text, advance l rest)

-- Identifiers, keywords and variables, once the identifier is read.
unfoldable pub word_token : ℕ → Bytes → Token
unfolding bytes_eq
word_token p [] = plain_token p name []
word_token p (c ∷ s) =
    let id = c ∷ s in
    if c == b'$'
    then plain_token p variable s
    else if bytes_eq id (codes "or")
    then plain_token p or_word id
    else if bytes_eq id (codes "in")
    then plain_token p in_word id
    else if bytes_eq id (codes "and")
    then plain_token p and_word id
    else if bytes_eq id (codes "true")
    then record (plain_token p value_word id) { bool_val = true }
    else if bytes_eq id (codes "false")
    then plain_token p value_word id
    else if bytes_eq id (codes "null")
    then record (plain_token p value_word id) { is_null = true }
    else plain_token p name id

abbrev pub as_string : Lexer → Lexed (Bytes × Bytes) → Lexed (Token × Lexer)
as_string l (failed e) = failed e
as_string l (lexed (text, rest)) = lexed (token_at l string text rest)

unfoldable pub string_token : Lexer → ℕ → Bytes → Lexed (Token × Lexer)
unfolding scan_string
string_token l quote s = as_string l (scan_string quote 0 [] s)

abbrev pub as_number : Lexer → Bytes × Bytes → Lexed (Token × Lexer)
as_number l (text, rest) = if valid text then lexed (token_at l number text rest) else failed s0102

-- `scanNumber`
unfoldable pub number_token : Lexer → ℕ → Bytes → Lexed (Token × Lexer)
unfolding number_span valid
number_token l c s = as_number l (number_span c s)

abbrev pub as_name : Lexer → Bytes × Bytes → Lexed (Token × Lexer)
as_name l (text, []) = failed s0105
as_name l (text, c ∷ rest) = lexed (token_at l name text rest)

unfoldable pub backtick_token : Lexer → Bytes → Lexed (Token × Lexer)
unfolding span
backtick_token l s = as_name l (span (λ c. not (c == 96)) s)

abbrev pub as_regex : Lexer → Lexed (Bytes × Bytes × Bytes) → Lexed (Token × Lexer)
as_regex l (failed e) = failed e
as_regex l (lexed (pattern, flags, rest)) = lexed (
  record (plain_token l.pos regex_literal []) { regex_pat = pattern; regex_flg = flags },
  advance l rest,
)

unfoldable pub regex_token : (Bytes → Bytes → Bool) → Lexer → Bytes → Lexed (Token × Lexer)
unfolding scan_regex
regex_token compiles l s = as_regex l (scan_regex compiles s)

abbrev pub is_word_byte : ℕ → Bool
is_word_byte c = not (is_stop_char c)

-- An identifier, or none: then `again` is the call of `Next` behind the byte that starts no token.
abbrev pub as_word :
    (Lexer → Lexed (Token × Lexer)) → Lexer → ℕ → Bytes → Bytes × Bytes → Lexed (Token × Lexer)
as_word again l c s ([], rest) = again (advance l (drop (decode_rune c s).1 s))
as_word again l c s (d ∷ id, rest) = lexed (word_token l.pos (d ∷ id), advance l rest)

-- What follows the operators: literals and names.
unfoldable pub literal_token :
    (Lexer → Lexed (Token × Lexer)) → Lexer → ℕ → Bytes → Lexed (Token × Lexer)
unfolding string_token number_token backtick_token word_token is_stop_char span
literal_token again l c s =
    if c == 34 || c == 39
    then string_token l c s
    else if is_digit c
    then number_token l c s
    else if c == 96
    then backtick_token l s
    else as_word again l c s (span is_word_byte (c ∷ s))

-- The operators: two characters before one.
unfoldable pub operator_token :
    (Lexer → Lexed (Token × Lexer)) → Lexer → ℕ → Bytes → Lexed (Token × Lexer)
unfolding single_char_op literal_token
operator_token again l c s = elim (single_char_op c) [
  | some k ↦ lexed (token_at l k (c ∷ []) s)
  | none ↦ literal_token again l c s
]

unfoldable pub pair_token :
    (Lexer → Lexed (Token × Lexer)) → Lexer → ℕ → Bytes → Lexed (Token × Lexer)
unfolding two_char_op operator_token
pair_token again l c [] = operator_token again l c []
pair_token again l c (d ∷ s) = elim (two_char_op c d) [
  | some k ↦ lexed (token_at l k (c ∷ d ∷ []) s)
  | none ↦ operator_token again l c (d ∷ s)
]

-- The call of `Next` behind a comment.
abbrev pub after_comment :
    (Lexer → Lexed (Token × Lexer)) → Lexer → Option Bytes → Lexed (Token × Lexer)
after_comment again l none = failed s0106
after_comment again l (some rest) = again (advance l rest)

-- `Next` behind white space, at the byte `c`.
unfoldable pub next_at :
    (Bytes → Bytes → Bool)
    → (Lexer → Lexed (Token × Lexer))
    → Bool
    → Lexer
    → ℕ
    → Bytes
    → Lexed (Token × Lexer)
unfolding skip_comment regex_token pair_token
next_at compiles again after_value l c s =
    if c == b'/' && starts_with b'*' s
    then after_comment again l (skip_comment (tail s))
    else if c == b'/' && not after_value
    then regex_token compiles l s
    else pair_token again l c s

-- The step of `Next` on what white space leaves.
abbrev pub next_from :
    (Bytes → Bytes → Bool)
    → (Lexer → Lexed (Token × Lexer))
    → Bool
    → Lexer
    → Bytes
    → Lexed (Token × Lexer)
next_from compiles again after_value l [] = lexed (plain_token 0 end_of_file [], advance l [])
next_from compiles again after_value l (c ∷ s) =
    next_at compiles again after_value (advance l (c ∷ s)) c s

-- `Next`; each call of itself costs one unit of fuel.
unfoldable pub next : (Bytes → Bytes → Bool) → ℕ → Bool → Lexer → Lexed (Token × Lexer)
unfolding skip_white next_at
next compiles zero after_value l = failed out_of_fuel
next compiles (suc fuel) after_value l =
    next_from compiles (next compiles fuel after_value) after_value l (skip_white l.rest)
