-- ===== src/Parser/Operators.antt =====
-- The operators of go/internal/engine/internal/parser/parser.go: `bindingPower`, the binary cases of `led`, and
-- `binaryRHS`.
use jsonata.Base.{
  ℕ, Bool, true, false, ◌&&◌, ◌||◌, [], ◌∷◌, Option, none, some, Bytes, codes, ◌==◌, if◌then◌else◌,
}
use jsonata.Lexer.Token.{
  TokenKind, end_of_file, dot, lbracket, lbrace, lparen, at, hash, question, plus, minus, star,
  slash, percent, equals, less, greater, caret, ampersand, dot_dot, assign, not_equal, less_equal,
  greater_equal, chain, elvis, coalesce, and_word, or_word, in_word,
}
use jsonata.Parser.Node.{Node}
use jsonata.Parser.State.{
  Code, s0201, s0207, ParseError, syntax, Parsed, done, fails, Parse, is_kind,
}

-- `bindingPower`
abbrev pub binding_power : TokenKind → ℕ
binding_power lparen = 80
binding_power lbracket = 80
binding_power at = 75
binding_power hash = 75
binding_power dot = 75
binding_power star = 60
binding_power slash = 60
binding_power percent = 60
binding_power plus = 50
binding_power minus = 50
binding_power ampersand = 50
binding_power not_equal = 40
binding_power less_equal = 40
binding_power greater_equal = 40
binding_power equals = 40
binding_power less = 40
binding_power greater = 40
binding_power in_word = 40
binding_power and_word = 30
binding_power or_word = 25
binding_power dot_dot = 20
binding_power question = 20
binding_power elvis = 20
binding_power coalesce = 20
binding_power chain = 45
binding_power assign = 10
binding_power lbrace = 70
binding_power caret = 40
binding_power _ = 0

-- A binary operator: its text, the power with which its right operand is parsed, and whether that is by `binaryRHS`.
pub record BinaryOperator : Type 0 where
  pub symbol : Bytes
  pub right_power : ℕ
  pub checked : Bool

abbrev pub operator : Bytes → ℕ → BinaryOperator
operator symbol power = record { symbol = symbol; right_power = power; checked = false }

abbrev pub checked_operator : Bytes → ℕ → BinaryOperator
checked_operator symbol power = record { symbol = symbol; right_power = power; checked = true }

abbrev pub binary_operator : TokenKind → Option BinaryOperator
binary_operator dot = some (operator (codes ".") 74)
binary_operator chain = some (operator (codes "~>") 44)
binary_operator elvis = some (operator (codes "?:") 19)
binary_operator coalesce = some (operator (codes "??") 19)
binary_operator dot_dot = some (operator (codes "..") 19)
binary_operator and_word = some (operator (codes "and") 30)
binary_operator or_word = some (operator (codes "or") 25)
binary_operator in_word = some (operator (codes "in") 40)
binary_operator equals = some (checked_operator (codes "=") 40)
binary_operator not_equal = some (checked_operator (codes "!=") 40)
binary_operator less = some (checked_operator (codes "<") 40)
binary_operator greater = some (checked_operator (codes ">") 40)
binary_operator less_equal = some (checked_operator (codes "<=") 40)
binary_operator greater_equal = some (operator (codes ">=") 40)
binary_operator plus = some (operator (codes "+") 50)
binary_operator minus = some (operator (codes "-") 50)
binary_operator star = some (operator (codes "*") 60)
binary_operator slash = some (operator (codes "/") 60)
binary_operator percent = some (checked_operator (codes "%") 60)
binary_operator ampersand = some (operator (codes "&") 50)
binary_operator _ = none

-- `strings.HasPrefix` and `strings.Contains`
unfoldable pub has_prefix : Bytes → Bytes → Bool
has_prefix [] s = true
has_prefix (c ∷ t) [] = false
has_prefix (c ∷ t) (d ∷ s) = c == d && has_prefix t s

unfoldable pub contains_text : Bytes → Bytes → Bool
unfolding has_prefix
contains_text t [] = has_prefix t []
contains_text t (c ∷ s) = has_prefix t (c ∷ s) || contains_text t s

abbrev pub is_s0201 : Code → Bool
is_s0201 s0201 = true
is_s0201 code = false

-- Whether the message has both `S0201` and `EOF`: its code may be the one, and the token, which it quotes, may have
-- either. The message of another kind of error is taken to have neither.
unfoldable pub is_end_error : ParseError → Bool
unfolding contains_text
is_end_error (syntax code token) =
    (is_s0201 code || contains_text (codes "S0201") token) && contains_text (codes "EOF") token
is_end_error e = false

abbrev pub nothing_follows : Bytes → Parsed Node → Parsed Node
nothing_follows op (done n p) = done n p
nothing_follows op (fails e) = if is_end_error e then fails (syntax s0207 op) else fails e

-- `binaryRHS`, where `expression` parses.
unfoldable pub binary_rhs : (ℕ → Parse Node) → ℕ → Bytes → Parse Node
unfolding is_end_error
binary_rhs expression bp op p =
    if is_kind end_of_file p.token
    then fails (syntax s0207 op)
    else nothing_follows op (expression bp p)

-- The right operand.
unfoldable pub right_operand : (ℕ → Parse Node) → BinaryOperator → Parse Node
unfolding binary_rhs
right_operand expression op p =
    if op.checked
    then binary_rhs expression op.right_power op.symbol p
    else expression op.right_power p
