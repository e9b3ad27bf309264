-- ===== src/Parser/Infixes.antt =====
-- The operators of `led` of go/internal/engine/internal/parser/parser.go and the table of precedence.
use jsonata.Base.{
  ℕ, ◌<◌, ◌≤◌, Bool, true, false, Option, none, some, Bytes, bytes_eq, ◌≡◌, refl, arith,
  if◌then◌else◌,
}
use jsonata.Lexer.Token.{
  TokenKind, dot, plus, minus, star, slash, percent, equals, less, greater, ampersand, dot_dot,
  not_equal, less_equal, greater_equal, chain, elvis, coalesce, and_word, or_word, in_word,
}
use jsonata.Parser.Node.{Node, node, Nodes, no_group, group, negation, condition, bind, binary}
use jsonata.Parser.State.{
  Parser, Parsed, done, fails, Parse, then_do, pure, is_kind, advance, advance_prefix,
  advance_infix, consume, consume_prefix,
}
use jsonata.Parser.State
use jsonata.Parser.Operators.{
  binding_power, BinaryOperator, binary_operator, nothing_follows, is_end_error,
}
use jsonata.Parser.Groups.{has_group, keep_array_of, set_group}
use jsonata.Parser.Expression.{set_focus, set_index}
use jsonata.Parser.Ordered.{AreOrdered, precedence, power_of, limit_of, IsOrdered}
use jsonata.Parser.Good.{Good}
use jsonata.Parser.Prefixes.{Stands, binding_power_le}

precedence-closed : (op : Bytes) → 75 ≤ (precedence op).limit → (precedence op).limit ≡ 100
unfolding precedence
precedence-closed op h = ground arith

pub limit_of-closed : (n : Node) → 75 ≤ limit_of n → limit_of n ≡ 100
limit_of-closed (node pos marks (group place pairs) shape) h = refl
limit_of-closed (node pos marks no_group (binary op l r)) h = precedence-closed op h
limit_of-closed (node pos marks no_group (condition c t e)) h = absurd (omega arith)
limit_of-closed (node pos marks no_group (bind l r)) h = absurd (omega arith)
limit_of-closed (node pos marks no_group (negation n)) h = absurd (omega arith)
limit_of-closed (node pos marks no_group shape) h = refl

-- What may stand before any operator.
pub open_limit : (n : Node) (q : Parser) → 75 ≤ limit_of n → binding_power q.token.kind ≤ limit_of n
open_limit n q h = omega (arith, limit_of-closed n h, binding_power_le q.token.kind)

pub set_focus-Stands :
    (bp : ℕ) (v : Bytes) (n : Node) (q : Parser)
    → IsOrdered n
    → bp < power_of n
    → 75 ≤ limit_of n
    → Stands bp (set_focus v n) q
unfolding IsOrdered
set_focus-Stands bp v (node pos marks g shape) q h k l =
    (h, k, open_limit (node pos marks g shape) q l)

pub set_index-Stands :
    (bp : ℕ) (v : Bytes) (n : Node) (q : Parser)
    → IsOrdered n
    → bp < power_of n
    → 75 ≤ limit_of n
    → Stands bp (set_index v n) q
unfolding IsOrdered
set_index-Stands bp v (node pos marks g shape) q h k l =
    (h, k, open_limit (node pos marks g shape) q l)

pub keep_array_of-Stands :
    (bp : ℕ) (n : Node) (q : Parser)
    → IsOrdered n
    → bp < power_of n
    → 75 ≤ limit_of n
    → Stands bp (keep_array_of n) q
unfolding IsOrdered
keep_array_of-Stands bp (node pos marks g shape) q h k l =
    (h, k, open_limit (node pos marks g shape) q l)

pub set_group-Stands :
    (bp place : ℕ) (pairs : Nodes) (n : Node) (q : Parser)
    → IsOrdered n
    → bp < power_of n
    → 70 ≤ limit_of n
    → has_group n ≡ false
    → AreOrdered pairs
    → Stands bp (set_group (group place pairs) n) q
unfolding IsOrdered
set_group-Stands bp place pairs (node pos marks (group k ps) shape) q h p l e hs = cc
set_group-Stands bp place pairs (node pos marks no_group shape) q h p l e hs =
    ((h.0, (l, hs)), p, omega (arith, binding_power_le q.token.kind))

-- What the table of precedence says of an operator, and how tightly it is parsed.
abbrev pub IsListed : TokenKind → Option BinaryOperator → Type 0
IsListed k none = Unit
IsListed k (some op) =
    ((precedence op.symbol).power ≡ binding_power k)
    × ((precedence op.symbol).right_power ≡ op.right_power)
    × ((precedence op.symbol).limit ≡ op.right_power)
    × (op.right_power < 100)

pub binary_operator-IsListed : (k : TokenKind) → IsListed k (binary_operator k)
unfolding precedence bytes_eq
binary_operator-IsListed dot = (refl, refl, refl, omega arith)
binary_operator-IsListed chain = (refl, refl, refl, omega arith)
binary_operator-IsListed elvis = (refl, refl, refl, omega arith)
binary_operator-IsListed coalesce = (refl, refl, refl, omega arith)
binary_operator-IsListed dot_dot = (refl, refl, refl, omega arith)
binary_operator-IsListed and_word = (refl, refl, refl, omega arith)
binary_operator-IsListed or_word = (refl, refl, refl, omega arith)
binary_operator-IsListed in_word = (refl, refl, refl, omega arith)
binary_operator-IsListed equals = (refl, refl, refl, omega arith)
binary_operator-IsListed not_equal = (refl, refl, refl, omega arith)
binary_operator-IsListed less = (refl, refl, refl, omega arith)
binary_operator-IsListed greater = (refl, refl, refl, omega arith)
binary_operator-IsListed less_equal = (refl, refl, refl, omega arith)
binary_operator-IsListed greater_equal = (refl, refl, refl, omega arith)
binary_operator-IsListed plus = (refl, refl, refl, omega arith)
binary_operator-IsListed minus = (refl, refl, refl, omega arith)
binary_operator-IsListed star = (refl, refl, refl, omega arith)
binary_operator-IsListed slash = (refl, refl, refl, omega arith)
binary_operator-IsListed percent = (refl, refl, refl, omega arith)
binary_operator-IsListed ampersand = (refl, refl, refl, omega arith)
binary_operator-IsListed k = tt

pub nothing_follows-Good :
    (R : Node → Parser → Type 0) (op : Bytes) (r : Parsed Node)
    → Good R r
    → Good R (nothing_follows op r)
nothing_follows-Good R op (done n p) h = h
nothing_follows-Good R op (fails e) h = of_test (is_end_error e)
  where
    of_test :
        (t : Bool)
        → Good R (
            if◌then◌else◌ {A = Parsed Node} t
              (fails (State.ParseError.syntax State.s0207 op))
              (fails e))
    of_test true = tt
    of_test false = tt
