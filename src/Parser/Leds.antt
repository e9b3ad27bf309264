-- ===== src/Parser/Leds.antt =====
-- `led` of go/internal/engine/internal/parser/parser.go respects precedence if the parser of expressions does.
use jsonata.Base.{
  ℕ, zero, suc, ◌<◌, ◌≤◌, Bool, true, false, Option, none, some, Bytes, ltb, arith, if◌then◌else◌,
}
use jsonata.Lexer.Token.{
  TokenKind, end_of_file, lbracket, lbrace, lparen, at, hash, question, caret, assign, Token,
}
use jsonata.Parser.Node.{Node}
use jsonata.Parser.State.{
  Parser, Parsed, done, fails, Parse, then_do, pure, is_kind, advance, advance_prefix,
  advance_infix, consume, consume_prefix,
}
use jsonata.Parser.State
use jsonata.Parser.Operators.{
  binding_power, BinaryOperator, binary_operator, nothing_follows, binary_rhs, right_operand,
}
use jsonata.Parser.Expression.{set_index, parse_binary, binary_or_error, led_of, led, led_loop}
use jsonata.Parser.Ordered.{limit_of, IsOrdered}
use jsonata.Parser.Good.{Good, Good-then, Good-after, Good-if, Fits, Fitting}
use jsonata.Parser.Prefixes.{Stands}
use jsonata.Parser.Infixes.{
  set_index-Stands, IsListed, binary_operator-IsListed, nothing_follows-Good,
}
use jsonata.Parser.LedForms.{
  parse_function_call-Good, parse_subscript-Good, bound_variable-Good, parse_focus-Good,
  parse_condition-Good, parse_bind-Good, parse_sort_expr-Good, parse_group-Good,
}

module _ (compiles : Bytes → Bytes → Bool) (sub : ℕ → Parse Node) (fitting : Fitting sub) where
  binary_rhs-Good :
      (bp : ℕ) (op : Bytes) (p : Parser) → bp < 100 → Good (Fits bp) (binary_rhs sub bp op p)
  unfolding binary_rhs
  binary_rhs-Good bp op p lt = of_test (is_kind end_of_file p.token)
    where
      of_test :
          (t : Bool)
          → Good (Fits bp) (
              if◌then◌else◌ {A = Parsed Node} t
                (fails (State.ParseError.syntax State.s0207 op))
                (nothing_follows op (sub bp p)))
      of_test true = tt
      of_test false = nothing_follows-Good (Fits bp) op (sub bp p) (fitting bp lt p)

  right_operand-Good :
      (op : BinaryOperator) (p : Parser)
      → op.right_power < 100
      → Good (Fits op.right_power) (right_operand sub op p)
  unfolding right_operand
  right_operand-Good op p lt = of_test op.checked
    where
      of_test :
          (t : Bool)
          → Good (Fits op.right_power) (
              if◌then◌else◌ {A = Parsed Node} t
                (binary_rhs sub op.right_power op.symbol p)
                (sub op.right_power p))
      of_test true = binary_rhs-Good op.right_power op.symbol p lt
      of_test false = fitting op.right_power lt p

  binary_or_error-Good :
      (bp : ℕ) (left : Node) (tok : Token) (k : TokenKind) (op : Option BinaryOperator) (p : Parser)
      → IsListed k op
      → IsOrdered left
      → bp < binding_power k
      → binding_power k ≤ limit_of left
      → Good (Stands bp) (binary_or_error compiles sub left tok op p)
  unfolding parse_binary IsOrdered
  binary_or_error-Good bp left tok k none p listed h lt l = tt
  binary_or_error-Good bp left tok k (some op) p (same_power, same_right, same_limit, small) h lt
        l =
      Good-after (Stands bp) (advance compiles p) _ (λ _ q.
        Good-then (Fits op.right_power) (Stands bp) (right_operand sub op q) _
          (right_operand-Good op q small)
          (λ right r fits. (
            ((h, omega arith, fits.0, omega (arith, fits.1)), tt),
            omega arith,
            omega (arith, fits.2),
          )))

  led-Good :
      (bp fuel : ℕ) (left : Node) (p : Parser)
      → Stands bp left p
      → bp < binding_power p.token.kind
      → Good (Stands bp) (led compiles sub fuel left p)
  unfolding led led_of
  led-Good bp fuel left p (h, k, l) lt = of_kind p.token.kind lt l
    where
      of_kind :
          (kind : TokenKind)
          → bp < binding_power kind
          → binding_power kind ≤ limit_of left
          → Good (Stands bp) (led_of compiles sub fuel left p.token kind p)
      of_kind lparen lt l =
          parse_function_call-Good compiles sub fitting bp fuel left p.token.pos p h lt l
      of_kind lbracket lt l =
          parse_subscript-Good compiles sub fitting bp left p.token.pos p h k lt l
      of_kind at lt l = parse_focus-Good compiles sub fitting bp left p h k l
      of_kind hash lt l =
          bound_variable-Good compiles sub fitting bp (λ v. set_index v left) p
            (λ v q. set_index-Stands bp v left q h k l)
      of_kind question lt l = parse_condition-Good compiles sub fitting bp left p.token.pos p h lt l
      of_kind assign lt l = parse_bind-Good compiles sub fitting bp left p.token p h lt l
      of_kind lbrace lt l = parse_group-Good compiles sub fitting bp fuel left p.token.pos p h k l
      of_kind caret lt l =
          parse_sort_expr-Good compiles sub fitting bp fuel left p.token.pos p h lt l
      of_kind kind lt l =
          binary_or_error-Good bp left p.token kind (binary_operator kind) p
            (binary_operator-IsListed kind) h lt l

  pub led_loop-Good :
      (fuel m bp : ℕ) (left : Node) (p : Parser)
      → Stands bp left p
      → Good (Fits bp) (led_loop compiles sub fuel m bp left p)
  unfolding led_loop
  led_loop-Good fuel zero bp left p h = tt
  led_loop-Good fuel (suc m) bp left p h =
      Good-if (Fits bp) (ltb bp (binding_power p.token.kind)) _ _ p
        (λ binds.
          Good-then (Stands bp) (Fits bp) (led compiles sub fuel left p) _
            (led-Good bp fuel left p h (ground arith))
            (λ left' q k. led_loop-Good fuel m bp left' q k))
        (λ stops. (h.0, h.1, ground arith, h.2))
