-- ===== src/Parser/Prefixes.antt =====
-- `nud` of go/internal/engine/internal/parser/parser.go respects precedence if the parser of expressions does.
use jsonata.Base.{ℕ, ◌<◌, ◌≤◌, Bool, ◌&&◌, Bytes, refl, arith}
use jsonata.Lexer.Token.{
  TokenKind, end_of_file, name, variable, string, number, value_word, regex_literal, lbracket,
  lbrace, lparen, question, minus, star, percent, pipe, star_star, chain, and_word, or_word,
  in_word, Token,
}
use jsonata.Parser.Node.{Node, node, Shape, no_group, group, plain_node}
use jsonata.Parser.State.{Parser, Parsed, done, fails, Parse, is_kind, advance, advance_infix}
use jsonata.Parser.Operators.{binding_power}
use jsonata.Parser.Prefix.{
  negated, is_lambda_word, leaf, name_or_lambda, parse_minus, parse_placeholder, nud_of, nud,
}
use jsonata.Parser.Ordered.{power_of, limit_of, IsOrdered}
use jsonata.Parser.Built.{
  Good-expression, parse_array-Good, parse_object-Good, parse_paren_or_block-Good,
  parse_lambda-Good, parse_transform-Good,
}
use jsonata.Parser.Good.{Good, Good-after, Good-if, Built, Fits, Fitting}

-- What the loop of `expression bp` holds: its outermost operator binds tighter than `bp`, and the token behind it no
-- tighter than may follow.
abbrev pub Stands : ℕ → Node → Parser → Type 0
Stands bp n p = IsOrdered n × (bp < power_of n) × (binding_power p.token.kind ≤ limit_of n)

pub binding_power_le : (k : TokenKind) → binding_power k ≤ 80
binding_power_le end_of_file = omega arith
binding_power_le k = omega arith

pub Built-Stands : (bp : ℕ) (r : Parsed Node) → bp < 100 → Good Built r → Good (Stands bp) r
Built-Stands bp (done n p) lt (h, e, f) =
    (h, omega arith, omega (arith, binding_power_le p.token.kind))
Built-Stands bp (fails e) lt h = tt

negated-Stands :
    (bp pos : ℕ) (n : Node) (p : Parser) → bp < 100 → Fits 70 n p → Stands bp (negated pos n) p
unfolding negated IsOrdered
negated-Stands bp pos (node q marks no_group (Shape.number v)) p lt (h, k, l, m) = (h, lt, m)
negated-Stands bp pos (node q marks (group at pairs) (Shape.number v)) p lt (h, k, l, m) =
    (h, lt, m)
negated-Stands bp pos n p lt (h, k, l, m) = (((h, k), tt), lt, l)

module _ (compiles : Bytes → Bytes → Bool) (sub : ℕ → Parse Node) (fitting : Fitting sub) where
  leaf-Good :
      (pos : ℕ) (shape : Shape) (p : Parser)
      → Built (plain_node pos shape) p
      → Good Built (leaf compiles sub pos shape p)
  unfolding leaf
  leaf-Good pos shape p h = Good-after Built (advance_infix compiles p) _ (λ _ q. h)

  name_or_lambda-Good :
      (fuel : ℕ) (tok : Token) (p : Parser) → Good Built (name_or_lambda compiles sub fuel tok p)
  unfolding name_or_lambda IsOrdered
  name_or_lambda-Good fuel tok p = Good-after Built (advance_infix compiles p) _ (λ _ q.
      Good-if Built (is_lambda_word tok.value && is_kind lparen q.token) _ _ q
        (λ _. parse_lambda-Good compiles sub fitting fuel tok.pos q) (λ _. ((tt, tt), refl, refl)))

  parse_minus-Good :
      (bp pos : ℕ) (p : Parser) → bp < 100 → Good (Stands bp) (parse_minus compiles sub pos p)
  unfolding parse_minus
  parse_minus-Good bp pos p lt = Good-after (Stands bp) (advance compiles p) _ (λ _ q.
      Good-expression compiles sub fitting (Stands bp) 70 _ q (omega arith)
        (λ n r fits. negated-Stands bp pos n r lt fits))

  parse_placeholder-Good :
      (pos : ℕ) (p : Parser) → Good Built (parse_placeholder compiles sub pos p)
  unfolding parse_placeholder IsOrdered
  parse_placeholder-Good pos p =
      Good-after Built (advance compiles p) _ (λ _ q. ((tt, tt), refl, refl))

  pub nud-Good : (bp fuel : ℕ) (p : Parser) → bp < 100 → Good (Stands bp) (nud compiles sub fuel p)
  unfolding nud nud_of IsOrdered
  nud-Good bp fuel p lt = of_kind p.token.kind
    where
      of_leaf :
          (shape : Shape)
          → Built (plain_node p.token.pos shape) p
          → Good (Stands bp) (leaf compiles sub p.token.pos shape p)
      of_leaf shape h = Built-Stands bp _ lt (leaf-Good p.token.pos shape p h)

      of_kind : (k : TokenKind) → Good (Stands bp) (nud_of compiles sub fuel p.token k p)
      of_kind end_of_file = tt
      of_kind name = Built-Stands bp _ lt (name_or_lambda-Good fuel p.token p)
      of_kind and_word = of_leaf _ ((tt, tt), refl, refl)
      of_kind or_word = of_leaf _ ((tt, tt), refl, refl)
      of_kind in_word = of_leaf _ ((tt, tt), refl, refl)
      of_kind variable = of_leaf _ ((tt, tt), refl, refl)
      of_kind string = of_leaf _ ((tt, tt), refl, refl)
      of_kind number = of_leaf _ ((tt, tt), refl, refl)
      of_kind value_word = of_leaf _ ((tt, tt), refl, refl)
      of_kind regex_literal = of_leaf _ ((tt, tt), refl, refl)
      of_kind minus = parse_minus-Good bp p.token.pos p lt
      of_kind star = of_leaf _ ((tt, tt), refl, refl)
      of_kind star_star = of_leaf _ ((tt, tt), refl, refl)
      of_kind percent = of_leaf _ ((tt, tt), refl, refl)
      of_kind lbracket =
          Built-Stands bp _ lt (parse_array-Good compiles sub fitting fuel p.token.pos p)
      of_kind lbrace =
          Built-Stands bp _ lt (parse_object-Good compiles sub fitting fuel p.token.pos p)
      of_kind lparen =
          Built-Stands bp _ lt (parse_paren_or_block-Good compiles sub fitting fuel p.token.pos p)
      of_kind question = Built-Stands bp _ lt (parse_placeholder-Good p.token.pos p)
      of_kind pipe = Built-Stands bp _ lt (parse_transform-Good compiles sub fitting p.token.pos p)
      of_kind chain = tt
      of_kind _ = tt
