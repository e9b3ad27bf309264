-- ===== src/Parser/Prefix.antt =====
-- `nud` of go/internal/engine/internal/parser/parser.go.
use jsonata.Base.{ℕ, ◌∷◌, ◌++◌, Bool, ◌&&◌, ◌||◌, [], Bytes, codes, bytes_eq, ◌==◌, if◌then◌else◌}
use jsonata.Lexer.Token.{
  TokenKind, end_of_file, name, variable, string, number, value_word, regex_literal, lbracket,
  lbrace, lparen, question, minus, star, percent, pipe, star_star, chain, and_word, or_word,
  in_word, Token,
}
use jsonata.Parser.Node.{
  Node, Shape, node, wildcard, descendant, parent, placeholder, negation, plain_node,
}
use jsonata.Parser.State.{
  s0201, s0211, Parse, ◌>>=◌, ◌>>◌, pure, fail, get_token, is_kind, advance, advance_infix,
}
use jsonata.Parser.Groups.{parse_array, parse_object, parse_paren_or_block}
use jsonata.Parser.Lambdas.{parse_lambda, parse_transform}
use jsonata.Parser.State.{eof}

-- `-` in front of a number, or taken away from one.
unfoldable pub flip_sign : Bytes → Bytes
flip_sign [] = b'-' ∷ []
flip_sign (c ∷ s) = if c == b'-' then s else b'-' ∷ c ∷ s

-- A minus folds into the number behind it.
unfoldable pub negated : ℕ → Node → Node
unfolding flip_sign
negated pos (node p marks g (Shape.number v)) = node p marks g (Shape.number (flip_sign v))
negated pos n = plain_node pos (negation n)

-- The value of a regular expression: its pattern, and its flags if it has any.
abbrev pub regex_value : Bytes → Bytes → Bytes
regex_value pattern [] = pattern
regex_value pattern (c ∷ flags) = pattern ++ (b'/' ∷ c ∷ flags)

-- `function` and `λ`.
unfoldable pub is_lambda_word : Bytes → Bool
unfolding bytes_eq
is_lambda_word v = bytes_eq v (codes "function") || bytes_eq v (206 ∷ 187 ∷ [])

module _ (compiles : Bytes → Bytes → Bool) (expression : ℕ → Parse Node) where
  -- A token that is a node by itself.
  unfoldable pub leaf : ℕ → Shape → Parse Node
  unfolding advance_infix
  leaf pos shape = do advance_infix compiles; pure (plain_node pos shape)

  unfoldable pub name_or_lambda : ℕ → Token → Parse Node
  unfolding advance_infix is_lambda_word parse_lambda
  name_or_lambda fuel tok = do
    advance_infix compiles
    t ← get_token
    if is_lambda_word tok.value && is_kind lparen t
        then parse_lambda compiles expression fuel tok.pos
        else pure (plain_node tok.pos (Shape.name tok.value))

  unfoldable pub parse_minus : ℕ → Parse Node
  unfolding advance negated
  parse_minus pos = do advance compiles; sub ← expression 70; pure (negated pos sub)

  unfoldable pub parse_placeholder : ℕ → Parse Node
  unfolding advance
  parse_placeholder pos = do advance compiles; pure (plain_node pos placeholder)

  -- The `switch` on the kind of the token.
  unfoldable pub nud_of : ℕ → Token → TokenKind → Parse Node
  unfolding leaf name_or_lambda parse_minus parse_placeholder parse_array parse_object
      parse_paren_or_block parse_transform
  nud_of fuel tok end_of_file = fail s0201 eof
  nud_of fuel tok name = name_or_lambda fuel tok
  nud_of fuel tok and_word = leaf tok.pos (Shape.name tok.value)
  nud_of fuel tok or_word = leaf tok.pos (Shape.name tok.value)
  nud_of fuel tok in_word = leaf tok.pos (Shape.name tok.value)
  nud_of fuel tok variable = leaf tok.pos (Shape.variable tok.value)
  nud_of fuel tok string = leaf tok.pos (Shape.string tok.value)
  nud_of fuel tok number = leaf tok.pos (Shape.number tok.value)
  nud_of fuel tok value_word = leaf tok.pos (Shape.value tok.value)
  nud_of fuel tok regex_literal =
      leaf tok.pos (Shape.regex (regex_value tok.regex_pat tok.regex_flg))
  nud_of fuel tok minus = parse_minus tok.pos
  nud_of fuel tok star = leaf tok.pos wildcard
  nud_of fuel tok star_star = leaf tok.pos descendant
  nud_of fuel tok percent = leaf tok.pos parent
  nud_of fuel tok lbracket = parse_array compiles expression fuel tok.pos
  nud_of fuel tok lbrace = parse_object compiles expression fuel tok.pos
  nud_of fuel tok lparen = parse_paren_or_block compiles expression fuel tok.pos
  nud_of fuel tok question = parse_placeholder tok.pos
  nud_of fuel tok pipe = parse_transform compiles expression tok.pos
  nud_of fuel tok chain = fail s0211 (codes "~>")
  nud_of fuel tok _ = fail s0211 tok.value

  unfoldable pub nud : ℕ → Parse Node
  unfolding nud_of
  nud fuel p = nud_of fuel p.token p.token.kind p
