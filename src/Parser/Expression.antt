-- ===== src/Parser/Expression.antt =====
-- `led`, `expression` and `Parse` of go/internal/engine/internal/parser/parser.go.
use jsonata.Base.{
  ℕ, zero, suc, Bool, true, false, Option, none, some, Bytes, codes, bytes_eq, length, ltb,
  if◌then◌else◌,
}
use jsonata.Lexer.Token.{
  TokenKind, end_of_file, name, variable, lbracket, lbrace, lparen, at, hash, colon, question,
  caret, assign, Token,
}
use jsonata.Parser.Node.{
  Node, Shape, node, Branch, absent, branch, condition, bind, binary, sort, plain_node, shape_of,
}
use jsonata.Parser.State.{
  done, fails, Parsed, s0201, s0202, s0212, s0214, s0215, s0216, Parsed, Parse, ◌>>=◌, ◌>>◌,
  then_do, pure, fail, get_token, is_kind, advance, advance_prefix, advance_infix, new_parser,
}
use jsonata.Parser.Operators.{binding_power, BinaryOperator, binary_operator, right_operand}
use jsonata.Parser.Groups.{parse_function_call, parse_subscript, parse_sort_expr, parse_group}
use jsonata.Parser.State.{exhausted}
use jsonata.Parser.Prefix.{nud}

abbrev pub set_focus : Bytes → Node → Node
set_focus v (node pos marks g shape) = node pos (record marks { focus = v }) g shape

abbrev pub set_index : Bytes → Node → Node
set_index v (node pos marks g shape) = node pos (record marks { index = v }) g shape

unfoldable pub is_predicate : Shape → Bool
unfolding bytes_eq
is_predicate (binary op l r) = bytes_eq op (codes "[")
is_predicate shape = false

abbrev pub is_sort : Shape → Bool
is_sort (sort l terms) = true
is_sort shape = false

abbrev pub is_variable : Shape → Bool
is_variable (Shape.variable v) = true
is_variable shape = false

module _ (compiles : Bytes → Bytes → Bool) (expression : ℕ → Parse Node) where
  -- The variable behind `@` or `#`.
  unfoldable pub bound_variable : (Bytes → Node) → Parse Node
  unfolding advance advance_infix
  bound_variable set = do
    advance compiles
    t ← get_token
    if is_kind name t
        then fail s0214 t.value
        else if is_kind variable t
        then (do advance_infix compiles; pure (set t.value))
        else fail s0202 t.value

  unfoldable pub parse_focus : Node → Parse Node
  unfolding bound_variable is_predicate
  parse_focus left =
      if is_predicate (shape_of left)
      then fail s0215 (codes "@")
      else if is_sort (shape_of left)
      then fail s0216 (codes "@")
      else bound_variable (λ v. set_focus v left)

  unfoldable pub else_part : Parse Branch
  unfolding advance_prefix
  else_part = do
    t ← get_token
    if is_kind colon t
        then (do advance_prefix compiles; other ← expression 0; pure (branch other))
        else pure absent

  unfoldable pub parse_condition : Node → ℕ → Parse Node
  unfolding advance_prefix else_part
  parse_condition left pos = do
    advance_prefix compiles
    consequence ← expression 0
    other ← else_part
    pure (plain_node pos (condition left consequence other))

  unfoldable pub parse_bind : Node → Token → Parse Node
  unfolding advance_prefix
  parse_bind left tok =
      if is_variable (shape_of left)
      then (do
        advance_prefix compiles
        right ← expression 9
        pure (plain_node tok.pos (bind left right)))
      else fail s0212 tok.value

  unfoldable pub parse_binary : Node → ℕ → BinaryOperator → Parse Node
  unfolding advance right_operand
  parse_binary left pos op = do
    advance compiles
    right ← right_operand expression op
    pure (plain_node pos (binary op.symbol left right))

  abbrev pub binary_or_error : Node → Token → Option BinaryOperator → Parse Node
  binary_or_error left tok none = fail s0201 tok.value
  binary_or_error left tok (some op) = parse_binary left tok.pos op

  -- The `switch` on the kind of the token.
  unfoldable pub led_of : ℕ → Node → Token → TokenKind → Parse Node
  unfolding parse_function_call parse_subscript parse_focus bound_variable parse_condition
      parse_bind parse_group parse_sort_expr parse_binary
  led_of fuel left tok lparen = parse_function_call compiles expression fuel left tok.pos
  led_of fuel left tok lbracket = parse_subscript compiles expression left tok.pos
  led_of fuel left tok at = parse_focus left
  led_of fuel left tok hash = bound_variable (λ v. set_index v left)
  led_of fuel left tok question = parse_condition left tok.pos
  led_of fuel left tok assign = parse_bind left tok
  led_of fuel left tok lbrace = parse_group compiles expression fuel left tok.pos
  led_of fuel left tok caret = parse_sort_expr compiles expression fuel left tok.pos
  led_of fuel left tok kind = binary_or_error left tok (binary_operator kind)

  unfoldable pub led : ℕ → Node → Parse Node
  unfolding led_of
  led fuel left p = led_of fuel left p.token p.token.kind p

  -- The loop of `expression`.
  unfoldable pub led_loop : ℕ → ℕ → ℕ → Node → Parse Node
  unfolding led
  led_loop fuel zero bp left = exhausted
  led_loop fuel (suc n) bp left = do
    t ← get_token
    if ltb bp (binding_power t.kind)
        then (do left' ← led fuel left; led_loop fuel n bp left')
        else pure left

-- `expression`; each call of itself costs one unit of fuel, and each round of a loop one of the loop's own.
unfoldable pub expression : (Bytes → Bytes → Bool) → ℕ → ℕ → Parse Node
unfolding nud led_loop
expression compiles zero bp = exhausted
expression compiles (suc n) bp = do
  left ← nud compiles (expression compiles n) n
  led_loop compiles (expression compiles n) n (suc n) bp left

-- The end of `Parse`.
unfoldable pub parse_end : Node → Parse Node
parse_end left = do t ← get_token; if is_kind end_of_file t then pure left else fail s0201 t.value

-- `NewParser` and `Parse`.
unfoldable pub parse : (Bytes → Bytes → Bool) → Bytes → Parsed Node
unfolding new_parser expression parse_end
parse compiles src =
    then_do (new_parser compiles src)
      (λ _. do left ← expression compiles (suc (suc (length src))) 0; parse_end left)

-- The tree of a result, if it is no error.
abbrev pub tree_of : Parsed Node → Option Node
tree_of (done n p) = some n
tree_of (fails e) = none
