-- ===== src/Parser/LedMoves.antt =====
-- `led` and its loop in go/internal/engine/internal/parser/parser.go move forward if the parser of expressions does.
use jsonata.Base.{
  ℕ, zero, suc, ◌≤◌, Bool, true, false, Bytes, ltb, Option, none, some, if◌then◌else◌, ◌≡◌, refl,
  arith,
}
use jsonata.Lexer.Token.{
  TokenKind, end_of_file, name, variable, lbracket, lbrace, lparen, at, hash, colon, question,
  caret, assign, Token,
}
use jsonata.Parser.Node.{Node, shape_of}
use jsonata.Parser.State
use jsonata.Parser.State.{
  ParseError, Parser, Parsed, done, fails, Parse, ◌>>=◌, ◌>>◌, then_do, pure, fail, kind_number,
  is_kind, next_token, read_token, advance, advance_prefix, advance_infix, new_parser,
}
use jsonata.Parser.Operators.{
  binding_power, BinaryOperator, binary_operator, nothing_follows, is_end_error, binary_rhs,
  right_operand,
}
use jsonata.Parser.Expression.{
  bound_variable, parse_focus, is_predicate, is_sort, is_variable, else_part, parse_condition,
  parse_bind, parse_binary, binary_or_error, led_of, led, led_loop,
}
use jsonata.Parser.Moves.{
  left_to_read, token_size, Below, Below-mono, Below-then, Below-if, Keeps, Keeps-bind, Keeps-if,
  advance-Below, advance_prefix-Below, advance_prefix-Keeps, advance_infix-Keeps,
}
use jsonata.Parser.LoopMoves.{MovesBelow, expression-Keeps}
use jsonata.Parser.GroupMoves.{
  parse_function_call-Below, parse_subscript-Below, parse_sort_expr-Below, parse_group-Below,
}

nothing_follows-Below :
    (b : ℕ) (op : Bytes) (r : Parsed Node) → Below b r → Below b (nothing_follows op r)
nothing_follows-Below b op (done a p) h = h
nothing_follows-Below b op (fails e) h = of_test (is_end_error e)
  where
    of_test :
        (t : Bool)
        → Below b
            (if◌then◌else◌ {A = Parsed Node} t (fails (ParseError.syntax State.s0207 op)) (fails e))
    of_test true = tt
    of_test false = h

module _ (compiles : Bytes → Bytes → Bool) (sub : ℕ → Parse Node) (n : ℕ)
    (moves : MovesBelow n sub) where
  bound_variable-Below :
      (set : Bytes → Node) (p : Parser)
      → token_size p.token.kind ≡ 1
      → Below (left_to_read p) (bound_variable compiles sub set p)
  unfolding bound_variable
  bound_variable-Below set p size =
      Below-then b b (advance compiles p) _ (advance-Below compiles p size) (λ _ q l.
        Keeps-if b (is_kind name q.token) _ _ (λ r k. tt)
          (Keeps-if b (is_kind variable q.token) _ _
            (Keeps-bind b _ _ (advance_infix-Keeps compiles b) (λ _ r k. k)) (λ r k. tt))
          q l)
    where
      b : ℕ
      b = left_to_read p

  parse_focus-Below :
      (left : Node) (p : Parser)
      → token_size p.token.kind ≡ 1
      → Below (left_to_read p) (parse_focus compiles sub left p)
  unfolding parse_focus
  parse_focus-Below left p size =
      Below-if b (is_predicate (shape_of left)) _ _ p (λ _. tt)
        (λ _.
          Below-if b (is_sort (shape_of left)) _ _ p (λ _. tt) (λ _. bound_variable-Below _ p size))
    where
      b : ℕ
      b = left_to_read p

  else_part-Keeps : (b : ℕ) → b ≤ n → Keeps b (else_part compiles sub)
  unfolding else_part
  else_part-Keeps b le_n p lt =
      Keeps-if b (is_kind colon p.token) _ _
        (Keeps-bind b _ _ (advance_prefix-Keeps compiles b)
          (λ _. Keeps-bind b _ _ (expression-Keeps compiles sub n moves b 0 le_n) (λ other q l. l)))
        (λ q l. l) p lt

  parse_condition-Below :
      (left : Node) (pos : ℕ) (p : Parser)
      → token_size p.token.kind ≡ 1
      → left_to_read p ≤ n
      → Below (left_to_read p) (parse_condition compiles sub left pos p)
  unfolding parse_condition
  parse_condition-Below left pos p size le_n =
      Below-then b b (advance_prefix compiles p) _ (advance_prefix-Below compiles p size) (λ _.
        Keeps-bind b _ _ (expression-Keeps compiles sub n moves b 0 le_n)
          (λ consequence. Keeps-bind b _ _ (else_part-Keeps b le_n) (λ other q l. l)))
    where
      b : ℕ
      b = left_to_read p

  parse_bind-Below :
      (left : Node) (tok : Token) (p : Parser)
      → token_size p.token.kind ≡ 1
      → left_to_read p ≤ n
      → Below (left_to_read p) (parse_bind compiles sub left tok p)
  unfolding parse_bind
  parse_bind-Below left tok p size le_n =
      Below-if b (is_variable (shape_of left)) _ _ p
        (λ _.
          Below-then b b (advance_prefix compiles p) _ (advance_prefix-Below compiles p size) (λ _.
            Keeps-bind b _ _ (expression-Keeps compiles sub n moves b 9 le_n) (λ right q l. l)))
        (λ _. tt)
    where
      b : ℕ
      b = left_to_read p

  binary_rhs-Keeps : (b bp : ℕ) (op : Bytes) → b ≤ n → Keeps b (binary_rhs sub bp op)
  unfolding binary_rhs
  binary_rhs-Keeps b bp op le_n p lt = of_test (is_kind end_of_file p.token)
    where
      of_test :
          (t : Bool)
          → Below b (
              if◌then◌else◌ {A = Parsed Node} t
                (fails (ParseError.syntax State.s0207 op))
                (nothing_follows op (sub bp p)))
      of_test true = tt
      of_test false =
          nothing_follows-Below b op (sub bp p)
            (expression-Keeps compiles sub n moves b bp le_n p lt)

  right_operand-Keeps : (b : ℕ) (op : BinaryOperator) → b ≤ n → Keeps b (right_operand sub op)
  unfolding right_operand
  right_operand-Keeps b op le_n p lt = of_test op.checked
    where
      of_test :
          (t : Bool)
          → Below b (
              if◌then◌else◌ {A = Parsed Node} t
                (binary_rhs sub op.right_power op.symbol p)
                (sub op.right_power p))
      of_test true = binary_rhs-Keeps b op.right_power op.symbol le_n p lt
      of_test false = expression-Keeps compiles sub n moves b op.right_power le_n p lt

  parse_binary-Below :
      (left : Node) (pos : ℕ) (op : BinaryOperator) (p : Parser)
      → token_size p.token.kind ≡ 1
      → left_to_read p ≤ n
      → Below (left_to_read p) (parse_binary compiles sub left pos op p)
  unfolding parse_binary
  parse_binary-Below left pos op p size le_n =
      Below-then b b (advance compiles p) _ (advance-Below compiles p size)
        (λ _. Keeps-bind b _ _ (right_operand-Keeps b op le_n) (λ right q l. l))
    where
      b : ℕ
      b = left_to_read p

  binary_or_error-Below :
      (left : Node) (tok : Token) (op : Option BinaryOperator) (p : Parser)
      → token_size p.token.kind ≡ 1
      → left_to_read p ≤ n
      → Below (left_to_read p) (binary_or_error compiles sub left tok op p)
  binary_or_error-Below left tok none p size le_n = tt
  binary_or_error-Below left tok (some op) p size le_n =
      parse_binary-Below left tok.pos op p size le_n

  led-Below :
      (fuel : ℕ) (left : Node) (p : Parser)
      → token_size p.token.kind ≡ 1
      → left_to_read p ≤ fuel
      → left_to_read p ≤ n
      → Below (left_to_read p) (led compiles sub fuel left p)
  unfolding led led_of
  led-Below fuel left p size le le_n = of_kind p.token.kind
    where
      of_kind : (k : TokenKind) → Below (left_to_read p) (led_of compiles sub fuel left p.token k p)
      of_kind lparen =
          parse_function_call-Below compiles sub n moves fuel left p.token.pos p size le le_n
      of_kind lbracket = parse_subscript-Below compiles sub n moves left p.token.pos p size le_n
      of_kind at = parse_focus-Below left p size
      of_kind hash = bound_variable-Below _ p size
      of_kind question = parse_condition-Below left p.token.pos p size le_n
      of_kind assign = parse_bind-Below left p.token p size le_n
      of_kind lbrace = parse_group-Below compiles sub n moves fuel left p.token.pos p size le le_n
      of_kind caret =
          parse_sort_expr-Below compiles sub n moves fuel left p.token.pos p size le le_n
      of_kind k = binary_or_error-Below left p.token (binary_operator k) p size le_n

  power-size : (bp : ℕ) (k : TokenKind) → ltb bp (binding_power k) ≡ true → token_size k ≡ 1
  power-size bp end_of_file e = absurd (ground arith)
  power-size bp k e = refl

  pub led_loop-Keeps :
      (fuel m b bp : ℕ) (left : Node)
      → b ≤ fuel
      → b ≤ n
      → b ≤ m
      → Keeps b (led_loop compiles sub fuel m bp left)
  unfolding led_loop
  led_loop-Keeps fuel zero b bp left le le_n le_m p lt = absurd (omega arith)
  led_loop-Keeps fuel (suc m) b bp left le le_n le_m p lt =
      Below-if b (ltb bp (binding_power p.token.kind)) _ _ p
        (λ binds. Below-mono (left_to_read p) b _ (omega arith) (
          Below-then (left_to_read p) (left_to_read p) (led compiles sub fuel left p) _
            (led-Below fuel left p (power-size bp p.token.kind binds) (omega arith) (omega arith))
            (λ left' q l.
              led_loop-Keeps fuel m (left_to_read p) bp left' (omega arith) (omega arith)
                (omega arith) q l)))
        (λ _. lt)
