-- ===== src/Parser/GroupMoves.antt =====
-- The bracketed forms of go/internal/engine/internal/parser/parser.go move forward if the parser of expressions does.
use jsonata.Base.{ℕ, ◌≤◌, Bool, false, Bytes, ◌≡◌}
use jsonata.Lexer.Token.{rbracket, lbrace, rbrace, lparen, rparen, comma, pipe}
use jsonata.Parser.Node.{Node, nil, cons, end}
use jsonata.Parser.State.{Parser, Parse, is_kind, advance, advance_prefix}
use jsonata.Parser.Groups.{
  parse_array, parse_object, block_rest, parse_paren_or_block, parse_function_call, has_group,
  parse_subscript, parse_sort_expr, parse_group,
}
use jsonata.Parser.Lambdas.{parse_lambda, delete_part, parse_transform}
use jsonata.Parser.Moves.{
  left_to_read, token_size, Below, Below-then, Below-if, Keeps, Keeps-bind, Keeps-if, advance-Below,
  advance-Keeps, advance_prefix-Below, advance_prefix-Keeps, advance_infix-Keeps, consume-Keeps,
  consume_prefix-Keeps,
}
use jsonata.Parser.LoopMoves.{
  MovesBelow, lambda_params-Keeps, lambda_signature-Keeps, expression-Keeps, array_items-Keeps,
  object_pairs-Keeps, block_items-Keeps, call_arguments-Keeps, sort_terms-Keeps,
}

module _ (compiles : Bytes → Bytes → Bool) (expression : ℕ → Parse Node) (n : ℕ)
    (moves : MovesBelow n expression) where
  pub parse_array-Below :
      (fuel pos : ℕ) (p : Parser)
      → token_size p.token.kind ≡ 1
      → left_to_read p ≤ fuel
      → left_to_read p ≤ n
      → Below (left_to_read p) (parse_array compiles expression fuel pos p)
  unfolding parse_array
  parse_array-Below fuel pos p size le le_n =
      Below-then (left_to_read p) (left_to_read p) (advance_prefix compiles p) _
        (advance_prefix-Below compiles p size)
        (λ _.
          Keeps-bind (left_to_read p) _ _
            (array_items-Keeps compiles expression n moves fuel (left_to_read p) nil le le_n)
            (λ items.
              Keeps-bind (left_to_read p) _ _ (advance_infix-Keeps compiles (left_to_read p))
                (λ _ q l. l)))

  pub parse_object-Below :
      (fuel pos : ℕ) (p : Parser)
      → token_size p.token.kind ≡ 1
      → left_to_read p ≤ fuel
      → left_to_read p ≤ n
      → Below (left_to_read p) (parse_object compiles expression fuel pos p)
  unfolding parse_object
  parse_object-Below fuel pos p size le le_n =
      Below-then (left_to_read p) (left_to_read p) (advance_prefix compiles p) _
        (advance_prefix-Below compiles p size)
        (λ _.
          Keeps-bind (left_to_read p) _ _
            (object_pairs-Keeps compiles expression n moves fuel (left_to_read p) nil le le_n)
            (λ pairs.
              Keeps-bind (left_to_read p) _ _ (advance_infix-Keeps compiles (left_to_read p))
                (λ _ q l. l)))

  block_rest-Keeps :
      (fuel b pos : ℕ) (first : Node)
      → b ≤ fuel
      → b ≤ n
      → Keeps b (block_rest compiles expression fuel pos first)
  unfolding block_rest
  block_rest-Keeps fuel b pos first le le_n p lt =
      Keeps-if b (is_kind rparen p.token) _ _
        (Keeps-bind b _ _ (advance_infix-Keeps compiles b) (λ _ q l. l))
        (Keeps-bind b _ _
          (block_items-Keeps compiles expression n moves fuel b (cons first nil) le le_n)
          (λ items. Keeps-bind b _ _ (consume-Keeps compiles b rparen) (λ _ q l. l)))
        p lt

  pub parse_paren_or_block-Below :
      (fuel pos : ℕ) (p : Parser)
      → token_size p.token.kind ≡ 1
      → left_to_read p ≤ fuel
      → left_to_read p ≤ n
      → Below (left_to_read p) (parse_paren_or_block compiles expression fuel pos p)
  unfolding parse_paren_or_block
  parse_paren_or_block-Below fuel pos p size le le_n =
      Below-then b b (advance_prefix compiles p) _ (advance_prefix-Below compiles p size) (λ _ q l.
        Keeps-if b (is_kind rparen q.token) _ _
          (Keeps-bind b _ _ (advance_infix-Keeps compiles b) (λ _ r k. k))
          (Keeps-bind b _ _ (expression-Keeps compiles expression n moves b 0 le_n)
            (λ first. block_rest-Keeps fuel b pos first le le_n))
          q l)
    where
      b : ℕ
      b = left_to_read p

  pub parse_lambda-Keeps :
      (fuel b pos : ℕ) → b ≤ fuel → b ≤ n → Keeps b (parse_lambda compiles expression fuel pos)
  unfolding parse_lambda
  parse_lambda-Keeps fuel b pos le le_n = Keeps-bind b _ _ (consume-Keeps compiles b lparen) (λ _.
      Keeps-bind b _ _ (lambda_params-Keeps compiles fuel b nil le) (λ params.
        Keeps-bind b _ _ (advance-Keeps compiles b) (λ _.
          Keeps-bind b _ _ (lambda_signature-Keeps compiles fuel b le) (λ signed.
            Keeps-bind b _ _ (consume-Keeps compiles b lbrace) (λ _.
              Keeps-bind b _ _ (expression-Keeps compiles expression n moves b 0 le_n)
                (λ body. Keeps-bind b _ _ (consume-Keeps compiles b rbrace) (λ _ q l. l)))))))

  delete_part-Keeps : (b : ℕ) → b ≤ n → Keeps b (delete_part compiles expression)
  unfolding delete_part
  delete_part-Keeps b le_n p lt =
      Keeps-if b (is_kind comma p.token) _ _
        (Keeps-bind b _ _ (advance_prefix-Keeps compiles b) (λ _.
          Keeps-bind b _ _ (expression-Keeps compiles expression n moves b 20 le_n) (λ del q l. l)))
        (λ q l. l) p lt

  pub parse_transform-Below :
      (pos : ℕ) (p : Parser)
      → token_size p.token.kind ≡ 1
      → left_to_read p ≤ n
      → Below (left_to_read p) (parse_transform compiles expression pos p)
  unfolding parse_transform
  parse_transform-Below pos p size le_n =
      Below-then b b (advance_prefix compiles p) _ (advance_prefix-Below compiles p size) (λ _.
        Keeps-bind b _ _ (expression-Keeps compiles expression n moves b 20 le_n) (λ part.
          Keeps-bind b _ _ (consume_prefix-Keeps compiles b pipe) (λ _.
            Keeps-bind b _ _ (expression-Keeps compiles expression n moves b 20 le_n) (λ update.
              Keeps-bind b _ _ (delete_part-Keeps b le_n)
                (λ del. Keeps-bind b _ _ (consume-Keeps compiles b pipe) (λ _ q l. l))))))
    where
      b : ℕ
      b = left_to_read p

  pub parse_function_call-Below :
      (fuel : ℕ) (callee : Node) (pos : ℕ) (p : Parser)
      → token_size p.token.kind ≡ 1
      → left_to_read p ≤ fuel
      → left_to_read p ≤ n
      → Below (left_to_read p) (parse_function_call compiles expression fuel callee pos p)
  unfolding parse_function_call
  parse_function_call-Below fuel callee pos p size le le_n =
      Below-then b b (advance_prefix compiles p) _ (advance_prefix-Below compiles p size) (λ _.
        Keeps-bind b _ _ (call_arguments-Keeps compiles expression n moves fuel b false nil le le_n)
          (λ args. Keeps-bind b _ _ (advance_infix-Keeps compiles b) (λ _ q l. l)))
    where
      b : ℕ
      b = left_to_read p

  pub parse_subscript-Below :
      (left : Node) (pos : ℕ) (p : Parser)
      → token_size p.token.kind ≡ 1
      → left_to_read p ≤ n
      → Below (left_to_read p) (parse_subscript compiles expression left pos p)
  unfolding parse_subscript
  parse_subscript-Below left pos p size le_n =
      Below-if b (has_group left) _ _ p (λ _. tt)
        (λ _.
          Below-then b b (advance_prefix compiles p) _ (advance_prefix-Below compiles p size)
            (λ _ q l.
              Keeps-if b (is_kind rbracket q.token) _ _
                (Keeps-bind b _ _ (advance_infix-Keeps compiles b) (λ _ r k. k))
                (Keeps-bind b _ _ (expression-Keeps compiles expression n moves b 0 le_n)
                  (λ index. Keeps-bind b _ _ (consume-Keeps compiles b rbracket) (λ _ r k. k)))
                q l))
    where
      b : ℕ
      b = left_to_read p

  pub parse_sort_expr-Below :
      (fuel : ℕ) (left : Node) (pos : ℕ) (p : Parser)
      → token_size p.token.kind ≡ 1
      → left_to_read p ≤ fuel
      → left_to_read p ≤ n
      → Below (left_to_read p) (parse_sort_expr compiles expression fuel left pos p)
  unfolding parse_sort_expr
  parse_sort_expr-Below fuel left pos p size le le_n =
      Below-then b b (advance compiles p) _ (advance-Below compiles p size) (λ _.
        Keeps-bind b _ _ (consume_prefix-Keeps compiles b lparen) (λ _.
          Keeps-bind b _ _ (sort_terms-Keeps compiles expression n moves fuel b end le le_n)
            (λ terms. Keeps-bind b _ _ (advance_infix-Keeps compiles b) (λ _ q l. l))))
    where
      b : ℕ
      b = left_to_read p

  pub parse_group-Below :
      (fuel : ℕ) (left : Node) (pos : ℕ) (p : Parser)
      → token_size p.token.kind ≡ 1
      → left_to_read p ≤ fuel
      → left_to_read p ≤ n
      → Below (left_to_read p) (parse_group compiles expression fuel left pos p)
  unfolding parse_group
  parse_group-Below fuel left pos p size le le_n =
      Below-if b (has_group left) _ _ p (λ _. tt)
        (λ _. Below-then b b (advance compiles p) _ (advance-Below compiles p size) (λ _.
          Keeps-bind b _ _ (object_pairs-Keeps compiles expression n moves fuel b nil le le_n)
            (λ pairs. Keeps-bind b _ _ (advance_infix-Keeps compiles b) (λ _ q l. l))))
    where
      b : ℕ
      b = left_to_read p
