-- ===== src/Parser/NudMoves.antt =====
-- `nud` of go/internal/engine/internal/parser/parser.go moves forward if the parser of expressions does.
use jsonata.Base.{ℕ, ◌≤◌, Bool, ◌&&◌, Bytes, ◌≡◌, ap, refl}
use jsonata.Lexer.Token.{
  TokenKind, end_of_file, name, variable, string, number, value_word, regex_literal, lbracket,
  lbrace, lparen, question, minus, star, percent, pipe, star_star, chain, and_word, or_word,
  in_word, Token,
}
use jsonata.Parser.Node.{Node, Shape}
use jsonata.Parser.State.{Parser, Parse, is_kind, advance, advance_infix}
use jsonata.Parser.Prefix.{
  leaf, name_or_lambda, parse_minus, parse_placeholder, nud_of, nud, is_lambda_word,
}
use jsonata.Parser.Moves.{
  left_to_read, token_size, Below, Below-then, Keeps-bind, Keeps-if, advance-Below,
  advance_infix-Below,
}
use jsonata.Parser.LoopMoves.{MovesBelow, expression-Keeps}
use jsonata.Parser.GroupMoves.{
  parse_array-Below, parse_object-Below, parse_paren_or_block-Below, parse_lambda-Keeps,
  parse_transform-Below,
}

module _ (compiles : Bytes → Bytes → Bool) (sub : ℕ → Parse Node) (n : ℕ)
    (moves : MovesBelow n sub) where
  leaf-Below :
      (pos : ℕ) (shape : Shape) (p : Parser)
      → token_size p.token.kind ≡ 1
      → Below (left_to_read p) (leaf compiles sub pos shape p)
  unfolding leaf
  leaf-Below pos shape p size =
      Below-then (left_to_read p) (left_to_read p) (advance_infix compiles p) _
        (advance_infix-Below compiles p size) (λ _ q l. l)

  name_or_lambda-Below :
      (fuel : ℕ) (tok : Token) (p : Parser)
      → token_size p.token.kind ≡ 1
      → left_to_read p ≤ fuel
      → left_to_read p ≤ n
      → Below (left_to_read p) (name_or_lambda compiles sub fuel tok p)
  unfolding name_or_lambda
  name_or_lambda-Below fuel tok p size le le_n =
      Below-then b b (advance_infix compiles p) _ (advance_infix-Below compiles p size) (λ _ q l.
        Keeps-if b (is_lambda_word tok.value && is_kind lparen q.token) _ _
          (parse_lambda-Keeps compiles sub n moves fuel b tok.pos le le_n) (λ r k. k) q l)
    where
      b : ℕ
      b = left_to_read p

  parse_minus-Below :
      (pos : ℕ) (p : Parser)
      → token_size p.token.kind ≡ 1
      → left_to_read p ≤ n
      → Below (left_to_read p) (parse_minus compiles sub pos p)
  unfolding parse_minus
  parse_minus-Below pos p size le_n =
      Below-then b b (advance compiles p) _ (advance-Below compiles p size)
        (λ _. Keeps-bind b _ _ (expression-Keeps compiles sub n moves b 70 le_n) (λ value q l. l))
    where
      b : ℕ
      b = left_to_read p

  parse_placeholder-Below :
      (pos : ℕ) (p : Parser)
      → token_size p.token.kind ≡ 1
      → Below (left_to_read p) (parse_placeholder compiles sub pos p)
  unfolding parse_placeholder
  parse_placeholder-Below pos p size =
      Below-then (left_to_read p) (left_to_read p) (advance compiles p) _
        (advance-Below compiles p size) (λ _ q l. l)

  pub nud-Below :
      (fuel : ℕ) (p : Parser)
      → left_to_read p ≤ fuel
      → left_to_read p ≤ n
      → Below (left_to_read p) (nud compiles sub fuel p)
  unfolding nud nud_of
  nud-Below fuel p le le_n = of_kind p.token.kind refl
    where
      of_kind :
          (k : TokenKind)
          → p.token.kind ≡ k
          → Below (left_to_read p) (nud_of compiles sub fuel p.token k p)
      of_kind end_of_file e = tt
      of_kind name e = name_or_lambda-Below fuel p.token p (ap token_size e) le le_n
      of_kind and_word e = leaf-Below p.token.pos _ p (ap token_size e)
      of_kind or_word e = leaf-Below p.token.pos _ p (ap token_size e)
      of_kind in_word e = leaf-Below p.token.pos _ p (ap token_size e)
      of_kind variable e = leaf-Below p.token.pos _ p (ap token_size e)
      of_kind string e = leaf-Below p.token.pos _ p (ap token_size e)
      of_kind number e = leaf-Below p.token.pos _ p (ap token_size e)
      of_kind value_word e = leaf-Below p.token.pos _ p (ap token_size e)
      of_kind regex_literal e = leaf-Below p.token.pos _ p (ap token_size e)
      of_kind minus e = parse_minus-Below p.token.pos p (ap token_size e) le_n
      of_kind star e = leaf-Below p.token.pos _ p (ap token_size e)
      of_kind star_star e = leaf-Below p.token.pos _ p (ap token_size e)
      of_kind percent e = leaf-Below p.token.pos _ p (ap token_size e)
      of_kind lbracket e =
          parse_array-Below compiles sub n moves fuel p.token.pos p (ap token_size e) le le_n
      of_kind lbrace e =
          parse_object-Below compiles sub n moves fuel p.token.pos p (ap token_size e) le le_n
      of_kind lparen e =
          parse_paren_or_block-Below compiles sub n moves fuel p.token.pos p (ap token_size e) le
            le_n
      of_kind question e = parse_placeholder-Below p.token.pos p (ap token_size e)
      of_kind pipe e =
          parse_transform-Below compiles sub n moves p.token.pos p (ap token_size e) le_n
      of_kind chain e = tt
      of_kind _ e = tt
