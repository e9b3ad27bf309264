-- ===== src/Parser/Lambdas.antt =====
-- Lambdas and transforms of go/internal/engine/internal/parser/parser.go: `parseLambda`, `parseSignatureString` and
-- `parseTransform`. `expression` is the parser of expressions; a loop has one unit of fuel for each round.
use jsonata.Base.{
  ℕ, zero, suc, ◌-◌, Bool, true, false, not, ◌&&◌, [], ◌++◌, Option, none, some, List, Bytes, ◌==◌,
  if◌then◌else◌,
}
use jsonata.Lexer.Token.{
  end_of_file, variable, lbrace, rbrace, lparen, rparen, comma, pipe, less, greater,
}
use jsonata.Signature.Spec.{ParamSpec, err, ok}
use jsonata.Signature.Spec
use jsonata.Signature.Parse.{parse_sig}
use jsonata.Parser.Node.{
  Node, Nodes, nil, Branch, absent, branch, Shape, plain_node, snoc, lambda, transform,
}
use jsonata.Parser.State.{
  s0202, s0208, signature, out_of_fuel, done, fails, Parse, ◌>>=◌, ◌>>◌, pure, fail, get_token,
  set_infix, is_kind, advance, advance_prefix, exhausted, eof, consume, consume_prefix,
}

abbrev pub sig_result : Option (Spec.Result (List ParamSpec)) → Parse (Unit {0})
sig_result none p = fails out_of_fuel
sig_result (some (err e)) p = fails (signature e)
sig_result (some (ok specs)) p = done tt p

module _ (compiles : Bytes → Bytes → Bool) where
  unfoldable pub parameter_end : Parse (Unit {0})
  unfolding advance
  parameter_end = do
    t ← get_token
    if is_kind comma t
        then advance compiles
        else if is_kind rparen t
        then pure tt
        else fail s0202 t.value

  -- The loop over the parameters of a lambda.
  unfoldable pub lambda_params : ℕ → Nodes → Parse Nodes
  unfolding parameter_end advance
  lambda_params zero params = exhausted
  lambda_params (suc n) params = do
    t ← get_token
    if is_kind rparen t
        then pure params
        else if is_kind end_of_file t
        then fail s0202 eof
        else if not (is_kind variable t)
        then fail s0208 t.value
        else do
          advance compiles
          parameter_end
          lambda_params n (snoc params (plain_node t.pos (Shape.variable t.value)))

  -- The loop of `parseSignatureString`, with the nesting and the text so far.
  unfoldable pub signature_text : ℕ → ℕ → Bytes → Parse Bytes
  unfolding advance
  signature_text zero depth text = exhausted
  signature_text (suc n) depth text = do
    t ← get_token
    if is_kind end_of_file t
        then fail s0202 eof
        else if is_kind greater t && depth == 1
        then (do advance compiles; pure text)
        else do
          advance compiles
          signature_text n
              (if is_kind less t then suc depth else if is_kind greater t then depth - 1 else depth)
              (text ++ t.value)

  -- The signature of a lambda, if there is one.
  unfoldable pub lambda_signature : ℕ → Parse (Bool × Bytes)
  unfolding advance signature_text parse_sig
  lambda_signature fuel = do
    t ← get_token
    if is_kind less t
        then (do
          advance compiles
          text ← signature_text fuel 1 []
          sig_result (parse_sig text)
          pure (true, text))
        else pure (false, [])

module _ (compiles : Bytes → Bytes → Bool) (expression : ℕ → Parse Node) where
  unfoldable pub parse_lambda : ℕ → ℕ → Parse Node
  unfolding consume advance lambda_params lambda_signature
  parse_lambda fuel pos = do
    consume compiles lparen
    params ← lambda_params compiles fuel nil
    advance compiles
    (signed, text) ← lambda_signature compiles fuel
    consume compiles lbrace
    body ← expression 0
    consume compiles rbrace
    set_infix
    pure (plain_node pos (lambda params signed text body))

  unfoldable pub delete_part : Parse Branch
  unfolding advance_prefix
  delete_part = do
    t ← get_token
    if is_kind comma t
        then (do advance_prefix compiles; del ← expression 20; pure (branch del))
        else pure absent

  unfoldable pub parse_transform : ℕ → Parse Node
  unfolding advance_prefix consume_prefix consume delete_part
  parse_transform pos = do
    advance_prefix compiles
    pattern_part ← expression 20
    consume_prefix compiles pipe
    update ← expression 20
    del ← delete_part
    consume compiles pipe
    set_infix
    pure (plain_node pos (transform pattern_part update del))
