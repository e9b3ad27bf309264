-- ===== src/Parser/Groups.antt =====
-- The bracketed forms of go/internal/engine/internal/parser/parser.go: arrays, objects, blocks, calls,
-- subscripts and sorts. `expression` is the parser of expressions; a loop has one unit of fuel for each round.
use jsonata.Base.{ℕ, zero, suc, Bool, true, false, not, ◌||◌, Bytes, codes, if◌then◌else◌}
use jsonata.Lexer.Token.{
  TokenKind, end_of_file, rbracket, rbrace, lparen, rparen, comma, semicolon, colon, less, greater,
  Token,
}
use jsonata.Parser.Node.{
  no_group, group, node, Node, Nodes, nil, cons, Terms, end, Group, Shape, plain_node, snoc,
  snoc_term, shape_of, value_of, array, object, block, function, partial, sort, binary, placeholder,
}
use jsonata.Parser.State.{
  Code, s0202, s0203, s0204, s0209, s0210, Parse, ◌>>=◌, ◌>>◌, pure, fail, get_token, set_infix,
  is_kind, advance, advance_prefix, exhausted, eof, advance_infix, consume, consume_prefix,
}

abbrev pub array_code : Token → Code
array_code t = if is_kind rparen t || is_kind rbrace t || is_kind colon t then s0202 else s0204

abbrev pub argument_code : Token → Code
argument_code t = if is_kind end_of_file t then s0203 else s0202

abbrev pub argument_token : Token → Bytes
argument_token t = if is_kind end_of_file t then eof else t.value

abbrev pub is_placeholder : Shape → Bool
is_placeholder placeholder = true
is_placeholder shape = false

abbrev pub keep_array_of : Node → Node
keep_array_of (node pos marks g shape) = node pos (record marks { keep_array = true }) g shape

abbrev pub has_group : Node → Bool
has_group (node pos marks no_group shape) = false
has_group (node pos marks g shape) = true

abbrev pub set_group : Group → Node → Node
set_group g (node pos marks old shape) = node pos marks g shape

module _ (compiles : Bytes → Bytes → Bool) where
  -- What stands behind an item: a comma, or the bracket that closes, or else an error.
  unfoldable pub separator : TokenKind → (Token → Code) → Parse (Unit {0})
  unfolding advance_prefix
  separator close code = do
    t ← get_token
    if is_kind comma t
        then advance_prefix compiles
        else if is_kind close t
        then pure tt
        else fail (code t) t.value

  unfoldable pub argument_end : Parse (Unit {0})
  unfolding advance_prefix
  argument_end = do
    t ← get_token
    if is_kind comma t
        then advance_prefix compiles
        else if is_kind rparen t
        then pure tt
        else fail (argument_code t) (argument_token t)

  unfoldable pub sort_direction : Parse Bool
  unfolding advance_prefix
  sort_direction = do
    t ← get_token
    if is_kind greater t || is_kind less t
        then (do advance_prefix compiles; pure (is_kind greater t))
        else pure false

module _ (compiles : Bytes → Bytes → Bool) (expression : ℕ → Parse Node) where
  -- The loop of an array constructor.
  unfoldable pub array_items : ℕ → Nodes → Parse Nodes
  unfolding separator
  array_items zero items = exhausted
  array_items (suc n) items = do
    t ← get_token
    if is_kind rbracket t then pure items else if is_kind end_of_file t then fail s0202 eof else do
      item ← expression 0
      separator compiles rbracket array_code
      array_items n (snoc items item)

  unfoldable pub parse_array : ℕ → ℕ → Parse Node
  unfolding advance_prefix advance_infix array_items
  parse_array fuel pos = do
    advance_prefix compiles
    items ← array_items fuel nil
    advance_infix compiles
    pure (plain_node pos (array items))

  -- The loop of `parseObjectPairs`.
  unfoldable pub object_pairs : ℕ → Nodes → Parse Nodes
  unfolding separator consume_prefix
  object_pairs zero pairs = exhausted
  object_pairs (suc n) pairs = do
    t ← get_token
    if is_kind rbrace t then pure pairs else if is_kind end_of_file t then fail s0202 eof else do
      key ← expression 0
      consume_prefix compiles colon
      val ← expression 0
      separator compiles rbrace (λ _. s0202)
      object_pairs n (snoc (snoc pairs key) val)

  unfoldable pub parse_object : ℕ → ℕ → Parse Node
  unfolding advance_prefix advance_infix object_pairs
  parse_object fuel pos = do
    advance_prefix compiles
    pairs ← object_pairs fuel nil
    advance_infix compiles
    pure (plain_node pos (object pairs))

  -- The loop of a block behind its first expression.
  unfoldable pub block_items : ℕ → Nodes → Parse Nodes
  unfolding advance_prefix
  block_items zero items = exhausted
  block_items (suc n) items = do
    t ← get_token
    if not (is_kind semicolon t) then pure items else do
      advance_prefix compiles
      u ← get_token
      if is_kind rparen u
          then pure items
          else do item ← expression 0; block_items n (snoc items item)

  unfoldable pub block_rest : ℕ → ℕ → Node → Parse Node
  unfolding block_items consume advance_infix
  block_rest fuel pos first = do
    t ← get_token
    if is_kind rparen t
        then (do advance_infix compiles; pure (plain_node pos (block (cons first nil))))
        else do
          items ← block_items fuel (cons first nil)
          consume compiles rparen
          set_infix
          pure (plain_node pos (block items))

  -- `parseParenOrBlock`
  unfoldable pub parse_paren_or_block : ℕ → ℕ → Parse Node
  unfolding advance_prefix advance_infix block_rest
  parse_paren_or_block fuel pos = do
    advance_prefix compiles
    t ← get_token
    if is_kind rparen t
        then (do advance_infix compiles; pure (plain_node pos (block nil)))
        else do first ← expression 0; block_rest fuel pos first

  -- The loop over the arguments of a call, and whether one of them is a placeholder.
  unfoldable pub call_arguments : ℕ → Bool → Nodes → Parse (Bool × Nodes)
  unfolding argument_end
  call_arguments zero is_partial args = exhausted
  call_arguments (suc n) is_partial args = do
    t ← get_token
    if is_kind rparen t
        then pure (is_partial, args)
        else if is_kind end_of_file t
        then fail s0203 eof
        else do
          arg ← expression 0
          argument_end compiles
          call_arguments n (is_partial || is_placeholder (shape_of arg)) (snoc args arg)

  unfoldable pub parse_function_call : ℕ → Node → ℕ → Parse Node
  unfolding advance_prefix advance_infix call_arguments
  parse_function_call fuel callee pos = do
    advance_prefix compiles
    (is_partial, args) ← call_arguments fuel false nil
    advance_infix compiles
    pure (
        plain_node pos (
          if is_partial
          then partial (value_of callee) callee args
          else function (value_of callee) callee args))

  unfoldable pub parse_subscript : Node → ℕ → Parse Node
  unfolding advance_prefix advance_infix consume
  parse_subscript left pos = if has_group left then fail s0209 (codes "[") else do
    advance_prefix compiles
    t ← get_token
    if is_kind rbracket t then (do advance_infix compiles; pure (keep_array_of left)) else do
      index ← expression 0
      consume compiles rbracket
      set_infix
      pure (plain_node pos (binary (codes "[") left index))

  -- The loop over the terms of a sort.
  unfoldable pub sort_terms : ℕ → Terms → Parse Terms
  unfolding sort_direction separator
  sort_terms zero terms = exhausted
  sort_terms (suc n) terms = do
    t ← get_token
    if is_kind rparen t then pure terms else if is_kind end_of_file t then fail s0202 eof else do
      descending ← sort_direction compiles
      key ← expression 0
      separator compiles rparen (λ _. s0202)
      sort_terms n (snoc_term terms descending key)

  unfoldable pub parse_sort_expr : ℕ → Node → ℕ → Parse Node
  unfolding advance consume_prefix sort_terms advance_infix
  parse_sort_expr fuel left pos = do
    advance compiles
    consume_prefix compiles lparen
    terms ← sort_terms fuel end
    advance_infix compiles
    pure (plain_node pos (sort left terms))

  -- The case of `{` in `led`.
  unfoldable pub parse_group : ℕ → Node → ℕ → Parse Node
  unfolding advance object_pairs advance_infix
  parse_group fuel left pos = if has_group left then fail s0210 (codes "{") else do
    advance compiles
    pairs ← object_pairs fuel nil
    advance_infix compiles
    pure (set_group (group pos pairs) left)
