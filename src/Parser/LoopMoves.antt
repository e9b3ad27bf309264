-- ===== src/Parser/LoopMoves.antt =====
-- The loops of the bracketed forms of go/internal/engine/internal/parser/parser.go move forward if the parser of
-- expressions does.
use jsonata.Base.{
  ℕ, zero, suc, ◌-◌, ◌<◌, ◌≤◌, Bool, true, false, not, ◌&&◌, ◌||◌, [], ◌++◌, Bytes, ◌==◌,
  if◌then◌else◌, ◌≡◌, inl, inr, refl, arith,
}
use jsonata.Lexer.Token.{
  TokenKind, end_of_file, variable, rbracket, rbrace, rparen, comma, semicolon, colon, less,
  greater, Token,
}
use jsonata.Signature.Parse.{parse_sig}
use jsonata.Signature.Sound.{parse_sig_total}
use jsonata.Parser.Node.{Node, Nodes, Terms, plain_node, snoc, Shape}
use jsonata.Parser.State.{
  Code, s0202, Parser, Parse, ◌>>=◌, ◌>>◌, pure, get_token, is_kind, advance, advance_prefix,
}
use jsonata.Parser.Groups.{
  separator, array_code, array_items, object_pairs, block_items, argument_end, call_arguments,
  sort_direction, sort_terms,
}
use jsonata.Parser.Lambdas.{
  parameter_end, lambda_params, signature_text, sig_result, lambda_signature,
}
use jsonata.Parser.Moves.{
  left_to_read, Below, Below-mono, Below-then, Below-if, not_end-size, Keeps, Keeps-bind, Keeps-if,
  advance-Below, advance-Keeps, advance_prefix-Below, advance_prefix-Keeps, consume_prefix-Keeps,
  is_kind-size,
}

-- `expression` moves forward where less than `n` is left.
abbrev pub MovesBelow : ℕ → (ℕ → Parse Node) → Type 0
MovesBelow n expression =
    (bp : ℕ) (p : Parser) → left_to_read p < n → Below (left_to_read p) (expression bp p)

-- The rest keeps every smaller bound.
abbrev pub KeepsBelow {ℓ} : {A : Type ℓ} → ℕ → Parse A → Type 0
KeepsBelow b m = (c : ℕ) → c < b → Keeps c m

-- What moves forward, and then what keeps smaller bounds.
pub Below-bind {ℓ κ} :
    {A : Type ℓ} {B : Type κ} (b : ℕ) (m : Parse A) (f : A → Parse B) (p : Parser)
    → left_to_read p < b
    → Below (left_to_read p) (m p)
    → ((a : A) → KeepsBelow b (f a))
    → Below b ((m >>= f) p)
Below-bind b m f p lt h k =
    Below-mono (left_to_read p) b _ (omega arith) (
      Below-then (left_to_read p) (left_to_read p) (m p) f h (λ a q l. k a (left_to_read p) lt q l))

module _ (compiles : Bytes → Bytes → Bool) where
  pub separator-Keeps :
      (b : ℕ) (close : TokenKind) (code : Token → Code) → Keeps b (separator compiles close code)
  unfolding separator
  separator-Keeps b close code p lt =
      Keeps-if b (is_kind comma p.token) _ _ (advance_prefix-Keeps compiles b)
        (Keeps-if b (is_kind close p.token) _ _ (λ q l. l) (λ q l. tt)) p lt

  pub parameter_end-Keeps : (b : ℕ) → Keeps b (parameter_end compiles)
  unfolding parameter_end
  parameter_end-Keeps b p lt =
      Keeps-if b (is_kind comma p.token) _ _ (advance-Keeps compiles b)
        (Keeps-if b (is_kind rparen p.token) _ _ (λ q l. l) (λ q l. tt)) p lt

  pub argument_end-Keeps : (b : ℕ) → Keeps b (argument_end compiles)
  unfolding argument_end
  argument_end-Keeps b p lt =
      Keeps-if b (is_kind comma p.token) _ _ (advance_prefix-Keeps compiles b)
        (Keeps-if b (is_kind rparen p.token) _ _ (λ q l. l) (λ q l. tt)) p lt

  pub sort_direction-Keeps : (b : ℕ) → Keeps b (sort_direction compiles)
  unfolding sort_direction
  sort_direction-Keeps b p lt =
      Keeps-if b (is_kind greater p.token || is_kind less p.token) _ _
        (Keeps-bind b _ _ (advance_prefix-Keeps compiles b) (λ _ q l. l)) (λ q l. l) p lt

  pub lambda_params-Keeps :
      (m b : ℕ) (params : Nodes) → b ≤ m → Keeps b (lambda_params compiles m params)
  unfolding lambda_params
  lambda_params-Keeps zero b params le p lt = absurd (omega arith)
  lambda_params-Keeps (suc m) b params le p lt =
      Below-if b (is_kind rparen p.token) _ _ p (λ _. lt)
        (λ _.
          Below-if b (is_kind end_of_file p.token) _ _ p (λ _. tt)
            (λ inside.
              Below-if b (not (is_kind variable p.token)) _ _ p (λ _. tt)
                (λ _.
                  Below-bind b (advance compiles)
                    (λ _. parameter_end compiles >> lambda_params compiles m (next_params p.token))
                    p lt (advance-Below compiles p (not_end-size p.token inside))
                    (λ _ c below.
                      Keeps-bind c _ _ (parameter_end-Keeps c)
                        (λ _. lambda_params-Keeps m c (next_params p.token) (omega arith))))))
    where
      next_params : Token → Nodes
      next_params t = snoc params (plain_node t.pos (Shape.variable t.value))

  pub signature_text-Keeps :
      (m b depth : ℕ) (text : Bytes) → b ≤ m → Keeps b (signature_text compiles m depth text)
  unfolding signature_text
  signature_text-Keeps zero b depth text le p lt = absurd (omega arith)
  signature_text-Keeps (suc m) b depth text le p lt =
      Below-if b (is_kind end_of_file p.token) _ _ p (λ _. tt)
        (λ inside.
          Below-if b (is_kind greater p.token && depth == 1) _ _ p
            (λ _. Keeps-bind b _ _ (advance-Keeps compiles b) (λ _ q l. l) p lt)
            (λ _.
              Below-bind b (advance compiles)
                (λ _. signature_text compiles m (next_depth p.token) (text ++ p.token.value)) p lt
                (advance-Below compiles p (not_end-size p.token inside))
                (λ _ c below. signature_text-Keeps m c (next_depth p.token) _ (omega arith))))
    where
      next_depth : Token → ℕ
      next_depth t =
          if is_kind less t then suc depth else if is_kind greater t then depth - 1 else depth

  pub sig_result-Keeps : (b : ℕ) (text : Bytes) → Keeps b (sig_result (parse_sig text))
  sig_result-Keeps b text p lt = elim (parse_sig_total text) [
    | inl (specs, e, _) ↦ rw e lt
    | inr (code, e) ↦ rw e tt
  ]

  pub lambda_signature-Keeps : (fuel b : ℕ) → b ≤ fuel → Keeps b (lambda_signature compiles fuel)
  unfolding lambda_signature
  lambda_signature-Keeps fuel b le p lt =
      Keeps-if b (is_kind less p.token) _ _
        (Keeps-bind b _ _ (advance-Keeps compiles b) (λ _.
          Keeps-bind b _ _ (signature_text-Keeps fuel b 1 [] le)
            (λ text. Keeps-bind b _ _ (sig_result-Keeps b text) (λ _ q l. l))))
        (λ q l. l) p lt

module _ (compiles : Bytes → Bytes → Bool) (expression : ℕ → Parse Node) (n : ℕ)
    (moves : MovesBelow n expression) where
  pub expression-Keeps : (b bp : ℕ) → b ≤ n → Keeps b (expression bp)
  expression-Keeps b bp le p lt =
      Below-mono (left_to_read p) b _ (omega arith) (moves bp p (omega arith))

  pub array_items-Keeps :
      (m b : ℕ) (items : Nodes) → b ≤ m → b ≤ n → Keeps b (array_items compiles expression m items)
  unfolding array_items
  array_items-Keeps zero b items le le_n p lt = absurd (omega arith)
  array_items-Keeps (suc m) b items le le_n p lt =
      Keeps-if b (is_kind rbracket p.token) _ _ (λ q l. l)
        (Keeps-if b (is_kind end_of_file p.token) _ _ (λ q l. tt)
          (λ q l. Below-bind b (expression 0) _ q l (moves 0 q (omega arith)) (λ item c below.
            Keeps-bind c _ _ (separator-Keeps compiles c rbracket array_code)
              (λ _. array_items-Keeps m c (snoc items item) (omega arith) (omega arith)))))
        p lt

  pub object_pairs-Keeps :
      (m b : ℕ) (pairs : Nodes) → b ≤ m → b ≤ n → Keeps b (object_pairs compiles expression m pairs)
  unfolding object_pairs
  object_pairs-Keeps zero b pairs le le_n p lt = absurd (omega arith)
  object_pairs-Keeps (suc m) b pairs le le_n p lt =
      Keeps-if b (is_kind rbrace p.token) _ _ (λ q l. l)
        (Keeps-if b (is_kind end_of_file p.token) _ _ (λ q l. tt)
          (λ q l. Below-bind b (expression 0) _ q l (moves 0 q (omega arith)) (λ key c below.
            Keeps-bind c _ _ (consume_prefix-Keeps compiles c colon) (λ _.
              Keeps-bind c _ _ (expression-Keeps c 0 (omega arith)) (λ val.
                Keeps-bind c _ _ (separator-Keeps compiles c rbrace (λ _. s0202))
                  (λ _. object_pairs-Keeps m c _ (omega arith) (omega arith)))))))
        p lt

  pub block_items-Keeps :
      (m b : ℕ) (items : Nodes) → b ≤ m → b ≤ n → Keeps b (block_items compiles expression m items)
  unfolding block_items
  block_items-Keeps zero b items le le_n p lt = absurd (omega arith)
  block_items-Keeps (suc m) b items le le_n p lt =
      Below-if b (not (is_kind semicolon p.token)) _ _ p (λ _. lt)
        (λ more.
          Below-bind b (advance_prefix compiles) (λ _. after) p lt
            (advance_prefix-Below compiles p
              (is_kind-size semicolon p.token refl (is_not (is_kind semicolon p.token) more)))
            (λ _ c below q l.
              Keeps-if c (is_kind rparen q.token) (pure items) another (λ r k. k)
                (Keeps-bind c _ _ (expression-Keeps c 0 (omega arith))
                  (λ item. block_items-Keeps m c (snoc items item) (omega arith) (omega arith)))
                q l))
    where
      another : Parse Nodes
      another = do item ← expression 0; block_items compiles expression m (snoc items item)

      after : Parse Nodes
      after = do u ← get_token; if is_kind rparen u then pure items else another

      is_not : (t : Bool) → not t ≡ false → t ≡ true
      is_not true h = refl
      is_not false h = cc

  pub call_arguments-Keeps :
      (m b : ℕ) (is_partial : Bool) (args : Nodes)
      → b ≤ m
      → b ≤ n
      → Keeps b (call_arguments compiles expression m is_partial args)
  unfolding call_arguments
  call_arguments-Keeps zero b is_partial args le le_n p lt = absurd (omega arith)
  call_arguments-Keeps (suc m) b is_partial args le le_n p lt =
      Keeps-if b (is_kind rparen p.token) _ _ (λ q l. l)
        (Keeps-if b (is_kind end_of_file p.token) _ _ (λ q l. tt)
          (λ q l. Below-bind b (expression 0) _ q l (moves 0 q (omega arith)) (λ arg c below.
            Keeps-bind c _ _ (argument_end-Keeps compiles c)
              (λ _. call_arguments-Keeps m c _ (snoc args arg) (omega arith) (omega arith)))))
        p lt

  pub sort_terms-Keeps :
      (m b : ℕ) (terms : Terms) → b ≤ m → b ≤ n → Keeps b (sort_terms compiles expression m terms)
  unfolding sort_terms
  sort_terms-Keeps zero b terms le le_n p lt = absurd (omega arith)
  sort_terms-Keeps (suc m) b terms le le_n p lt =
      Keeps-if b (is_kind rparen p.token) _ _ (λ q l. l)
        (Keeps-if b (is_kind end_of_file p.token) _ _ (λ q l. tt)
          (Keeps-bind b _ _ (sort_direction-Keeps compiles b) (λ descending q l.
            Below-bind b (expression 0) _ q l (moves 0 q (omega arith)) (λ key c below.
              Keeps-bind c _ _ (separator-Keeps compiles c rparen (λ _. s0202))
                (λ _. sort_terms-Keeps m c _ (omega arith) (omega arith))))))
        p lt
