-- ===== src/Parser/Built.antt =====
-- The bracketed forms of go/internal/engine/internal/parser/parser.go respect precedence if the parser of expressions
-- does.
use jsonata.Base.{ℕ, zero, suc, ◌<◌, Bool, not, Bytes, refl, arith}
use jsonata.Lexer.Token.{
  end_of_file, rbracket, lbrace, rbrace, lparen, rparen, comma, semicolon, colon, pipe,
}
use jsonata.Parser.Node.{Node, Nodes, nil, cons, Terms, snoc, snoc_term}
use jsonata.Parser.State.{
  s0202, Parser, Parse, ◌>>=◌, is_kind, consume, consume_prefix, advance, advance_prefix,
  advance_infix,
}
use jsonata.Parser.Groups.{
  array_code, separator, array_items, parse_array, object_pairs, parse_object, block_items,
  block_rest, parse_paren_or_block, argument_end, call_arguments, sort_direction, sort_terms,
}
use jsonata.Parser.Lambdas.{
  lambda_params, lambda_signature, parse_lambda, delete_part, parse_transform,
}
use jsonata.Parser.Ordered.{IsOrdered, AreOrdered, AreOrderedTerms}
use jsonata.Parser.Good.{
  Good, Good-then, Good-after, Good-if, Built, AllBuilt, TermsBuilt, BranchBuilt, Fits, Fitting,
  snoc-AreOrdered, snoc_term-AreOrderedTerms,
}

module _ (compiles : Bytes → Bytes → Bool) (sub : ℕ → Parse Node) (fitting : Fitting sub) where
  -- An expression, and the rest behind it.
  pub Good-expression {ℓ} :
      {B : Type ℓ} (R : B → Parser → Type 0) (bp : ℕ) (f : Node → Parse B) (p : Parser)
      → bp < 100
      → ((n : Node) (q : Parser) → Fits bp n q → Good R (f n q))
      → Good R ((sub bp >>= f) p)
  Good-expression R bp f p lt k = Good-then (Fits bp) R (sub bp p) f (fitting bp lt p) k

  array_items-Good :
      (m : ℕ) (items : Nodes) (p : Parser)
      → AreOrdered items
      → Good AllBuilt (array_items compiles sub m items p)
  unfolding array_items
  array_items-Good zero items p h = tt
  array_items-Good (suc m) items p h =
      Good-if AllBuilt (is_kind rbracket p.token) _ _ p (λ _. h)
        (λ _.
          Good-if AllBuilt (is_kind end_of_file p.token) _ _ p (λ _. tt)
            (λ _. Good-expression AllBuilt 0 _ p (omega arith) (λ item q fits.
              Good-after AllBuilt (separator compiles rbracket array_code q) _ (λ _ r.
                array_items-Good m (snoc items item) r (snoc-AreOrdered items item h fits.0)))))

  pub parse_array-Good :
      (fuel pos : ℕ) (p : Parser) → Good Built (parse_array compiles sub fuel pos p)
  unfolding parse_array IsOrdered
  parse_array-Good fuel pos p = Good-after Built (advance_prefix compiles p) _ (λ _ q.
      Good-then AllBuilt Built (array_items compiles sub fuel nil q) _
        (array_items-Good fuel nil q tt)
        (λ items r h. Good-after Built (advance_infix compiles r) _ (λ _ s. ((h, tt), refl, refl))))

  pub object_pairs-Good :
      (m : ℕ) (pairs : Nodes) (p : Parser)
      → AreOrdered pairs
      → Good AllBuilt (object_pairs compiles sub m pairs p)
  unfolding object_pairs
  object_pairs-Good zero pairs p h = tt
  object_pairs-Good (suc m) pairs p h =
      Good-if AllBuilt (is_kind rbrace p.token) _ _ p (λ _. h)
        (λ _.
          Good-if AllBuilt (is_kind end_of_file p.token) _ _ p (λ _. tt)
            (λ _. Good-expression AllBuilt 0 _ p (omega arith) (λ key q key_fits.
              Good-after AllBuilt (consume_prefix compiles colon q) _ (λ _ r.
                Good-expression AllBuilt 0 _ r (omega arith) (λ val s val_fits.
                  Good-after AllBuilt (separator compiles rbrace (λ _. s0202) s) _ (λ _ t.
                    object_pairs-Good m (snoc (snoc pairs key) val) t (
                      snoc-AreOrdered (snoc pairs key) val (snoc-AreOrdered pairs key h key_fits.0)
                        val_fits.0)))))))

  pub parse_object-Good :
      (fuel pos : ℕ) (p : Parser) → Good Built (parse_object compiles sub fuel pos p)
  unfolding parse_object IsOrdered
  parse_object-Good fuel pos p = Good-after Built (advance_prefix compiles p) _ (λ _ q.
      Good-then AllBuilt Built (object_pairs compiles sub fuel nil q) _
        (object_pairs-Good fuel nil q tt)
        (λ pairs r h. Good-after Built (advance_infix compiles r) _ (λ _ s. ((h, tt), refl, refl))))

  block_items-Good :
      (m : ℕ) (items : Nodes) (p : Parser)
      → AreOrdered items
      → Good AllBuilt (block_items compiles sub m items p)
  unfolding block_items
  block_items-Good zero items p h = tt
  block_items-Good (suc m) items p h =
      Good-if AllBuilt (not (is_kind semicolon p.token)) _ _ p (λ _. h)
        (λ _. Good-after AllBuilt (advance_prefix compiles p) _ (λ _ q.
          Good-if AllBuilt (is_kind rparen q.token) _ _ q (λ _. h)
            (λ _. Good-expression AllBuilt 0 _ q (omega arith) (λ item r fits.
              block_items-Good m (snoc items item) r (snoc-AreOrdered items item h fits.0)))))

  block_rest-Good :
      (fuel pos : ℕ) (first : Node) (p : Parser)
      → IsOrdered first
      → Good Built (block_rest compiles sub fuel pos first p)
  unfolding block_rest IsOrdered
  block_rest-Good fuel pos first p h =
      Good-if Built (is_kind rparen p.token) _ _ p
        (λ _. Good-after Built (advance_infix compiles p) _ (λ _ q. (((h, tt), tt), refl, refl)))
        (λ _.
          Good-then AllBuilt Built (block_items compiles sub fuel (cons first nil) p) _
            (block_items-Good fuel (cons first nil) p (h, tt))
            (λ items q k.
              Good-after Built (consume compiles rparen q) _ (λ _ r. ((k, tt), refl, refl))))

  pub parse_paren_or_block-Good :
      (fuel pos : ℕ) (p : Parser) → Good Built (parse_paren_or_block compiles sub fuel pos p)
  unfolding parse_paren_or_block IsOrdered
  parse_paren_or_block-Good fuel pos p = Good-after Built (advance_prefix compiles p) _ (λ _ q.
      Good-if Built (is_kind rparen q.token) _ _ q
        (λ _. Good-after Built (advance_infix compiles q) _ (λ _ r. ((tt, tt), refl, refl)))
        (λ _.
          Good-expression Built 0 _ q (omega arith)
            (λ first r fits. block_rest-Good fuel pos first r fits.0)))

  pub parse_lambda-Good :
      (fuel pos : ℕ) (p : Parser) → Good Built (parse_lambda compiles sub fuel pos p)
  unfolding parse_lambda IsOrdered
  parse_lambda-Good fuel pos p = Good-after Built (consume compiles lparen p) _ (λ _ q.
      Good-after Built (lambda_params compiles fuel nil q) _ (λ params r.
        Good-after Built (advance compiles r) _ (λ _ s.
          Good-after Built (lambda_signature compiles fuel s) _ (λ signed t.
            Good-after Built (consume compiles lbrace t) _ (λ _ u.
              Good-expression Built 0 _ u (omega arith) (λ body v fits.
                Good-after Built (consume compiles rbrace v) _
                  (λ _ w. ((fits.0, tt), refl, refl))))))))

  delete_part-Good : (p : Parser) → Good BranchBuilt (delete_part compiles sub p)
  unfolding delete_part IsOrdered
  delete_part-Good p =
      Good-if BranchBuilt (is_kind comma p.token) _ _ p
        (λ _.
          Good-after BranchBuilt (advance_prefix compiles p) _
            (λ _ q. Good-expression BranchBuilt 20 _ q (omega arith) (λ del r fits. fits.0)))
        (λ _. tt)

  pub parse_transform-Good :
      (pos : ℕ) (p : Parser) → Good Built (parse_transform compiles sub pos p)
  unfolding parse_transform IsOrdered
  parse_transform-Good pos p = Good-after Built (advance_prefix compiles p) _ (λ _ q.
      Good-expression Built 20 _ q (omega arith) (λ part r part_fits.
        Good-after Built (consume_prefix compiles pipe r) _ (λ _ s.
          Good-expression Built 20 _ s (omega arith) (λ update t update_fits.
            Good-then BranchBuilt Built (delete_part compiles sub t) _ (delete_part-Good t)
              (λ del u h.
                Good-after Built (consume compiles pipe u) _
                  (λ _ v. (((part_fits.0, update_fits.0, h), tt), refl, refl)))))))

  pub call_arguments-Good :
      (m : ℕ) (is_partial : Bool) (args : Nodes) (p : Parser)
      → AreOrdered args
      → Good (λ r _. AreOrdered r.1) (call_arguments compiles sub m is_partial args p)
  unfolding call_arguments
  call_arguments-Good zero is_partial args p h = tt
  call_arguments-Good (suc m) is_partial args p h =
      Good-if (λ r _. AreOrdered r.1) (is_kind rparen p.token) _ _ p (λ _. h)
        (λ _.
          Good-if (λ r _. AreOrdered r.1) (is_kind end_of_file p.token) _ _ p (λ _. tt)
            (λ _.
              Good-expression (λ r _. AreOrdered r.1) 0 _ p (omega arith)
                (λ arg q fits.
                  Good-after (λ r _. AreOrdered r.1) (argument_end compiles q) _
                    (λ _ r.
                      call_arguments-Good m _ (snoc args arg) r
                        (snoc-AreOrdered args arg h fits.0)))))

  pub sort_terms-Good :
      (m : ℕ) (terms : Terms) (p : Parser)
      → AreOrderedTerms terms
      → Good TermsBuilt (sort_terms compiles sub m terms p)
  unfolding sort_terms
  sort_terms-Good zero terms p h = tt
  sort_terms-Good (suc m) terms p h =
      Good-if TermsBuilt (is_kind rparen p.token) _ _ p (λ _. h)
        (λ _.
          Good-if TermsBuilt (is_kind end_of_file p.token) _ _ p (λ _. tt)
            (λ _. Good-after TermsBuilt (sort_direction compiles p) _ (λ descending q.
              Good-expression TermsBuilt 0 _ q (omega arith) (λ key r fits.
                Good-after TermsBuilt (separator compiles rparen (λ _. s0202) r) _ (λ _ s.
                  sort_terms-Good m (snoc_term terms descending key) s
                    (snoc_term-AreOrderedTerms terms descending key h fits.0))))))
