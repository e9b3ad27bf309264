-- ===== src/Parser/LedForms.antt =====
-- The forms of `led` of go/internal/engine/internal/parser/parser.go that are no binary operators respect precedence if
-- the parser of expressions does.
use jsonata.Base.{ℕ, ◌<◌, ◌≤◌, Bool, true, false, Bytes, bytes_eq, arith, if◌then◌else◌}
use jsonata.Lexer.Token.{name, variable, lparen, rbracket, colon, Token}
use jsonata.Parser.Node.{Node, Nodes, nil, end, plain_node, value_of, shape_of, function, partial}
use jsonata.Parser.State.{
  Parser, Parse, is_kind, advance, advance_prefix, advance_infix, consume, consume_prefix,
}
use jsonata.Parser.Operators.{binding_power}
use jsonata.Parser.Groups.{
  has_group, parse_function_call, call_arguments, parse_subscript, parse_sort_expr, sort_terms,
  parse_group, object_pairs,
}
use jsonata.Parser.Expression.{
  set_focus, bound_variable, parse_focus, is_predicate, is_sort, is_variable, else_part,
  parse_condition, parse_bind,
}
use jsonata.Parser.Ordered.{IsOrderedBranch, AreOrdered, precedence, power_of, limit_of, IsOrdered}
use jsonata.Parser.Built.{Good-expression, object_pairs-Good, call_arguments-Good, sort_terms-Good}
use jsonata.Parser.Good.{Good, Good-then, Good-after, Good-if, AllBuilt, TermsBuilt, Fitting}
use jsonata.Parser.Prefixes.{Stands, binding_power_le}
use jsonata.Parser.Infixes.{set_focus-Stands, keep_array_of-Stands, set_group-Stands}

module _ (compiles : Bytes → Bytes → Bool) (sub : ℕ → Parse Node) (fitting : Fitting sub) where
  pub parse_function_call-Good :
      (bp fuel : ℕ) (left : Node) (pos : ℕ) (p : Parser)
      → IsOrdered left
      → bp < 80
      → 80 ≤ limit_of left
      → Good (Stands bp) (parse_function_call compiles sub fuel left pos p)
  unfolding parse_function_call IsOrdered
  parse_function_call-Good bp fuel left pos p h lt l =
      Good-after (Stands bp) (advance_prefix compiles p) _ (λ _ q.
        Good-then (λ r _. AreOrdered r.1) (Stands bp) (call_arguments compiles sub fuel false nil q)
          _ (call_arguments-Good compiles sub fitting fuel false nil q tt)
          (λ r s hs.
            Good-after (Stands bp) (advance_infix compiles s) _ (λ _ t. of_test r.0 r.1 t hs)))
    where
      of_test :
          (b : Bool) (args : Nodes) (t : Parser)
          → AreOrdered args
          → Stands bp
              (plain_node pos (
                if b
                then partial (value_of left) left args
                else function (value_of left) left args))
              t
      of_test true args t hs = (((h, l, hs), tt), lt, omega (arith, binding_power_le t.token.kind))
      of_test false args t hs = (((h, l, hs), tt), lt, omega (arith, binding_power_le t.token.kind))

  pub parse_subscript-Good :
      (bp : ℕ) (left : Node) (pos : ℕ) (p : Parser)
      → IsOrdered left
      → bp < power_of left
      → bp < 80
      → 80 ≤ limit_of left
      → Good (Stands bp) (parse_subscript compiles sub left pos p)
  unfolding parse_subscript IsOrdered precedence bytes_eq
  parse_subscript-Good bp left pos p h k lt l =
      Good-if (Stands bp) (has_group left) _ _ p (λ _. tt)
        (λ _. Good-after (Stands bp) (advance_prefix compiles p) _ (λ _ q.
          Good-if (Stands bp) (is_kind rbracket q.token) _ _ q
            (λ _.
              Good-after (Stands bp) (advance_infix compiles q) _
                (λ _ r. keep_array_of-Stands bp left r h k (omega arith)))
            (λ _.
              Good-expression compiles sub fitting (Stands bp) 0 _ q (omega arith) (λ index r fits.
                Good-after (Stands bp) (consume compiles rbracket r) _ (λ _ s. (
                  ((h, l, fits.0, fits.1), tt),
                  lt,
                  omega (arith, binding_power_le s.token.kind),
                ))))))

  pub bound_variable-Good :
      (bp : ℕ) (set : Bytes → Node) (p : Parser)
      → ((v : Bytes) (q : Parser) → Stands bp (set v) q)
      → Good (Stands bp) (bound_variable compiles sub set p)
  unfolding bound_variable
  bound_variable-Good bp set p stands = Good-after (Stands bp) (advance compiles p) _ (λ _ q.
      Good-if (Stands bp) (is_kind name q.token) _ _ q (λ _. tt)
        (λ _.
          Good-if (Stands bp) (is_kind variable q.token) _ _ q
            (λ _.
              Good-after (Stands bp) (advance_infix compiles q) _ (λ _ r. stands q.token.value r))
            (λ _. tt)))

  pub parse_focus-Good :
      (bp : ℕ) (left : Node) (p : Parser)
      → IsOrdered left
      → bp < power_of left
      → 75 ≤ limit_of left
      → Good (Stands bp) (parse_focus compiles sub left p)
  unfolding parse_focus
  parse_focus-Good bp left p h k l =
      Good-if (Stands bp) (is_predicate (shape_of left)) _ _ p (λ _. tt)
        (λ _.
          Good-if (Stands bp) (is_sort (shape_of left)) _ _ p (λ _. tt)
            (λ _.
              bound_variable-Good bp (λ v. set_focus v left) p
                (λ v q. set_focus-Stands bp v left q h k l)))

  -- The branch behind a colon, and no operator behind it.
  else_part-Good :
      (p : Parser)
      → binding_power p.token.kind ≤ 0
      → Good
          (λ e q. IsOrderedBranch e × (binding_power q.token.kind ≤ 0))
          (else_part compiles sub p)
  unfolding else_part IsOrdered
  else_part-Good p le =
      Good-if (λ e q. IsOrderedBranch e × (binding_power q.token.kind ≤ 0)) (is_kind colon p.token)
        _ _ p
        (λ _.
          Good-after (λ e q. IsOrderedBranch e × (binding_power q.token.kind ≤ 0))
            (advance_prefix compiles p) _
            (λ _ q.
              Good-expression compiles sub fitting
                (λ e q. IsOrderedBranch e × (binding_power q.token.kind ≤ 0)) 0 _ q (omega arith)
                (λ other r fits. (fits.0, fits.2))))
        (λ _. (tt, le))

  pub parse_condition-Good :
      (bp : ℕ) (left : Node) (pos : ℕ) (p : Parser)
      → IsOrdered left
      → bp < 20
      → 20 ≤ limit_of left
      → Good (Stands bp) (parse_condition compiles sub left pos p)
  unfolding parse_condition IsOrdered
  parse_condition-Good bp left pos p h lt l =
      Good-after (Stands bp) (advance_prefix compiles p) _ (λ _ q.
        Good-expression compiles sub fitting (Stands bp) 0 _ q (omega arith) (λ consequence r fits.
          Good-then (λ e q. IsOrderedBranch e × (binding_power q.token.kind ≤ 0)) (Stands bp)
            (else_part compiles sub r) _ (else_part-Good r fits.2)
            (λ other s k. (((h, l, fits.0, k.0), tt), lt, k.1))))

  pub parse_bind-Good :
      (bp : ℕ) (left : Node) (tok : Token) (p : Parser)
      → IsOrdered left
      → bp < 10
      → 10 ≤ limit_of left
      → Good (Stands bp) (parse_bind compiles sub left tok p)
  unfolding parse_bind IsOrdered
  parse_bind-Good bp left tok p h lt l =
      Good-if (Stands bp) (is_variable (shape_of left)) _ _ p
        (λ _. Good-after (Stands bp) (advance_prefix compiles p) _ (λ _ q.
          Good-expression compiles sub fitting (Stands bp) 9 _ q (omega arith)
            (λ right r fits. (((h, l, fits.0, fits.1), tt), lt, fits.2))))
        (λ _. tt)

  pub parse_sort_expr-Good :
      (bp fuel : ℕ) (left : Node) (pos : ℕ) (p : Parser)
      → IsOrdered left
      → bp < 40
      → 40 ≤ limit_of left
      → Good (Stands bp) (parse_sort_expr compiles sub fuel left pos p)
  unfolding parse_sort_expr IsOrdered
  parse_sort_expr-Good bp fuel left pos p h lt l =
      Good-after (Stands bp) (advance compiles p) _ (λ _ q.
        Good-after (Stands bp) (consume_prefix compiles lparen q) _ (λ _ r.
          Good-then TermsBuilt (Stands bp) (sort_terms compiles sub fuel end r) _
            (sort_terms-Good compiles sub fitting fuel end r tt)
            (λ terms s hs.
              Good-after (Stands bp) (advance_infix compiles s) _
                (λ _ t. (((h, l, hs), tt), lt, omega (arith, binding_power_le t.token.kind))))))

  pub parse_group-Good :
      (bp fuel : ℕ) (left : Node) (pos : ℕ) (p : Parser)
      → IsOrdered left
      → bp < power_of left
      → 70 ≤ limit_of left
      → Good (Stands bp) (parse_group compiles sub fuel left pos p)
  unfolding parse_group IsOrdered
  parse_group-Good bp fuel left pos p h k l =
      Good-if (Stands bp) (has_group left) _ _ p (λ _. tt)
        (λ none_yet. Good-after (Stands bp) (advance compiles p) _ (λ _ q.
          Good-then AllBuilt (Stands bp) (object_pairs compiles sub fuel nil q) _
            (object_pairs-Good compiles sub fitting fuel nil q tt)
            (λ pairs r hs.
              Good-after (Stands bp) (advance_infix compiles r) _
                (λ _ s. set_group-Stands bp pos pairs left s h k l none_yet hs))))
