-- ===== src/Parser/Ordered.antt =====
-- Trees that respect the precedence of the operators of go/internal/engine/internal/parser/parser.go: what the table of
-- binding powers promises of the trees that `Parse` makes.
use jsonata.Base.{ℕ, ◌<◌, ◌≤◌, Bytes, codes, bytes_eq, if◌then◌else◌}
use jsonata.Parser.Node.{
  Node, node, Shape, Branch, absent, branch, Nodes, nil, cons, Terms, end, term, Group, no_group,
  group, negation, array, object, block, condition, bind, binary, function, partial, lambda,
  transform, sort, path,
}

-- An operator binds its operands with its power, and takes only what binds tighter than its right power as its right
-- operand. What ends with a bracket may stand before any operator, which is a right power of 100.
pub record Precedence : Type 0 where
  pub power : ℕ
  pub right_power : ℕ
  pub limit : ℕ

abbrev pub infix_of : ℕ → ℕ → Precedence
infix_of power right = record { power = power; right_power = right; limit = right }

unfoldable pub precedence : Bytes → Precedence
unfolding bytes_eq
precedence op =
    if bytes_eq op (codes "[")
    then record { power = 80; right_power = 0; limit = 100 }
    else if bytes_eq op (codes ".")
    then infix_of 75 74
    else if bytes_eq op (codes "*")
    then infix_of 60 60
    else if bytes_eq op (codes "/")
    then infix_of 60 60
    else if bytes_eq op (codes "%")
    then infix_of 60 60
    else if bytes_eq op (codes "+")
    then infix_of 50 50
    else if bytes_eq op (codes "-")
    then infix_of 50 50
    else if bytes_eq op (codes "&")
    then infix_of 50 50
    else if bytes_eq op (codes "~>")
    then infix_of 45 44
    else if bytes_eq op (codes "=")
    then infix_of 40 40
    else if bytes_eq op (codes "!=")
    then infix_of 40 40
    else if bytes_eq op (codes "<")
    then infix_of 40 40
    else if bytes_eq op (codes ">")
    then infix_of 40 40
    else if bytes_eq op (codes "<=")
    then infix_of 40 40
    else if bytes_eq op (codes ">=")
    then infix_of 40 40
    else if bytes_eq op (codes "in")
    then infix_of 40 40
    else if bytes_eq op (codes "and")
    then infix_of 30 30
    else if bytes_eq op (codes "or")
    then infix_of 25 25
    else infix_of 20 19

-- The power with which the outermost operator of a tree binds.
abbrev pub power_of : Node → ℕ
power_of (node pos marks g (binary op l r)) = (precedence op).power
power_of (node pos marks g (condition c t e)) = 20
power_of (node pos marks g (bind l r)) = 10
power_of (node pos marks g (function v f args)) = 80
power_of (node pos marks g (partial v f args)) = 80
power_of (node pos marks g (sort l terms)) = 40
power_of n = 100

-- What may follow a shape binds no tighter than this.
abbrev pub shape_limit : Shape → ℕ
shape_limit (binary op l r) = (precedence op).limit
shape_limit (condition c t e) = 0
shape_limit (bind l r) = 9
shape_limit (negation n) = 70
shape_limit shape = 100

-- A grouping closes with its brace.
abbrev pub limit_of : Node → ℕ
limit_of (node pos marks no_group shape) = shape_limit shape
limit_of (node pos marks g shape) = 100

-- A tree in which the outermost operator of a right operand binds tighter than the operator takes, and that of a left
-- operand, where no bracket ends it, takes nothing that binds as tightly as the operator; and a group stands behind
-- what binds tighter than a brace.
unfoldable mutual
  pub IsOrdered : Node → Type 0
  IsOrdered (node pos marks g shape) = IsOrderedShape shape × AreGrouped shape g

  pub IsOrderedShape : Shape → Type 0
  IsOrderedShape (negation n) = IsOrdered n × (70 < power_of n)
  IsOrderedShape (array ns) = AreOrdered ns
  IsOrderedShape (object ns) = AreOrdered ns
  IsOrderedShape (block ns) = AreOrdered ns
  IsOrderedShape (condition c t e) =
      IsOrdered c × (20 ≤ limit_of c) × IsOrdered t × IsOrderedBranch e
  IsOrderedShape (bind l r) = IsOrdered l × (10 ≤ limit_of l) × IsOrdered r × (9 < power_of r)
  IsOrderedShape (binary op l r) =
      IsOrdered l
      × ((precedence op).power ≤ limit_of l)
      × IsOrdered r
      × ((precedence op).right_power < power_of r)
  IsOrderedShape (function v f args) = IsOrdered f × (80 ≤ limit_of f) × AreOrdered args
  IsOrderedShape (partial v f args) = IsOrdered f × (80 ≤ limit_of f) × AreOrdered args
  IsOrderedShape (lambda params signed text body) = IsOrdered body
  IsOrderedShape (transform p u d) = IsOrdered p × IsOrdered u × IsOrderedBranch d
  IsOrderedShape (sort l terms) = IsOrdered l × (40 ≤ limit_of l) × AreOrderedTerms terms
  IsOrderedShape (path keeps steps) = ⊥
  IsOrderedShape shape = Unit

  pub AreGrouped : Shape → Group → Type 0
  AreGrouped shape no_group = Unit
  AreGrouped shape (group pos pairs) = (70 ≤ shape_limit shape) × AreOrdered pairs

  pub AreOrdered : Nodes → Type 0
  AreOrdered nil = Unit
  AreOrdered (cons n ns) = IsOrdered n × AreOrdered ns

  pub IsOrderedBranch : Branch → Type 0
  IsOrderedBranch absent = Unit
  IsOrderedBranch (branch n) = IsOrdered n

  pub AreOrderedTerms : Terms → Type 0
  AreOrderedTerms end = Unit
  AreOrderedTerms (term d n ts) = IsOrdered n × AreOrderedTerms ts
