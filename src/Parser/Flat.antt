-- ===== src/Parser/Flat.antt =====
-- The trees that `ProcessAST` of go/internal/engine/internal/parser/process.go gets and those that it makes.
use jsonata.Base.{true, false, codes, bytes_eq, ◌≡◌}
use jsonata.Parser.Node.{
  Node, node, Shape, Branch, absent, branch, Nodes, nil, cons, Terms, end, term, Group, no_group,
  group, shape_of, string, negation, array, object, block, condition, bind, binary, function,
  partial, lambda, transform, sort, path,
}
use jsonata.Parser.Process.{any_keeps_array}

-- A tree with no path in it, such as the parser makes.
unfoldable mutual
  pub NoPath : Node → Type 0
  NoPath (node pos marks g (negation n)) = NoPath n × NoPathGroup g
  NoPath (node pos marks g (array ns)) = NoPaths ns × NoPathGroup g
  NoPath (node pos marks g (object ns)) = NoPaths ns × NoPathGroup g
  NoPath (node pos marks g (block ns)) = NoPaths ns × NoPathGroup g
  NoPath (node pos marks g (condition c t e)) = NoPath c × NoPath t × NoPathBranch e × NoPathGroup g
  NoPath (node pos marks g (bind l r)) = NoPath l × NoPath r × NoPathGroup g
  NoPath (node pos marks g (binary op l r)) = NoPath l × NoPath r × NoPathGroup g
  NoPath (node pos marks g (function v f args)) = NoPath f × NoPaths args × NoPathGroup g
  NoPath (node pos marks g (partial v f args)) = NoPath f × NoPaths args × NoPathGroup g
  NoPath (node pos marks g (lambda params signed text body)) = NoPath body × NoPathGroup g
  NoPath (node pos marks g (transform p u d)) = NoPath p × NoPath u × NoPathBranch d × NoPathGroup g
  NoPath (node pos marks g (sort l terms)) = NoPath l × NoPathTerms terms × NoPathGroup g
  NoPath (node pos marks g (path keeps steps)) = ⊥
  NoPath (node pos marks g shape) = NoPathGroup g

  pub NoPaths : Nodes → Type 0
  NoPaths nil = Unit
  NoPaths (cons n ns) = NoPath n × NoPaths ns

  pub NoPathBranch : Branch → Type 0
  NoPathBranch absent = Unit
  NoPathBranch (branch n) = NoPath n

  pub NoPathTerms : Terms → Type 0
  NoPathTerms end = Unit
  NoPathTerms (term d n ts) = NoPath n × NoPathTerms ts

  pub NoPathGroup : Group → Type 0
  NoPathGroup no_group = Unit
  NoPathGroup (group pos pairs) = NoPaths pairs

abbrev pub IsStepShape : Shape → Type 0
IsStepShape (string v) = ⊥
IsStepShape (path keeps steps) = ⊥
IsStepShape shape = Unit

-- A tree in which every call in tail position is marked: the tree itself, or the branches of a condition, the last
-- expression of a block or the right side of a binding, and what stands in tail position there.
unfoldable mutual
  pub IsTailMarked : Node → Type 0
  IsTailMarked (node pos marks g (function v f args)) = marks.thunk ≡ true
  IsTailMarked (node pos marks g (condition c t e)) = IsTailMarked t × IsTailMarkedBranch e
  IsTailMarked (node pos marks g (block ns)) = IsLastMarked ns
  IsTailMarked (node pos marks g (bind l r)) = IsTailMarked r
  IsTailMarked (node pos marks g shape) = Unit

  pub IsTailMarkedBranch : Branch → Type 0
  IsTailMarkedBranch absent = Unit
  IsTailMarkedBranch (branch n) = IsTailMarked n

  pub IsLastMarked : Nodes → Type 0
  IsLastMarked nil = Unit
  IsLastMarked (cons n nil) = IsTailMarked n
  IsLastMarked (cons n (cons m ns)) = IsLastMarked (cons m ns)

-- A tree with no dot, in which the steps of a path are neither paths nor texts, a path that has a step with `KeepArray`
-- has `KeepSingletonArray`, and the calls in tail position of the body of a lambda are marked. Nothing is said of the
-- group of a node other than a leaf or a path.
unfoldable mutual
  pub IsFlat : Node → Type 0
  IsFlat (node pos marks g (negation n)) = IsFlat n
  IsFlat (node pos marks g (array ns)) = AreFlat ns
  IsFlat (node pos marks g (object ns)) = AreFlat ns
  IsFlat (node pos marks g (block ns)) = AreFlat ns
  IsFlat (node pos marks g (condition c t e)) = IsFlat c × IsFlat t × IsFlatBranch e
  IsFlat (node pos marks g (bind l r)) = IsFlat l × IsFlat r
  IsFlat (node pos marks g (binary op l r)) =
      (bytes_eq op (codes ".") ≡ false) × IsFlat l × IsFlat r
  IsFlat (node pos marks g (function v f args)) = IsFlat f × AreFlat args
  IsFlat (node pos marks g (partial v f args)) = IsFlat f × AreFlat args
  IsFlat (node pos marks g (lambda params signed text body)) = IsFlat body × IsTailMarked body
  IsFlat (node pos marks g (transform p u d)) = IsFlat p × IsFlat u × IsFlatBranch d
  IsFlat (node pos marks g (sort l terms)) = IsFlat l × AreFlatTerms terms
  IsFlat (node pos marks g (path keeps steps)) =
      AreSteps steps × (any_keeps_array steps ≡ true → keeps ≡ true) × IsFlatGroup g
  IsFlat (node pos marks g shape) = IsFlatGroup g

  pub AreFlat : Nodes → Type 0
  AreFlat nil = Unit
  AreFlat (cons n ns) = IsFlat n × AreFlat ns

  pub AreSteps : Nodes → Type 0
  AreSteps nil = Unit
  AreSteps (cons n ns) = IsFlat n × IsStepShape (shape_of n) × AreSteps ns

  pub IsFlatBranch : Branch → Type 0
  IsFlatBranch absent = Unit
  IsFlatBranch (branch n) = IsFlat n

  pub AreFlatTerms : Terms → Type 0
  AreFlatTerms end = Unit
  AreFlatTerms (term d n ts) = IsFlat n × AreFlatTerms ts

  pub IsFlatGroup : Group → Type 0
  IsFlatGroup no_group = Unit
  IsFlatGroup (group pos pairs) = AreFlat pairs
