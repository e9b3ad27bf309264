-- ===== src/Parser/Compiled.antt =====
-- `Parse` and `ProcessAST` of go/internal/engine/internal/parser/, one behind the other as the engine compiles.
use jsonata.Base.{Bool, Bytes, some, ◌≡◌}
use jsonata.Parser.Node.{
  Node, node, Shape, Branch, absent, branch, Nodes, nil, cons, Terms, end, term, Group, no_group,
  group, negation, array, object, block, condition, bind, binary, function, partial, lambda,
  transform, sort, path,
}
use jsonata.Parser.Expression.{parse, tree_of}
use jsonata.Parser.Process.{process}
use jsonata.Parser.Flat.{NoPath, NoPaths, NoPathBranch, NoPathTerms, NoPathGroup, IsFlat}
use jsonata.Parser.Flattening.{process-IsFlat}
use jsonata.Parser.Settled.{process_twice}
use jsonata.Parser.Ordered.{IsOrdered, AreOrdered, IsOrderedBranch, AreOrderedTerms, AreGrouped}
use jsonata.Parser.Precedence.{parse-IsOrdered}

mutual
  unfolding IsOrdered NoPath

  IsOrdered-NoPath : (n : Node) → IsOrdered n → NoPath n
  IsOrdered-NoPath (node pos marks g (negation n)) (h, hg) =
      (IsOrdered-NoPath n h.0, AreGrouped-NoPath _ g hg)
  IsOrdered-NoPath (node pos marks g (array ns)) (h, hg) =
      (AreOrdered-NoPaths ns h, AreGrouped-NoPath _ g hg)
  IsOrdered-NoPath (node pos marks g (object ns)) (h, hg) =
      (AreOrdered-NoPaths ns h, AreGrouped-NoPath _ g hg)
  IsOrdered-NoPath (node pos marks g (block ns)) (h, hg) =
      (AreOrdered-NoPaths ns h, AreGrouped-NoPath _ g hg)
  IsOrdered-NoPath (node pos marks g (condition c t e)) (h, hg) = (
    IsOrdered-NoPath c h.0,
    IsOrdered-NoPath t h.2,
    IsOrderedBranch-NoPath e h.3,
    AreGrouped-NoPath _ g hg,
  )
  IsOrdered-NoPath (node pos marks g (bind l r)) (h, hg) =
      (IsOrdered-NoPath l h.0, IsOrdered-NoPath r h.2, AreGrouped-NoPath _ g hg)
  IsOrdered-NoPath (node pos marks g (binary op l r)) (h, hg) =
      (IsOrdered-NoPath l h.0, IsOrdered-NoPath r h.2, AreGrouped-NoPath _ g hg)
  IsOrdered-NoPath (node pos marks g (function v f args)) (h, hg) =
      (IsOrdered-NoPath f h.0, AreOrdered-NoPaths args h.2, AreGrouped-NoPath _ g hg)
  IsOrdered-NoPath (node pos marks g (partial v f args)) (h, hg) =
      (IsOrdered-NoPath f h.0, AreOrdered-NoPaths args h.2, AreGrouped-NoPath _ g hg)
  IsOrdered-NoPath (node pos marks g (lambda params signed text body)) (h, hg) =
      (IsOrdered-NoPath body h, AreGrouped-NoPath _ g hg)
  IsOrdered-NoPath (node pos marks g (transform p u d)) (h, hg) = (
    IsOrdered-NoPath p h.0,
    IsOrdered-NoPath u h.1,
    IsOrderedBranch-NoPath d h.2,
    AreGrouped-NoPath _ g hg,
  )
  IsOrdered-NoPath (node pos marks g (sort l terms)) (h, hg) =
      (IsOrdered-NoPath l h.0, AreOrderedTerms-NoPath terms h.2, AreGrouped-NoPath _ g hg)
  IsOrdered-NoPath (node pos marks g (path keeps steps)) (h, hg) = absurd h
  IsOrdered-NoPath (node pos marks g shape) (h, hg) = AreGrouped-NoPath _ g hg

  AreOrdered-NoPaths : (ns : Nodes) → AreOrdered ns → NoPaths ns
  AreOrdered-NoPaths nil h = tt
  AreOrdered-NoPaths (cons n ns) (h, hs) = (IsOrdered-NoPath n h, AreOrdered-NoPaths ns hs)

  IsOrderedBranch-NoPath : (e : Branch) → IsOrderedBranch e → NoPathBranch e
  IsOrderedBranch-NoPath absent h = tt
  IsOrderedBranch-NoPath (branch n) h = IsOrdered-NoPath n h

  AreOrderedTerms-NoPath : (ts : Terms) → AreOrderedTerms ts → NoPathTerms ts
  AreOrderedTerms-NoPath end h = tt
  AreOrderedTerms-NoPath (term d n ts) (h, hs) =
      (IsOrdered-NoPath n h, AreOrderedTerms-NoPath ts hs)

  AreGrouped-NoPath : (shape : Shape) (g : Group) → AreGrouped shape g → NoPathGroup g
  AreGrouped-NoPath shape no_group h = tt
  AreGrouped-NoPath shape (group pos pairs) h = AreOrdered-NoPaths pairs h.1

-- What `Parse` returns for a text, `ProcessAST` turns into a tree with no dot: the steps of its paths are neither paths
-- nor texts, a path that has a step with `KeepArray` has `KeepSingletonArray`, and every call in tail position of the
-- body of a lambda has `Thunk`. Nothing is said of what stands in the group of a node that is neither a leaf nor a path.
pub process-parse-IsFlat :
    (compiles : Bytes → Bytes → Bool) (src : Bytes) (n : Node)
    → tree_of (parse compiles src) ≡ some n
    → IsFlat (process n)
process-parse-IsFlat compiles src n e =
    process-IsFlat n (IsOrdered-NoPath n (parse-IsOrdered compiles src n e))

-- `ProcessAST`, run again on what it made of a tree that `Parse` returned, changes nothing: neither the paths, nor their
-- `KeepSingletonArray`, nor the marks of the calls in tail position.
pub process-parse_twice :
    (compiles : Bytes → Bytes → Bool) (src : Bytes) (n : Node)
    → tree_of (parse compiles src) ≡ some n
    → process (process n) ≡ process n
process-parse_twice compiles src n e =
    process_twice n (IsOrdered-NoPath n (parse-IsOrdered compiles src n e))
