-- ===== src/Parser/TailCalls.antt =====
-- go/internal/engine/internal/parser/tailcall.go: the calls in tail position of the body of a lambda.
use jsonata.Base.{true}
use jsonata.Parser.Node.{
  Node, node, Branch, absent, branch, Nodes, nil, cons, function, condition, block, bind,
}

-- `markTailCalls`: the mark is `Thunk` of a call.
unfoldable mutual
  pub mark_tail : Node → Node
  mark_tail (node pos marks g (function v f args)) =
      node pos (record marks { thunk = true }) g (function v f args)
  mark_tail (node pos marks g (condition c t e)) =
      node pos marks g (condition c (mark_tail t) (mark_branch e))
  mark_tail (node pos marks g (block ns)) = node pos marks g (block (mark_last ns))
  mark_tail (node pos marks g (bind l r)) = node pos marks g (bind l (mark_tail r))
  mark_tail n = n

  pub mark_branch : Branch → Branch
  mark_branch absent = absent
  mark_branch (branch n) = branch (mark_tail n)

  -- The last expression of a block.
  pub mark_last : Nodes → Nodes
  mark_last nil = nil
  mark_last (cons n nil) = cons (mark_tail n) nil
  mark_last (cons n ns) = cons n (mark_last ns)
