-- ===== src/Parser/Process.antt =====
-- go/internal/engine/internal/parser/process.go, which makes paths out of chains of dots. No case of it fails.
use jsonata.Base.{ℕ, Bool, true, false, ◌||◌, [], Bytes, codes, bytes_eq, if◌then◌else◌}
use jsonata.Parser.Node.{
  Node, node, Shape, Branch, absent, branch, Nodes, nil, cons, Terms, end, term, Marks, no_marks,
  Group, no_group, group, plain_node, shape_of, name, string, negation, array, object, block,
  condition, bind, binary, function, partial, lambda, transform, sort, path,
}
use jsonata.Parser.TailCalls.{mark_tail}

-- A node and what `collectPathSteps` gives for it.
pub record Pass : Type 0 where
  pub tree : Node
  pub steps : Nodes

abbrev pub is_empty : Bytes → Bool
is_empty [] = true
is_empty s = false

abbrev pub keeps_array : Node → Bool
keeps_array (node pos marks g shape) = marks.keep_array

-- The left side of a subscript.
abbrev pub keeps_left : Shape → Bool
keeps_left (binary op l r) = if bytes_eq op (codes "[") then keeps_array l else false
keeps_left shape = false

-- Whether a step has `KeepArray`, or a subscript whose left side has it.
abbrev pub any_keeps : Nodes → Bool
any_keeps nil = false
any_keeps (cons n ns) = keeps_array n || keeps_left (shape_of n) || any_keeps ns

abbrev pub append_nodes : Nodes → Nodes → Nodes
append_nodes nil ms = ms
append_nodes (cons n ns) ms = cons n (append_nodes ns ms)

-- A name unless it is empty.
abbrev pub or_old : Bytes → Bytes → Bytes
or_old [] old = old
or_old s old = s

abbrev pub with_names : Marks → Node → Node
with_names dot (node pos marks g shape) =
    node pos
      (record marks { index = or_old dot.index marks.index; focus = or_old dot.focus marks.focus })
      g shape

-- The names of `#` and `@` go to the last of the steps.
abbrev pub name_last : Marks → Nodes → Nodes
name_last dot nil = nil
name_last dot (cons n nil) = cons (with_names dot n) nil
name_last dot (cons n ns) = cons n (name_last dot ns)

-- The steps of a node that is no dot: those of a path, or itself, where a text is a name.
abbrev pub steps_of : Node → Nodes
steps_of (node pos marks g (path keeps steps)) = steps
steps_of (node pos marks g (string v)) = cons (plain_node pos (name v)) nil
steps_of n = cons n nil

abbrev pub single : Node → Pass
single n = record { tree = n; steps = steps_of n }

-- `processDotBinary`, where `steps` are those of the dot.
abbrev pub path_of : ℕ → Group → Nodes → Pass
path_of pos g steps = record {
  tree = node pos no_marks g (path (any_keeps steps) steps);
  steps = steps;
}

-- A binary node, from its operands; `done_group` is the group when processed.
abbrev pub binary_of : ℕ → Marks → Group → Group → Bytes → Pass → Pass → Pass
binary_of pos marks g done_group op l r =
    if bytes_eq op (codes ".")
    then path_of pos done_group (append_nodes (name_last marks l.steps) r.steps)
    else single (node pos marks g (binary op l.tree r.tree))

abbrev pub any_keeps_array : Nodes → Bool
any_keeps_array nil = false
any_keeps_array (cons n ns) = keeps_array n || any_keeps_array ns

-- `processPathChildren`, from the processed steps.
abbrev pub path_again : Bool → Nodes → Shape
path_again keeps steps = path (keeps || any_keeps_array steps) steps

-- `ProcessAST` and `collectPathSteps`, in one recursion. Only a leaf and a path have their group processed.
unfoldable mutual
  pub pass : Node → Pass
  pass (node pos marks g (negation n)) = single (node pos marks g (negation (pass n).tree))
  pass (node pos marks g (array ns)) = single (node pos marks g (array (process_all ns)))
  pass (node pos marks g (object ns)) = single (node pos marks g (object (process_all ns)))
  pass (node pos marks g (block ns)) = single (node pos marks g (block (process_all ns)))
  pass (node pos marks g (condition c t e)) =
      single (node pos marks g (condition (pass c).tree (pass t).tree (process_branch e)))
  pass (node pos marks g (bind l r)) = single (node pos marks g (bind (pass l).tree (pass r).tree))
  pass (node pos marks g (binary op l r)) =
      binary_of pos marks g (process_group g) op (pass l) (pass r)
  pass (node pos marks g (function v f args)) =
      single (node pos marks g (function v (pass f).tree (process_all args)))
  pass (node pos marks g (partial v f args)) =
      single (node pos marks g (partial v (pass f).tree (process_all args)))
  pass (node pos marks g (lambda params signed text body)) =
      single (node pos marks g (lambda params signed text (mark_tail (pass body).tree)))
  pass (node pos marks g (transform p u d)) =
      single (node pos marks g (transform (pass p).tree (pass u).tree (process_branch d)))
  pass (node pos marks g (sort l terms)) =
      single (node pos marks g (sort (pass l).tree (process_terms terms)))
  pass (node pos marks g (path keeps steps)) =
      single (node pos marks (process_group g) (path_again keeps (process_all steps)))
  pass (node pos marks g shape) = single (node pos marks (process_group g) shape)

  pub process_all : Nodes → Nodes
  process_all nil = nil
  process_all (cons n ns) = cons (pass n).tree (process_all ns)

  pub process_branch : Branch → Branch
  process_branch absent = absent
  process_branch (branch n) = branch (pass n).tree

  pub process_terms : Terms → Terms
  process_terms end = end
  process_terms (term d n ts) = term d (pass n).tree (process_terms ts)

  pub process_group : Group → Group
  process_group no_group = no_group
  process_group (group pos pairs) = group pos (process_all pairs)

-- `ProcessAST`
unfoldable pub process : Node → Node
unfolding pass
process n = (pass n).tree
