-- ===== src/Parser/Flattening.antt =====
-- What `ProcessAST` of go/internal/engine/internal/parser/process.go makes of a tree.
use jsonata.Base.{Bool, true, false, ◌||◌, Bytes, codes, bytes_eq, if◌then◌else◌, ◌≡◌, refl}
use jsonata.Parser.Node.{
  Node, node, Branch, absent, branch, Nodes, nil, cons, Terms, end, term, Marks, Group, no_group,
  group, shape_of, string, negation, array, object, block, condition, bind, binary, function,
  partial, lambda, transform, sort, path,
}
use jsonata.Parser.TailCalls.{mark_tail, mark_branch, mark_last}
use jsonata.Parser.Process.{
  Pass, single, steps_of, append_nodes, with_names, name_last, keeps_array, keeps_left, any_keeps,
  any_keeps_array, binary_of, path_of, pass, process_all, process_branch, process_terms,
  process_group, process,
}
use jsonata.Parser.Flat.{
  IsTailMarked, IsTailMarkedBranch, IsLastMarked, NoPath, NoPaths, NoPathBranch, NoPathTerms,
  NoPathGroup, IsStepShape, IsFlat, AreFlat, AreSteps, IsFlatBranch, AreFlatTerms, IsFlatGroup,
}

mutual
  unfolding mark_tail IsFlat

  mark_tail-IsFlat : (n : Node) → IsFlat n → IsFlat (mark_tail n)
  mark_tail-IsFlat (node pos marks g (function v f args)) h = h
  mark_tail-IsFlat (node pos marks g (condition c t e)) (hc, ht, he) =
      (hc, mark_tail-IsFlat t ht, mark_branch-IsFlat e he)
  mark_tail-IsFlat (node pos marks g (block ns)) h = mark_last-AreFlat ns h
  mark_tail-IsFlat (node pos marks g (bind l r)) (hl, hr) = (hl, mark_tail-IsFlat r hr)
  mark_tail-IsFlat (node pos marks g shape) h = h

  mark_branch-IsFlat : (e : Branch) → IsFlatBranch e → IsFlatBranch (mark_branch e)
  mark_branch-IsFlat absent h = h
  mark_branch-IsFlat (branch n) h = mark_tail-IsFlat n h

  mark_last-AreFlat : (ns : Nodes) → AreFlat ns → AreFlat (mark_last ns)
  mark_last-AreFlat nil h = h
  mark_last-AreFlat (cons n nil) (h, hs) = (mark_tail-IsFlat n h, hs)
  mark_last-AreFlat (cons n (cons m ns)) (h, hs) = (h, mark_last-AreFlat (cons m ns) hs)

mutual
  unfolding mark_tail IsTailMarked

  mark_tail-IsTailMarked : (n : Node) → IsTailMarked (mark_tail n)
  mark_tail-IsTailMarked (node pos marks g (function v f args)) = refl
  mark_tail-IsTailMarked (node pos marks g (condition c t e)) =
      (mark_tail-IsTailMarked t, mark_branch-IsTailMarked e)
  mark_tail-IsTailMarked (node pos marks g (block ns)) = mark_last-IsLastMarked ns
  mark_tail-IsTailMarked (node pos marks g (bind l r)) = mark_tail-IsTailMarked r
  mark_tail-IsTailMarked (node pos marks g shape) = tt

  mark_branch-IsTailMarked : (e : Branch) → IsTailMarkedBranch (mark_branch e)
  mark_branch-IsTailMarked absent = tt
  mark_branch-IsTailMarked (branch n) = mark_tail-IsTailMarked n

  mark_last-IsLastMarked : (ns : Nodes) → IsLastMarked (mark_last ns)
  mark_last-IsLastMarked nil = tt
  mark_last-IsLastMarked (cons n nil) = mark_tail-IsTailMarked n
  mark_last-IsLastMarked (cons n (cons m nil)) = mark_tail-IsTailMarked m
  mark_last-IsLastMarked (cons n (cons m (cons k ns))) = mark_last-IsLastMarked (cons m (cons k ns))

steps_of-AreSteps : (n : Node) → IsFlat n → AreSteps (steps_of n)
unfolding IsFlat
steps_of-AreSteps (node pos marks g (path keeps steps)) h = h.0
steps_of-AreSteps (node pos marks g (string v)) h = (tt, tt, tt)
steps_of-AreSteps (node pos marks g shape) h = (h, tt, tt)

with_names-IsFlat : (dot : Marks) (n : Node) → IsFlat n → IsFlat (with_names dot n)
unfolding IsFlat
with_names-IsFlat dot (node pos marks g shape) h = h

with_names-IsStepShape :
    (dot : Marks) (n : Node) → IsStepShape (shape_of n) → IsStepShape (shape_of (with_names dot n))
with_names-IsStepShape dot (node pos marks g shape) h = h

name_last-AreSteps : (dot : Marks) (ns : Nodes) → AreSteps ns → AreSteps (name_last dot ns)
unfolding IsFlat
name_last-AreSteps dot nil h = h
name_last-AreSteps dot (cons n nil) (h, s, hs) =
    (with_names-IsFlat dot n h, with_names-IsStepShape dot n s, hs)
name_last-AreSteps dot (cons n (cons m ns)) (h, s, hs) =
    (h, s, name_last-AreSteps dot (cons m ns) hs)

append_nodes-AreSteps : (ns ms : Nodes) → AreSteps ns → AreSteps ms → AreSteps (append_nodes ns ms)
unfolding IsFlat
append_nodes-AreSteps nil ms h k = k
append_nodes-AreSteps (cons n ns) ms (h, s, hs) k = (h, s, append_nodes-AreSteps ns ms hs k)

any_keeps_covers : (ns : Nodes) → any_keeps_array ns ≡ true → any_keeps ns ≡ true
any_keeps_covers nil h = h
any_keeps_covers (cons n ns) h =
    of_tests (keeps_array n) (keeps_left (shape_of n)) h (any_keeps_covers ns)
  where
    of_tests :
        (a b : Bool)
        → (a || any_keeps_array ns) ≡ true
        → (any_keeps_array ns ≡ true → any_keeps ns ≡ true)
        → (a || b || any_keeps ns) ≡ true
    of_tests true b h k = refl
    of_tests false true h k = refl
    of_tests false false h k = k h

-- Both results of a pass.
abbrev IsGood : Pass → Type 0
IsGood r = IsFlat r.tree × AreSteps r.steps

single-IsGood : (n : Node) → IsFlat n → IsGood (single n)
single-IsGood n h = (h, steps_of-AreSteps n h)

binary_of-IsGood :
    (pos : _) (marks : Marks) (g done_group : Group) (op : Bytes) (l r : Pass)
    → IsGood l
    → IsGood r
    → IsFlatGroup done_group
    → IsGood (binary_of pos marks g done_group op l r)
unfolding IsFlat
binary_of-IsGood pos marks g done_group op l r (hl, sl) (hr, sr) hg =
    of_test (bytes_eq op (codes ".")) refl
  where
    steps : Nodes
    steps = append_nodes (name_last marks l.steps) r.steps

    good_steps : AreSteps steps
    good_steps = append_nodes-AreSteps _ _ (name_last-AreSteps marks l.steps sl) sr

    of_test :
        (t : Bool)
        → bytes_eq op (codes ".") ≡ t
        → IsGood (
            if t
            then path_of pos done_group steps
            else single (node pos marks g (binary op l.tree r.tree)))
    of_test true e = ((good_steps, any_keeps_covers steps, hg), good_steps)
    of_test false e = single-IsGood (node pos marks g (binary op l.tree r.tree)) (e, hl, hr)

mutual
  unfolding pass NoPath IsFlat

  pass-IsGood : (n : Node) → NoPath n → IsGood (pass n)
  pass-IsGood (node pos marks g (negation n)) (h, hg) =
      single-IsGood (node pos marks g (negation (pass n).tree)) (pass-IsGood n h).0
  pass-IsGood (node pos marks g (array ns)) (h, hg) =
      single-IsGood (node pos marks g (array (process_all ns))) (process_all-AreFlat ns h)
  pass-IsGood (node pos marks g (object ns)) (h, hg) =
      single-IsGood (node pos marks g (object (process_all ns))) (process_all-AreFlat ns h)
  pass-IsGood (node pos marks g (block ns)) (h, hg) =
      single-IsGood (node pos marks g (block (process_all ns))) (process_all-AreFlat ns h)
  pass-IsGood (node pos marks g (condition c t e)) (hc, ht, he, hg) =
      single-IsGood (node pos marks g (condition (pass c).tree (pass t).tree (process_branch e)))
        ((pass-IsGood c hc).0, (pass-IsGood t ht).0, process_branch-IsFlat e he)
  pass-IsGood (node pos marks g (bind l r)) (hl, hr, hg) =
      single-IsGood (node pos marks g (bind (pass l).tree (pass r).tree))
        ((pass-IsGood l hl).0, (pass-IsGood r hr).0)
  pass-IsGood (node pos marks g (binary op l r)) (hl, hr, hg) =
      binary_of-IsGood pos marks g (process_group g) op (pass l) (pass r) (pass-IsGood l hl)
        (pass-IsGood r hr) (process_group-IsFlat g hg)
  pass-IsGood (node pos marks g (function v f args)) (hf, h, hg) =
      single-IsGood (node pos marks g (function v (pass f).tree (process_all args)))
        ((pass-IsGood f hf).0, process_all-AreFlat args h)
  pass-IsGood (node pos marks g (partial v f args)) (hf, h, hg) =
      single-IsGood (node pos marks g (partial v (pass f).tree (process_all args)))
        ((pass-IsGood f hf).0, process_all-AreFlat args h)
  pass-IsGood (node pos marks g (lambda params signed text body)) (h, hg) =
      single-IsGood (node pos marks g (lambda params signed text (mark_tail (pass body).tree)))
        (mark_tail-IsFlat _ (pass-IsGood body h).0, mark_tail-IsTailMarked (pass body).tree)
  pass-IsGood (node pos marks g (transform p u d)) (hp, hu, hd, hg) =
      single-IsGood (node pos marks g (transform (pass p).tree (pass u).tree (process_branch d)))
        ((pass-IsGood p hp).0, (pass-IsGood u hu).0, process_branch-IsFlat d hd)
  pass-IsGood (node pos marks g (sort l terms)) (hl, h, hg) =
      single-IsGood (node pos marks g (sort (pass l).tree (process_terms terms)))
        ((pass-IsGood l hl).0, process_terms-IsFlat terms h)
  pass-IsGood (node pos marks g (path keeps steps)) h = absurd h
  pass-IsGood (node pos marks g shape) hg =
      single-IsGood (node pos marks (process_group g) shape) (process_group-IsFlat g hg)

  process_all-AreFlat : (ns : Nodes) → NoPaths ns → AreFlat (process_all ns)
  process_all-AreFlat nil h = tt
  process_all-AreFlat (cons n ns) (h, hs) = ((pass-IsGood n h).0, process_all-AreFlat ns hs)

  process_branch-IsFlat : (e : Branch) → NoPathBranch e → IsFlatBranch (process_branch e)
  process_branch-IsFlat absent h = tt
  process_branch-IsFlat (branch n) h = (pass-IsGood n h).0

  process_terms-IsFlat : (ts : Terms) → NoPathTerms ts → AreFlatTerms (process_terms ts)
  process_terms-IsFlat end h = tt
  process_terms-IsFlat (term d n ts) (h, hs) = ((pass-IsGood n h).0, process_terms-IsFlat ts hs)

  process_group-IsFlat : (g : Group) → NoPathGroup g → IsFlatGroup (process_group g)
  process_group-IsFlat no_group h = tt
  process_group-IsFlat (group pos pairs) h = process_all-AreFlat pairs h

pub process-IsFlat : (n : Node) → NoPath n → IsFlat (process n)
unfolding process
process-IsFlat n h = (pass-IsGood n h).0
