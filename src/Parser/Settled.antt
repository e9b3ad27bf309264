-- ===== src/Parser/Settled.antt =====
-- What `ProcessAST` of go/internal/engine/internal/parser/process.go made, it leaves as it is.
use jsonata.Base.{
  ℕ, Bool, true, false, ◌||◌, Bytes, codes, bytes_eq, if◌then◌else◌, ◌≡◌, refl, sym, ap, ◌∙◌,
}
use jsonata.Parser.Node.{
  Node, node, Branch, absent, branch, Nodes, nil, cons, Terms, end, term, Marks, Group, no_group,
  group, negation, array, object, block, condition, bind, binary, function, partial, lambda,
  transform, sort, path,
}
use jsonata.Parser.TailCalls.{mark_tail, mark_branch, mark_last}
use jsonata.Parser.Process.{
  Pass, single, append_nodes, name_last, any_keeps_array, binary_of, path_of, path_again, pass,
  process_all, process_branch, process_terms, process_group, process,
}
use jsonata.Parser.Flat.{
  IsTailMarked, IsTailMarkedBranch, IsLastMarked, NoPath, IsFlat, AreFlat, AreSteps, IsFlatBranch,
  AreFlatTerms, IsFlatGroup,
}
use jsonata.Parser.Flattening.{process-IsFlat}

binary_of-other :
    (pos : ℕ) (marks : Marks) (g done_group : Group) (op : Bytes) (l r : Pass)
    → bytes_eq op (codes ".") ≡ false
    → (binary_of pos marks g done_group op l r).tree ≡ node pos marks g (binary op l.tree r.tree)
binary_of-other pos marks g done_group op l r e = of_test (bytes_eq op (codes ".")) e
  where
    other : Pass
    other = single (node pos marks g (binary op l.tree r.tree))

    of_test :
        (t : Bool)
        → t ≡ false
        → (if t
            then path_of pos done_group (append_nodes (name_last marks l.steps) r.steps)
            else other).tree
          ≡ other.tree
    of_test true e = cc
    of_test false e = refl

path_again_same :
    (keeps : Bool) (steps : Nodes)
    → (any_keeps_array steps ≡ true → keeps ≡ true)
    → path_again keeps steps ≡ path keeps steps
path_again_same keeps steps h = of_tests keeps (any_keeps_array steps) h
  where
    of_tests : (a b : Bool) → (b ≡ true → a ≡ true) → path (a || b) steps ≡ path a steps
    of_tests true b h = refl
    of_tests false true h = ap (λ t. path t steps) (sym (h refl))
    of_tests false false h = refl

mutual
  unfolding mark_tail IsTailMarked

  -- What is marked, marking leaves as it is.
  marked_same : (n : Node) → IsTailMarked n → mark_tail n ≡ n
  marked_same (node pos marks g (function v f args)) h =
      ap (λ t. node pos (record marks { thunk = t }) g (function v f args)) (sym h)
  marked_same (node pos marks g (condition c t e)) (ht, he) =
      rw (marked_same t ht, marked_branch_same e he) refl
  marked_same (node pos marks g (block ns)) h =
      ap (λ ms. node pos marks g (block ms)) (marked_last_same ns h)
  marked_same (node pos marks g (bind l r)) h = rw (marked_same r h) refl
  marked_same (node pos marks g shape) h = refl

  marked_branch_same : (e : Branch) → IsTailMarkedBranch e → mark_branch e ≡ e
  marked_branch_same absent h = refl
  marked_branch_same (branch n) h = ap branch (marked_same n h)

  marked_last_same : (ns : Nodes) → IsLastMarked ns → mark_last ns ≡ ns
  marked_last_same nil h = refl
  marked_last_same (cons n nil) h = rw (marked_same n h) refl
  marked_last_same (cons n (cons m ns)) h = ap (cons n) (marked_last_same (cons m ns) h)

mutual
  unfolding pass IsFlat

  pass_same : (n : Node) → IsFlat n → (pass n).tree ≡ n
  pass_same (node pos marks g (negation n)) h =
      ap (λ m. node pos marks g (negation m)) (pass_same n h)
  pass_same (node pos marks g (array ns)) h = ap (λ ms. node pos marks g (array ms)) (all_same ns h)
  pass_same (node pos marks g (object ns)) h =
      ap (λ ms. node pos marks g (object ms)) (all_same ns h)
  pass_same (node pos marks g (block ns)) h = ap (λ ms. node pos marks g (block ms)) (all_same ns h)
  pass_same (node pos marks g (condition c t e)) (hc, ht, he) =
      rw (pass_same c hc, pass_same t ht, branch_same e he) refl
  pass_same (node pos marks g (bind l r)) (hl, hr) = rw (pass_same l hl, pass_same r hr) refl
  pass_same (node pos marks g (binary op l r)) (e, hl, hr) =
      binary_of-other pos marks g (process_group g) op (pass l) (pass r) e
      ∙ rw (pass_same l hl, pass_same r hr) refl
  pass_same (node pos marks g (function v f args)) (hf, h) =
      rw (pass_same f hf, all_same args h) refl
  pass_same (node pos marks g (partial v f args)) (hf, h) =
      rw (pass_same f hf, all_same args h) refl
  pass_same (node pos marks g (lambda params signed text body)) (h, e) =
      ap (λ b. node pos marks g (lambda params signed text b))
        (ap mark_tail (pass_same body h) ∙ marked_same body e)
  pass_same (node pos marks g (transform p u d)) (hp, hu, hd) =
      rw (pass_same p hp, pass_same u hu, branch_same d hd) refl
  pass_same (node pos marks g (sort l terms)) (hl, h) = rw (pass_same l hl, terms_same terms h) refl
  pass_same (node pos marks g (path keeps steps)) (hs, hk, hg) =
      rw (steps_same steps hs, group_same g hg, path_again_same keeps steps hk) refl
  pass_same (node pos marks g shape) h = ap (λ k. node pos marks k shape) (group_same g h)

  all_same : (ns : Nodes) → AreFlat ns → process_all ns ≡ ns
  all_same nil h = refl
  all_same (cons n ns) (h, hs) = rw (pass_same n h, all_same ns hs) refl

  steps_same : (ns : Nodes) → AreSteps ns → process_all ns ≡ ns
  steps_same nil h = refl
  steps_same (cons n ns) (h, s, hs) = rw (pass_same n h, steps_same ns hs) refl

  branch_same : (e : Branch) → IsFlatBranch e → process_branch e ≡ e
  branch_same absent h = refl
  branch_same (branch n) h = ap branch (pass_same n h)

  terms_same : (ts : Terms) → AreFlatTerms ts → process_terms ts ≡ ts
  terms_same end h = refl
  terms_same (term d n ts) (h, hs) = rw (pass_same n h, terms_same ts hs) refl

  group_same : (g : Group) → IsFlatGroup g → process_group g ≡ g
  group_same no_group h = refl
  group_same (group pos pairs) h = ap (group pos) (all_same pairs h)

pub process_twice : (n : Node) → NoPath n → process (process n) ≡ process n
unfolding process
process_twice n h = pass_same (process n) (process-IsFlat n h)
