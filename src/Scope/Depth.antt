-- ===== src/Scope/Depth.antt =====
-- The nesting counter of `$eval`: `IncrEvalDepth` and `DecrEvalDepth` of
-- go/internal/engine/internal/evaluator/env.go.
use jsonata.Base.{
  ℕ, ◌+◌, ◌-◌, ◌≤◌, Bool, true, false, ltb, ◌==◌, if◌then◌else◌, ◌≡◌, refl, sym, subst, ap, ◌∙◌,
  ◌⊎◌, ==_iff, arith, Bool-cases, inl, inr,
}
use mathlib.Core.Path.{fun_ext}
use jsonata.Scope.Environment.{CallCounter, Counters}

-- A write to one counter.
abbrev pub write : Counters → ℕ → CallCounter → Counters
write s c x i = if c == i then x else s i

-- `IncrEvalDepth` on the counter `c`: the store, and whether the call is let through.
unfoldable pub incr_eval_depth : ℕ → ℕ → Counters → Counters × Bool
incr_eval_depth c max_depth s =
    let deeper = (s c).eval_depth + 1 in
    if ltb max_depth deeper
    then (
      write (write s c (record (s c) { eval_depth = deeper })) c
          (record (s c) { eval_depth = deeper - 1 }),
      false,
    )
    else (write s c (record (s c) { eval_depth = deeper }), true)

-- `DecrEvalDepth`, behind an admission: the source's int goes below 0 where it is called without one, this stops at 0.
unfoldable pub decr_eval_depth : ℕ → Counters → Counters
decr_eval_depth c s = write s c (record (s c) { eval_depth = (s c).eval_depth - 1 })

write_twice :
    (s : Counters) (c : ℕ) (x y : CallCounter) (i : ℕ) → write (write s c x) c y i ≡ write s c y i
write_twice s c x y i = ground arith

write_back : (s : Counters) (c : ℕ) (i : ℕ) → write s c (s c) i ≡ s i
write_back s c i = elim (Bool-cases (c == i)) [
  | inl here ↦ rw here (ap s ((==_iff c i).0 here))
  | inr there ↦ rw there
]

write_at : (s : Counters) (c : ℕ) (x : CallCounter) → write s c x c ≡ x
write_at s c x = ground arith

same_depth : (x : CallCounter) → record x { eval_depth = x.eval_depth + 1 - 1 } ≡ x
same_depth x = ap (λ (n : ℕ). record x { eval_depth = n }) (omega arith)

-- A refused `IncrEvalDepth` leaves every counter as it was; an admitted one keeps the depth within the maximum, and the
-- paired `DecrEvalDepth` then restores every counter.
pub decr-incr_eval_depth :
    (c max_depth : ℕ) (s : Counters)
    → (((incr_eval_depth c max_depth s).1 ≡ false)
        × ((incr_eval_depth c max_depth s).0 ≡ s)
        × (max_depth ≤ (s c).eval_depth))
      ⊎ (((incr_eval_depth c max_depth s).1 ≡ true)
          × (((incr_eval_depth c max_depth s).0 c).eval_depth ≤ max_depth)
          × (decr_eval_depth c (incr_eval_depth c max_depth s).0 ≡ s))
unfolding incr_eval_depth decr_eval_depth
decr-incr_eval_depth c max_depth s = elim (Bool-cases (ltb max_depth ((s c).eval_depth + 1))) [
  | inl refused ↦ rw refused (
      inl (
        refl,
        fun_ext (λ i.
            write_twice s c _ _ i
            ∙ ap (λ (x : CallCounter). write s c x i) (same_depth (s c))
            ∙ write_back s c i),
        ground arith,
      ))
  | inr admitted ↦
      let deeper : CallCounter = record (s c) { eval_depth = (s c).eval_depth + 1 } in
      let bound : (s c).eval_depth + 1 ≤ max_depth = ground arith in
      rw admitted (
        inr (
          refl,
          subst (λ (x : CallCounter). x.eval_depth ≤ max_depth) (sym (write_at s c deeper)) bound,
          fun_ext (λ i.
              write_twice s c deeper _ i
              ∙ ap (λ (x : CallCounter). write s c (record x { eval_depth = x.eval_depth - 1 }) i)
                  (write_at s c deeper)
              ∙ ap (λ (x : CallCounter). write s c x i) (same_depth (s c))
              ∙ write_back s c i),
        ))
]
