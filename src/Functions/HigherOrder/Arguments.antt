-- ===== src/Functions/HigherOrder/Arguments.antt =====
-- The arguments that the functions of go/internal/engine/functions/hof_funcs.go give to their callbacks.
use jsonata.Base.{ℕ, zero, suc, ◌≤◌, [], ◌∷◌, take, ltb, false, ◌≡◌, refl, ap, sym, ◌∙◌, arith}
use jsonata.Value.Data.{Value}
use jsonata.Functions.HigherOrder.{min_of, fill_hof_args, hof_arity, function_arity, reduce_args}

take-nil : (n : ℕ) → take {A = Value} n [] ≡ []
take-nil zero = refl
take-nil (suc n) = refl

fill_hof_args-min_of :
    (n : ℕ) (x i arr : Value) → fill_hof_args (min_of n 3) x i arr ≡ take n (x ∷ i ∷ arr ∷ [])
unfolding fill_hof_args
fill_hof_args-min_of zero x i arr = refl
fill_hof_args-min_of (suc zero) x i arr = refl
fill_hof_args-min_of (suc (suc zero)) x i arr = refl
fill_hof_args-min_of (suc (suc (suc n))) x i arr =
    let three : min_of (suc (suc (suc n))) 3 ≡ 3 = ground arith in
    ap (λ m. fill_hof_args m x i arr) three ∙ ap (λ r. x ∷ i ∷ arr ∷ r) (sym (take-nil n))

-- The item, its index and the array, as many of them as the function takes.
pub fill_hof_args-hof_arity :
    (declared : ℕ → ℕ) (fn x i arr : Value)
    → fill_hof_args (hof_arity declared fn) x i arr
      ≡ take (function_arity declared fn) (x ∷ i ∷ arr ∷ [])
unfolding hof_arity
fill_hof_args-hof_arity declared fn x i arr =
    fill_hof_args-min_of (function_arity declared fn) x i arr

-- The accumulator, the item, its index and the array, as many of them as the function takes, if that is two at least.
pub reduce_args-take :
    (n : ℕ) (acc x i arr : Value)
    → 2 ≤ n
    → reduce_args n acc x i arr ≡ take n (acc ∷ x ∷ i ∷ arr ∷ [])
unfolding reduce_args
reduce_args-take zero acc x i arr h = absurd (omega arith)
reduce_args-take (suc zero) acc x i arr h = absurd (omega arith)
reduce_args-take (suc (suc zero)) acc x i arr h = refl
reduce_args-take (suc (suc (suc zero))) acc x i arr h = refl
reduce_args-take (suc (suc (suc (suc n)))) acc x i arr h =
    let three : ltb (suc (suc (suc (suc n)))) 3 ≡ false = ground arith in
    let four : ltb (suc (suc (suc (suc n)))) 4 ≡ false = ground arith in
    rw (three, four) (ap (λ r. acc ∷ x ∷ i ∷ arr ∷ r) (sym (take-nil n)))
