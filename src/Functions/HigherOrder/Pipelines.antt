-- ===== src/Functions/HigherOrder/Pipelines.antt =====
-- What `$map`, `$filter`, `$single` and `$reduce` of go/internal/engine/functions/hof_funcs.go give, as operations on the
-- list of the items with their indexes.
use jsonata.Base.{
  ℕ, ◌+◌, ◌≤◌, Bool, true, false, not, List, [], ◌∷◌, Option, none, some, map, take, ◌==◌,
  if◌then◌else◌, ◌≡◌, refl, ap, ◌∙◌, arith,
}
use mathlib.Core.List.{foldl}
use jsonata.Value.Data.{Value, undefined, Values, nil, cons, count}
use jsonata.Value.Sequence.{plain_flags, collapse_sequence}
use jsonata.Value.Truth.{to_boolean}
use jsonata.Value.Equality.{is_undefined}
use jsonata.Functions.Arrays.{d3138, d3139, wrap_array, array_argument}
use jsonata.Functions.HigherOrder.{
  own, Outcome, gives, throws, hof_arity, function_arity, map_over, filter_over, only_one,
  single_match, reduce_over,
}
use jsonata.Functions.HigherOrder.Arguments.{fill_hof_args-hof_arity, reduce_args-take}
use jsonata.Functions.HigherOrder.Lists.{
  cons_if, answers, matches, folded, reduced, map_over-answers, reduce_over-folded,
}

-- The items with their indexes, from `i` on.
abbrev pub indexed : ℕ → Values → List (ℕ × Value)
indexed i nil = []
indexed i (cons x xs) = (i, x) ∷ indexed (i + 1) xs

abbrev pub values : List Value → Values
values [] = nil
values (x ∷ xs) = cons x (values xs)

-- The elements that pass a test.
abbrev pub select : {A : Type 0} → (A → Bool) → List A → List A
select p [] = []
select p (x ∷ xs) = if p x then x ∷ select p xs else select p xs

abbrev pub first : Values → Value
first nil = undefined
first (cons x xs) = x

-- What `answer` says of an item with its index, where the callback takes `n` arguments; and of an accumulator with them.
module _ (answer : List Value → Value) (n : ℕ) (from_int : ℕ → Value) (arr : Value) where
  abbrev pub answer_at : ℕ × Value → Value
  answer_at (i, x) = answer (take n (x ∷ from_int i ∷ arr ∷ []))

  abbrev pub accumulate : Value → ℕ × Value → Value
  accumulate acc (i, x) = answer (take n (acc ∷ x ∷ from_int i ∷ arr ∷ []))

  -- The answers that are not undefined.
  abbrev pub mapped : Values → Values
  mapped xs = values (select (λ v. not (is_undefined v)) (map answer_at (indexed 0 xs)))

  -- The items with a true answer.
  abbrev pub filtered : Values → Values
  filtered xs = values (map (λ p. p.1) (select (λ p. to_boolean (answer_at p)) (indexed 0 xs)))

module _ (answer : List Value → Value) (declared : ℕ → ℕ) (fn : Value) (from_int : ℕ → Value)
    (arr : Value) where
  answers-indexed :
      (i : ℕ) (xs : Values)
      → answers answer (hof_arity declared fn) from_int arr i xs
        ≡ values (
            select
              (λ v. not (is_undefined v))
              (map (answer_at answer (function_arity declared fn) from_int arr) (indexed i xs)))
  unfolding answers
  answers-indexed i nil = refl
  answers-indexed i (cons x xs) =
      rw (fill_hof_args-hof_arity declared fn x (from_int i) arr, answers)
        (of_test (answer (take (function_arity declared fn) (x ∷ from_int i ∷ arr ∷ [])))
          (answers-indexed (i + 1) xs))
    where
      later : List Value
      later =
          select (λ v. not (is_undefined v))
            (map (answer_at answer (function_arity declared fn) from_int arr) (indexed (i + 1) xs))

      rest : Values
      rest = answers answer (hof_arity declared fn) from_int arr (i + 1) xs

      of_test :
          (v : Value)
          → rest ≡ values later
          → (if is_undefined v then rest else cons v rest)
            ≡ values (if not (is_undefined v) then v ∷ later else later)
      of_test v e = by_test (is_undefined v)
        where
          by_test :
              (b : Bool)
              → (if b then rest else cons v rest) ≡ values (if not b then v ∷ later else later)
          by_test true = e
          by_test false = ap (cons v) e

  matches-indexed :
      (i : ℕ) (xs : Values)
      → matches answer (hof_arity declared fn) from_int arr i xs
        ≡ values (
            map
              (λ p. p.1)
              (select
                (λ p. to_boolean (answer_at answer (function_arity declared fn) from_int arr p))
                (indexed i xs)))
  unfolding matches
  matches-indexed i nil = refl
  matches-indexed i (cons x xs) =
      rw (fill_hof_args-hof_arity declared fn x (from_int i) arr, matches)
        (of_test
          (to_boolean (answer (take (function_arity declared fn) (x ∷ from_int i ∷ arr ∷ []))))
          (matches-indexed (i + 1) xs))
    where
      later : List (ℕ × Value)
      later =
          select (λ p. to_boolean (answer_at answer (function_arity declared fn) from_int arr p))
            (indexed (i + 1) xs)

      rest : Values
      rest = matches answer (hof_arity declared fn) from_int arr (i + 1) xs

      of_test :
          (b : Bool)
          → rest ≡ values (map (λ p. p.1) later)
          → cons_if b x rest ≡ values (map (λ p. p.1) (if b then (i, x) ∷ later else later))
      of_test true e = ap (cons x) e
      of_test false e = e

  folded-foldl :
      (i : ℕ) (acc : Value) (xs : Values)
      → 2 ≤ function_arity declared fn
      → folded answer (function_arity declared fn) from_int arr i acc xs
        ≡ foldl (accumulate answer (function_arity declared fn) from_int arr) acc (indexed i xs)
  unfolding folded
  folded-foldl i acc nil h = refl
  folded-foldl i acc (cons x xs) h =
      rw (reduce_args-take (function_arity declared fn) acc x (from_int i) arr h, folded)
        (folded-foldl (i + 1)
          (answer (take (function_arity declared fn) (acc ∷ x ∷ from_int i ∷ arr ∷ []))) xs h)

-- With a callback that always answers and changes nothing, on a value that is not undefined, where the callback gets as
-- many of an item, its index and the array as it takes: `$map` gives the answers that are not undefined and `$filter` the
-- items with a true answer, in order and as a collapsed sequence; `$single` gives the item with a true answer if there is
-- one, and else an error, D3139 for none and D3138 for more than one.
pub map_over-mapped :
    {E S : Type 0} (eval_fn : Value → List Value → Value → S → Outcome Value E S) (declared : ℕ → ℕ)
    (from_int : ℕ → Value) (answer : List Value → Value) (j k : ℕ) (v fn focus : Value) (s : S)
    → is_undefined v ≡ false
    → ((args : List Value) (t : S) → eval_fn fn args focus t ≡ gives (answer args) t)
    → (map_over eval_fn declared from_int j k v fn focus s
        ≡ gives
            (collapse_sequence j plain_flags (
              mapped answer
                (function_arity declared fn)
                from_int
                (array_argument k v)
                (wrap_array v)))
            s)
      × (filter_over eval_fn declared from_int j k v fn focus s
          ≡ gives
              (collapse_sequence j plain_flags (
                filtered answer
                  (function_arity declared fn)
                  from_int
                  (array_argument k v)
                  (wrap_array v)))
              s)
      × (single_match eval_fn declared from_int k v fn focus s ≡ (
          let items =
            filtered answer
              (function_arity declared fn)
              from_int
              (array_argument k v)
              (wrap_array v) in
          if count items == 1
          then gives (first items) s
          else throws (own (if count items == 0 then d3139 else d3138)) s))
map_over-mapped {E = E} {S = S} eval_fn declared from_int answer j k v fn focus s present answered =
    let (maps, filters, singles) =
      map_over-answers eval_fn declared from_int answer j k v fn focus s present answered in
    let matching =
      matches-indexed answer declared fn from_int (array_argument k v) 0 (wrap_array v) in
    (
      maps
          ∙ ap (λ xs. gives (collapse_sequence j plain_flags xs) s)
              (answers-indexed answer declared fn from_int (array_argument k v) 0 (wrap_array v)),
      filters ∙ ap (λ xs. gives (collapse_sequence j plain_flags xs) s) matching,
      singles ∙ ap (λ xs. only_one xs s) matching ∙ of_count _,
    )
  where
    of_count :
        (xs : Values)
        → only_one {E = E} {S = S} xs s ≡ (
            if count xs == 1
            then gives (first xs) s
            else throws (own (if count xs == 0 then d3139 else d3138)) s)
    of_count nil = unfold only_one in refl
    of_count (cons x nil) = unfold only_one in refl
    of_count (cons x (cons y xs)) =
        unfold only_one in
        let one : (count (cons x (cons y xs)) == 1) ≡ false = ground arith in
        let nothing : (count (cons x (cons y xs)) == 0) ≡ false = ground arith in
        rw (one, nothing) refl

-- With a callback that takes two arguments at least, always answers and changes nothing, `$reduce` on a value that is not
-- undefined folds its items from the left, where the callback gets as many of the accumulator, an item, its index and the
-- array as it takes: it starts from the initial value, or else from the first item with the second one at the index 1;
-- without both it gives undefined.
pub reduce_over-foldl :
    {E S : Type 0} (eval_fn : Value → List Value → Value → S → Outcome Value E S) (declared : ℕ → ℕ)
    (from_int : ℕ → Value) (answer : List Value → Value) (k : ℕ) (v fn focus : Value)
    (init : Option Value) (s : S)
    → is_undefined v ≡ false
    → 2 ≤ function_arity declared fn
    → ((args : List Value) (t : S) → eval_fn fn args focus t ≡ gives (answer args) t)
    → reduce_over eval_fn declared from_int k v fn init focus s
      ≡ gives
          (reduced
            (λ i acc xs.
              foldl
                (accumulate answer (function_arity declared fn) from_int (array_argument k v))
                acc
                (indexed i xs))
            init
            (wrap_array v))
          s
reduce_over-foldl eval_fn declared from_int answer k v fn focus init s present arity answered =
    reduce_over-folded eval_fn declared from_int answer k v fn focus init s present arity answered
    ∙ ap (λ r. gives r s) (of_start init (wrap_array v))
  where
    fold : ℕ → Value → Values → Value
    fold i acc xs =
        foldl (accumulate answer (function_arity declared fn) from_int (array_argument k v)) acc
          (indexed i xs)

    of_start :
        (init : Option Value) (xs : Values)
        → reduced (folded answer (function_arity declared fn) from_int (array_argument k v)) init xs
          ≡ reduced fold init xs
    of_start (some acc) xs =
        folded-foldl answer declared fn from_int (array_argument k v) 0 acc xs arity
    of_start none nil = refl
    of_start none (cons x xs) =
        folded-foldl answer declared fn from_int (array_argument k v) 1 x xs arity
