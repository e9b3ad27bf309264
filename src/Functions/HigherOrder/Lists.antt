-- ===== src/Functions/HigherOrder/Lists.antt =====
-- The higher-order functions of go/internal/engine/functions/hof_funcs.go on callbacks that always answer.
use jsonata.Base.{
  ℕ, ◌+◌, ◌≤◌, Bool, true, false, List, Option, none, some, ltb, if◌then◌else◌, ◌≡◌, refl, sym, ap,
  ◌∙◌, arith,
}
use jsonata.Value.Data.{Value, undefined, Values, nil, cons, append}
use jsonata.Value.Sequence.{plain_flags, collapse_sequence}
use jsonata.Value.Truth.{to_boolean}
use jsonata.Value.Equality.{is_undefined}
use jsonata.Functions.Arrays.{d3050, wrap_array, array_argument}
use jsonata.Functions.HigherOrder.{
  own, Outcome, gives, throws, fill_hof_args, hof_arity, reduce_args, function_arity, map_from,
  filter_from, reduce_from, collapsed, map_over, filter_over, only_one, matched_one, single_match,
  reduce_items, reduce_over,
}

append-nil_values : (xs : Values) → append xs nil ≡ xs
append-nil_values nil = refl
append-nil_values (cons x xs) = ap (cons x) (append-nil_values xs)

append_assoc_values : (xs ys zs : Values) → append (append xs ys) zs ≡ append xs (append ys zs)
append_assoc_values nil ys zs = refl
append_assoc_values (cons x xs) ys zs = ap (cons x) (append_assoc_values xs ys zs)

if_false {ℓ} : {A : Type ℓ} (b : Bool) → b ≡ false → (x y : A) → (if b then x else y) ≡ y
if_false true h x y = cc
if_false false h x y = refl

-- The value in front of the others, if the test holds.
abbrev pub cons_if : Bool → Value → Values → Values
cons_if true v vs = cons v vs
cons_if false v vs = vs

-- What a function answers on the arguments of a callback of arity `n`.
module _ (answer : List Value → Value) (n : ℕ) (from_int : ℕ → Value) (arr : Value) where
  -- The answers on the items that are not undefined.
  unfoldable pub answers : ℕ → Values → Values
  unfolding fill_hof_args
  answers i nil = nil
  answers i (cons x xs) =
      let v = answer (fill_hof_args n x (from_int i) arr) in
      if is_undefined v then answers (i + 1) xs else cons v (answers (i + 1) xs)

  -- The items on which the answer is true.
  unfoldable pub matches : ℕ → Values → Values
  unfolding fill_hof_args to_boolean
  matches i nil = nil
  matches i (cons x xs) =
      cons_if (to_boolean (answer (fill_hof_args n x (from_int i) arr))) x (matches (i + 1) xs)

  -- The fold from the left.
  unfoldable pub folded : ℕ → Value → Values → Value
  unfolding reduce_args
  folded i acc nil = acc
  folded i acc (cons x xs) = folded (i + 1) (answer (reduce_args n acc x (from_int i) arr)) xs

module _ {E S : Type 0} (eval_fn : Value → List Value → Value → S → Outcome Value E S)
    (declared : ℕ → ℕ) (from_int : ℕ → Value) (fn focus : Value) (answer : List Value → Value)
    (answered : (args : List Value) (s : S) → eval_fn fn args focus s ≡ gives (answer args) s) where
  map_from-answers :
      (arr : Value) (i : ℕ) (acc items : Values) (s : S)
      → map_from eval_fn declared from_int fn arr focus i acc items s
        ≡ gives (append acc (answers answer (hof_arity declared fn) from_int arr i items)) s
  unfolding map_from answers
  map_from-answers arr i acc nil s = ap (λ (xs : Values). gives xs s) (sym (append-nil_values acc))
  map_from-answers arr i acc (cons item items) s =
      rw (answered (fill_hof_args (hof_arity declared fn) item (from_int i) arr) s, map_from)
        (of_test
          (is_undefined (answer (fill_hof_args (hof_arity declared fn) item (from_int i) arr)))
          (answer (fill_hof_args (hof_arity declared fn) item (from_int i) arr))
          (λ (a : Values). map_from-answers arr (i + 1) a items s))
    where
      of_test :
          (b : Bool) (v : Value)
          → ((a : Values)
              → map_from eval_fn declared from_int fn arr focus (i + 1) a items s
                ≡ gives
                    (append a (answers answer (hof_arity declared fn) from_int arr (i + 1) items))
                    s)
          → map_from eval_fn declared from_int fn arr focus
              (i + 1)
              (if b then acc else append acc (cons v nil))
              items
              s
            ≡ gives
                (append acc (
                  if b
                  then answers answer (hof_arity declared fn) from_int arr (i + 1) items
                  else cons v (answers answer (hof_arity declared fn) from_int arr (i + 1) items)))
                s
      of_test true v rec = rec acc
      of_test false v rec =
          rec (append acc (cons v nil))
          ∙ ap (λ (xs : Values). gives xs s)
              (append_assoc_values acc (cons v nil)
                (answers answer (hof_arity declared fn) from_int arr (i + 1) items))

  filter_from-matches :
      (arr : Value) (i : ℕ) (acc items : Values) (s : S)
      → filter_from eval_fn declared from_int fn arr focus i acc items s
        ≡ gives (append acc (matches answer (hof_arity declared fn) from_int arr i items)) s
  unfolding filter_from matches
  filter_from-matches arr i acc nil s =
      ap (λ (xs : Values). gives xs s) (sym (append-nil_values acc))
  filter_from-matches arr i acc (cons item items) s =
      rw (answered (fill_hof_args (hof_arity declared fn) item (from_int i) arr) s, filter_from)
        (of_test (to_boolean (answer (fill_hof_args (hof_arity declared fn) item (from_int i) arr)))
          (λ (a : Values). filter_from-matches arr (i + 1) a items s))
    where
      of_test :
          (b : Bool)
          → ((a : Values)
              → filter_from eval_fn declared from_int fn arr focus (i + 1) a items s
                ≡ gives
                    (append a (matches answer (hof_arity declared fn) from_int arr (i + 1) items))
                    s)
          → filter_from eval_fn declared from_int fn arr focus
              (i + 1)
              (if b then append acc (cons item nil) else acc)
              items
              s
            ≡ gives
                (append acc (
                  cons_if b item
                    (matches answer (hof_arity declared fn) from_int arr (i + 1) items)))
                s
      of_test false rec = rec acc
      of_test true rec =
          rec (append acc (cons item nil))
          ∙ ap (λ (xs : Values). gives xs s)
              (append_assoc_values acc (cons item nil)
                (matches answer (hof_arity declared fn) from_int arr (i + 1) items))

  reduce_from-folded :
      (arr : Value) (i : ℕ) (acc : Value) (items : Values) (s : S)
      → reduce_from eval_fn declared from_int fn arr focus i acc items s
        ≡ gives (folded answer (function_arity declared fn) from_int arr i acc items) s
  unfolding reduce_from folded
  reduce_from-folded arr i acc nil s = refl
  reduce_from-folded arr i acc (cons item items) s =
      rw
        (
          answered (reduce_args (function_arity declared fn) acc item (from_int i) arr) s,
          reduce_from,
        )
        (reduce_from-folded arr (i + 1)
          (answer (reduce_args (function_arity declared fn) acc item (from_int i) arr)) items s)

pub map_over-answers :
    {E S : Type 0} (eval_fn : Value → List Value → Value → S → Outcome Value E S) (declared : ℕ → ℕ)
    (from_int : ℕ → Value) (answer : List Value → Value) (j k : ℕ) (v fn focus : Value) (s : S)
    → is_undefined v ≡ false
    → ((args : List Value) (t : S) → eval_fn fn args focus t ≡ gives (answer args) t)
    → (map_over eval_fn declared from_int j k v fn focus s
        ≡ gives
            (collapse_sequence j plain_flags (
              answers answer
                (hof_arity declared fn)
                from_int
                (array_argument k v)
                0
                (wrap_array v)))
            s)
      × (filter_over eval_fn declared from_int j k v fn focus s
          ≡ gives
              (collapse_sequence j plain_flags (
                matches answer
                  (hof_arity declared fn)
                  from_int
                  (array_argument k v)
                  0
                  (wrap_array v)))
              s)
      × (single_match eval_fn declared from_int k v fn focus s
          ≡ only_one
              (matches answer
                (hof_arity declared fn)
                from_int
                (array_argument k v)
                0
                (wrap_array v))
              s)
unfolding map_over filter_over single_match collapsed matched_one
map_over-answers eval_fn declared from_int answer j k v fn focus s present answered = (
  ap (collapsed j) (
      map_from-answers eval_fn declared from_int fn focus answer answered (array_argument k v) 0 nil
        (wrap_array v) s),
  if_false (is_undefined v) present (gives undefined s) (
        collapsed j (
          filter_from eval_fn declared from_int fn (array_argument k v) focus 0 nil (wrap_array v)
            s))
      ∙ ap (collapsed j) (
          filter_from-matches eval_fn declared from_int fn focus answer answered
            (array_argument k v) 0 nil (wrap_array v) s),
  ap matched_one (
      filter_from-matches eval_fn declared from_int fn focus answer answered (array_argument k v) 0
        nil (wrap_array v) s),
)

-- What `$reduce` starts from, and what is left to fold, from which index.
abbrev pub reduced : (ℕ → Value → Values → Value) → Option Value → Values → Value
reduced fold (some init) xs = fold 0 init xs
reduced fold none nil = undefined
reduced fold none (cons x xs) = fold 1 x xs

pub reduce_over-folded :
    {E S : Type 0} (eval_fn : Value → List Value → Value → S → Outcome Value E S) (declared : ℕ → ℕ)
    (from_int : ℕ → Value) (answer : List Value → Value) (k : ℕ) (v fn focus : Value)
    (init : Option Value) (s : S)
    → is_undefined v ≡ false
    → 2 ≤ function_arity declared fn
    → ((args : List Value) (t : S) → eval_fn fn args focus t ≡ gives (answer args) t)
    → reduce_over eval_fn declared from_int k v fn init focus s
      ≡ gives
          (reduced
            (folded answer (function_arity declared fn) from_int (array_argument k v))
            init
            (wrap_array v))
          s
unfolding reduce_over
reduce_over-folded eval_fn declared from_int answer k v fn focus init s present arity answered =
    let enough : ltb (function_arity declared fn) 2 ≡ false = ground arith in
    let items =
      reduce_items eval_fn declared from_int fn (array_argument k v) focus init (wrap_array v) s in
    if_false (is_undefined v) present (gives undefined s)
      (if ltb (function_arity declared fn) 2 then throws (own d3050) s else items)
    ∙ if_false (ltb (function_arity declared fn) 2) enough (throws (own d3050) s) items
    ∙ of_items init (wrap_array v)
  where
    of_items :
        (init : Option Value) (xs : Values)
        → reduce_items eval_fn declared from_int fn (array_argument k v) focus init xs s
          ≡ gives
              (reduced
                (folded answer (function_arity declared fn) from_int (array_argument k v))
                init
                xs)
              s
    of_items (some init) nil = unfold reduce_items folded in refl
    of_items none nil = unfold reduce_items in refl
    of_items (some init) (cons x xs) =
        unfold reduce_items in
        reduce_from-folded eval_fn declared from_int fn focus answer answered (array_argument k v) 0
          init (cons x xs) s
    of_items none (cons x xs) =
        unfold reduce_items in
        reduce_from-folded eval_fn declared from_int fn focus answer answered (array_argument k v) 1
          x xs s
