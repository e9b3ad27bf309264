-- ===== src/Functions/Arrays.antt =====
-- `$count`, `$append` and `$reverse` of go/internal/engine/functions/array_funcs.go, and `sameValue` and `containsValue`
-- of the evaluator. A list of arguments is Go's `args`.
use jsonata.Base.{
  ℕ, ◌+◌, Bool, false, ◌||◌, List, [], ◌∷◌, none, some, Bytes, ltb, leb, ◌==◌, if◌then◌else◌,
}
use jsonata.Value.Data.{
  Value, undefined, sequence, slice, object, Values, nil, cons, append, array_values, count,
}
use jsonata.Value.Sequence.{new_array}
use jsonata.Value.Equality.{is_undefined, deep_equal}

pub data FunctionError : Type 0 where
  t0410 d3006 d3010 d3050 d3138 d3139 d3141 : FunctionError

pub data Returned {ℓ} (A : Type ℓ) : Type ℓ where
  returns : A → Returned A
  raises : FunctionError → Returned A

unfoldable pub wrap_array : Value → Values
wrap_array v =
    if is_undefined v then nil else (elim (array_values v) [ some xs ↦ xs | none ↦ cons v nil ])

-- `arrayArgument`; `j` is the identity of a new array.
unfoldable pub array_argument : ℕ → Value → Value
unfolding wrap_array
array_argument j v = elim (array_values v) [ some _ ↦ v | none ↦ new_array j (wrap_array v) ]

-- The number that `fnCount` makes a float64.
unfoldable pub fn_count : List Value → Returned ℕ
fn_count [] = returns 0
fn_count (v ∷ []) =
    if is_undefined v
    then returns 0
    else (elim (array_values v) [ some xs ↦ returns (count xs) | none ↦ returns 1 ])
fn_count (v ∷ w ∷ args) = raises t0410

abbrev pub max_append_size : ℕ
max_append_size = 10000000

unfoldable pub append_values : Value → Value → Returned Value
unfolding wrap_array
append_values a b =
    if is_undefined a
    then returns b
    else if is_undefined b
    then returns a
    else if ltb max_append_size (count (wrap_array a) + count (wrap_array b))
    then raises d3010
    else returns (slice (append (wrap_array a) (wrap_array b)))

unfoldable pub fn_append : List Value → Returned Value
unfolding append_values
fn_append (a ∷ b ∷ args) = append_values a b
fn_append _ = raises d3006

-- `slices.Reverse` of `xs`, in front of `acc`.
unfoldable pub reverse_onto : Values → Values → Values
reverse_onto nil acc = acc
reverse_onto (cons x xs) acc = reverse_onto xs (cons x acc)

unfoldable pub reverse_value : ℕ → Value → Value
unfolding wrap_array array_argument reverse_onto
reverse_value j v =
    if is_undefined v
    then undefined
    else if leb (count (wrap_array v)) 1
    then array_argument j v
    else slice (reverse_onto (wrap_array v) nil)

unfoldable pub fn_reverse : ℕ → List Value → Value
unfolding reverse_value
fn_reverse j [] = undefined
fn_reverse j (v ∷ args) = reverse_value j v

-- `sameValue`: lists and maps of the evaluator are compared by identity, all else by `DeepEqual`.
module _ (format_float : ℕ → Bytes) where
  unfoldable pub same_present : Value → Value → Bool
  unfolding deep_equal
  same_present (sequence i f xs) (sequence k g ys) = i == k
  same_present (sequence i f xs) b = false
  same_present (object i e m) (object k d n) = i == k
  same_present (object i e m) b = false
  same_present a b = deep_equal format_float a b

  unfoldable pub same_value : Value → Value → Bool
  unfolding same_present
  same_value a b = if is_undefined a || is_undefined b then false else same_present a b

  -- The loop of `containsValue`.
  unfoldable pub some_same : Values → Value → Bool
  unfolding same_value
  some_same nil v = false
  some_same (cons x xs) v = same_value x v || some_same xs v

  unfoldable pub contains_value : Value → Value → Bool
  unfolding some_same
  contains_value a v =
      if is_undefined a
      then false
      else (elim (array_values a) [ some xs ↦ some_same xs v | none ↦ same_value a v ])
