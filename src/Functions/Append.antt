-- ===== src/Functions/Append.antt =====
-- `$append` is associative.
use jsonata.Base.{◌+◌, ◌≤◌, ◌≡◌, refl, ap, arith}
use jsonata.Value.Data.{Value, Values, nil, cons, append, count}
use jsonata.Functions.Arrays.{Returned, returns, raises, wrap_array, append_values, max_append_size}

append_assoc : (xs ys zs : Values) → append (append xs ys) zs ≡ append xs (append ys zs)
append_assoc nil ys zs = refl
append_assoc (cons x xs) ys zs = ap (cons x) (append_assoc xs ys zs)

count-append : (xs ys : Values) → count (append xs ys) ≡ count xs + count ys
count-append nil ys = omega arith
count-append (cons x xs) ys = omega (arith, count-append xs ys)

-- A second call on what the first one returns.
abbrev pub and_then : Returned Value → (Value → Returned Value) → Returned Value
and_then (returns v) next = next v
and_then (raises e) next = raises e

-- Appending three values gives the same from the left and from the right, if together they have at most ten million
-- elements.
pub append_values_assoc :
    (a b c : Value)
    → count (wrap_array a) + count (wrap_array b) + count (wrap_array c) ≤ max_append_size
    → and_then (append_values a b) (λ x. append_values x c)
      ≡ and_then (append_values b c) (λ x. append_values a x)
unfolding append_values wrap_array
append_values_assoc a b c h = ground (
  arith,
  append_assoc (wrap_array a) (wrap_array b) (wrap_array c),
  count-append (wrap_array a) (wrap_array b),
  count-append (wrap_array b) (wrap_array c),
)
