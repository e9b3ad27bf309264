-- ===== src/Value/Comparison.antt =====
-- What the comparison operators answer.
use Prim.Native.Nat.{Ordering}
use jsonata.Base.{
  ℕ, Bool, true, false, not, ◌&&◌, [], ◌∷◌, Option, none, some, Bytes, codes, bytes_eq,
  if◌then◌else◌, ◌≡◌, refl, ap, arith,
}
use jsonata.Number.Compare.{flip}
use jsonata.Number.Order.{compare_text-flip}
use jsonata.Value.Data.{Value, numeric_text}
use jsonata.Value.Equality.{is_undefined}
use jsonata.Value.Compare.{
  string_of, Compared, order, failed, compare_bytes, compare_kinds, compare_order, compare_values,
  decide,
}

abbrev pub flipped : Compared Ordering → Compared Ordering
flipped (order o) = order (flip o)
flipped (failed e) = failed e

compare_bytes-flip : (s t : Bytes) → compare_bytes t s ≡ flip (compare_bytes s t)
unfolding compare_bytes
compare_bytes-flip [] [] = refl
compare_bytes-flip [] (d ∷ t) = refl
compare_bytes-flip (c ∷ s) [] = refl
compare_bytes-flip (c ∷ s) (d ∷ t) = ground (arith, compare_bytes-flip s t)

compare_kinds-flip :
    (an bn sa sb : Option Bytes) → compare_kinds bn an sb sa ≡ flipped (compare_kinds an bn sa sb)
unfolding compare_kinds
compare_kinds-flip (some s) (some t) sa sb = ap order (compare_text-flip s t)
compare_kinds-flip (some s) none (some x) (some y) = ap order (compare_bytes-flip x y)
compare_kinds-flip (some s) none (some x) none = refl
compare_kinds-flip (some s) none none (some y) = refl
compare_kinds-flip (some s) none none none = refl
compare_kinds-flip none (some s) (some x) (some y) = ap order (compare_bytes-flip x y)
compare_kinds-flip none (some s) (some x) none = refl
compare_kinds-flip none (some s) none (some y) = refl
compare_kinds-flip none (some s) none none = refl
compare_kinds-flip none none (some x) (some y) = ap order (compare_bytes-flip x y)
compare_kinds-flip none none (some x) none = refl
compare_kinds-flip none none none (some y) = refl
compare_kinds-flip none none none none = refl

-- Swapping the operands of `compareOrder` turns the order round, and keeps the error if there is one.
pub compare_order-flip :
    (format_float : ℕ → Bytes) (a b : Value)
    → compare_order format_float b a ≡ flipped (compare_order format_float a b)
unfolding compare_order
compare_order-flip format_float a b =
    either (is_undefined a) (is_undefined b) (numeric_text format_float a)
      (numeric_text format_float b) (string_of a) (string_of b)
  where
    either :
        (x y : Bool) (an bn sa sb : Option Bytes)
        → (if y && x
            then order Ordering.eq
            else if y
            then order Ordering.gt
            else if x
            then order Ordering.lt
            else compare_kinds bn an sb sa)
          ≡ flipped (
              if x && y
              then order Ordering.eq
              else if x
              then order Ordering.gt
              else if y
              then order Ordering.lt
              else compare_kinds an bn sa sb)
    either true true an bn sa sb = refl
    either true false an bn sa sb = refl
    either false true an bn sa sb = refl
    either false false an bn sa sb = compare_kinds-flip an bn sa sb

abbrev pub negated : Compared (Option Bool) → Compared (Option Bool)
negated (order (some b)) = order (some (not b))
negated r = r

-- On any operands, `>=` answers the opposite of `<`, and `>` that of `<=`: both give an answer, both are undefined, or
-- both fail with one error.
pub compare_values-negated :
    (format_float : ℕ → Bytes) (a b : Value)
    → (compare_values format_float a b (codes ">=")
        ≡ negated (compare_values format_float a b (codes "<")))
      × (compare_values format_float a b (codes ">")
          ≡ negated (compare_values format_float a b (codes "<=")))
unfolding compare_values decide bytes_eq
compare_values-negated format_float a b = (ground arith, ground arith)
