-- ===== src/Number/Compare.antt =====
-- `CompareText` of go/internal/engine/internal/numeric/value.go. Its result -1, 0 or 1 is `lt`, `eq` or
-- `gt`, and the operands are the `Parts` of the two tokens.
use Prim.Native.Nat.{compare, Ordering}
use jsonata.Base.{ℕ, ◌+◌, Bool, true, false, not, ◌&&◌, [], ◌∷◌, Bytes, ltb, if◌then◌else◌}
use jsonata.Base.Int.{ℤ, pos_part, neg_part}
use jsonata.Number.Parts.{Parts, parts, is_zero}

-- `-order`
abbrev pub flip : Ordering → Ordering
flip Ordering.lt = Ordering.gt
flip Ordering.eq = Ordering.eq
flip Ordering.gt = Ordering.lt

-- One round of the loop: two digits, and the order of what follows.
abbrev pub digit_order : ℕ → ℕ → Ordering → Ordering
digit_order x y rest = if ltb x y then Ordering.lt else if ltb y x then Ordering.gt else rest

-- The loop over the coefficients: a digit past the end counts as 0.
unfoldable pub compare_digits : Bytes → Bytes → Ordering
compare_digits [] [] = Ordering.eq
compare_digits [] (y ∷ ys) = digit_order b'0' y (compare_digits [] ys)
compare_digits (x ∷ xs) [] = digit_order x b'0' (compare_digits xs [])
compare_digits (x ∷ xs) (y ∷ ys) = digit_order x y (compare_digits xs ys)

-- `ae.Cmp(be)`
abbrev pub compare_int : ℤ → ℤ → Ordering
compare_int a b = compare (pos_part a + neg_part b) (pos_part b + neg_part a)

-- The `switch` on the coefficients.
unfoldable pub magnitude_order : Parts → Parts → Ordering
magnitude_order a b =
    if is_zero a
    then Ordering.lt
    else if is_zero b
    then Ordering.gt
    else elim (compare_int a.adjusted b.adjusted) [
      | Ordering.lt ↦ Ordering.lt
      | Ordering.gt ↦ Ordering.gt
      | Ordering.eq ↦ compare_digits a.coefficient b.coefficient
    ]

-- `an != bn`
abbrev pub differ : Bool → Bool → Bool
differ true b = not b
differ false b = b

unfoldable pub compare_parts : Parts → Parts → Ordering
compare_parts a b =
    if is_zero a && is_zero b
    then Ordering.eq
    else if differ a.negative b.negative
    then (if a.negative then Ordering.lt else Ordering.gt)
    else if a.negative
    then flip (magnitude_order a b)
    else magnitude_order a b

unfoldable pub compare_text : Bytes → Bytes → Ordering
compare_text a b = compare_parts (parts a) (parts b)
