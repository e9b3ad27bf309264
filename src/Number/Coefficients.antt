-- ===== src/Number/Coefficients.antt =====
-- Lemmas on the coefficients that `parts` makes and `CompareText` compares.
use Prim.Native.Nat.{Ordering}
use jsonata.Base.{ℕ, false, [], ◌∷◌, Bytes, ◌≡◌, ◌≢◌, refl, arith, ◌==◌}
use jsonata.Number.Parts.{trim_left, trim_right, cons_unless_zero}
use jsonata.Number.Compare.{flip, compare_digits}

pub compare_digits-flip : (a b : Bytes) → compare_digits b a ≡ flip (compare_digits a b)
unfolding compare_digits
compare_digits-flip [] [] = refl
compare_digits-flip [] (y ∷ ys) = ground (arith, compare_digits-flip [] ys)
compare_digits-flip (x ∷ xs) [] = ground (arith, compare_digits-flip xs [])
compare_digits-flip (x ∷ xs) (y ∷ ys) = ground (arith, compare_digits-flip xs ys)

pub compare_digits_trans :
    (a b c : Bytes)
    → compare_digits a b ≢ Ordering.gt
    → compare_digits b c ≢ Ordering.gt
    → compare_digits a c ≢ Ordering.gt
unfolding compare_digits
compare_digits_trans [] [] [] p q = p
compare_digits_trans [] [] (z ∷ zs) p q = ground (arith, compare_digits_trans [] [] zs)
compare_digits_trans [] (y ∷ ys) [] p q = ground (arith, compare_digits_trans [] ys [])
compare_digits_trans [] (y ∷ ys) (z ∷ zs) p q = ground (arith, compare_digits_trans [] ys zs)
compare_digits_trans (x ∷ xs) [] [] p q = ground (arith, compare_digits_trans xs [] [])
compare_digits_trans (x ∷ xs) [] (z ∷ zs) p q = ground (arith, compare_digits_trans xs [] zs)
compare_digits_trans (x ∷ xs) (y ∷ ys) [] p q = ground (arith, compare_digits_trans xs ys [])
compare_digits_trans (x ∷ xs) (y ∷ ys) (z ∷ zs) p q = ground (arith, compare_digits_trans xs ys zs)

pub trim_right_head :
    (c : ℕ) (s : Bytes) → (c == b'0') ≡ false → (t : Bytes) × (trim_right (c ∷ s) ≡ c ∷ t)
unfolding trim_right
trim_right_head c s h = elim (trim_right s) as (λ r. (t : Bytes) × (cons_unless_zero c r ≡ c ∷ t)) [
  | [] ↦ ([], rw h)
  | d ∷ r ↦ (d ∷ r, refl)
]

cons_unless_zero-trim :
    (c : ℕ) (r : Bytes)
    → trim_right r ≡ r
    → trim_right (cons_unless_zero c r) ≡ cons_unless_zero c r
unfolding trim_right
cons_unless_zero-trim c [] h = ground arith
cons_unless_zero-trim c (d ∷ r) h = rw h

pub trim_right_twice : (s : Bytes) → trim_right (trim_right s) ≡ trim_right s
unfolding trim_right
trim_right_twice [] = refl
trim_right_twice (c ∷ s) = cons_unless_zero-trim c (trim_right s) (trim_right_twice s)

-- Equal up to zeros at the end is equal once these are gone.
pub trim_right_of_eq :
    (a b : Bytes) → compare_digits a b ≡ Ordering.eq → trim_right a ≡ trim_right b
unfolding compare_digits trim_right
trim_right_of_eq [] [] h = refl
trim_right_of_eq [] (y ∷ ys) h = ground (arith, trim_right_of_eq [] ys)
trim_right_of_eq (x ∷ xs) [] h = ground (arith, trim_right_of_eq xs [])
trim_right_of_eq (x ∷ xs) (y ∷ ys) h = ground (arith, trim_right_of_eq xs ys)

pub compare_digits_refl : (a : Bytes) → compare_digits a a ≡ Ordering.eq
unfolding compare_digits
compare_digits_refl [] = refl
compare_digits_refl (x ∷ xs) = ground (arith, compare_digits_refl xs)

-- What is left of the leading zeros begins with another digit.
pub trim_left_head : (s : Bytes) (c : ℕ) (t : Bytes) → trim_left s ≡ c ∷ t → (c == b'0') ≡ false
unfolding trim_left
trim_left_head [] c t h = cc
trim_left_head (x ∷ s) c t h = ground (arith, trim_left_head s c t)
