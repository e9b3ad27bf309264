-- ===== src/Number/Order.antt =====
-- `CompareText` is a linear preorder on the tokens, and its ties are the tokens with the same parts.
use Prim.Native.Nat.{Ordering}
use jsonata.Base.{
  ℕ, Bool, true, false, ◌&&◌, [], ◌∷◌, Bytes, ◌≡◌, ◌≢◌, ◌↔◌, refl, sym, ap, ◌∙◌, arith, ◌==◌, ◌⊎◌,
  map,
}
use jsonata.Base.Int.{ℤ, eq_of_parts}
use jsonata.Number.Parts.{
  Parts, zero_parts, parts, is_zero, assign, trim_left, trim_right, sign_of, cut_at,
  written_exponent, join_point, to_lower,
}
use jsonata.Number.Compare.{flip, compare_digits, magnitude_order, compare_parts, compare_text}
use jsonata.Number.Coefficients.{
  compare_digits-flip, compare_digits_trans, compare_digits_refl, trim_right_head, trim_right_twice,
  trim_right_of_eq, trim_left_head,
}

-- What `parts` returns: the one zero, or a coefficient with no zero at either end.
pub record IsNormal (p : Parts) : Type 0 where
  pub zero_unique : is_zero p ≡ true → p ≡ zero_parts
  pub headed :
      is_zero p ≡ false → (x : ℕ) × (t : Bytes) × (p.coefficient ≡ x ∷ t) × ((x == b'0') ≡ false)
  pub trimmed : is_zero p ≡ false → trim_right p.coefficient ≡ p.coefficient

is_zero_head :
    (p : Parts) (c : ℕ) (t : Bytes)
    → p.coefficient ≡ c ∷ t
    → (c == b'0') ≡ false
    → is_zero p ≡ false
unfolding is_zero
is_zero_head p c [] shape h = rw (shape, h)
is_zero_head p c (d ∷ t) shape h = rw shape

assign-IsNormal :
    (negative : Bool) (e : ℤ) (s : Bytes) (fraction : ℕ)
    → ((c : ℕ) (t : Bytes) → s ≡ c ∷ t → (c == b'0') ≡ false)
    → IsNormal (assign negative e s fraction)
unfolding assign is_zero
assign-IsNormal negative e [] fraction h = record {
  zero_unique = λ _. refl;
  headed = λ q. absurd (cc);
  trimmed = λ q. cc;
}
assign-IsNormal negative e (c ∷ s) fraction h =
    let (t, shape) = trim_right_head c s (h c s refl) in
    let nonzero = is_zero_head (assign negative e (c ∷ s) fraction) c t shape (h c s refl) in
    record {
      zero_unique = λ q. cc nonzero;
      headed = λ _. (c, t, shape, h c s refl);
      trimmed = λ _. trim_right_twice (c ∷ s);
    }

pub parts-IsNormal : (token : Bytes) → IsNormal (parts token)
unfolding parts
parts-IsNormal token =
    let (negative, s) = sign_of token in
    let (head, exp) = cut_at b'e' (map to_lower s) in
    let (digits, fraction) = join_point (cut_at b'.' head) in
    assign-IsNormal negative (written_exponent exp) (trim_left digits) fraction
      (trim_left_head digits)

magnitude_order-flip :
    (a b : Parts)
    → (is_zero a && is_zero b) ≡ false
    → magnitude_order b a ≡ flip (magnitude_order a b)
unfolding magnitude_order
magnitude_order-flip a b h = ground (arith, compare_digits-flip a.coefficient b.coefficient)

compare_parts-flip : (a b : Parts) → compare_parts b a ≡ flip (compare_parts a b)
unfolding compare_parts
compare_parts-flip a b = ground (arith, magnitude_order-flip a b)

magnitude_order_trans :
    (a b c : Parts)
    → is_zero b ≡ false ⊎ is_zero c ≡ true
    → magnitude_order a b ≢ Ordering.gt
    → magnitude_order b c ≢ Ordering.gt
    → magnitude_order a c ≢ Ordering.gt
unfolding magnitude_order
magnitude_order_trans a b c z p q =
    ground (arith, compare_digits_trans a.coefficient b.coefficient c.coefficient)

zero_negative : (p : Parts) → IsNormal p → is_zero p ≡ true → p.negative ≡ false
zero_negative p n z = ap (λ (q : Parts). q.negative) (n.zero_unique z)

zero_below : (a b : Parts) → is_zero a ≡ true → magnitude_order a b ≡ Ordering.lt
unfolding magnitude_order
zero_below a b z = rw z

above_zero :
    (a b : Parts) → is_zero a ≡ false → is_zero b ≡ true → magnitude_order a b ≡ Ordering.gt
unfolding magnitude_order
above_zero a b y z = rw (y, z)

compare_parts_trans :
    (a b c : Parts)
    → IsNormal a
    → IsNormal b
    → IsNormal c
    → compare_parts a b ≢ Ordering.gt
    → compare_parts b c ≢ Ordering.gt
    → compare_parts a c ≢ Ordering.gt
unfolding compare_parts
compare_parts_trans a b c na nb nc p q = ground (
  arith,
  zero_negative a na,
  zero_negative b nb,
  zero_negative c nc,
  magnitude_order_trans a b c,
  magnitude_order_trans c b a,
  magnitude_order-flip a b,
  magnitude_order-flip b c,
  magnitude_order-flip a c,
  zero_below a c,
  zero_below b c,
  above_zero a b,
  above_zero a c,
  above_zero b c,
)

magnitude_order_eq :
    (a b : Parts)
    → magnitude_order a b ≡ Ordering.eq
    → (is_zero a ≡ false)
      × (is_zero b ≡ false)
      × (a.adjusted ≡ b.adjusted)
      × (compare_digits a.coefficient b.coefficient ≡ Ordering.eq)
unfolding magnitude_order
magnitude_order_eq a b h = ground (arith, eq_of_parts a.adjusted b.adjusted)

magnitude_order_refl : (a : Parts) → is_zero a ≡ false → magnitude_order a a ≡ Ordering.eq
unfolding magnitude_order
magnitude_order_refl a h = ground (arith, compare_digits_refl a.coefficient)

compare_parts_refl : (a : Parts) → compare_parts a a ≡ Ordering.eq
unfolding compare_parts
compare_parts_refl a = ground (arith, magnitude_order_refl a)

flip_eq : (o : Ordering) → flip o ≡ Ordering.eq → o ≡ Ordering.eq
flip_eq o h = ground arith

same_normal :
    (a b : Parts)
    → IsNormal a
    → IsNormal b
    → a.negative ≡ b.negative
    → magnitude_order a b ≡ Ordering.eq
    → a ≡ b
same_normal a b na nb sign h =
    let (za, zb, e, d) = magnitude_order_eq a b h in
    let c = sym (na.trimmed za) ∙ trim_right_of_eq a.coefficient b.coefficient d ∙ nb.trimmed zb in
    λ i. record { negative = sign i; coefficient = c i; adjusted = e i }

compare_parts_eq : (a b : Parts) → IsNormal a → IsNormal b → compare_parts a b ≡ Ordering.eq → a ≡ b
unfolding compare_parts
compare_parts_eq a b na nb h = ground (arith, na.zero_unique, nb.zero_unique, same_normal a b na nb)

-- Swapping the operands turns the order of any two tokens round.
pub compare_text-flip : (a b : Bytes) → compare_text b a ≡ flip (compare_text a b)
unfolding compare_text
compare_text-flip a b = compare_parts-flip (parts a) (parts b)

-- The order of tokens is transitive: if the first is at most the second and the second at most the
-- third, then the first is at most the third.
pub compare_text_trans :
    (a b c : Bytes)
    → compare_text a b ≢ Ordering.gt
    → compare_text b c ≢ Ordering.gt
    → compare_text a c ≢ Ordering.gt
unfolding compare_text
compare_text_trans a b c =
    compare_parts_trans (parts a) (parts b) (parts c) (parts-IsNormal a) (parts-IsNormal b)
      (parts-IsNormal c)

-- Two tokens compare equal exactly when they have the same sign, coefficient and exponent.
pub compare_text-eq_iff : (a b : Bytes) → (compare_text a b ≡ Ordering.eq) ↔ (parts a ≡ parts b)
unfolding compare_text
compare_text-eq_iff a b = (
  compare_parts_eq (parts a) (parts b) (parts-IsNormal a) (parts-IsNormal b),
  λ e. rw e (compare_parts_refl (parts b)),
)
