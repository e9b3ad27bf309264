-- ===== src/Number/Digits.antt =====
-- The coefficient of a valid token is made of digits.
use jsonata.Base.{
  ℕ, ◌≤◌, Bool, true, [], ◌∷◌, Option, none, some, Bytes, map, ◌≡◌, refl, ap, arith, ◌==◌,
  Bool-cases, inl, inr,
}
use jsonata.Base.Int.{ℤ}
use jsonata.Number.Grammar.{is_digit, skip_digits, exponent_end, fraction_end, integer_end, valid}
use jsonata.Number.Parts.{
  parts, assign, sign_of, cut_at, join_point, written_exponent, to_lower, trim_left, trim_right,
  cons_unless_zero,
}

abbrev pub AllDigits : Bytes → Type 0
AllDigits [] = Unit
AllDigits (c ∷ s) = (b'0' ≤ c) × (c ≤ b'9') × AllDigits s

pub trim_left-AllDigits : (s : Bytes) → AllDigits s → AllDigits (trim_left s)
unfolding trim_left
trim_left-AllDigits [] h = tt
trim_left-AllDigits (c ∷ s) h = ground (arith, trim_left-AllDigits s)

cons_unless_zero-AllDigits :
    (c : ℕ) (s : Bytes) → AllDigits (c ∷ s) → AllDigits (cons_unless_zero c s)
unfolding cons_unless_zero
cons_unless_zero-AllDigits c [] h = ground arith
cons_unless_zero-AllDigits c (d ∷ s) h = h

pub trim_right-AllDigits : (s : Bytes) → AllDigits s → AllDigits (trim_right s)
unfolding trim_right
trim_right-AllDigits [] h = tt
trim_right-AllDigits (c ∷ s) (lo, hi, t) =
    cons_unless_zero-AllDigits c (trim_right s) (lo, hi, trim_right-AllDigits s t)

-- The token before its exponent mark.
before_exponent : Bytes → Bytes
before_exponent s = (cut_at b'e' (map to_lower s)).0

spelled : Bytes → Bytes
spelled s = (join_point (cut_at b'.' (before_exponent s))).0

nothing_before : (s : Bytes) → exponent_end s ≡ true → before_exponent s ≡ []
unfolding exponent_end cut_at before_exponent
nothing_before [] h = refl
nothing_before (c ∷ []) h = cc
nothing_before (c ∷ d ∷ s) h = ground arith

fraction_digits : (s : Bytes) → exponent_end (skip_digits s) ≡ true → AllDigits (before_exponent s)
unfolding skip_digits cut_at before_exponent
fraction_digits [] h = tt
fraction_digits (c ∷ s) h = elim (Bool-cases (is_digit c)) [
  | inl d ↦ ground (arith, fraction_digits s)
  | inr d ↦ ground (arith, nothing_before (c ∷ s))
]

join_head :
    (c : ℕ) (p : Bytes × Option Bytes) → (join_point (c ∷ p.0, p.1)).0 ≡ c ∷ (join_point p).0
unfolding join_point
join_head c (s, none) = refl
join_head c (s, some t) = refl

spelled_digit : (c : ℕ) (s : Bytes) → is_digit c ≡ true → spelled (c ∷ s) ≡ c ∷ spelled s
unfolding spelled before_exponent cut_at
spelled_digit c s d = ground (arith, join_head c (cut_at b'.' (cut_at b'e' (map to_lower s)).0))

digit_then :
    (c : ℕ) (s : Bytes) → is_digit c ≡ true → AllDigits (spelled s) → AllDigits (spelled (c ∷ s))
digit_then c s d h = rw (spelled_digit c s d) (ground arith)

spelled_point : (c : ℕ) (s : Bytes) → (c == b'.') ≡ true → spelled (c ∷ s) ≡ before_exponent s
unfolding spelled before_exponent cut_at join_point
spelled_point c s h = ground arith

spelled_nothing : (s : Bytes) → exponent_end s ≡ true → spelled s ≡ []
unfolding spelled cut_at join_point
spelled_nothing s h = ap (λ t. (join_point (cut_at b'.' t)).0) (nothing_before s h)

spelled_fraction : (s : Bytes) → fraction_end s ≡ true → AllDigits (spelled s)
unfolding fraction_end
spelled_fraction [] h = unfold spelled before_exponent cut_at join_point in tt
spelled_fraction (c ∷ []) h = cc
spelled_fraction (c ∷ d ∷ s) h = elim (Bool-cases (c == b'.')) [
  | inl point ↦
      rw (spelled_point c (d ∷ s) point)
        (fraction_digits (d ∷ s) (unfold skip_digits in ground arith))
  | inr other ↦ rw (spelled_nothing (c ∷ d ∷ s) (ground arith)) tt
]

spelled_digits : (s : Bytes) → fraction_end (skip_digits s) ≡ true → AllDigits (spelled s)
unfolding skip_digits
spelled_digits [] h = spelled_fraction [] h
spelled_digits (c ∷ s) h = elim (Bool-cases (is_digit c)) [
  | inl d ↦ digit_then c s d (spelled_digits s (ground arith))
  | inr d ↦ spelled_fraction (c ∷ s) (ground arith)
]

spelled_integer : (s : Bytes) → integer_end s ≡ true → AllDigits (spelled s)
unfolding integer_end
spelled_integer [] h = cc
spelled_integer (c ∷ s) h = elim (Bool-cases (c == b'0')) [
  | inl z ↦ digit_then c s (ground arith) (spelled_fraction s (ground arith))
  | inr z ↦ digit_then c s (ground arith) (spelled_digits s (ground arith))
]

spelled-valid : (s : Bytes) → valid s ≡ true → AllDigits (spelled (sign_of s).1)
unfolding valid sign_of
spelled-valid [] h = cc
spelled-valid (c ∷ s) h = elim (Bool-cases (c == b'-')) [
  | inl minus ↦ rw minus (spelled_integer s (ground arith))
  | inr other ↦ rw other (spelled_integer (c ∷ s) (ground arith))
]

assign-AllDigits :
    (negative : Bool) (e : ℤ) (s : Bytes) (fraction : ℕ)
    → AllDigits s
    → AllDigits (assign negative e s fraction).coefficient
unfolding assign
assign-AllDigits negative e [] fraction h = omega arith
assign-AllDigits negative e (c ∷ s) fraction h = trim_right-AllDigits (c ∷ s) h

pub parts-AllDigits : (token : Bytes) → valid token ≡ true → AllDigits (parts token).coefficient
unfolding parts
parts-AllDigits token h =
    let (negative, s) = sign_of token in
    let (head, exp) = cut_at b'e' (map to_lower s) in
    let (digits, fraction) = join_point (cut_at b'.' head) in
    assign-AllDigits negative (written_exponent exp) (trim_left digits) fraction
      (trim_left-AllDigits digits (unfold spelled before_exponent in spelled-valid token h))
