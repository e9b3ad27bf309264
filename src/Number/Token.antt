-- ===== src/Number/Token.antt =====
-- How `parts` reads a token put together from its digits, its fraction and its exponent.
use jsonata.Base.{
  ℕ, ◌≤◌, Bool, true, false, [], ◌∷◌, ◌++◌, Option, none, some, Bytes, map, length, append-nil, ◌≡◌,
  refl, ◌⊎◌, arith, ◌==◌,
}
use mathlib.Core.Option
use jsonata.Base.Int.{ℤ, pos}
use jsonata.Number.Digits.{AllDigits}
use jsonata.Number.Decimal.{
  map_lower-append, map_lower-signed_decimal, written_exponent-signed_decimal,
}
use jsonata.Number.Format.{prefix, signed_decimal}
use jsonata.Number.Parts.{
  parts, assign, sign_of, cut_at, join_point, written_exponent, to_lower, trim_left,
}

-- A fraction with its point, and an exponent with its mark.
abbrev pub pointed : Option Bytes → Bytes
pointed none = []
pointed (some f) = b'.' ∷ f

abbrev pub marked : Option ℤ → Bytes
marked none = []
marked (some e) = b'e' ∷ signed_decimal e

abbrev pub FractionDigits : Option Bytes → Type 0
FractionDigits none = Unit
FractionDigits (some f) = AllDigits f

abbrev pub exponent_or_zero : Option ℤ → ℤ
exponent_or_zero none = pos 0
exponent_or_zero (some e) = e

abbrev pub fraction_or_nil : Option Bytes → Bytes
fraction_or_nil none = []
fraction_or_nil (some f) = f

-- The first byte of the separators is no digit, so a run of digits passes.
cut_at-digits :
    (sep : ℕ) (s t : Bytes)
    → AllDigits s
    → (sep ≤ 47) ⊎ (58 ≤ sep)
    → cut_at sep (s ++ t) ≡ (s ++ (cut_at sep t).0, (cut_at sep t).1)
unfolding cut_at
cut_at-digits sep [] t h k = refl
cut_at-digits sep (c ∷ s) t h k = ground (arith, cut_at-digits sep s t)

prefix-sign_of :
    (negative : Bool) (c : ℕ) (s : Bytes)
    → (c == b'-') ≡ false
    → sign_of (prefix negative ++ c ∷ s) ≡ (negative, c ∷ s)
unfolding sign_of prefix
prefix-sign_of true c s h = refl
prefix-sign_of false c s h = rw h

cut_exponent :
    (x : Option ℤ) → cut_at b'e' (map to_lower (marked x)) ≡ ([], Option.map signed_decimal x)
unfolding cut_at
cut_exponent none = refl
cut_exponent (some e) = rw (map_lower-signed_decimal e)

cut_fraction :
    (f : Option Bytes) (x : Option ℤ)
    → FractionDigits f
    → cut_at b'e' (map to_lower (pointed f ++ marked x)) ≡ (pointed f, Option.map signed_decimal x)
unfolding cut_at
cut_fraction none x h = cut_exponent x
cut_fraction (some f) x h = rw (
  map_lower-append f (marked x) h,
  cut_at-digits b'e' f _ h (omega arith),
  cut_exponent x,
  append-nil,
)

join_fraction :
    (w : Bytes) (f : Option Bytes)
    → AllDigits w
    → join_point (cut_at b'.' (w ++ pointed f))
      ≡ (w ++ fraction_or_nil f, length (fraction_or_nil f))
unfolding join_point cut_at
join_fraction w none h = rw (cut_at-digits b'.' w [] h (omega arith), append-nil)
join_fraction w (some f) h = rw (cut_at-digits b'.' w (b'.' ∷ f) h (omega arith), append-nil)

read_exponent : (x : Option ℤ) → written_exponent (Option.map signed_decimal x) ≡ exponent_or_zero x
read_exponent none = unfold written_exponent in refl
read_exponent (some e) = written_exponent-signed_decimal e

cut_whole :
    (w : Bytes) (f : Option Bytes) (x : Option ℤ)
    → AllDigits w
    → FractionDigits f
    → cut_at b'e' (map to_lower (w ++ (pointed f ++ marked x)))
      ≡ (w ++ pointed f, Option.map signed_decimal x)
cut_whole w f x hw hf = rw (
  map_lower-append w (pointed f ++ marked x) hw,
  cut_at-digits b'e' w (map to_lower (pointed f ++ marked x)) hw (omega arith),
  cut_fraction f x hf,
)

-- The parts of such a token.
pub parts_of_token :
    (negative : Bool) (d : ℕ) (w : Bytes) (f : Option Bytes) (x : Option ℤ)
    → AllDigits (d ∷ w)
    → FractionDigits f
    → parts (prefix negative ++ ((d ∷ w) ++ (pointed f ++ marked x)))
      ≡ assign negative
          (exponent_or_zero x)
          (trim_left ((d ∷ w) ++ fraction_or_nil f))
          (length (fraction_or_nil f))
unfolding parts
parts_of_token negative d w f x hw hf = rw (
  prefix-sign_of negative d (w ++ (pointed f ++ marked x)) (ground arith),
  cut_whole (d ∷ w) f x hw hf,
  join_fraction (d ∷ w) f hw,
  read_exponent x,
)
