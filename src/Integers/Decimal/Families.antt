-- ===== src/Integers/Decimal/Families.antt =====
-- Digit families: of go/internal/engine/functions/string_format_integer.go and
-- go/internal/engine/internal/unicodecase/case.go.
use jsonata.Base.{
  ℕ, ◌+◌, ◌<◌, Bool, true, false, not, ◌&&◌, ◌||◌, List, [], ◌∷◌, Option, none, some, all, any, ltb,
  leb, ◌==◌, if◌then◌else◌, ◌≡◌, refl, sym, subst, ◌∙◌, arith, Bool-cases, inl, inr,
}
use jsonata.Number.Grammar.{is_digit}
use jsonata.Integers.Decimal.{
  decimal_zeros, zero_in, digit_zero, is_any_digit, next_family, family_from, picture_family,
}

-- One of the zeros of the table.
abbrev pub IsFamily : ℕ → Type 0
IsFamily z = any (λ (t : ℕ). t == z) decimal_zeros ≡ true

all-any :
    (p : ℕ → Bool) (z : ℕ) (zeros : List ℕ)
    → all p zeros ≡ true
    → any (λ (t : ℕ). t == z) zeros ≡ true
    → p z ≡ true
all-any p z [] h k = cc
all-any p z (t ∷ zeros) h k = elim (Bool-cases (t == z)) [
  | inl same ↦ let e : t ≡ z = ground arith in subst (λ (y : ℕ). p y ≡ true) e (ground arith)
  | inr other ↦ all-any p z zeros (ground arith) (ground arith)
]

large : all (λ (t : ℕ). t == b'0' || ltb 1000 t) decimal_zeros ≡ true
large = refl

pub family_large : (z : ℕ) → IsFamily z → (z == b'0') ≡ false → 1000 < z
family_large z h other =
    let e = all-any (λ (t : ℕ). t == b'0' || ltb 1000 t) z decimal_zeros large h in ground arith

positive : all (ltb 0) decimal_zeros ≡ true
positive = refl

outside :
    (z c : ℕ) (zeros : List ℕ)
    → all (ltb 0) zeros ≡ true
    → zero_in zeros c ≡ 0
    → any (λ (t : ℕ). t == z) zeros ≡ true
    → (leb z c && leb c (z + 9)) ≡ false
unfolding zero_in
outside z c [] h k m = cc
outside z c (t ∷ zeros) h k m = ground (arith, outside z c zeros)

-- What is in no family is not in this one.
pub digit_zero_outside :
    (z c : ℕ) → IsFamily z → digit_zero c ≡ 0 → (leb z c && leb c (z + 9)) ≡ false
unfolding digit_zero
digit_zero_outside z c h k = outside z c decimal_zeros positive k h

zero_in_table :
    (c : ℕ) (zeros : List ℕ)
    → (zero_in zeros c == 0) ≡ false
    → any (λ (t : ℕ). t == zero_in zeros c) zeros ≡ true
unfolding zero_in
zero_in_table c [] h = cc
zero_in_table c (t ∷ zeros) h =
    of_test (leb t c && leb c (t + 9)) h
      (λ (k : (zero_in zeros c == 0) ≡ false). zero_in_table c zeros k)
  where
    of_test :
        (b : Bool)
        → ((if b then t else zero_in zeros c) == 0) ≡ false
        → ((zero_in zeros c == 0) ≡ false → any (λ (y : ℕ). y == zero_in zeros c) zeros ≡ true)
        → any (λ (y : ℕ). y == (if b then t else zero_in zeros c)) (t ∷ zeros) ≡ true
    of_test true h rec = ground arith
    of_test false h rec = let found = rec h in ground arith

digit_zero-IsFamily : (c : ℕ) → (digit_zero c == 0) ≡ false → IsFamily (digit_zero c)
unfolding digit_zero
digit_zero-IsFamily c h = zero_in_table c decimal_zeros h

abbrev some_pair : Bool → ℕ → Option (Bool × ℕ)
some_pair b z = some (b, z)

some_parts : (a b : Bool) (x y : ℕ) → some_pair a x ≡ some_pair b y → (a ≡ b) × (x ≡ y)
some_parts a b x y h = ground arith

-- A round that is no error does what the other loop does.
next_family_same :
    (found f : Bool) (z c w : ℕ)
    → next_family found z c ≡ some (f, w)
    → (f ≡ (found || is_any_digit c))
      × (w ≡ (if is_digit c then b'0' else if digit_zero c == 0 then z else digit_zero c))
unfolding next_family
next_family_same found f z c w h =
    of_tests (is_digit c) (digit_zero c == 0) (found && not (z == b'0'))
      (found && (not (z == digit_zero c) || z == b'0')) h
  where
    of_tests :
        (digit none_found clash mixed : Bool)
        → (if digit
            then (if clash then none else some_pair true b'0')
            else if none_found
            then some_pair found z
            else if mixed
            then none
            else some_pair true (digit_zero c))
          ≡ some_pair f w
        → (f ≡ (found || (digit || not none_found)))
          × (w ≡ (if digit then b'0' else if none_found then z else digit_zero c))
    of_tests true none_found true mixed h = cc
    of_tests true none_found false mixed h = let e = some_parts true f b'0' w h in ground arith
    of_tests false true clash mixed h = let e = some_parts found f z w h in ground arith
    of_tests false false clash true h = cc
    of_tests false false clash false h =
        let e = some_parts true f (digit_zero c) w h in ground arith

next_family-IsFamily :
    (found f : Bool) (z c w : ℕ) → next_family found z c ≡ some_pair f w → IsFamily z → IsFamily w
next_family-IsFamily found f z c w h family =
    let (_, same) = next_family_same found f z c w h in
    subst IsFamily (sym same) (of_tests (is_digit c) (digit_zero c == 0) refl)
  where
    of_tests :
        (digit none_found : Bool)
        → (digit_zero c == 0) ≡ none_found
        → IsFamily (if digit then b'0' else if none_found then z else digit_zero c)
    of_tests true none_found e = refl
    of_tests false true e = family
    of_tests false false e = digit_zero-IsFamily c e

-- Where no families are mixed, both loops find the same one, which is one of the table.
pub family_from-picture_family :
    (found : Bool) (z w : ℕ) (runes : List ℕ)
    → IsFamily z
    → family_from found z runes ≡ some w
    → IsFamily w × ((picture_family found z runes).1 ≡ w)
unfolding family_from picture_family
family_from-picture_family found z w [] h e =
    let same : z ≡ w = ground arith in (subst IsFamily same h, same)
family_from-picture_family found z w (c ∷ runes) h e =
    of_next (next_family found z c) refl e
      (λ (f : Bool) (y : ℕ) (k : IsFamily y) (q : family_from f y runes ≡ some w).
        family_from-picture_family f y w runes k q)
  where
    of_next :
        (r : Option (Bool × ℕ))
        → next_family found z c ≡ r
        → (elim r [ none ↦ none | some (f, y) ↦ family_from f y runes ]) ≡ some w
        → ((f : Bool) (y : ℕ)
            → IsFamily y
            → family_from f y runes ≡ some w
            → IsFamily w × ((picture_family f y runes).1 ≡ w))
        → IsFamily w
          × ((picture_family
                (found || is_any_digit c)
                (if is_digit c then b'0' else if digit_zero c == 0 then z else digit_zero c)
                runes).1
              ≡ w)
    of_next none n e rec = cc
    of_next (some (f, y)) n e rec =
        let (same_found, same_zero) = next_family_same found f z c y n in
        let (family, value) = rec f y (next_family-IsFamily found f z c y n h) e in
        (family, (λ i. (picture_family (sym same_found i) (sym same_zero i) runes).1) ∙ value)

-- A picture with a digit has a family.
pub picture_family_has :
    (has : Bool) (z : ℕ) (runes : List ℕ)
    → (has || any is_any_digit runes) ≡ true
    → (picture_family has z runes).0 ≡ true
unfolding picture_family
picture_family_has has z [] h = ground arith
picture_family_has has z (c ∷ runes) h =
    picture_family_has (has || is_any_digit c)
      (if is_digit c then b'0' else if digit_zero c == 0 then z else digit_zero c) runes
      (or_shift has (is_any_digit c) (any is_any_digit runes) h)
  where
    or_shift : (a b d : Bool) → (a || (b || d)) ≡ true → ((a || b) || d) ≡ true
    or_shift true b d h = refl
    or_shift false b d h = h
