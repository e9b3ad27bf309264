-- ===== src/Number/RoundTrip.antt =====
-- `Format` keeps the value: the parts of a formatted token are those of the token.
use jsonata.Base.{
  ℕ, zero, suc, ◌+◌, ◌-◌, ◌≤◌, Bool, true, false, [], ◌∷◌, ◌++◌, none, some, Bytes, length, take,
  drop, replicate, append-nil, ◌≡◌, ◌↔◌, refl, sym, ap, subst, ◌∙◌, arith, leb, take-append-drop,
  Bool-cases, if◌then◌else◌, inl, inr,
}
use Prim.Native.Nat.{Ordering}
use jsonata.Base.Int.{ℤ, pos, negsuc}
use jsonata.Number.Grammar.{valid}
use jsonata.Number.Digits.{AllDigits, parts-AllDigits}
use jsonata.Number.Format.{
  prefix, plain, scientific, mantissa, render, format, is_plain, signed_decimal,
}
use jsonata.Number.Order.{IsNormal, parts-IsNormal, compare_text-eq_iff}
use jsonata.Number.Compare.{compare_text}
use jsonata.Number.Parts.{Parts, parts, is_zero}
use jsonata.Number.Token.{parts_of_token}
use jsonata.Number.Reading.{
  IsCoefficient, with_exponent, parts_small, parts_whole, parts_split, same_exponent, pos_exponent,
  assign_padded,
}

length-drop : (n : ℕ) (s : Bytes) → n ≤ length s → length (drop n s) + n ≡ length s
length-drop zero s h = omega arith
length-drop (suc n) [] h = absurd (omega arith)
length-drop (suc n) (c ∷ s) h = omega (arith, length-drop n s (omega arith))

plain_whole :
    (n : ℕ) (x : ℕ) (t : Bytes)
    → leb (length (x ∷ t)) (suc n) ≡ true
    → plain (pos n) (x ∷ t) ≡ (x ∷ t) ++ replicate (n - length t) b'0'
unfolding plain
plain_whole n x t fits = rw fits (ap (λ (k : ℕ). (x ∷ t) ++ replicate k b'0') (omega arith))

plain_inside :
    (n : ℕ) (x : ℕ) (t : Bytes)
    → leb (length (x ∷ t)) (suc n) ≡ false
    → plain (pos n) (x ∷ t) ≡ (x ∷ take n t) ++ ((b'.' ∷ drop n t) ++ [])
unfolding plain
plain_inside n x t inside = rw (inside, append-nil)

module _ (negative : Bool) (x : ℕ) (t : Bytes) (h : IsCoefficient x t) where
  parts-plain :
      (e : ℤ) → parts (prefix negative ++ plain e (x ∷ t)) ≡ with_exponent negative (x ∷ t) e
  parts-plain (negsuc n) = parts_small negative x t h n
  parts-plain (pos n) = elim (Bool-cases (leb (length (x ∷ t)) (suc n))) [
    | inl fits ↦ rw (plain_whole n x t fits) (
        parts_whole negative x t h (n - length t)
        ∙ ap (λ (k : ℕ). with_exponent negative (x ∷ t) (pos k)) (ground arith))
    | inr inside ↦ rw (plain_inside n x t inside) (
        parts_split negative x t h none (take n t) (drop n t) (take-append-drop n t)
        ∙ ap (with_exponent negative (x ∷ t)) (
            pos_exponent n (length t + 1) (length (drop n t) + 1)
              (ground (arith, length-drop n t))))
  ]

  parts-scientific :
      (e : ℤ) → parts (prefix negative ++ scientific e (x ∷ t)) ≡ with_exponent negative (x ∷ t) e
  unfolding scientific mantissa
  parts-scientific e = scientific_cases t h
    where
      scientific_cases :
          (u : Bytes)
          → IsCoefficient x u
          → parts (prefix negative ++ (mantissa (x ∷ u) ++ b'e' ∷ signed_decimal e))
            ≡ with_exponent negative (x ∷ u) e
      scientific_cases [] k =
          parts_of_token negative x [] none (some e) k.digits tt
          ∙ assign_padded negative x [] k e 0 0 0
          ∙ ap (with_exponent negative (x ∷ [])) (same_exponent e 1)
      scientific_cases (d ∷ u) k =
          parts_split negative x (d ∷ u) k (some e) [] (d ∷ u) refl
          ∙ ap (with_exponent negative (x ∷ d ∷ u)) (same_exponent e (length (d ∷ u) + 1))

  parts_either :
      (e : ℤ)
      → parts (
          if is_plain e
          then prefix negative ++ plain e (x ∷ t)
          else prefix negative ++ scientific e (x ∷ t))
        ≡ with_exponent negative (x ∷ t) e
  parts_either e = elim (Bool-cases (is_plain e)) [
    | inl small ↦ rw small (parts-plain e)
    | inr large ↦ rw large (parts-scientific e)
  ]

parts-render : (p : Parts) → IsNormal p → AllDigits p.coefficient → parts (render p) ≡ p
unfolding render
parts-render p n digits = elim (Bool-cases (is_zero p)) [
  | inl z ↦ rw z (unfold parts in sym (n.zero_unique z))
  | inr z ↦
      let (x, t, shape, first) = n.headed z in
      let h : IsCoefficient x t = record {
        head = first;
        trimmed = rw (← shape) (n.trimmed z);
        digits = subst AllDigits shape digits;
      } in
      rw (z, shape) (parts_either p.negative x t h p.adjusted)
]

-- Formatting a valid token keeps its sign, its coefficient and its exponent.
pub parts-format : (s : Bytes) → valid s ≡ true → parts (format s) ≡ parts s
unfolding format
parts-format s h = parts-render (parts s) (parts-IsNormal s) (parts-AllDigits s h)

-- For valid tokens, two compare equal exactly when they are formatted alike.
pub compare_text-format_iff :
    (a b : Bytes)
    → valid a ≡ true
    → valid b ≡ true
    → (compare_text a b ≡ Ordering.eq) ↔ (format a ≡ format b)
compare_text-format_iff a b va vb = (
  λ e. unfold format in ap render ((compare_text-eq_iff a b).0 e),
  λ e. (compare_text-eq_iff a b).1 (sym (parts-format a va) ∙ ap parts e ∙ parts-format b vb),
)
