-- ===== src/Integers/Words/Ends.antt =====
-- The last word as an ordinal and back, of go/internal/engine/functions/string_format_integer.go.
use jsonata.Base.{
  ℕ, zero, suc, ◌%◌, ◌/◌, ◌<◌, Bool, true, ◌&&◌, ◌||◌, [], ◌∷◌, ◌++◌, Bytes, codes, bytes_eq,
  bytes_eq→eq, ltb, ◌==◌, ◌≡◌, refl, ap, subst, ◌∙◌, arith, Bool-cases, inl, inr, append_assoc,
  all_below, all_below_lem,
}
use jsonata.Integers.Words.{Scale, scale_of, joint, big_words, int_to_words}
use jsonata.Integers.Words.Ordinals.{
  attach, split_last, ordinal_word, apply_ordinal_word, cardinal_word, de_ordinalise,
}
use jsonata.Integers.Words.Scales.{by_scale, scale_of-Divides}
use jsonata.Integers.Words.Reads.{big_words_small, big_words_even, big_words_rest}

split_last-separator :
    (x y : Bytes) (c : ℕ)
    → (c == b' ' || c == b'-') ≡ true
    → split_last (x ++ c ∷ y) ≡ (x ++ c ∷ (split_last y).0, (split_last y).1)
unfolding split_last attach
split_last-separator [] y c h = of_rest (split_last y)
  where
    of_rest : (p : Bytes × Bytes) → attach c p ≡ (c ∷ p.0, p.1)
    of_rest ([], last) = rw h refl
    of_rest (d ∷ prefix, last) = refl
split_last-separator (d ∷ []) y c h = ap (attach d) (split_last-separator [] y c h)
split_last-separator (d ∷ e ∷ x) y c h = ap (attach d) (split_last-separator (e ∷ x) y c h)

module _ (x y : Bytes) (c : ℕ) (h : (c == b' ' || c == b'-') ≡ true) where
  apply_ordinal_word-separator : apply_ordinal_word (x ++ c ∷ y) ≡ x ++ c ∷ apply_ordinal_word y
  unfolding apply_ordinal_word
  apply_ordinal_word-separator =
      ap (λ (p : Bytes × Bytes). p.0 ++ ordinal_word p.1) (split_last-separator x y c h)
      ∙ append_assoc x (c ∷ (split_last y).0) (ordinal_word (split_last y).1)

  de_ordinalise-separator : de_ordinalise (x ++ c ∷ y) ≡ x ++ c ∷ de_ordinalise y
  unfolding de_ordinalise
  de_ordinalise-separator =
      ap (λ (p : Bytes × Bytes). p.0 ++ cardinal_word p.1) (split_last-separator x y c h)
      ∙ append_assoc x (c ∷ (split_last y).0) (cardinal_word (split_last y).1)

-- A cardinal: it is no ordinal, and is had back from its ordinal.
abbrev pub IsCardinal : Bytes → Type 0
IsCardinal s = (de_ordinalise s ≡ s) × (de_ordinalise (apply_ordinal_word s) ≡ s)

IsCardinal-separator :
    (x y : Bytes) (c : ℕ) → (c == b' ' || c == b'-') ≡ true → IsCardinal y → IsCardinal (x ++ c ∷ y)
IsCardinal-separator x y c h (same, back) = (
  de_ordinalise-separator x y c h ∙ ap (λ (t : Bytes). x ++ c ∷ t) same,
  ap de_ordinalise (apply_ordinal_word-separator x y c h)
      ∙ de_ordinalise-separator x (apply_ordinal_word y) c h
      ∙ ap (λ (t : Bytes). x ++ c ∷ t) back,
)

IsCardinal-joint : (head y : Bytes) (r : ℕ) → IsCardinal y → IsCardinal (head ++ (joint r ++ y))
IsCardinal-joint head y r h = elim (Bool-cases (ltb r 100)) [
  | inl low ↦ rw low (
      subst IsCardinal (append_assoc head (codes " and") (b' ' ∷ y))
        (IsCardinal-separator (head ++ codes " and") y b' ' refl h))
  | inr high ↦ rw high (
      subst IsCardinal (append_assoc head (codes ",") (b' ' ∷ y))
        (IsCardinal-separator (head ++ codes ",") y b' ' refl h))
]

cardinal_check : Bytes → Bool
unfolding bytes_eq de_ordinalise apply_ordinal_word
cardinal_check s = bytes_eq (de_ordinalise s) s && bytes_eq (de_ordinalise (apply_ordinal_word s)) s

cardinal_check_lem : (s : Bytes) → cardinal_check s ≡ true → IsCardinal s
unfolding cardinal_check
cardinal_check_lem s h = (
  bytes_eq→eq (de_ordinalise s) s (ground arith),
  bytes_eq→eq (de_ordinalise (apply_ordinal_word s)) s (ground arith),
)

every_small : all_below 1000 (λ n. cardinal_check (int_to_words n)) ≡ true
unfolding all_below cardinal_check int_to_words
every_small = refl

small-IsCardinal : (n : ℕ) → n < 1000 → IsCardinal (int_to_words n)
small-IsCardinal n h =
    cardinal_check_lem (int_to_words n)
      (all_below_lem 1000 (λ (k : ℕ). cardinal_check (int_to_words k)) n every_small h)

scale-IsCardinal : (n : ℕ) → IsCardinal (scale_of n).name
unfolding de_ordinalise apply_ordinal_word
scale-IsCardinal n =
    by_scale (λ (s : Scale). IsCardinal s.name) n (λ _. (refl, refl)) (λ _ _. (refl, refl))
      (λ _ _. (refl, refl)) (λ _. (refl, refl))

pub big_words-IsCardinal : (fuel n : ℕ) → n < fuel → IsCardinal (big_words fuel n)
big_words-IsCardinal zero n h = absurd (omega arith)
big_words-IsCardinal (suc fuel) n h = elim (Bool-cases (ltb n 1000)) [
  | inl small ↦ rw (big_words_small fuel n small) (small-IsCardinal n (ground arith))
  | inr large ↦
      let (_, below, _, _, _, less, _) = scale_of-Divides n (ground arith) in
      elim (Bool-cases (n % (scale_of n).value == 0)) [
        | inl even ↦ rw (big_words_even fuel n large even) (
            IsCardinal-separator (big_words fuel (n / (scale_of n).value)) (scale_of n).name b' '
              refl (scale-IsCardinal n))
        | inr odd ↦ rw (big_words_rest fuel n large odd) (
            IsCardinal-joint (big_words fuel (n / (scale_of n).value) ++ b' ' ∷ (scale_of n).name)
              (big_words fuel (n % (scale_of n).value)) (n % (scale_of n).value)
              (big_words-IsCardinal fuel (n % (scale_of n).value) (omega arith)))
      ]
]
