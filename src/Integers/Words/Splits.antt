-- ===== src/Integers/Words/Splits.antt =====
-- The words of a text that is joined by blanks, hyphens or commas.
use jsonata.Base.{
  ℕ, Bool, true, ◌&&◌, ◌||◌, List, [], ◌∷◌, ◌++◌, Bytes, all, ltb, leb, ◌==◌, if◌then◌else◌, ◌≡◌,
  refl, ap, sym, ◌∙◌, arith, Bool-cases, inl, inr, append-nil,
}
use jsonata.Strings.Utf8.{decode_rune}
use jsonata.Integers.Words.{is_space, blanks, flush, split_blanks, fields}

-- Small letters and what stands before the capital ones.
abbrev pub plain : ℕ → Bool
plain c = leb c 64 || (leb b'a' c && leb c b'z')

abbrev separator : ℕ → Bool
separator c = is_space c || c == b'-' || c == b','

ascii : (c : ℕ) (s : Bytes) → ltb c 128 ≡ true → decode_rune c s ≡ (c, 0)
unfolding decode_rune
ascii c s h = rw h

blanks-plain_byte :
    (c : ℕ) (s : Bytes)
    → ltb c 128 ≡ true
    → blanks 0 (c ∷ s) ≡ (if separator c then b' ' else c) ∷ blanks 0 s
unfolding blanks
blanks-plain_byte c s h = elim (Bool-cases (separator c)) [
  | inl blank ↦ rw (ascii c s h, blanks) (rw blank refl)
  | inr other ↦ rw (ascii c s h, blanks) (rw other refl)
]

blank_bytes : Bytes → Bytes
blank_bytes [] = []
blank_bytes (c ∷ s) = (if separator c then b' ' else c) ∷ blank_bytes s

blanks-append : (x s : Bytes) → all plain x ≡ true → blanks 0 (x ++ s) ≡ blank_bytes x ++ blanks 0 s
unfolding blank_bytes
blanks-append [] s h = refl
blanks-append (c ∷ x) s h =
    blanks-plain_byte c (x ++ s) (ground arith)
    ∙ ap (◌∷◌ (if separator c then b' ' else c)) (blanks-append x s (ground arith))

flush-append : (word : Bytes) (xs ys : List Bytes) → flush word (xs ++ ys) ≡ flush word xs ++ ys
flush-append [] xs ys = refl
flush-append (c ∷ word) xs ys = refl

split_blanks-append :
    (word x y : Bytes)
    → split_blanks word (x ++ b' ' ∷ y) ≡ split_blanks word x ++ split_blanks [] y
unfolding split_blanks
split_blanks-append word [] y = flush-append word [] (split_blanks [] y)
split_blanks-append word (c ∷ x) y = elim (Bool-cases (c == b' ')) [
  | inl blank ↦ rw blank (
      ap (flush word) (split_blanks-append [] x y)
      ∙ flush-append word (split_blanks [] x) (split_blanks [] y))
  | inr more ↦ rw more (split_blanks-append (word ++ c ∷ []) x y)
]

-- A separator ends the words in front of it.
pub fields-append :
    (x y : Bytes) (c : ℕ)
    → all plain x ≡ true
    → ltb c 128 ≡ true
    → separator c ≡ true
    → fields (x ++ c ∷ y) ≡ fields x ++ fields y
unfolding fields
fields-append x y c h low sep =
    ap (split_blanks []) (
      blanks-append x (c ∷ y) h
      ∙ ap (λ t. blank_bytes x ++ t)
          (blanks-plain_byte c y low ∙ ap (λ (b : Bool). (if b then b' ' else c) ∷ blanks 0 y) sep))
    ∙ split_blanks-append [] (blank_bytes x) (blanks 0 y)
    ∙ ap (λ t. split_blanks [] t ++ split_blanks [] (blanks 0 y)) (sym (whole x h))
  where
    whole : (x : Bytes) → all plain x ≡ true → blanks 0 x ≡ blank_bytes x
    whole x h =
        ap (blanks 0) (sym (append-nil x)) ∙ blanks-append x [] h ∙ append-nil (blank_bytes x)
