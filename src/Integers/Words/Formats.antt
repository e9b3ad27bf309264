-- ===== src/Integers/Words/Formats.antt =====
-- Words in each format are read back, of go/internal/engine/functions/string_format_integer.go.
use jsonata.Base.{
  ℕ, suc, ◌^◌, ◌<◌, Bool, true, false, not, ◌||◌, List, [], ◌∷◌, ◌++◌, map, Option, none, some,
  Bytes, codes, bytes_eq, all, any, ◌==◌, if◌then◌else◌, ◌≡◌, refl, ap, sym, ◌∙◌, arith, Bool-cases,
  inl, inr, append_assoc, append-nil,
}
use jsonata.Number.Parts.{to_lower}
use jsonata.Integers.Roman.{to_upper}
use jsonata.Integers.Alphabetic.{parsed}
use jsonata.Integers.Words.{big_words, big_int_to_words}
use jsonata.Integers.Words.Splits.{plain}
use jsonata.Integers.Words.Ordinals.{
  ordinals, ordinal_of, attach, split_last, ordinal_y, ordinal_word, apply_ordinal_word,
  de_ordinalise, words_to_big_int,
}
use jsonata.Integers.Words.Casing.{
  small_words, capital_first, title_word, title_from, to_title_case, WordFormat, small, capital,
  title, in_case, format_words, parse_words,
}
use jsonata.Integers.Words.Reads.{all-append, big_words-plain}
use jsonata.Integers.Words.Ends.{big_words-IsCardinal}
use jsonata.Integers.Words.RoundTrip.{words_to_big_int-cardinal}

lower_plain : (c : ℕ) → plain c ≡ true → to_lower c ≡ c
lower_plain c h = ground arith

lower_upper : (c : ℕ) → plain c ≡ true → to_lower (to_upper c) ≡ c
lower_upper c h = ground arith

map-lower : (s : Bytes) → all plain s ≡ true → map to_lower s ≡ s
map-lower [] h = refl
map-lower (c ∷ s) h = λ i. lower_plain c (ground arith) i ∷ map-lower s (ground arith) i

map-upper : (s : Bytes) → all plain s ≡ true → map to_lower (map to_upper s) ≡ s
map-upper [] h = refl
map-upper (c ∷ s) h = λ i. lower_upper c (ground arith) i ∷ map-upper s (ground arith) i

map-append_bytes : (f : ℕ → ℕ) (x y : Bytes) → map f (x ++ y) ≡ map f x ++ map f y
map-append_bytes f [] y = refl
map-append_bytes f (c ∷ x) y = ap (◌∷◌ (f c)) (map-append_bytes f x y)

title_word_lower :
    (cap : Bool) (word : Bytes) → all plain word ≡ true → map to_lower (title_word cap word) ≡ word
unfolding title_word
title_word_lower cap word h =
    rw (map-lower word h) (of_test (cap || not (any (bytes_eq word) small_words)) word h)
  where
    capital_lower :
        (word : Bytes) → all plain word ≡ true → map to_lower (capital_first word) ≡ word
    capital_lower [] h = unfold capital_first in refl
    capital_lower (c ∷ s) h =
        unfold capital_first in λ i. lower_upper c (ground arith) i ∷ map-lower s (ground arith) i

    of_test :
        (b : Bool) (word : Bytes)
        → all plain word ≡ true
        → map to_lower (if b then capital_first word else word) ≡ word
    of_test true word h = capital_lower word h
    of_test false word h = map-lower word h

title_from_lower :
    (cap : Bool) (word s : Bytes)
    → all plain word ≡ true
    → all plain s ≡ true
    → map to_lower (title_from cap word s) ≡ word ++ s
unfolding title_from
title_from_lower cap word [] h k = title_word_lower cap word h ∙ sym (append-nil word)
title_from_lower cap word (c ∷ s) h k = elim (Bool-cases (c == b' ' || c == b',' || c == b'-')) [
  | inl separator ↦ rw separator (
      map-append_bytes to_lower (title_word cap word) (c ∷ title_from (c == b'-') [] s) ∙ (λ i.
        title_word_lower cap word h i
        ++ (lower_plain c (ground arith) i
            ∷ title_from_lower (c == b'-') [] s refl (ground arith) i)))
  | inr letter ↦ rw letter (
      title_from_lower cap (word ++ c ∷ []) s (all-append word (c ∷ []) h (ground arith))
        (ground arith)
      ∙ append_assoc word (c ∷ []) s)
]

split_last-whole : (s : Bytes) → (split_last s).0 ++ (split_last s).1 ≡ s
unfolding split_last attach
split_last-whole [] = refl
split_last-whole (c ∷ s) = of_rest (split_last s) ∙ ap (◌∷◌ c) (split_last-whole s)
  where
    of_rest : (p : Bytes × Bytes) → (attach c p).0 ++ (attach c p).1 ≡ c ∷ (p.0 ++ p.1)
    of_rest (d ∷ prefix, last) = refl
    of_rest ([], last) = elim (Bool-cases (c == b' ' || c == b'-')) [
      | inl separator ↦ rw separator refl
      | inr letter ↦ rw letter refl
    ]

plain_parts :
    (x y : Bytes) → all plain (x ++ y) ≡ true → (all plain x ≡ true) × (all plain y ≡ true)
plain_parts [] y h = (refl, h)
plain_parts (c ∷ x) y h =
    let (first, second) = plain_parts x y (ground arith) in (ground arith, second)

ordinal_of-plain :
    (table : List (Bytes × Bytes)) (word ordinal : Bytes)
    → all (λ (e : Bytes × Bytes). all plain e.1) table ≡ true
    → ordinal_of table word ≡ some ordinal
    → all plain ordinal ≡ true
unfolding ordinal_of
ordinal_of-plain [] word ordinal h e = cc
ordinal_of-plain ((cardinal, o) ∷ table) word ordinal h e =
    ground (arith, ordinal_of-plain table word ordinal)

ordinal_y-plain :
    (word ordinal : Bytes)
    → all plain word ≡ true
    → ordinal_y word ≡ some ordinal
    → all plain ordinal ≡ true
unfolding ordinal_y
ordinal_y-plain [] ordinal h e = cc
ordinal_y-plain (c ∷ []) ordinal h e = of_test (c == b'y') e
  where
    of_test :
        (b : Bool)
        → (if b then some (codes "ieth") else none) ≡ some ordinal
        → all plain ordinal ≡ true
    of_test true e = let same : codes "ieth" ≡ ordinal = cc in rw (← same) refl
    of_test false e = cc
ordinal_y-plain (c ∷ d ∷ s) ordinal h e =
    of_rest (ordinal_y (d ∷ s)) e
      (λ (o : Bytes) (q : ordinal_y (d ∷ s) ≡ some o). ordinal_y-plain (d ∷ s) o (ground arith) q)
      refl
  where
    of_rest :
        (r : Option Bytes)
        → (elim r [ none ↦ none | some t ↦ some (c ∷ t) ]) ≡ some ordinal
        → ((o : Bytes) → ordinal_y (d ∷ s) ≡ some o → all plain o ≡ true)
        → ordinal_y (d ∷ s) ≡ r
        → all plain ordinal ≡ true
    of_rest none e rec q = cc
    of_rest (some t) e rec q =
        let same : c ∷ t ≡ ordinal = cc in
        let low : plain c ≡ true = ground arith in let more = rec t q in rw (← same) (ground arith)

ordinal_word-plain : (word : Bytes) → all plain word ≡ true → all plain (ordinal_word word) ≡ true
unfolding ordinal_word
ordinal_word-plain word h = of_table (ordinal_of ordinals word) (ordinal_y word) refl refl
  where
    of_table :
        (r s : Option Bytes)
        → ordinal_of ordinals word ≡ r
        → ordinal_y word ≡ s
        → all plain (elim r [
          | some ordinal ↦ ordinal
          | none ↦ elim s [ some ordinal ↦ ordinal | none ↦ word ++ codes "th" ]
        ])
          ≡ true
    of_table (some o) s e f = ordinal_of-plain ordinals word o refl e
    of_table none (some o) e f = ordinal_y-plain word o h f
    of_table none none e f = all-append word (codes "th") h refl

apply_ordinal_word-plain :
    (s : Bytes) → all plain s ≡ true → all plain (apply_ordinal_word s) ≡ true
unfolding apply_ordinal_word
apply_ordinal_word-plain s h =
    let (first, second) =
      plain_parts (split_last s).0 (split_last s).1 (rw (split_last-whole s) h) in
    all-append (split_last s).0 (ordinal_word (split_last s).1) first
      (ordinal_word-plain (split_last s).1 second)

in_case-plain :
    (format : WordFormat) (s : Bytes) → all plain s ≡ true → map to_lower (in_case format s) ≡ s
unfolding in_case to_title_case
in_case-plain small s h = map-lower s h
in_case-plain capital s h = map-upper s h
in_case-plain title s h = title_from_lower true [] s refl h

-- A number of at most `max_digits` digits is read back from its English words, cardinal or ordinal, in small letters, in
-- capitals or in title case.
pub parse_words-format_words :
    (max_digits n : ℕ) (format : WordFormat) (ordinal : Bool)
    → n < 10 ^ max_digits
    → parse_words max_digits (format_words format ordinal n) ≡ parsed n
unfolding parse_words format_words big_int_to_words
parse_words-format_words max_digits n format ordinal bound =
    let (same, back) = big_words-IsCardinal (suc n) n (omega arith) in
    of_modifier ordinal same back (big_words-plain (suc n) n (omega arith))
  where
    of_modifier :
        (ordinal : Bool)
        → de_ordinalise (big_words (suc n) n) ≡ big_words (suc n) n
        → de_ordinalise (apply_ordinal_word (big_words (suc n) n)) ≡ big_words (suc n) n
        → all plain (big_words (suc n) n) ≡ true
        → words_to_big_int max_digits (
            map to_lower (
              in_case format (
                if ordinal then apply_ordinal_word (big_words (suc n) n) else big_words (suc n) n)))
          ≡ parsed n
    of_modifier true same back low =
        ap (words_to_big_int max_digits) (
          in_case-plain format (apply_ordinal_word (big_words (suc n) n))
            (apply_ordinal_word-plain (big_words (suc n) n) low))
        ∙ words_to_big_int-cardinal max_digits n (apply_ordinal_word (big_words (suc n) n)) bound
            back
    of_modifier false same back low =
        ap (words_to_big_int max_digits) (in_case-plain format (big_words (suc n) n) low)
        ∙ words_to_big_int-cardinal max_digits n (big_words (suc n) n) bound same
