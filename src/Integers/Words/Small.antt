-- ===== src/Integers/Words/Small.antt =====
-- Numbers below a thousand: a check of each.
use jsonata.Base.{
  ℕ, ◌+◌, ◌*◌, ◌<◌, Bool, true, false, ◌&&◌, List, [], ◌∷◌, ◌++◌, Option, none, some, Bytes, codes,
  bytes_eq, all, ltb, ◌==◌, if◌then◌else◌, ◌≡◌, refl, ap, ◌∙◌, arith, Bool-cases, inl, inr,
  all_below, all_below_lem,
}
use jsonata.Integers.Words.{
  int_to_words, fields, word_value, Segment, counted, take_value, take_found, take_word, add_words,
}
use jsonata.Integers.Words.Splits.{plain}

-- The loop over words worth at most a hundred, where it stays with those.
small_found : ℕ → Option ℕ → Option ℕ
small_found current none = none
small_found current (some v) =
    if ltb v 100 then some (current + v) else if v == 100 then some (current * v) else none

small_word : ℕ → Bytes → Option ℕ
unfolding bytes_eq word_value small_found
small_word current word =
    if bytes_eq word (codes "and") then some current else small_found current (word_value word)

small_words : ℕ → List Bytes → Option ℕ
unfolding small_word
small_words current [] = some current
small_words current (word ∷ words) = elim (small_word current word) [
  | none ↦ none
  | some current' ↦ small_words current' words
]

module _ (max_digits : ℕ) (segments : List Segment) where
  take_small :
      (current k : ℕ) (r : Option ℕ)
      → small_found current r ≡ some k
      → take_found max_digits r segments current ≡ counted segments k
  unfolding small_found take_found take_value
  take_small current k none h = cc
  take_small current k (some v) h = elim (Bool-cases (ltb v 100)) [
    | inl low ↦ rw low (ground arith)
    | inr more ↦ elim (Bool-cases (v == 100)) [
      | inl hundred ↦ rw (more, hundred) (ground arith)
      | inr high ↦ ground arith
    ]
  ]

  take_small_word :
      (current k : ℕ) (word : Bytes)
      → small_word current word ≡ some k
      → take_word max_digits word segments current ≡ counted segments k
  unfolding small_word take_word
  take_small_word current k word h = of_test (bytes_eq word (codes "and")) h
    where
      of_test :
          (b : Bool)
          → (if b then some current else small_found current (word_value word)) ≡ some k
          → (if b
              then counted segments current
              else take_found max_digits (word_value word) segments current)
            ≡ counted segments k
      of_test true h = ap (counted segments) (ground arith)
      of_test false h = take_small current k (word_value word) h

  pub add_words-next :
      (word : Bytes) (words : List Bytes) (left : List Segment) (current k : ℕ)
      → take_word max_digits word segments current ≡ counted left k
      → add_words max_digits segments current (word ∷ words) ≡ add_words max_digits left k words
  unfolding add_words
  add_words-next word words left current k h = rw (h, add_words)

  add_words_small :
      (ws rest : List Bytes) (current k : ℕ)
      → small_words current ws ≡ some k
      → add_words max_digits segments current (ws ++ rest) ≡ add_words max_digits segments k rest
  unfolding small_words
  add_words_small [] rest current k h =
      ap (λ (c : ℕ). add_words max_digits segments c rest) (ground arith)
  add_words_small (word ∷ ws) rest current k h =
      of_word (small_word current word) refl h
        (λ (c : ℕ) (e : small_words c ws ≡ some k). add_words_small ws rest c k e)
    where
      of_word :
          (r : Option ℕ)
          → small_word current word ≡ r
          → (elim r [ none ↦ none | some c ↦ small_words c ws ]) ≡ some k
          → ((c : ℕ)
              → small_words c ws ≡ some k
              → add_words max_digits segments c (ws ++ rest) ≡ add_words max_digits segments k rest)
          → add_words max_digits segments current (word ∷ (ws ++ rest))
            ≡ add_words max_digits segments k rest
      of_word none e h rec = cc
      of_word (some c) e h rec =
          add_words-next word (ws ++ rest) segments current c (take_small_word current c word e)
          ∙ rec c h

-- The words of `n` are plain and are read as `n`.
reads_small : ℕ → Bool
unfolding small_words fields int_to_words
reads_small n =
    all plain (int_to_words n)
    && elim (small_words 0 (fields (int_to_words n))) [ some m ↦ m == n | none ↦ false ]

every_small : all_below 1000 reads_small ≡ true
unfolding all_below reads_small
every_small = refl

small_lem :
    (n : ℕ)
    → n < 1000
    → (all plain (int_to_words n) ≡ true) × (small_words 0 (fields (int_to_words n)) ≡ some n)
small_lem n h = of_check n (all_below_lem 1000 reads_small n every_small h)
  where
    of_read :
        (n : ℕ) (b : Bool) (r : Option ℕ)
        → (b && elim r [ some m ↦ m == n | none ↦ false ]) ≡ true
        → (b ≡ true) × (r ≡ some n)
    of_read n true (some m) h = ground arith
    of_read n true none h = cc
    of_read n false r h = cc

    of_check :
        (n : ℕ)
        → reads_small n ≡ true
        → (all plain (int_to_words n) ≡ true) × (small_words 0 (fields (int_to_words n)) ≡ some n)
    of_check n h =
        of_read n (all plain (int_to_words n)) (small_words 0 (fields (int_to_words n)))
          (unfold reads_small in h)

-- The words of a number below a thousand are plain.
pub int_to_words-plain : (n : ℕ) → n < 1000 → all plain (int_to_words n) ≡ true
int_to_words-plain n h = (small_lem n h).0

-- They add `n` to nothing, and touch no segment.
pub add_words-int_to_words :
    (max_digits n : ℕ) (segments : List Segment) (rest : List Bytes)
    → n < 1000
    → add_words max_digits segments 0 (fields (int_to_words n) ++ rest)
      ≡ add_words max_digits segments n rest
add_words-int_to_words max_digits n segments rest h =
    add_words_small max_digits segments (fields (int_to_words n)) rest 0 n (small_lem n h).1
