-- ===== src/Integers/Words/Reads.antt =====
-- `wordsToBigInt` reads what `bigIntToWords` writes, of go/internal/engine/functions/string_format_integer.go.
use jsonata.Base.{
  ℕ, zero, suc, ◌*◌, ◌/◌, ◌%◌, ◌^◌, ◌<◌, ◌≤◌, true, false, ◌⊎◌, List, [], ◌∷◌, ◌++◌, Bytes, codes,
  all, ltb, ◌==◌, if◌then◌else◌, ◌≡◌, refl, ap, ◌∙◌, arith, Bool-cases, inl, inr,
}
use jsonata.Integers.Words.{
  Scale, scale_of, joint, big_words, int_to_words, fields, Segment, add_words, total_of,
}
use jsonata.Integers.Words.Splits.{plain, fields-append}
use jsonata.Integers.Words.Small.{int_to_words-plain, add_words-next, add_words-int_to_words}
use jsonata.Integers.Words.Scales.{IsNamed, scale_of-Divides, scale_of-IsNamed}
use jsonata.Integers.Words.Segments.{AllLow, AllHigh, AllLow-mono, take_scale}

pub all-append : (x y : Bytes) → all plain x ≡ true → all plain y ≡ true → all plain (x ++ y) ≡ true
all-append [] y h k = k
all-append (c ∷ x) y h k = ground (arith, all-append x y)

pub big_words_small : (fuel n : ℕ) → ltb n 1000 ≡ true → big_words (suc fuel) n ≡ int_to_words n
unfolding big_words
big_words_small fuel n h = rw h

pub big_words_even :
    (fuel n : ℕ)
    → ltb n 1000 ≡ false
    → (n % (scale_of n).value == 0) ≡ true
    → big_words (suc fuel) n ≡ big_words fuel (n / (scale_of n).value) ++ b' ' ∷ (scale_of n).name
unfolding big_words
big_words_even fuel n h e = rw (h, e)

pub big_words_rest :
    (fuel n : ℕ)
    → ltb n 1000 ≡ false
    → (n % (scale_of n).value == 0) ≡ false
    → big_words (suc fuel) n
      ≡ (big_words fuel (n / (scale_of n).value) ++ b' ' ∷ (scale_of n).name)
        ++ (joint (n % (scale_of n).value) ++ big_words fuel (n % (scale_of n).value))
unfolding big_words
big_words_rest fuel n h e = rw (h, e)

joint-plain : (r : ℕ) → all plain (joint r) ≡ true
joint-plain r = elim (Bool-cases (ltb r 100)) [ inl low ↦ rw low refl | inr high ↦ rw high refl ]

pub big_words-plain : (fuel n : ℕ) → n < fuel → all plain (big_words fuel n) ≡ true
big_words-plain zero n h = absurd (omega arith)
big_words-plain (suc fuel) n h = elim (Bool-cases (ltb n 1000)) [
  | inl small ↦ rw (big_words_small fuel n small) (int_to_words-plain n (ground arith))
  | inr large ↦
      let (_, below, _, _, whole, less, fewer) = scale_of-Divides n (ground arith) in
      let first = big_words-plain fuel (n / (scale_of n).value) (omega arith) in
      let head =
        all-append (big_words fuel (n / (scale_of n).value)) (b' ' ∷ (scale_of n).name) first
          ((scale_of-IsNamed n).0) in
      elim (Bool-cases (n % (scale_of n).value == 0)) [
        | inl even ↦ rw (big_words_even fuel n large even) head
        | inr rest ↦ rw (big_words_rest fuel n large rest) (
            all-append (big_words fuel (n / (scale_of n).value) ++ b' ' ∷ (scale_of n).name)
              (joint (n % (scale_of n).value) ++ big_words fuel (n % (scale_of n).value)) head
              (all-append (joint (n % (scale_of n).value)) (big_words fuel (n % (scale_of n).value))
                (joint-plain (n % (scale_of n).value))
                (big_words-plain fuel (n % (scale_of n).value) (omega arith))))
      ]
]

pub joint_words : ℕ → List Bytes
joint_words r = if ltb r 100 then codes "and" ∷ [] else []

fields_and : fields (codes "and") ≡ codes "and" ∷ []
unfolding fields
fields_and = refl

fields_nothing : fields [] ≡ []
unfolding fields
fields_nothing = refl

pub fields-joint :
    (head t : Bytes) (r : ℕ)
    → all plain head ≡ true
    → fields (head ++ (joint r ++ t)) ≡ fields head ++ (joint_words r ++ fields t)
unfolding joint_words
fields-joint head t r h = elim (Bool-cases (ltb r 100)) [
  | inl low ↦ rw low (
      fields-append head (codes "and " ++ t) b' ' h refl refl
      ∙ ap (λ (w : List Bytes). fields head ++ w)
          (fields-append (codes "and") t b' ' refl refl refl
            ∙ ap (λ (w : List Bytes). w ++ fields t) fields_and))
  | inr high ↦ rw high (
      fields-append head (b' ' ∷ t) b',' h refl refl
      ∙ ap (λ (w : List Bytes). fields head ++ w)
          (fields-append [] t b' ' refl refl refl
            ∙ ap (λ (w : List Bytes). w ++ fields t) fields_nothing))
]

pub add_words-joint :
    (max_digits r current : ℕ) (segments : List Segment) (words : List Bytes)
    → add_words max_digits segments current (joint_words r ++ words)
      ≡ add_words max_digits segments current words
unfolding joint_words
add_words-joint max_digits r current segments words = elim (Bool-cases (ltb r 100)) [
  | inl low ↦ rw low (unfold add_words in refl)
  | inr high ↦ rw high refl
]

-- The loop reads the words of `n`, in front of others, into new segments and a current number.
pub record IsRead (max_digits n : ℕ) (old : List Segment) (words rest : List Bytes) : Type 0 where
  pub new : List Segment
  pub current : ℕ
  pub reads :
      add_words max_digits old 0 (words ++ rest) ≡ add_words max_digits (new ++ old) current rest
  pub sum : total_of current new ≡ n
  pub low : AllLow n new
  pub bounded : AllLow 1000000000000 new

module _ (max_digits fuel n : ℕ) (old : List Segment) (rest : List Bytes) where
  pub IsRead-small :
      ltb n 1000 ≡ true → IsRead max_digits n old (fields (big_words (suc fuel) n)) rest
  unfolding total_of
  IsRead-small small = record {
    new = [];
    current = n;
    reads =
        ap (λ (t : Bytes). add_words max_digits old 0 (fields t ++ rest))
          (big_words_small fuel n small)
        ∙ add_words-int_to_words max_digits n old rest (ground arith);
    sum = refl;
    low = tt;
    bounded = tt;
  }

-- The words of `q` and a scale: one new segment.
module _ (max_digits q : ℕ) (s : Scale) (old : List Segment) (words rest : List Bytes)
    (named : IsNamed s) (large : 1000 ≤ s.value) (high : AllHigh s.value old)
    (fits : (q < 1000) ⊎ (s.value ≡ 1000000000000)) (bound : q * s.value < 10 ^ max_digits)
    (read : IsRead max_digits q old words (s.name ∷ rest)) where
  below_scale : AllLow s.value read.new
  below_scale = elim fits [
    | inl few ↦ AllLow-mono q s.value read.new (omega arith) read.low
    | inr most ↦ AllLow-mono 1000000000000 s.value read.new (omega arith) read.bounded
  ]

  pub read_scale :
      add_words max_digits old 0 (words ++ s.name ∷ rest)
      ≡ add_words max_digits (record { amount = q * s.value; scale = s.value } ∷ old) 0 rest
  read_scale =
      read.reads
      ∙ add_words-next max_digits (read.new ++ old) s.name rest
          (record { amount = total_of read.current read.new * s.value; scale = s.value } ∷ old)
          read.current 0
          (take_scale max_digits s read.new old read.current named large below_scale high
            (rw read.sum bound))
      ∙ ap
          (λ (k : ℕ).
            add_words max_digits (record { amount = k * s.value; scale = s.value } ∷ old) 0 rest)
          read.sum
