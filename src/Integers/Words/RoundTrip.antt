-- ===== src/Integers/Words/RoundTrip.antt =====
-- Numbers as words and back, of go/internal/engine/functions/string_format_integer.go.
use jsonata.Base.{
  ℕ, zero, suc, ◌*◌, ◌/◌, ◌%◌, ◌^◌, ◌<◌, ◌≤◌, true, false, List, [], ◌∷◌, ◌++◌, Bytes, all, ltb,
  ◌==◌, ◌≡◌, refl, ap, sym, ◌∙◌, arith, Bool-cases, inl, inr, append_assoc, append-nil,
}
use jsonata.Integers.Alphabetic.{parsed}
use jsonata.Integers.Words.{Scale, scale_of, big_words, fields, Segment, add_words, total_of}
use jsonata.Integers.Words.Ordinals.{de_ordinalise, words_to_big_int}
use jsonata.Integers.Words.Splits.{plain, fields-append}
use jsonata.Integers.Words.Scales.{scale_of-Divides, scale_of-IsNamed}
use jsonata.Integers.Words.Segments.{AllHigh, AllLow-mono, AllHigh-mono, AllLow-last, total_of-add}
use jsonata.Integers.Words.Reads.{
  all-append, big_words-plain, big_words_even, big_words_rest, fields-joint, joint_words,
  add_words-joint, IsRead, IsRead-small, read_scale,
}

-- Words behind words.
two_parts :
    (xs ys zs : List Bytes) (k max_digits : ℕ) (old : List Segment)
    → add_words max_digits old k ((xs ++ ys) ++ zs) ≡ add_words max_digits old k (xs ++ (ys ++ zs))
two_parts xs ys zs k max_digits old = ap (add_words max_digits old k) (append_assoc xs ys zs)

module _ (max_digits fuel n : ℕ) (old : List Segment) (rest : List Bytes) (large : 1000 ≤ n) where
  scale : Scale
  scale = scale_of n

  head : Bytes
  unfolding scale
  head = big_words fuel (n / scale.value) ++ b' ' ∷ scale.name

  new_segment : Segment
  unfolding scale
  new_segment = record { amount = n / scale.value * scale.value; scale = scale.value }

  head_words :
      n < suc fuel
      → fields head ≡ fields (big_words fuel (n / (scale_of n).value)) ++ (scale_of n).name ∷ []
  unfolding head scale
  head_words h =
      let (_, below, _, _, whole, less, fewer) = scale_of-Divides n large in
      let (_, name, _, _) = scale_of-IsNamed n in
      fields-append (big_words fuel (n / (scale_of n).value)) (scale_of n).name b' '
        (big_words-plain fuel (n / (scale_of n).value) (omega arith)) refl refl
      ∙ ap (λ (w : List Bytes). fields (big_words fuel (n / (scale_of n).value)) ++ w) name

  -- The words up to the scale bring one segment.
  read_head :
      n < suc fuel
      → n < 10 ^ max_digits
      → AllHigh n old
      → ((more : List Bytes)
          → IsRead max_digits
              (n / (scale_of n).value)
              old
              (fields (big_words fuel (n / (scale_of n).value)))
              more)
      → (more : List Bytes)
      → add_words max_digits old 0 (fields head ++ more)
        ≡ add_words max_digits (new_segment ∷ old) 0 more
  unfolding new_segment scale
  read_head h bound high rec more =
      let (least, below, _, fits, whole, less, fewer) = scale_of-Divides n large in
      ap (λ (w : List Bytes). add_words max_digits old 0 (w ++ more)) (head_words h)
      ∙ two_parts (fields (big_words fuel (n / (scale_of n).value))) ((scale_of n).name ∷ []) more 0
          max_digits old
      ∙ read_scale max_digits (n / (scale_of n).value) (scale_of n) old
          (fields (big_words fuel (n / (scale_of n).value))) more (scale_of-IsNamed n) least
          (AllHigh-mono n (scale_of n).value old below high) fits (omega arith)
          (rec ((scale_of n).name ∷ more))

  IsRead-even :
      n < suc fuel
      → n < 10 ^ max_digits
      → AllHigh n old
      → ltb n 1000 ≡ false
      → (n % (scale_of n).value == 0) ≡ true
      → ((more : List Bytes)
          → IsRead max_digits
              (n / (scale_of n).value)
              old
              (fields (big_words fuel (n / (scale_of n).value)))
              more)
      → IsRead max_digits n old (fields (big_words (suc fuel) n)) rest
  unfolding head new_segment scale total_of
  IsRead-even h bound high big even rec =
      let (least, below, most, fits, whole, less, fewer) = scale_of-Divides n large in
      record {
        new = new_segment ∷ [];
        current = 0;
        reads =
            ap (λ (t : Bytes). add_words max_digits old 0 (fields t ++ rest))
              (big_words_even fuel n big even)
            ∙ read_head h bound high rec rest;
        sum = (let e : n % (scale_of n).value ≡ 0 = ground arith in omega arith);
        low = (below, tt);
        bounded = (most, tt);
      }

  IsRead-rest :
      n < suc fuel
      → n < 10 ^ max_digits
      → AllHigh n old
      → ltb n 1000 ≡ false
      → (n % (scale_of n).value == 0) ≡ false
      → ((more : List Bytes)
          → IsRead max_digits
              (n / (scale_of n).value)
              old
              (fields (big_words fuel (n / (scale_of n).value)))
              more)
      → IsRead max_digits
          (n % (scale_of n).value)
          (new_segment ∷ old)
          (fields (big_words fuel (n % (scale_of n).value)))
          rest
      → IsRead max_digits n old (fields (big_words (suc fuel) n)) rest
  unfolding head new_segment scale
  IsRead-rest h bound high big odd rec more =
      let (least, below, most, fits, whole, less, fewer) = scale_of-Divides n large in
      let r = n % (scale_of n).value in
      let tail = fields (big_words fuel r) in
      record {
        new = more.new ++ new_segment ∷ [];
        current = more.current;
        reads =
            ap (λ (t : Bytes). add_words max_digits old 0 (fields t ++ rest))
              (big_words_rest fuel n big odd)
            ∙ ap (λ (w : List Bytes). add_words max_digits old 0 (w ++ rest))
                (fields-joint head (big_words fuel r) r (head-plain h))
            ∙ two_parts (fields head) (joint_words r ++ tail) rest 0 max_digits old
            ∙ read_head h bound high rec ((joint_words r ++ tail) ++ rest)
            ∙ two_parts (joint_words r) tail rest 0 max_digits (new_segment ∷ old)
            ∙ add_words-joint max_digits r 0 (new_segment ∷ old) (tail ++ rest)
            ∙ more.reads
            ∙ ap (λ (g : List Segment). add_words max_digits g more.current rest)
                (sym (append_assoc more.new (new_segment ∷ []) old));
        sum = total_of-add more.current more.new new_segment ∙ omega (arith, more.sum);
        low =
            AllLow-last n more.new new_segment (AllLow-mono r n more.new (omega arith) more.low)
              below;
        bounded = AllLow-last 1000000000000 more.new new_segment more.bounded most;
      }
    where
      head-plain : n < suc fuel → all plain head ≡ true
      head-plain h =
          let (_, below, _, _, whole, less, fewer) = scale_of-Divides n large in
          all-append (big_words fuel (n / (scale_of n).value)) (b' ' ∷ (scale_of n).name)
            (big_words-plain fuel (n / (scale_of n).value) (omega arith)) ((scale_of-IsNamed n).0)

-- The loop reads the words of `n` into new segments that add up to `n`, whatever segments of larger scales are there.
IsRead-words :
    (max_digits fuel n : ℕ) (old : List Segment) (rest : List Bytes)
    → n < fuel
    → n < 10 ^ max_digits
    → AllHigh n old
    → IsRead max_digits n old (fields (big_words fuel n)) rest
unfolding new_segment scale
IsRead-words max_digits zero n old rest h bound high = absurd (omega arith)
IsRead-words max_digits (suc fuel) n old rest h bound high = elim (Bool-cases (ltb n 1000)) [
  | inl small ↦ IsRead-small max_digits fuel n old rest small
  | inr big ↦
      let large : 1000 ≤ n = ground arith in
      let (least, below, most, fits, whole, less, fewer) = scale_of-Divides n large in
      let first = λ (more : List Bytes).
        IsRead-words max_digits fuel (n / (scale_of n).value) old more (omega arith) (omega arith)
          (AllHigh-mono n (n / (scale_of n).value) old (omega arith) high) in
      elim (Bool-cases (n % (scale_of n).value == 0)) [
        | inl even ↦ IsRead-even max_digits fuel n old rest large h bound high big even first
        | inr odd ↦ IsRead-rest max_digits fuel n old rest large h bound high big odd first (
            IsRead-words max_digits fuel (n % (scale_of n).value)
              (record {
                amount = n / (scale_of n).value * (scale_of n).value;
                scale = (scale_of n).value;
              }
                ∷ old)
              rest (omega arith) (omega arith)
              (less, AllHigh-mono n (n % (scale_of n).value) old (omega arith) high))
      ]
]

-- What has become the words of `n` again is read as `n`.
pub words_to_big_int-cardinal :
    (max_digits n : ℕ) (s : Bytes)
    → n < 10 ^ max_digits
    → de_ordinalise s ≡ big_words (suc n) n
    → words_to_big_int max_digits s ≡ parsed n
unfolding words_to_big_int
words_to_big_int-cardinal max_digits n s bound same =
    let read = IsRead-words max_digits (suc n) n [] [] (omega arith) bound tt in
    ap (λ (t : Bytes). add_words max_digits [] 0 (fields t)) same
    ∙ ap (add_words max_digits [] 0) (sym (append-nil (fields (big_words (suc n) n))))
    ∙ read.reads
    ∙ ap (λ (g : List Segment). add_words max_digits g read.current []) (append-nil read.new)
    ∙ (unfold add_words in ap parsed read.sum)
