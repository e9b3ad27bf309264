-- ===== src/Integers/Decimal/RoundTrip.antt =====
-- Integers in digits, written and read: of go/internal/engine/functions/string_format_integer.go.
use jsonata.Base.{
  ℕ, zero, suc, ◌+◌, ◌-◌, ◌%◌, ◌/◌, ◌<◌, ◌≤◌, Bool, true, false, not, ◌&&◌, ◌||◌, List, [], ◌∷◌,
  ◌++◌, map, Option, none, some, Bytes, length, replicate, all, any, ltb, leb, ◌==◌, if◌then◌else◌,
  ◌≡◌, refl, ap, ◌∙◌, arith, length-append, append-nil,
}
use jsonata.Base.Int.{ℤ, pos, negsuc}
use jsonata.Number.Grammar.{is_digit}
use jsonata.Number.Digits.{AllDigits}
use jsonata.Number.Parts.{read_digits}
use jsonata.Number.Format.{decimal, decimal_from}
use jsonata.Number.Control.{minus}
use jsonata.Number.Decimal.{read-decimal, decimal-AllDigits}
use jsonata.Integers.Words.Ordinals.{ordinal_suffix}
use jsonata.Integers.Decimal.{
  is_any_digit, is_place, family_from, mandatory_count, groups_of, inserted_at, padded, grouped,
  in_family, written, refused, format_integer_decimal, absolute, signed, with_modifier,
  format_digits, picture_family, kept_rune, kept, digits_only, set_string, read, of_string,
  parse_digits, failed, work_limit, d3130, d3131,
}
use jsonata.Integers.Decimal.Families.{IsFamily, family_from-picture_family, picture_family_has}
use jsonata.Integers.Decimal.Kept.{
  kept-append, kept-group_digits, inserted_at-IsSeparator, kept-ordinal_suffix,
}

zeros-AllDigits : (n : ℕ) (s : Bytes) → AllDigits s → AllDigits (replicate n b'0' ++ s)
zeros-AllDigits zero s h = h
zeros-AllDigits (suc n) s h = (omega arith, omega arith, zeros-AllDigits n s h)

read-zeros : (n : ℕ) (s : Bytes) → read_digits 0 (replicate n b'0' ++ s) ≡ read_digits 0 s
unfolding read_digits
read-zeros zero s = refl
read-zeros (suc n) s = read-zeros n s

all_digits : (s : Bytes) → AllDigits s → all is_digit s ≡ true
all_digits [] h = refl
all_digits (c ∷ s) (low, high, h) = ground (arith, all_digits s h)

decimal_positive : (n : ℕ) → 0 < length (decimal n)
unfolding decimal
decimal_positive n = of_test (ltb n 10) (decimal_from n (n / 10))
  where
    of_test :
        (b : Bool) (s : Bytes)
        → 0 < length (elim b [ true ↦ (b'0' + n) ∷ [] | false ↦ s ++ (b'0' + n % 10) ∷ [] ])
    of_test true s = omega arith
    of_test false s = omega (arith, length-append s ((b'0' + n % 10) ∷ []))

-- The padded digits.
module _ (m n : ℕ) where
  padded-AllDigits : AllDigits (padded m (decimal n))
  padded-AllDigits = zeros-AllDigits (m - length (decimal n)) (decimal n) (decimal-AllDigits n)

  read-padded : read_digits 0 (padded m (decimal n)) ≡ n
  read-padded = read-zeros (m - length (decimal n)) (decimal n) ∙ read-decimal n

  padded_positive : 0 < length (padded m (decimal n))
  padded_positive = omega (
    arith,
    decimal_positive n,
    length-append (replicate (m - length (decimal n)) b'0') (decimal n),
  )

digits_only-AllDigits :
    (s : Bytes) → AllDigits s → 0 < length s → digits_only s ≡ some (read_digits 0 s)
digits_only-AllDigits [] h l = absurd (omega arith)
digits_only-AllDigits (c ∷ s) h l = rw (all_digits (c ∷ s) h) refl

set_string-signed :
    (n : ℤ) (s : Bytes)
    → AllDigits s
    → 0 < length s
    → read_digits 0 s ≡ absolute n
    → set_string (signed n s) ≡ some n
unfolding set_string
set_string-signed n [] h l e = absurd (omega arith)
set_string-signed (pos n) (c ∷ s) (low, high, h) l e =
    let other : (c == b'-') ≡ false = ground arith in
    rw (other, digits_only-AllDigits (c ∷ s) (low, high, h) l) (ap (λ (k : ℕ). some (pos k)) e)
set_string-signed (negsuc n) (c ∷ s) h l e =
    rw (digits_only-AllDigits (c ∷ s) h l) (ap (λ (k : ℕ). some (minus k)) e)

kept_rune_short : (z c : ℕ) → length (kept_rune z c) ≤ 1
unfolding kept_rune
kept_rune_short z c =
    of_tests (c == b'-' || is_digit c) (not (z == b'0') && leb z c && leb c (z + 9))
  where
    of_tests :
        (a b : Bool) → length (if a then c ∷ [] else if b then (b'0' + c - z) ∷ [] else []) ≤ 1
    of_tests true b = omega arith
    of_tests false true = omega arith
    of_tests false false = omega arith

kept_short : (z : ℕ) (s : List ℕ) → length (kept z s) ≤ length s
unfolding kept
kept_short z [] = omega arith
kept_short z (c ∷ s) =
    omega (arith, length-append (kept_rune z c) (kept z s), kept_rune_short z c, kept_short z s)

kept-signed : (z : ℕ) (n : ℤ) (s : List ℕ) → kept z (signed n s) ≡ signed n (kept z s)
unfolding kept kept_rune
kept-signed z (pos n) s = refl
kept-signed z (negsuc n) s = refl

-- The rune list that is written in the family `z`.
shown : ℤ → List ℕ → Bool → ℕ → List ℕ
shown n picture ordinal z =
    let s = map (in_family z) (grouped (absolute n) picture) in
    signed n (if ordinal then s ++ ordinal_suffix (absolute n % 100) else s)

kept-shown :
    (n : ℤ) (picture : List ℕ) (ordinal : Bool) (z : ℕ)
    → IsFamily z
    → any (λ (c : ℕ). c == b'-') picture ≡ false
    → kept z (shown n picture ordinal z)
      ≡ signed n (padded (mandatory_count picture) (decimal (absolute n)))
unfolding shown
kept-shown n picture ordinal z family plain =
    kept-signed z n (
      if ordinal
      then map (in_family z) (grouped (absolute n) picture) ++ ordinal_suffix (absolute n % 100)
      else map (in_family z) (grouped (absolute n) picture))
    ∙ ap (signed n) (of_modifier ordinal)
  where
    digits :
        kept z (map (in_family z) (grouped (absolute n) picture))
        ≡ padded (mandatory_count picture) (decimal (absolute n))
    digits =
        unfold grouped in
        kept-group_digits z family (inserted_at (groups_of picture).0) true
          (padded (mandatory_count picture) (decimal (absolute n)))
          (λ k c e. inserted_at-IsSeparator picture k c plain e)
          (padded-AllDigits (mandatory_count picture) (absolute n))

    of_modifier :
        (b : Bool)
        → kept z (
            if b
            then map (in_family z) (grouped (absolute n) picture)
              ++ ordinal_suffix (absolute n % 100)
            else map (in_family z) (grouped (absolute n) picture))
          ≡ padded (mandatory_count picture) (decimal (absolute n))
    of_modifier false = digits
    of_modifier true =
        kept-append z (map (in_family z) (grouped (absolute n) picture))
          (ordinal_suffix (absolute n % 100))
        ∙ (λ i. digits i ++ kept-ordinal_suffix z (absolute n % 100) family i)
        ∙ append-nil (padded (mandatory_count picture) (decimal (absolute n)))

parse-shown :
    (max_digits : ℕ) (n : ℤ) (picture : List ℕ) (ordinal : Bool) (z : ℕ)
    → any is_any_digit picture ≡ true
    → any (λ (c : ℕ). c == b'-') picture ≡ false
    → family_from false b'0' picture ≡ some z
    → length (shown n picture ordinal z) ≤ max_digits + 1
    → parse_digits max_digits (shown n picture ordinal z) picture ≡ read n
unfolding parse_digits
parse-shown max_digits n picture ordinal z mandatory plain found short =
    let (family, same) = family_from-picture_family false b'0' z picture refl found in
    of_family (picture_family false b'0' picture) (picture_family_has false b'0' picture mandatory)
      same family
  where
    of_kept :
        (k : List ℕ)
        → length k ≤ max_digits + 1
        → set_string k ≡ some n
        → (if ltb (max_digits + 1) (length k) then failed work_limit else of_string (set_string k))
          ≡ read n
    of_kept k h e =
        let fits : ltb (max_digits + 1) (length k) ≡ false = ground arith in rw (fits, e) refl

    text : IsFamily z → set_string (kept z (shown n picture ordinal z)) ≡ some n
    text family =
        ap set_string (kept-shown n picture ordinal z family plain)
        ∙ set_string-signed n (padded (mandatory_count picture) (decimal (absolute n)))
            (padded-AllDigits (mandatory_count picture) (absolute n))
            (padded_positive (mandatory_count picture) (absolute n))
            (read-padded (mandatory_count picture) (absolute n))

    of_family :
        (f : Bool × ℕ)
        → f.0 ≡ true
        → f.1 ≡ z
        → IsFamily z
        → (if not f.0
            then failed d3130
            else if ltb (max_digits + 1) (length (kept f.1 (shown n picture ordinal z)))
            then failed work_limit
            else of_string (set_string (kept f.1 (shown n picture ordinal z))))
          ≡ read n
    of_family (false, y) has same family = cc
    of_family (true, y) has same family =
        let short_kept = kept_short z (shown n picture ordinal z) in
        rw same (of_kept (kept z (shown n picture ordinal z)) (omega arith) (text family))

-- The integer that a picture writes is read back through the picture, for every picture that has a digit and no minus
-- sign, whatever its digit family and its groups, as a cardinal or an ordinal, if the text has no more than one rune above
-- the limit of digits.
pub parse_digits-format_digits :
    (max_digits : ℕ) (n : ℤ) (picture out : List ℕ) (ordinal : Bool)
    → any is_any_digit picture ≡ true
    → any (λ (c : ℕ). c == b'-') picture ≡ false
    → format_digits n picture ordinal ≡ written out
    → length out ≤ max_digits + 1
    → parse_digits max_digits out picture ≡ read n
unfolding format_digits format_integer_decimal with_modifier
parse_digits-format_digits max_digits n picture out ordinal mandatory plain e short =
    of_places (any is_place picture) (family_from false b'0' picture) refl e
  where
    of_places :
        (b : Bool) (r : Option ℕ)
        → family_from false b'0' picture ≡ r
        → (if b
            then with_modifier n ordinal (elim r [
              | none ↦ refused d3131
              | some z ↦ written (map (in_family z) (grouped (absolute n) picture))
            ])
            else refused d3130)
          ≡ written out
        → parse_digits max_digits out picture ≡ read n
    of_places true none q e = cc
    of_places false r q e = cc
    of_places true (some z) q e =
        let same : shown n picture ordinal z ≡ out = unfold shown in ground arith in
        rw (← same) (parse-shown max_digits n picture ordinal z mandatory plain q (rw same short))
