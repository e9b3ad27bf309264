-- ===== src/Number/Decimal.antt =====
-- Decimal notation is read back: `big.Int.SetString` after `big.Int.String`.
use jsonata.Base.{
  ℕ, zero, suc, ◌+◌, ◌-◌, ◌*◌, ◌/◌, ◌<◌, false, [], ◌∷◌, ◌++◌, some, Bytes, map, ◌≡◌, refl, ap,
  arith, ltb, Bool-cases, inl, inr,
}
use jsonata.Base.Int.{ℤ, pos, negsuc}
use jsonata.Number.Digits.{AllDigits}
use jsonata.Number.Parts.{read_digits, written_exponent, sign_of, to_lower}
use jsonata.Number.Format.{decimal_from, decimal, signed_decimal}

read_digits-append :
    (n : ℕ) (s t : Bytes) → read_digits n (s ++ t) ≡ read_digits (read_digits n s) t
unfolding read_digits
read_digits-append n [] t = refl
read_digits-append n (c ∷ s) t = read_digits-append (n * 10 + (c - b'0')) s t

read-decimal_from : (fuel n : ℕ) → n < fuel → read_digits 0 (decimal_from fuel n) ≡ n
unfolding decimal_from read_digits
read-decimal_from zero n h = absurd (omega arith)
read-decimal_from (suc fuel) n h = elim (Bool-cases (ltb n 10)) [
  | inl small ↦ rw (small, decimal_from) (omega arith)
  | inr large ↦
      rw (large, decimal_from, read_digits-append 0 (decimal_from fuel (n / 10)) _)
        (ground (arith, read-decimal_from fuel (n / 10)))
]

pub append-AllDigits : (s t : Bytes) → AllDigits s → AllDigits t → AllDigits (s ++ t)
append-AllDigits [] t h k = k
append-AllDigits (c ∷ s) t h k = ground (arith, append-AllDigits s t)

decimal_from-AllDigits : (fuel n : ℕ) → AllDigits (decimal_from fuel n)
unfolding decimal_from
decimal_from-AllDigits zero n = tt
decimal_from-AllDigits (suc fuel) n = elim (Bool-cases (ltb n 10)) [
  | inl small ↦ rw (small, decimal_from) (ground arith)
  | inr large ↦
      rw (large, decimal_from)
        (append-AllDigits _ _ (decimal_from-AllDigits fuel (n / 10)) (omega arith))
]

pub read-decimal : (n : ℕ) → read_digits 0 (decimal n) ≡ n
unfolding decimal
read-decimal n = read-decimal_from (suc n) n (omega arith)

pub decimal-AllDigits : (n : ℕ) → AllDigits (decimal n)
unfolding decimal
decimal-AllDigits n = decimal_from-AllDigits (suc n) n

sign_of-AllDigits : (s : Bytes) → AllDigits s → sign_of s ≡ (false, s)
unfolding sign_of
sign_of-AllDigits [] h = refl
sign_of-AllDigits (c ∷ s) h = ground arith

-- An exponent that is written is read back.
pub written_exponent-signed_decimal : (e : ℤ) → written_exponent (some (signed_decimal e)) ≡ e
unfolding written_exponent signed_decimal
written_exponent-signed_decimal (pos n) =
    rw (sign_of-AllDigits _ (decimal-AllDigits n), read-decimal n)
written_exponent-signed_decimal (negsuc n) = rw (read-decimal (suc n)) (ground arith)

pub map_lower-append : (s t : Bytes) → AllDigits s → map to_lower (s ++ t) ≡ s ++ map to_lower t
map_lower-append [] t h = refl
map_lower-append (c ∷ s) t h = ground (arith, map_lower-append s t)

map_lower-AllDigits : (s : Bytes) → AllDigits s → map to_lower s ≡ s
map_lower-AllDigits [] h = refl
map_lower-AllDigits (c ∷ s) h = ground (arith, map_lower-AllDigits s)

pub map_lower-signed_decimal : (e : ℤ) → map to_lower (signed_decimal e) ≡ signed_decimal e
unfolding signed_decimal
map_lower-signed_decimal (pos n) = ap (◌∷◌ b'+') (map_lower-AllDigits _ (decimal-AllDigits n))
map_lower-signed_decimal (negsuc n) =
    ap (◌∷◌ b'-') (map_lower-AllDigits _ (decimal-AllDigits (suc n)))
