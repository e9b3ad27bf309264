-- ===== src/Number/Format.antt =====
-- `Format` of go/internal/engine/internal/numeric/value.go, with the decimal notation of `big.Int.String`.
use jsonata.Base.{
  ℕ, zero, suc, ◌+◌, ◌-◌, ◌/◌, ◌%◌, Bool, true, false, ◌&&◌, [], ◌∷◌, ◌++◌, Bytes, codes, length,
  take, drop, replicate, ltb, leb, if◌then◌else◌,
}
use jsonata.Base.Int.{ℤ, pos, negsuc, leb_ℤ, ltb_ℤ}
use jsonata.Number.Parts.{Parts, parts, is_zero}

-- The decimal digits of a number below `10 ^ fuel`.
unfoldable pub decimal_from : ℕ → ℕ → Bytes
decimal_from zero n = []
decimal_from (suc fuel) n = elim (ltb n 10) [
  | true ↦ (b'0' + n) ∷ []
  | false ↦ decimal_from fuel (n / 10) ++ (b'0' + n % 10) ∷ []
]

unfoldable pub decimal : ℕ → Bytes
unfolding decimal_from
decimal n = decimal_from (suc n) n

-- `e.String()` behind the `+` that `Format` writes before an exponent of no sign.
unfoldable pub signed_decimal : ℤ → Bytes
signed_decimal (pos n) = b'+' ∷ decimal n
signed_decimal (negsuc n) = b'-' ∷ decimal (suc n)

unfoldable pub prefix : Bool → Bytes
prefix true = b'-' ∷ []
prefix false = []

-- The branch for an exponent of at least -6 and below 21; `point` is `e + 1`.
unfoldable pub plain : ℤ → Bytes → Bytes
plain (negsuc n) c = codes "0." ++ replicate n b'0' ++ c
plain (pos n) c =
    let point = suc n in
    if leb (length c) point
    then c ++ replicate (point - length c) b'0'
    else take point c ++ b'.' ∷ drop point c

unfoldable pub mantissa : Bytes → Bytes
mantissa [] = []
mantissa (d ∷ []) = d ∷ []
mantissa (d ∷ e ∷ c) = d ∷ b'.' ∷ e ∷ c

unfoldable pub scientific : ℤ → Bytes → Bytes
unfolding mantissa
scientific e c = mantissa c ++ b'e' ∷ signed_decimal e

unfoldable pub is_plain : ℤ → Bool
is_plain e = leb_ℤ (negsuc 5) e && ltb_ℤ e (pos 21)

unfoldable pub render : Parts → Bytes
unfolding prefix plain scientific is_zero is_plain
render p =
    if is_zero p
    then codes "0"
    else if is_plain p.adjusted
    then prefix p.negative ++ plain p.adjusted p.coefficient
    else prefix p.negative ++ scientific p.adjusted p.coefficient

unfoldable pub format : Bytes → Bytes
unfolding render parts signed_decimal decimal
format s = render (parts s)
