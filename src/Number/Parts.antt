-- ===== src/Number/Parts.antt =====
-- `parts`, `Zero` and `IsInteger` of go/internal/engine/internal/numeric/value.go: a token as a sign, a
-- coefficient with no zero at either end, and the exponent of its first digit.
use jsonata.Base.{
  ℕ, ◌+◌, ◌*◌, ◌-◌, Bool, true, false, ◌&&◌, [], ◌∷◌, ◌++◌, Option, none, some, Bytes, length, map,
  leb, ◌==◌, if◌then◌else◌,
}
use jsonata.Base.Int.{ℤ, pos, sub_ℕ, ◌+ℤ◌}

-- `strings.ToLower` on ASCII.
abbrev pub to_lower : ℕ → ℕ
to_lower c = if leb b'A' c && leb c b'Z' then c + 32 else c

-- `strings.Cut` and `strings.IndexByte`: the text before the first `sep`, and behind it.
unfoldable pub cut_at : ℕ → Bytes → Bytes × Option Bytes
cut_at sep [] = ([], none)
cut_at sep (c ∷ s) =
    let (head, tail) = cut_at sep s in if c == sep then ([], some s) else (c ∷ head, tail)

-- `strings.TrimLeft(s, "0")` and `strings.TrimRight(s, "0")`.
unfoldable pub trim_left : Bytes → Bytes
trim_left [] = []
trim_left (c ∷ s) = if c == b'0' then trim_left s else c ∷ s

unfoldable pub cons_unless_zero : ℕ → Bytes → Bytes
cons_unless_zero c [] = if c == b'0' then [] else c ∷ []
cons_unless_zero c (d ∷ s) = c ∷ d ∷ s

unfoldable pub trim_right : Bytes → Bytes
unfolding cons_unless_zero
trim_right [] = []
trim_right (c ∷ s) = cons_unless_zero c (trim_right s)

-- `strings.TrimPrefix(s, "-")` with `strings.HasPrefix(s, "-")`.
unfoldable pub sign_of : Bytes → Bool × Bytes
sign_of [] = (false, [])
sign_of (c ∷ s) = if c == b'-' then (true, s) else (false, c ∷ s)

unfoldable pub trim_plus : Bytes → Bytes
trim_plus [] = []
trim_plus (c ∷ s) = if c == b'+' then s else c ∷ s

-- Decimal digits read from the left; `big.Int.SetString` on the digits of a valid token.
unfoldable pub read_digits : ℕ → Bytes → ℕ
read_digits n [] = n
read_digits n (c ∷ s) = read_digits (n * 10 + (c - b'0')) s

unfoldable pub read_int : Bytes → ℤ
unfolding sign_of read_digits
read_int s =
    let (neg, ds) = sign_of s in if neg then sub_ℕ 0 (read_digits 0 ds) else pos (read_digits 0 ds)

pub record Parts : Type 0 where
  pub negative : Bool
  pub coefficient : Bytes
  pub adjusted : ℤ

abbrev pub zero_parts : Parts
zero_parts = record { negative = false; coefficient = b'0' ∷ []; adjusted = pos 0 }

-- The exponent that the token writes.
unfoldable pub written_exponent : Option Bytes → ℤ
unfolding read_int trim_plus
written_exponent none = pos 0
written_exponent (some e) = read_int (trim_plus e)

-- The digits with the point taken out, and how many stood behind it.
unfoldable pub join_point : Bytes × Option Bytes → Bytes × ℕ
join_point (whole, none) = (whole, 0)
join_point (whole, some fraction) = (whole ++ fraction, length fraction)

unfoldable pub assign : Bool → ℤ → Bytes → ℕ → Parts
unfolding trim_right ◌+ℤ◌
assign negative e [] fraction = zero_parts
assign negative e (c ∷ s) fraction = record {
  negative = negative;
  coefficient = trim_right (c ∷ s);
  adjusted = e +ℤ sub_ℕ (length (c ∷ s)) (fraction + 1);
}

unfoldable pub parts : Bytes → Parts
unfolding sign_of cut_at written_exponent join_point trim_left assign
parts token =
    let (negative, s) = sign_of token in
    let (head, exp) = cut_at b'e' (map to_lower s) in
    let (digits, fraction) = join_point (cut_at b'.' head) in
    assign negative (written_exponent exp) (trim_left digits) fraction

-- `c == "0"`
unfoldable pub is_zero : Parts → Bool
is_zero p = elim p.coefficient [ [] ↦ false | c ∷ s ↦ elim s [ [] ↦ c == b'0' | _ ∷ _ ↦ false ] ]
