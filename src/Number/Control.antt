-- ===== src/Number/Control.antt =====
-- `TruncInt64`, `FloorInt64`, `IterationLimit` and `Index` of go/internal/engine/internal/numeric/control.go, on the text
-- of a number that `Text` gives, for an int of 64 bits.
use Prim.Native.Nat.{Ordering}
use jsonata.Base.{
  ℕ, zero, suc, ◌-◌, ◌^◌, Bool, true, false, ◌∷◌, ◌++◌, Option, none, some, Bytes, length, take,
  replicate, ltb, leb, ◌||◌, if◌then◌else◌,
}
use jsonata.Base.Int.{ℤ, pos, negsuc, ◌+ℤ◌, leb_ℤ}
use jsonata.Number.Parts.{Parts, parts, is_zero, read_digits}
use jsonata.Number.Compare.{compare_text}
use jsonata.Number.Format.{decimal}

-- `IsInteger` of value.go: no digit stands behind the point. A coefficient has a digit.
unfoldable pub is_integer : Bytes → Bool
unfolding parts is_zero
is_integer s = let p = parts s in is_zero p || leb_ℤ (pos (length p.coefficient - 1)) p.adjusted

-- `strconv.FormatInt(i, 10)`
unfoldable pub format_int : ℤ → Bytes
unfolding decimal
format_int (pos n) = decimal n
format_int (negsuc n) = b'-' ∷ decimal (suc n)

-- The minus of a number.
abbrev pub minus : ℕ → ℤ
minus zero = pos zero
minus (suc n) = negsuc n

-- `strconv.ParseInt` of digits behind a minus or none; `none` is its range error.
unfoldable pub parse_int : Bool → Bytes → Option ℤ
unfolding read_digits
parse_int true c = let n = read_digits 0 c in if leb n (2 ^ 63) then some (minus n) else none
parse_int false c = let n = read_digits 0 c in if ltb n (2 ^ 63) then some (pos n) else none

-- The digits in front of the point, for the exponent `e`.
unfoldable pub whole_digits : ℕ → Bytes → Bytes
whole_digits e c =
    if ltb (suc e) (length c) then take (suc e) c else c ++ replicate (suc e - length c) b'0'

unfoldable pub trunc_parts : Parts → Option ℤ
unfolding is_zero parse_int whole_digits
trunc_parts p = elim p.adjusted [
  | negsuc n ↦ some (pos 0)
  | pos e ↦
      if is_zero p
      then some (pos 0)
      else if ltb 18 e
      then none
      else parse_int p.negative (whole_digits e p.coefficient)
]

unfoldable pub trunc_int64 : Bytes → Option ℤ
unfolding trunc_parts parts
trunc_int64 s = trunc_parts (parts s)

-- The last step of `FloorInt64`, on what `TruncInt64` returned.
unfoldable pub floor_from : Bytes → ℤ → Option ℤ
unfolding compare_text format_int
floor_from s i = elim (compare_text s (format_int i)) [
  | Ordering.lt ↦ if leb_ℤ i (negsuc (2 ^ 63 - 1)) then none else some (i +ℤ negsuc 0)
  | _ ↦ some i
]

unfoldable pub floor_int64 : Bytes → Option ℤ
unfolding trunc_int64 floor_from
floor_int64 s = elim (trunc_int64 s) [ some i ↦ floor_from s i | none ↦ none ]

-- `IterationLimit`; -1 is no limit.
unfoldable pub iteration_limit : Bytes → ℤ
unfolding trunc_int64 compare_text format_int
iteration_limit s = elim (trunc_int64 s) [
  | none ↦ negsuc 0
  | some i ↦
      if leb_ℤ (pos (2 ^ 63 - 2)) i
      then negsuc 0
      else (elim (compare_text s (format_int i)) [ Ordering.gt ↦ i +ℤ pos 1 | _ ↦ i ])
]

-- A negative index counts from the end.
unfoldable pub from_end : ℤ → ℕ → ℤ
from_end (pos i) n = pos i
from_end (negsuc i) n = negsuc i +ℤ pos n

-- The guards of `Index`.
unfoldable pub within : ℤ → ℕ → Option ℕ
within (pos i) n = if ltb i n then some i else none
within (negsuc i) n = none

-- `Index` behind `FloorInt64`.
abbrev pub index_from : ℤ → ℕ → Option ℕ
index_from i n = within (from_end i n) n

unfoldable pub index : Bytes → ℕ → Option ℕ
unfolding floor_int64 from_end within
index s n = elim (floor_int64 s) [ some i ↦ index_from i n | none ↦ none ]
