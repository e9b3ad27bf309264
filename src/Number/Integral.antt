-- ===== src/Number/Integral.antt =====
-- Predicate indexes that are written as integers: `Index` of go/internal/engine/internal/numeric/control.go.
use Prim.Native.Nat.{Ordering}
use jsonata.Base.{
  ℕ, zero, suc, ◌+◌, ◌-◌, ◌/◌, ◌%◌, ◌^◌, ◌<◌, ◌≤◌, Bool, true, false, [], ◌∷◌, ◌++◌, none, some,
  Bytes, length, if◌then◌else◌, replicate, ltb, leb, ◌==◌, ◌≡◌, refl, sym, ap, subst, ◌∙◌, arith,
  length-append, Bool-cases, inl, inr, ◌⊎◌,
}
use jsonata.Base.Int.{ℤ, pos, negsuc, ◌+ℤ◌}
use jsonata.Number.Digits.{AllDigits, trim_right-AllDigits}
use jsonata.Number.Parts.{parts, trim_right, cons_unless_zero, is_zero}
use jsonata.Number.Coefficients.{trim_right_head, trim_right_twice}
use jsonata.Number.Compare.{compare_text}
use jsonata.Number.Format.{decimal_from, decimal, prefix}
use jsonata.Number.Decimal.{read-decimal, decimal-AllDigits}
use jsonata.Number.Order.{compare_text-eq_iff}
use jsonata.Number.Reading.{IsCoefficient, with_exponent, parts_whole, length-replicate}
use jsonata.Number.Control.{
  format_int, parse_int, whole_digits, trunc_parts, trunc_int64, floor_from, floor_int64, index,
  from_end, within,
}

length-decimal_from : (fuel n d : ℕ) → n < 10 ^ suc d → length (decimal_from fuel n) ≤ suc d
unfolding decimal_from
length-decimal_from zero n d h = omega arith
length-decimal_from (suc fuel) n zero h =
    let small : ltb n 10 ≡ true = ground arith in rw (small, decimal_from) (omega arith)
length-decimal_from (suc fuel) n (suc d) h = elim (Bool-cases (ltb n 10)) [
  | inl small ↦ rw (small, decimal_from) (omega arith)
  | inr large ↦
      rw (large, decimal_from, length-append (decimal_from fuel (n / 10)) ((b'0' + n % 10) ∷ []))
        (omega (arith, length-decimal_from fuel (n / 10) d (omega arith)))
]

-- A positive number does not begin with a zero.
first_digit :
    (fuel n : ℕ)
    → 0 < n
    → n < fuel
    → (x : ℕ) × (t : Bytes) × (decimal_from fuel n ≡ x ∷ t) × ((x == b'0') ≡ false)
unfolding decimal_from
first_digit zero n h k = absurd (omega arith)
first_digit (suc fuel) n h k = elim (Bool-cases (ltb n 10)) [
  | inl small ↦ (b'0' + n, [], rw (small, decimal_from), ground arith)
  | inr large ↦
      let (x, t, e, first) = first_digit fuel (n / 10) (ground arith) (ground arith) in
      (x, t ++ (b'0' + n % 10) ∷ [], rw (large, decimal_from, e), first)
]

zeros_behind : (s : Bytes) → (j : ℕ) × (s ≡ trim_right s ++ replicate j b'0')
unfolding trim_right
zeros_behind [] = (0, refl)
zeros_behind (c ∷ s) =
    let (j, e) = zeros_behind s in of_rest (trim_right s) j e (Bool-cases (c == b'0'))
  where
    of_rest :
        (r : Bytes) (j : ℕ)
        → s ≡ r ++ replicate j b'0'
        → ((c == b'0') ≡ true) ⊎ ((c == b'0') ≡ false)
        → (i : ℕ) × (c ∷ s ≡ cons_unless_zero c r ++ replicate i b'0')
    of_rest [] j e (inl z) = (suc j, rw z (ground (arith, e)))
    of_rest [] j e (inr z) = (j, rw z (ap (◌∷◌ c) e))
    of_rest (d ∷ r) j e z = (j, ap (◌∷◌ c) e)

record IsWritten (m : ℕ) : Type 0 where
  x : ℕ
  t : Bytes
  j : ℕ
  coefficient : IsCoefficient x t
  split : decimal m ≡ (x ∷ t) ++ replicate j b'0'

decimal-IsWritten : (m : ℕ) → 0 < m → IsWritten m
decimal-IsWritten m h =
    let (x, w, e, first) : (x : ℕ) × (w : Bytes) × (decimal m ≡ x ∷ w) × ((x == b'0') ≡ false) =
      unfold decimal in first_digit (suc m) m h (omega arith) in
    let (t, trimmed) = trim_right_head x w first in
    let (j, behind) = zeros_behind (x ∷ w) in
    record {
      x = x;
      t = t;
      j = j;
      coefficient = record {
        head = first;
        trimmed = subst (λ s. trim_right s ≡ s) trimmed (trim_right_twice (x ∷ w));
        digits =
            subst AllDigits trimmed
              (trim_right-AllDigits (x ∷ w) (subst AllDigits e (decimal-AllDigits m)));
      };
      split = e ∙ behind ∙ ap (λ s. s ++ replicate j b'0') trimmed;
    }

trunc_parts_whole :
    (negative : Bool) (x : ℕ) (t : Bytes) (j : ℕ)
    → (x == b'0') ≡ false
    → length t + j ≤ 18
    → trunc_parts (with_exponent negative (x ∷ t) (pos (length t + j)))
      ≡ parse_int negative ((x ∷ t) ++ replicate j b'0')
unfolding trunc_parts whole_digits
trunc_parts_whole negative x t j first small =
    let some_digit : is_zero (with_exponent negative (x ∷ t) (pos (length t + j))) ≡ false =
      not_zero t in
    let fits : ltb 18 (length t + j) ≡ false = ground arith in
    let long : ltb (suc (length t + j)) (suc (length t)) ≡ false = ground arith in
    let rest : suc (length t + j) - suc (length t) ≡ j = omega arith in
    rw (some_digit, fits, long, rest)
  where
    not_zero : (u : Bytes) → is_zero (with_exponent negative (x ∷ u) (pos (length t + j))) ≡ false
    not_zero [] = unfold is_zero in first
    not_zero (d ∷ u) = unfold is_zero in refl

trunc_int64-decimal :
    (negative : Bool) (m : ℕ)
    → 0 < m
    → m < 10 ^ 19
    → trunc_int64 (prefix negative ++ decimal m) ≡ parse_int negative (decimal m)
trunc_int64-decimal negative m h small =
    let w = decimal-IsWritten m h in
    let long : length (decimal m) ≤ 19 = unfold decimal in length-decimal_from (suc m) m 18 small in
    let sized : length (decimal m) ≡ suc (length w.t) + w.j =
      ap length w.split
      ∙ length-append (w.x ∷ w.t) (replicate w.j b'0')
      ∙ ap (λ k. suc (length w.t) + k) (length-replicate w.j b'0') in
    unfold trunc_int64 in
    ap (λ s. trunc_parts (parts (prefix negative ++ s))) w.split
    ∙ ap trunc_parts (parts_whole negative w.x w.t w.coefficient w.j)
    ∙ trunc_parts_whole negative w.x w.t w.j w.coefficient.head (omega arith)
    ∙ ap (parse_int negative) (sym w.split)

same_order : (s : Bytes) → compare_text s s ≡ Ordering.eq
same_order s = (compare_text-eq_iff s s).1 refl

floor_from-format_int : (i : ℤ) → floor_from (format_int i) i ≡ some i
unfolding floor_from
floor_from-format_int i = rw (floor_from, same_order (format_int i))

floor_int64-trunc_int64 :
    (i : ℤ) → trunc_int64 (format_int i) ≡ some i → floor_int64 (format_int i) ≡ some i
unfolding floor_int64
floor_int64-trunc_int64 i h = rw (floor_int64, h) (floor_from-format_int i)

trunc_zero : trunc_int64 (format_int (pos 0)) ≡ some (pos 0)
unfolding trunc_int64 trunc_parts format_int parts is_zero
trunc_zero = refl

floor_int64-pos : (m : ℕ) → m < 2 ^ 63 → floor_int64 (format_int (pos m)) ≡ some (pos m)
unfolding format_int prefix
floor_int64-pos zero h = floor_int64-trunc_int64 (pos 0) trunc_zero
floor_int64-pos (suc m) h =
    let fits : ltb (suc m) (2 ^ 63) ≡ true = ground arith in
    let read : parse_int false (decimal (suc m)) ≡ some (pos (suc m)) =
      unfold parse_int in rw (read-decimal (suc m), fits) in
    floor_int64-trunc_int64 (pos (suc m))
      (trunc_int64-decimal false (suc m) (omega arith) (omega arith) ∙ read)

floor_int64-negsuc : (m : ℕ) → m < 2 ^ 63 → floor_int64 (format_int (negsuc m)) ≡ some (negsuc m)
unfolding format_int prefix
floor_int64-negsuc m h =
    let fits : leb (suc m) (2 ^ 63) ≡ true = ground arith in
    let read : parse_int true (decimal (suc m)) ≡ some (negsuc m) =
      unfold parse_int in rw (read-decimal (suc m), fits) in
    floor_int64-trunc_int64 (negsuc m)
      (trunc_int64-decimal true (suc m) (omega arith) (omega arith) ∙ read)

-- An index written as an integer of 64 bits: `k` selects the position `k` of a list that is longer and nothing in any
-- other, and `-(m + 1)` selects the position that stands `m` before the last one, and nothing when that is in front of
-- the list.
pub index-format_int :
    (n k m : ℕ)
    → k < 2 ^ 63
    → m < 2 ^ 63
    → (index (format_int (pos k)) n ≡ (if ltb k n then some k else none))
      × (index (format_int (negsuc m)) n ≡ (if ltb m n then some (n - (m + 1)) else none))
unfolding index
index-format_int n k m hk hm = (
  rw (index, floor_int64-pos k hk) (unfold within from_end in refl),
  rw (index, floor_int64-negsuc m hm) (from_the_end (Bool-cases (ltb m n))),
)
  where
    from_the_end :
        ((ltb m n ≡ true) ⊎ (ltb m n ≡ false))
        → within (from_end (negsuc m) n) n ≡ (if ltb m n then some (n - (m + 1)) else none)
    from_the_end (inl h) = unfold within from_end ◌+ℤ◌ in ground arith
    from_the_end (inr h) = unfold within from_end ◌+ℤ◌ in ground arith
