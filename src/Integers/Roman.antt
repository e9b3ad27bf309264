-- ===== src/Integers/Roman.antt =====
-- `toRoman` and `fromRoman` of go/internal/engine/functions/string_format_integer.go. Case is mapped on ASCII.
pub mod Reads
use jsonata.Base.{
  ℕ, zero, suc, ◌+◌, ◌-◌, ◌*◌, ◌/◌, ◌%◌, ◌<◌, ◌≤◌, Bool, true, false, ◌&&◌, List, [], ◌∷◌, ◌++◌,
  map, Option, none, some, Bytes, codes, replicate, ltb, leb, ◌==◌, if◌then◌else◌, ◌≡◌, refl, ap,
  ◌∙◌, sym, arith,
}
use jsonata.Base.Int.{ℤ, pos, negsuc, ◌+ℤ◌}
use jsonata.Number.Parts.{to_lower}

abbrev pub to_upper : ℕ → ℕ
to_upper c = if leb b'a' c && leb c b'z' then c - 32 else c

-- One `for n >= v`: the symbols that it writes, and what is left; `n` rounds are enough.
unfoldable pub repeat_symbol : ℕ → ℕ → Bytes → ℕ → Bytes × ℕ
repeat_symbol zero v symbol n = ([], n)
repeat_symbol (suc fuel) v symbol n = elim (leb v n) [
  | true ↦
      (symbol ++ (repeat_symbol fuel v symbol (n - v)).0, (repeat_symbol fuel v symbol (n - v)).1)
  | false ↦ ([], n)
]

unfoldable pub roman_from : List (ℕ × Bytes) → ℕ → Bytes
unfolding repeat_symbol
roman_from [] n = []
roman_from ((v, symbol) ∷ table) n =
    let (written, left) = repeat_symbol n v symbol n in written ++ roman_from table left

-- `vals` and `syms` behind their first entry.
abbrev pub small_symbols : List (ℕ × Bytes)
small_symbols =
    (900, codes "CM")
    ∷ (500, codes "D")
    ∷ (400, codes "CD")
    ∷ (100, codes "C")
    ∷ (90, codes "XC")
    ∷ (50, codes "L")
    ∷ (40, codes "XL")
    ∷ (10, codes "X")
    ∷ (9, codes "IX")
    ∷ (5, codes "V")
    ∷ (4, codes "IV")
    ∷ (1, codes "I")
    ∷ []

unfoldable pub to_roman : ℕ → Bool → Bytes
unfolding roman_from
to_roman n upper =
    let result = roman_from ((1000, codes "M") ∷ small_symbols) n in
    if n == 0 then [] else if upper then result else map to_lower result

unfoldable pub roman_value : ℕ → Option ℕ
roman_value c =
    if c == b'I'
    then some 1
    else if c == b'V'
    then some 5
    else if c == b'X'
    then some 10
    else if c == b'L'
    then some 50
    else if c == b'C'
    then some 100
    else if c == b'D'
    then some 500
    else if c == b'M'
    then some 1000
    else none

-- Whether the next symbol is there and is worth more than `v`.
unfoldable pub next_larger : ℕ → Bytes → Bool
unfolding roman_value
next_larger v [] = false
next_larger v (c ∷ s) = elim (roman_value c) [ some w ↦ ltb v w | none ↦ false ]

-- `-v`
abbrev pub minus : ℕ → ℤ
minus zero = pos 0
minus (suc n) = negsuc n

-- The total with a symbol worth `v`, in front of the symbols `s`.
abbrev pub add_symbol : ℤ → ℕ → Bytes → ℤ
add_symbol total v s = if next_larger v s then total +ℤ minus v else total +ℤ pos v

-- The loop of `fromRoman`, with the total so far; `none` is the error D3137.
unfoldable pub roman_total : ℤ → Bytes → Option ℤ
unfolding roman_value next_larger ◌+ℤ◌
roman_total total [] = some total
roman_total total (c ∷ s) = elim (roman_value c) [
  | none ↦ none
  | some v ↦ roman_total (add_symbol total v s) s
]

unfoldable pub from_roman : Bytes → Option ℤ
unfolding roman_total
from_roman s = roman_total (pos 0) s
