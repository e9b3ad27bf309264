-- ===== src/Strings/Units.antt =====
-- `Units`, `FromUnits`, `CodeUnit` and `surrogate` of go/internal/engine/internal/jstring/string.go.
use jsonata.Base.{
  ℕ, zero, suc, ◌+◌, ◌*◌, ◌/◌, ◌%◌, Bool, true, false, ◌&&◌, ◌||◌, List, [], ◌∷◌, ◌++◌, Bytes, ltb,
  ◌==◌, if◌then◌else◌,
}
use jsonata.Strings.Utf8.{between, encode_rune, decode_rune, high_half, low_half, join_halves}

-- `surrogate` of the first three bytes; 0 where there are fewer or they are no isolated code unit.
unfoldable pub surrogate : ℕ → Bytes → ℕ
surrogate a (b ∷ c ∷ s) =
    if a == 237 && between 160 191 b && c / 64 == 2
    then (a % 16) * 4096 + (b % 64) * 64 + c % 64
    else 0
surrogate a s = 0

unfoldable pub code_unit : ℕ → Bytes
unfolding encode_rune
code_unit u =
    if ltb u 55296 || ltb 57343 u
    then encode_rune u
    else (224 + u / 4096) ∷ (128 + (u / 64) % 64) ∷ (128 + u % 64) ∷ []

-- One round of the loop of `Units`: the code units, and how many bytes behind the first one they take.
unfoldable pub next_units : ℕ → Bytes → List ℕ × ℕ
unfolding surrogate decode_rune
next_units c s =
    if surrogate c s == 0
    then (if ltb 65535 (decode_rune c s).0
        then (
          high_half (decode_rune c s).0 ∷ low_half (decode_rune c s).0 ∷ [],
          (decode_rune c s).1,
        )
        else ((decode_rune c s).0 ∷ [], (decode_rune c s).1))
    else (surrogate c s ∷ [], 2)

-- The loop of `Units`, with the bytes that the last round took still to be passed over.
unfoldable pub units_after : ℕ → Bytes → List ℕ
unfolding next_units
units_after skip [] = []
units_after (suc skip) (c ∷ s) = units_after skip s
units_after zero (c ∷ s) = (next_units c s).0 ++ units_after (next_units c s).1 s

unfoldable pub units : Bytes → List ℕ
unfolding units_after
units s = units_after 0 s

abbrev pub is_high : ℕ → Bool
is_high u = between 55296 56319 u

abbrev pub is_low : ℕ → Bool
is_low u = between 56320 57343 u

unfoldable pub from_units : List ℕ → Bytes
unfolding code_unit encode_rune
from_units [] = []
from_units (u ∷ []) = code_unit u
from_units (u ∷ v ∷ us) = elim (is_high u && is_low v) [
  | true ↦ encode_rune (join_halves u v) ++ from_units us
  | false ↦ code_unit u ++ from_units (v ∷ us)
]
