-- ===== src/Strings/Scan.antt =====
-- `Characters`, `Concat`, `Join` and `Valid` of go/internal/engine/internal/jstring/string.go.
use jsonata.Base.{
  ℕ, zero, suc, ◌-◌, Bool, true, false, ◌&&◌, List, [], ◌∷◌, ◌++◌, Bytes, leb, ◌==◌, if◌then◌else◌,
  length, take, drop,
}
use jsonata.Strings.Utf8.{encode_rune, decode_rune, join_halves}
use jsonata.Strings.Units.{surrogate, is_high, is_low}

-- How many bytes behind the first one belong to its character.
unfoldable pub char_size : ℕ → Bytes → ℕ
unfolding surrogate decode_rune
char_size c s = if surrogate c s == 0 then (decode_rune c s).1 else 2

-- The loop of `Characters`, with the bytes of the last character still to be passed over.
unfoldable pub characters_after : ℕ → Bytes → List Bytes
unfolding char_size
characters_after skip [] = []
characters_after (suc skip) (c ∷ s) = characters_after skip s
characters_after zero (c ∷ s) = (c ∷ take (char_size c s) s) ∷ characters_after (char_size c s) s

unfoldable pub characters : Bytes → List Bytes
unfolding characters_after
characters s = characters_after 0 s

-- `surrogate` of a string.
abbrev pub surrogate_of : Bytes → ℕ
surrogate_of [] = 0
surrogate_of (c ∷ s) = surrogate c s

-- `Concat`, and `appendCanonical` on the bytes so far.
unfoldable pub concat : Bytes → Bytes → Bytes
unfolding encode_rune surrogate
concat a b =
    let last = length a - 3 in
    let hi = surrogate_of (drop last a) in
    let lo = surrogate_of b in
    if leb 3 (length a) && leb 3 (length b) && is_high hi && is_low lo
    then take last a ++ encode_rune (join_halves hi lo) ++ drop 3 b
    else a ++ b

unfoldable pub join_from : Bytes → List Bytes → Bytes → Bytes
unfolding concat
join_from out [] separator = out
join_from out (part ∷ parts) separator =
    join_from (concat (concat out separator) part) parts separator

unfoldable pub join : List Bytes → Bytes → Bytes
unfolding join_from
join [] separator = []
join (part ∷ parts) separator = join_from (concat [] part) parts separator

-- One round of the loop of `Valid`: whether it goes on, the code unit that it leaves in `previous`, and the
-- bytes that it takes behind the first one.
unfoldable pub valid_round : ℕ → ℕ → Bytes → Bool × ℕ × ℕ
unfolding surrogate decode_rune
valid_round previous c s =
    if surrogate c s == 0
    then (if (decode_rune c s).1 == 0 && leb 128 c
        then (false, 0, 0)
        else (true, 0, (decode_rune c s).1))
    else if is_high previous && leb 56320 (surrogate c s)
    then (false, 0, 0)
    else (true, surrogate c s, 2)

unfoldable pub valid_after : ℕ → ℕ → Bytes → Bool
unfolding valid_round
valid_after previous skip [] = true
valid_after previous (suc skip) (c ∷ s) = valid_after previous skip s
valid_after previous zero (c ∷ s) =
    let (fits, unit, size) = valid_round previous c s in
    let rest = valid_after unit size s in if fits then rest else false

unfoldable pub valid : Bytes → Bool
unfolding valid_after
valid s = valid_after 0 0 s
