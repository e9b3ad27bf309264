-- ===== src/Strings/Utf8.antt =====
-- Go's unicode/utf8 and unicode/utf16, as go/internal/engine/internal/jstring/string.go uses them.
use jsonata.Base.{
  ℕ, ◌+◌, ◌-◌, ◌*◌, ◌/◌, ◌%◌, Bool, ◌&&◌, ◌||◌, [], ◌∷◌, Bytes, ltb, leb, ◌==◌, if◌then◌else◌,
}

abbrev pub between : ℕ → ℕ → ℕ → Bool
between low high x = leb low x && leb x high

-- U+FFFD
abbrev pub rune_error : ℕ
rune_error = 65533

-- `string(rune(r))` and `utf8.AppendRune`
unfoldable pub encode_rune : ℕ → Bytes
encode_rune r =
    if ltb r 128
    then r ∷ []
    else if ltb r 2048
    then (192 + r / 64) ∷ (128 + r % 64) ∷ []
    else if between 55296 57343 r || ltb 1114111 r
    then 239 ∷ 191 ∷ 189 ∷ []
    else if ltb r 65536
    then (224 + r / 4096) ∷ (128 + (r / 64) % 64) ∷ (128 + r % 64) ∷ []
    else (240 + r / 262144) ∷ (128 + (r / 4096) % 64) ∷ (128 + (r / 64) % 64) ∷ (128 + r % 64) ∷ []

abbrev pub is_tail : ℕ → Bool
is_tail b = between 128 191 b

-- The second byte of three or four, by the first one.
abbrev pub second_fits : ℕ → ℕ → Bool
second_fits c b =
    if c == 224
    then between 160 191 b
    else if c == 237
    then between 128 159 b
    else if c == 240
    then between 144 191 b
    else if c == 244
    then between 128 143 b
    else between 128 191 b

-- The rune and the number of bytes behind the first one that it takes.
unfoldable pub decode_two : ℕ → Bytes → ℕ × ℕ
decode_two c [] = (rune_error, 0)
decode_two c (b ∷ s) = if is_tail b then ((c % 32) * 64 + b % 64, 1) else (rune_error, 0)

unfoldable pub decode_three : ℕ → Bytes → ℕ × ℕ
decode_three c (b ∷ d ∷ s) =
    if second_fits c b && is_tail d
    then ((c % 16) * 4096 + (b % 64) * 64 + d % 64, 2)
    else (rune_error, 0)
decode_three c s = (rune_error, 0)

unfoldable pub decode_four : ℕ → Bytes → ℕ × ℕ
decode_four c (b ∷ d ∷ e ∷ s) =
    if second_fits c b && is_tail d && is_tail e
    then ((c % 8) * 262144 + (b % 64) * 4096 + (d % 64) * 64 + e % 64, 3)
    else (rune_error, 0)
decode_four c s = (rune_error, 0)

-- `utf8.DecodeRuneInString` of the byte `c` and what follows it.
unfoldable pub decode_rune : ℕ → Bytes → ℕ × ℕ
unfolding decode_two decode_three decode_four
decode_rune c s =
    if ltb c 128
    then (c, 0)
    else if between 194 223 c
    then decode_two c s
    else if between 224 239 c
    then decode_three c s
    else if between 240 244 c
    then decode_four c s
    else (rune_error, 0)

-- `utf16.EncodeRune` of a rune above U+FFFF: its two halves.
abbrev pub high_half : ℕ → ℕ
high_half r = 55296 + ((r - 65536) / 1024) % 1024

abbrev pub low_half : ℕ → ℕ
low_half r = 56320 + (r - 65536) % 1024

-- `utf16.DecodeRune` of two halves.
abbrev pub join_halves : ℕ → ℕ → ℕ
join_halves u v = (u - 55296) * 1024 + (v - 56320) + 65536
