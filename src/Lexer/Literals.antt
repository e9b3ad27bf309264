-- ===== src/Lexer/Literals.antt =====
-- `scanString` of go/internal/engine/internal/lexer/lexer.go.
use jsonata.Base.{
  ℕ, zero, suc, ◌+◌, ◌-◌, ◌*◌, ◌&&◌, ◌||◌, [], ◌∷◌, ◌++◌, Option, none, some, Bytes, ◌==◌,
  if◌then◌else◌, take,
}
use jsonata.Lexer.Token.{Lexed, lexed, failed, s0101, s0103, s0104}
use jsonata.Strings.Utf8.{between, decode_rune, encode_rune, join_halves}
use jsonata.Strings.Units.{is_high, is_low, code_unit}

-- `simpleEscapes`, where `simpleEscapeValid` holds.
unfoldable pub simple_escape : ℕ → Option ℕ
simple_escape c =
    if c == 34 || c == 39 || c == 92 || c == 47
    then some c
    else if c == b'b'
    then some 8
    else if c == b'f'
    then some 12
    else if c == b'n'
    then some 10
    else if c == b'r'
    then some 13
    else if c == b't'
    then some 9
    else none

unfoldable pub hex_digit : ℕ → Option ℕ
hex_digit c =
    if between b'0' b'9' c
    then some (c - b'0')
    else if between b'a' b'f' c
    then some (c - b'a' + 10)
    else if between b'A' b'F' c
    then some (c - b'A' + 10)
    else none

-- `strconv.ParseUint` of four bytes, with base 16 and 16 bits.
unfoldable pub hex_four : ℕ → ℕ → ℕ → ℕ → Option ℕ
unfolding hex_digit
hex_four a b c d = elim (hex_digit a) [
  | none ↦ none
  | some x ↦ elim (hex_digit b) [
    | none ↦ none
    | some y ↦ elim (hex_digit c) [
      | none ↦ none
      | some z ↦ elim (hex_digit d) [
        | none ↦ none
        | some w ↦ some (x * 4096 + y * 256 + z * 16 + w)
      ]
    ]
  ]
]

-- The low surrogate that a second escape gives, if it is one.
unfoldable pub low_escape : Bytes → Option ℕ
unfolding hex_four
low_escape (e ∷ u ∷ a ∷ b ∷ c ∷ d ∷ s) =
    if e == 92 && u == b'u'
    then (elim (hex_four a b c d) [ none ↦ none | some r ↦ if is_low r then some r else none ])
    else none
low_escape s = none

-- What the escape for the code unit `r` adds, and how many bytes behind the backslash it takes.
unfoldable pub unit_escape : ℕ → Bytes → Bytes × ℕ
unfolding low_escape encode_rune code_unit
unit_escape r s =
    if is_high r
    then (elim (low_escape s) [
      | some v ↦ (encode_rune (join_halves r v), 11)
      | none ↦ (code_unit r, 5)
    ])
    else (code_unit r, 5)

unfoldable pub unicode_escape : Bytes → Lexed (Bytes × ℕ)
unfolding hex_four unit_escape
unicode_escape (a ∷ b ∷ c ∷ d ∷ s) = elim (hex_four a b c d) [
  | none ↦ failed s0104
  | some r ↦ lexed (unit_escape r s)
]
unicode_escape s = failed s0104

-- The text behind a backslash.
unfoldable pub escape : Bytes → Lexed (Bytes × ℕ)
unfolding simple_escape unicode_escape
escape [] = failed s0101
escape (c ∷ s) = elim (simple_escape c) [
  | some b ↦ lexed (b ∷ [], 1)
  | none ↦ if c == b'u' then unicode_escape s else failed s0103
]

-- One round of the loop: what it adds to the string, and how many bytes behind the first one it takes.
unfoldable pub piece_at : ℕ → Bytes → Lexed (Bytes × ℕ)
unfolding escape decode_rune
piece_at c s =
    if c == 92 then escape s else lexed (c ∷ take (decode_rune c s).1 s, (decode_rune c s).1)

-- The loop, with the bytes of the last round still to be passed over: the string and the text behind it.
unfoldable pub scan_string : ℕ → ℕ → Bytes → Bytes → Lexed (Bytes × Bytes)
unfolding piece_at
scan_string quote skip out [] = failed s0101
scan_string quote (suc skip) out (c ∷ s) = scan_string quote skip out s
scan_string quote zero out (c ∷ s) =
    let more : Lexed (Bytes × Bytes) = elim (piece_at c s) [
      | failed e ↦ failed e
      | lexed (piece, taken) ↦ scan_string quote taken (out ++ piece) s
    ] in
    if c == quote then lexed (out, s) else more
