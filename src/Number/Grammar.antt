-- ===== src/Number/Grammar.antt =====
-- `Valid` of go/internal/engine/internal/numeric/value.go: the regular expression `grammar`
-- as a recogniser over the bytes of a token.
use jsonata.Base.{ℕ, Bool, true, false, ◌&&◌, ◌||◌, [], ◌∷◌, Bytes, leb, ◌==◌, if◌then◌else◌}

abbrev pub is_digit : ℕ → Bool
is_digit c = leb b'0' c && leb c b'9'

-- The text behind a longest run of digits, `[0-9]*`.
unfoldable pub skip_digits : Bytes → Bytes
skip_digits [] = []
skip_digits (c ∷ s) = if is_digit c then skip_digits s else c ∷ s

-- `[0-9]+` and then the end of the text.
unfoldable pub digits_end : Bytes → Bool
unfolding skip_digits
digits_end [] = false
digits_end (c ∷ s) = is_digit c && is_empty (skip_digits s)
  where
    is_empty : Bytes → Bool
    is_empty [] = true
    is_empty (c ∷ s) = false

-- `([eE][+-]?[0-9]+)?$`
unfoldable pub exponent_end : Bytes → Bool
unfolding digits_end
exponent_end [] = true
exponent_end (c ∷ []) = false
exponent_end (c ∷ d ∷ s) =
    (c == b'e' || c == b'E')
    && (if d == b'+' || d == b'-' then digits_end s else digits_end (d ∷ s))

-- `(\.[0-9]+)?([eE][+-]?[0-9]+)?$`
unfoldable pub fraction_end : Bytes → Bool
unfolding exponent_end skip_digits
fraction_end [] = true
fraction_end (c ∷ []) = false
fraction_end (c ∷ d ∷ s) =
    if c == b'.' then is_digit d && exponent_end (skip_digits s) else exponent_end (c ∷ d ∷ s)

-- `(0|[1-9][0-9]*)` and the rest.
unfoldable pub integer_end : Bytes → Bool
unfolding fraction_end skip_digits
integer_end [] = false
integer_end (c ∷ s) =
    if c == b'0' then fraction_end s else is_digit c && fraction_end (skip_digits s)

unfoldable pub valid : Bytes → Bool
unfolding integer_end
valid [] = false
valid (c ∷ s) = if c == b'-' then integer_end s else integer_end (c ∷ s)
