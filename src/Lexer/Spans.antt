-- ===== src/Lexer/Spans.antt =====
-- The runs of bytes that the lexer reads: white space, comments, names, numbers.
use jsonata.Base.{
  ℕ, Bool, false, ◌&&◌, ◌||◌, [], ◌∷◌, ◌++◌, Option, none, some, Bytes, codes, ◌==◌, if◌then◌else◌,
}
use jsonata.Number.Grammar.{is_digit}

abbrev pub is_white : ℕ → Bool
is_white c = c == 32 || c == 9 || c == 10 || c == 13 || c == 11

unfoldable pub member : ℕ → Bytes → Bool
member c [] = false
member c (d ∷ s) = c == d || member c s

unfoldable pub is_stop_char : ℕ → Bool
unfolding member
is_stop_char c = is_white c || member c (codes ".[]{}(),@#;:?+-*/%|=<>^&!~")

unfoldable pub skip_white : Bytes → Bytes
skip_white [] = []
skip_white (c ∷ s) = let rest = skip_white s in if is_white c then rest else c ∷ s

abbrev pub starts_with : ℕ → Bytes → Bool
starts_with c [] = false
starts_with c (d ∷ s) = d == c

abbrev pub tail : Bytes → Bytes
tail [] = []
tail (c ∷ s) = s

-- The text behind the `*/` that closes a comment.
unfoldable pub skip_comment : Bytes → Option Bytes
skip_comment [] = none
skip_comment (c ∷ s) =
    let rest = skip_comment s in if c == b'*' && starts_with b'/' s then some (tail s) else rest

-- The longest run of bytes that pass a test, and the rest.
unfoldable pub span : (ℕ → Bool) → Bytes → Bytes × Bytes
span test [] = ([], [])
span test (c ∷ s) = let (run, rest) = span test s in if test c then (c ∷ run, rest) else ([], c ∷ s)

-- `scanNumber`, part by part: the integer, from its first digit on.
unfoldable pub integer_span : ℕ → Bytes → Bytes × Bytes
unfolding span
integer_span c s = if c == b'0' then (c ∷ [], s) else span is_digit (c ∷ s)

unfoldable pub fraction_span : Bytes → Bytes × Bytes
unfolding span
fraction_span [] = ([], [])
fraction_span (c ∷ []) = ([], c ∷ [])
fraction_span (c ∷ d ∷ s) =
    if c == b'.' && is_digit d
    then (let (digits, rest) = span is_digit (d ∷ s) in (c ∷ digits, rest))
    else ([], c ∷ d ∷ s)

unfoldable pub sign_span : Bytes → Bytes × Bytes
sign_span [] = ([], [])
sign_span (c ∷ s) = if c == b'+' || c == b'-' then (c ∷ [], s) else ([], c ∷ s)

unfoldable pub exponent_span : Bytes → Bytes × Bytes
unfolding span sign_span
exponent_span [] = ([], [])
exponent_span (c ∷ s) =
    if c == b'e' || c == b'E'
    then (let (sign, after) = sign_span s in
        let (digits, rest) = span is_digit after in (c ∷ (sign ++ digits), rest))
    else ([], c ∷ s)

unfoldable pub number_span : ℕ → Bytes → Bytes × Bytes
unfolding integer_span fraction_span exponent_span
number_span c s =
    let (integer, after_integer) = integer_span c s in
    let (fraction, after_fraction) = fraction_span after_integer in
    let (exponent, rest) = exponent_span after_fraction in (integer ++ (fraction ++ exponent), rest)
