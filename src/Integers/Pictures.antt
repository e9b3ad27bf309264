-- ===== src/Integers/Pictures.antt =====
-- `formatIntegerWithPicture` and `parseIntegerWithPicture` of go/internal/engine/functions/string_format_integer.go: the
-- choice between the notations. A text is the list of its runes.
pub mod Inverse
use jsonata.Base.{
  ℕ, ◌/◌, ◌^◌, ◌≤◌, Bool, true, false, ◌&&◌, ◌||◌, [], ◌∷◌, Option, none, some, Bytes, codes,
  bytes_eq, map, ltb, leb, ◌==◌, if◌then◌else◌,
}
use jsonata.Base.Int.{ℤ, pos}
use jsonata.Number.Parts.{to_lower, cut_at}
use jsonata.Integers.Roman.{to_upper, to_roman, from_roman}
use jsonata.Integers.Alphabetic
use jsonata.Integers.Alphabetic.{alphabetic, letter_base, parse_letters, ParsedInteger}
use jsonata.Integers.Words.Casing.{WordFormat, small, capital, title, format_words, parse_words}
use jsonata.Integers.Decimal
use jsonata.Integers.Decimal.{signed, absolute, format_digits, parse_digits}

-- `splitPictureModifier`
abbrev pub or_cardinal : Option Bytes → Bytes
or_cardinal none = codes "c"
or_cardinal (some modifier) = modifier

unfoldable pub split_picture_modifier : Bytes → Bytes × Bytes
unfolding cut_at
split_picture_modifier picture =
    let (token, modifier) = cut_at b';' picture in (token, or_cardinal modifier)

-- The notation that a token asks for.
pub data Notation : Type 0 where
  words : WordFormat → Notation
  roman : Bool → Notation
  letters : Bool → Notation
  digits : Notation

abbrev pub letter_notation : Bytes → Notation
letter_notation (c ∷ []) =
    if leb b'a' c && leb c b'z'
    then letters false
    else if leb b'A' c && leb c b'Z'
    then letters true
    else digits
letter_notation token = digits

unfoldable pub notation_of : Bytes → Notation
unfolding bytes_eq
notation_of token =
    if bytes_eq token (codes "w")
    then words small
    else if bytes_eq token (codes "W")
    then words capital
    else if bytes_eq token (codes "Ww")
    then words title
    else if bytes_eq token (codes "i")
    then roman false
    else if bytes_eq token (codes "I")
    then roman true
    else letter_notation token

-- The Roman numeral is refused where it is too long, or its value no int64.
pub data FormatError : Type 0 where
  picture_error : Decimal.PictureError → FormatError
  work_limit : FormatError

pub data Formatted : Type 0 where
  formatted : Bytes → Formatted
  refused : FormatError → Formatted

abbrev pub of_written : Decimal.Written → Formatted
of_written (Decimal.written s) = formatted s
of_written (Decimal.refused e) = refused (picture_error e)

unfoldable pub format_as : ℕ → ℤ → Bytes → Bool → Notation → Formatted
unfolding format_words to_roman alphabetic format_digits
format_as max_digits n token ordinal (words format) =
    formatted (signed n (format_words format ordinal (absolute n)))
format_as max_digits n token ordinal (roman upper) =
    if leb (2 ^ 63) (absolute n) || ltb max_digits (absolute n / 1000)
    then refused work_limit
    else formatted (signed n (to_roman (absolute n) upper))
format_as max_digits n token ordinal (letters upper) =
    formatted (signed n (alphabetic (absolute n) (letter_base upper)))
format_as max_digits n token ordinal digits = of_written (format_digits n token ordinal)

unfoldable pub format_integer_with_picture : ℕ → ℤ → Bytes → Formatted
unfolding split_picture_modifier bytes_eq notation_of format_as
format_integer_with_picture max_digits n picture =
    let (token, modifier) = split_picture_modifier picture in
    format_as max_digits n token (bytes_eq modifier (codes "o")) (notation_of token)

pub data ParseError : Type 0 where
  d3130 d3137 work_limit : ParseError

pub data Parsed : Type 0 where
  parsed : ℤ → Parsed
  failed : ParseError → Parsed

abbrev pub of_natural : ParsedInteger → Parsed
of_natural (Alphabetic.parsed n) = parsed (pos n)
of_natural (Alphabetic.failed Alphabetic.d3137) = failed d3137
of_natural (Alphabetic.failed Alphabetic.work_limit) = failed work_limit

abbrev pub of_roman : Option ℤ → Parsed
of_roman none = failed d3137
of_roman (some n) = parsed n

abbrev pub of_read : Decimal.Read → Parsed
of_read (Decimal.read n) = parsed n
of_read (Decimal.failed Decimal.d3130) = failed d3130
of_read (Decimal.failed Decimal.d3137) = failed d3137
of_read (Decimal.failed Decimal.work_limit) = failed work_limit

unfoldable pub parse_as : ℕ → Bytes → Bytes → Notation → Parsed
unfolding parse_words from_roman parse_letters parse_digits
parse_as max_digits s token (words format) = of_natural (parse_words max_digits s)
parse_as max_digits s token (roman upper) = of_roman (from_roman (map to_upper s))
parse_as max_digits s token (letters upper) =
    of_natural (parse_letters max_digits 0 (map to_lower s))
parse_as max_digits s token digits = of_read (parse_digits max_digits s token)

unfoldable pub parse_integer_with_picture : ℕ → Bytes → Bytes → Parsed
unfolding split_picture_modifier notation_of parse_as
parse_integer_with_picture max_digits s picture =
    let (token, _) = split_picture_modifier picture in
    parse_as max_digits s token (notation_of token)
