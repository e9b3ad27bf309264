-- ===== src/Integers/Pictures/Inverse.antt =====
-- Integers written and read with one picture: of go/internal/engine/functions/string_format_integer.go.
use jsonata.Base.{
  ℕ, ◌+◌, ◌/◌, ◌^◌, ◌<◌, ◌≤◌, Bool, true, false, ◌||◌, Bytes, codes, bytes_eq, length, any, map,
  ltb, leb, ◌==◌, if◌then◌else◌, ◌≡◌, ap, sym, ◌∙◌,
}
use jsonata.Base.Int.{pos}
use jsonata.Integers.Roman.{to_upper, to_roman, from_roman}
use jsonata.Integers.Roman.Reads.{from_roman-to_roman}
use jsonata.Integers.Alphabetic.{alphabetic, letter_base, parse_letters, parse_letters-alphabetic}
use jsonata.Integers.Words.Casing.{format_words, parse_words}
use jsonata.Integers.Words.Formats.{parse_words-format_words}
use jsonata.Number.Parts.{to_lower}
use jsonata.Integers.Decimal
use jsonata.Integers.Decimal.{is_any_digit, format_digits, parse_digits}
use jsonata.Integers.Decimal.RoundTrip.{parse_digits-format_digits}
use jsonata.Integers.Pictures.{
  split_picture_modifier, Notation, words, roman, letters, digits, notation_of, formatted, refused,
  work_limit, of_written, format_as, format_integer_with_picture, parsed, of_natural, of_roman,
  of_read, parse_as, parse_integer_with_picture,
}

-- A picture of digits has a digit and no minus sign, and the text is not above the limit.
abbrev pub IsReadable : Notation → ℕ → Bytes → Bytes → Type 0
IsReadable digits max_digits token s =
    (any is_any_digit token ≡ true)
    × (any (λ (c : ℕ). c == b'-') token ≡ false)
    × (length s ≤ max_digits + 1)
IsReadable notation max_digits token s = Unit

formatted_text : (s t : Bytes) → formatted s ≡ formatted t → s ≡ t
formatted_text s t h = cc

parse_as-format_as :
    (max_digits n : ℕ) (token s : Bytes) (ordinal : Bool) (notation : Notation)
    → n < 10 ^ max_digits
    → format_as max_digits (pos n) token ordinal notation ≡ formatted s
    → IsReadable notation max_digits token s
    → parse_as max_digits s token notation ≡ parsed (pos n)
unfolding format_as parse_as
parse_as-format_as max_digits n token s ordinal (words format) bound e h = ap of_natural (
    ap (parse_words max_digits) (sym (formatted_text (format_words format ordinal n) s e))
    ∙ parse_words-format_words max_digits n format ordinal bound)
parse_as-format_as max_digits n token s ordinal (roman upper) bound e h =
    of_test (leb (2 ^ 63) n || ltb max_digits (n / 1000)) e
  where
    of_test :
        (b : Bool)
        → (if b then refused work_limit else formatted (to_roman n upper)) ≡ formatted s
        → of_roman (from_roman (map to_upper s)) ≡ parsed (pos n)
    of_test true e = cc
    of_test false e = ap of_roman (
        ap (λ (t : Bytes). from_roman (map to_upper t))
          (sym (formatted_text (to_roman n upper) s e))
        ∙ from_roman-to_roman n upper)
parse_as-format_as max_digits n token s ordinal (letters upper) bound e h = ap of_natural (
    ap (λ (t : Bytes). parse_letters max_digits 0 (map to_lower t))
      (sym (formatted_text (alphabetic n (letter_base upper)) s e))
    ∙ parse_letters-alphabetic max_digits n upper bound)
parse_as-format_as max_digits n token s ordinal digits bound e (mandatory, plain, short) =
    ap of_read (
      parse_digits-format_digits max_digits (pos n) token s ordinal mandatory plain
        (of_result (format_digits (pos n) token ordinal) e) short)
  where
    of_result : (r : Decimal.Written) → of_written r ≡ formatted s → r ≡ Decimal.written s
    of_result (Decimal.written t) e = ap Decimal.written (formatted_text t s e)
    of_result (Decimal.refused d) e = cc

-- What is written for a natural number of at most `max_digits` digits with a picture is read back with this picture, in
-- every notation and as a cardinal or an ordinal; where the notation is that of digits, if the picture has a digit and no
-- minus sign and the text has no more than one rune above the limit.
pub parse_integer_with_picture-format :
    (max_digits n : ℕ) (picture s : Bytes)
    → n < 10 ^ max_digits
    → format_integer_with_picture max_digits (pos n) picture ≡ formatted s
    → IsReadable
        (notation_of (split_picture_modifier picture).0)
        max_digits
        (split_picture_modifier picture).0
        s
    → parse_integer_with_picture max_digits s picture ≡ parsed (pos n)
unfolding format_integer_with_picture parse_integer_with_picture
parse_integer_with_picture-format max_digits n picture s bound e h =
    parse_as-format_as max_digits n (split_picture_modifier picture).0 s
      (bytes_eq (split_picture_modifier picture).1 (codes "o"))
      (notation_of (split_picture_modifier picture).0) bound e h
