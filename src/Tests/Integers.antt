-- ===== src/Tests/Integers.antt =====
-- Integers in other notations.
use jsonata.Base.{true, false, some, map, codes, ◌≡◌, refl, arith, any, [], ◌∷◌, ◌++◌}
use jsonata.Base.Int.{pos, negsuc}
use jsonata.Integers.Roman.{to_upper, to_roman, from_roman}
use jsonata.Integers.Roman.Reads.{from_roman-to_roman}
use jsonata.Integers.Alphabetic.{alphabetic, parse_letters, parsed, failed, d3137, work_limit}
use jsonata.Integers.Words.{big_int_to_words}
use jsonata.Integers.Words.Ordinals.{words_to_big_int, ordinal_suffix}
use jsonata.Integers.Words.Casing.{title, format_words, parse_words}
use jsonata.Integers.Decimal.{
  digit_zero, is_any_digit, format_digits, written, refused, d3130, d3131, parse_digits, read,
}
use jsonata.Integers.Pictures.{
  split_picture_modifier, notation_of, formatted, format_integer_with_picture,
  parse_integer_with_picture,
}
use jsonata.Integers.Pictures
use jsonata.Integers.Pictures.Inverse.{IsReadable, parse_integer_with_picture-format}
use jsonata.Integers.Decimal.RoundTrip.{parse_digits-format_digits}
use jsonata.Integers.Words.Formats.{parse_words-format_words}

from_roman-to_roman_example : from_roman (map to_upper (to_roman 3999 false)) ≡ some (pos 3999)
from_roman-to_roman_example = from_roman-to_roman 3999 false

parse_words-format_words_example : parse_words 7 (format_words title true 1002021) ≡ parsed 1002021
parse_words-format_words_example = parse_words-format_words 7 1002021 title true (omega arith)

notations :
    (to_roman 1994 true ≡ codes "MCMXCIV")
    × (alphabetic 703 b'a' ≡ codes "aaa")
    × (big_int_to_words 1002321 ≡ codes "one million, two thousand, three hundred and twenty-one")
    × (format_words title true 1012 ≡ codes "One Thousand and Twelfth")
    × (ordinal_suffix 112 ≡ codes "th")
unfolding to_roman alphabetic big_int_to_words format_words ordinal_suffix
notations = (refl, refl, refl, refl, refl)

nine_trillion :
    words_to_big_int 20 (codes "nine thousand and seven trillion") ≡ parsed 9007000000000000
unfolding words_to_big_int
nine_trillion = refl

refused_words :
    (words_to_big_int 20 (codes "one dozen") ≡ failed d3137)
    × (words_to_big_int 3 (codes "one million") ≡ failed work_limit)
    × (parse_letters 2 0 (codes "zzz") ≡ failed work_limit)
unfolding words_to_big_int parse_letters
refused_words = (refl, refl, refl)

in_groups : format_digits (negsuc 1234566) (codes "#,##0") true ≡ written (codes "-1,234,567th")
unfolding format_digits
in_groups = refl

has_digit : any is_any_digit (codes "#,##0") ≡ true
unfolding digit_zero
has_digit = refl

parse_digits-format_digits_example :
    parse_digits 15 (codes "-1,234,567th") (codes "#,##0") ≡ read (negsuc 1234566)
parse_digits-format_digits_example =
    parse_digits-format_digits 15 (negsuc 1234566) (codes "#,##0") (codes "-1,234,567th") true
      has_digit refl in_groups (omega arith)

-- Arabic-Indic digits, in groups that the picture gives one by one.
other_family :
    (format_digits (pos 12345) (codes "#.##," ++ 1632 ∷ 1632 ∷ []) false
      ≡ written (1633 ∷ b'.' ∷ 1634 ∷ 1635 ∷ b',' ∷ 1636 ∷ 1637 ∷ []))
    × (format_digits (pos 1) (b'1' ∷ 1632 ∷ []) false ≡ refused d3131)
    × (format_digits (pos 1) (codes "x") false ≡ refused d3130)
unfolding format_digits
other_family = (refl, refl, refl)

with_picture : format_integer_with_picture 9 (pos 703) (codes "A") ≡ formatted (codes "AAA")
unfolding format_integer_with_picture
with_picture = refl

upper_letters :
    IsReadable
      (notation_of (split_picture_modifier (codes "A")).0)
      9
      (split_picture_modifier (codes "A")).0
      (codes "AAA")
unfolding notation_of split_picture_modifier
upper_letters = tt

parse_integer_with_picture-format_example :
    parse_integer_with_picture 9 (codes "AAA") (codes "A") ≡ Pictures.parsed (pos 703)
parse_integer_with_picture-format_example =
    parse_integer_with_picture-format 9 703 (codes "A") (codes "AAA") (omega arith) with_picture
      upper_letters

each_notation :
    (format_integer_with_picture 9 (negsuc 2) (codes "w;o") ≡ formatted (codes "-third"))
    × (format_integer_with_picture 9 (pos 12) (codes "i") ≡ formatted (codes "xii"))
    × (format_integer_with_picture 9 (pos 12) (codes "00;o") ≡ formatted (codes "12th"))
    × (parse_integer_with_picture 9 (codes "xii") (codes "I") ≡ Pictures.parsed (pos 12))
unfolding format_integer_with_picture parse_integer_with_picture
each_notation = (refl, refl, refl, refl)
