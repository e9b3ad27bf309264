-- ===== src/Integers/Words/Casing.antt =====
-- The word formats of `formatIntegerWithPicture`, and `toTitleCase`, of
-- go/internal/engine/functions/string_format_integer.go.
use jsonata.Base.{
  ℕ, Bool, true, not, ◌||◌, List, [], ◌∷◌, ◌++◌, map, Bytes, codes, bytes_eq, any, ◌==◌,
  if◌then◌else◌,
}
use jsonata.Number.Parts.{to_lower}
use jsonata.Integers.Roman.{to_upper}
use jsonata.Integers.Alphabetic.{ParsedInteger}
use jsonata.Integers.Words.{big_int_to_words}
use jsonata.Integers.Words.Ordinals.{apply_ordinal_word, words_to_big_int}

-- `lowercase`
abbrev pub small_words : List Bytes
small_words = codes "and" ∷ codes "or" ∷ codes "of" ∷ codes "the" ∷ []

unfoldable pub capital_first : Bytes → Bytes
capital_first [] = []
capital_first (c ∷ word) = to_upper c ∷ word

-- `flush`, without the reset of the buffer.
unfoldable pub title_word : Bool → Bytes → Bytes
unfolding bytes_eq capital_first
title_word capitalize_next word =
    let lower = map to_lower word in
    if capitalize_next || not (any (bytes_eq lower) small_words) then capital_first lower else lower

-- The loop over the text, with the word so far.
unfoldable pub title_from : Bool → Bytes → Bytes → Bytes
unfolding title_word
title_from capitalize_next word [] = title_word capitalize_next word
title_from capitalize_next word (c ∷ s) =
    let separated : Bytes = title_word capitalize_next word ++ c ∷ title_from (c == b'-') [] s in
    let gathered : Bytes = title_from capitalize_next (word ++ c ∷ []) s in
    if c == b' ' || c == b',' || c == b'-' then separated else gathered

unfoldable pub to_title_case : Bytes → Bytes
unfolding title_from
to_title_case s = title_from true [] s

-- The tokens `w`, `W` and `Ww`.
pub data WordFormat : Type 0 where
  small capital title : WordFormat

unfoldable pub in_case : WordFormat → Bytes → Bytes
unfolding to_title_case
in_case small s = s
in_case capital s = map to_upper s
in_case title s = to_title_case s

-- The result for an absolute value, as an ordinal if the modifier is `o`.
unfoldable pub format_words : WordFormat → Bool → ℕ → Bytes
unfolding in_case big_int_to_words apply_ordinal_word
format_words format ordinal n =
    let words = big_int_to_words n in
    in_case format (if ordinal then apply_ordinal_word words else words)

-- `parseIntegerWithPicture` with one of these tokens.
unfoldable pub parse_words : ℕ → Bytes → ParsedInteger
unfolding words_to_big_int
parse_words max_digits s = words_to_big_int max_digits (map to_lower s)
