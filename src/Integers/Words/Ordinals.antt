-- ===== src/Integers/Words/Ordinals.antt =====
-- Ordinal words: `applyOrdinalWord` and `deOrdinalise` of go/internal/engine/functions/string_format_integer.go, and
-- `ordinalSuffix`.
use jsonata.Base.{
  ℕ, ◌%◌, ◌&&◌, ◌||◌, List, [], ◌∷◌, ◌++◌, Option, none, some, Bytes, codes, bytes_eq, leb, ◌==◌,
  if◌then◌else◌,
}
use jsonata.Integers.Alphabetic.{ParsedInteger}
use jsonata.Integers.Words.{fields, add_words}

unfoldable pub ordinal_suffix : ℕ → Bytes
ordinal_suffix n =
    if leb 11 (n % 100) && leb (n % 100) 13
    then codes "th"
    else if n % 10 == 1
    then codes "st"
    else if n % 10 == 2
    then codes "nd"
    else if n % 10 == 3
    then codes "rd"
    else codes "th"

-- `ordinals`: a cardinal and its ordinal.
abbrev pub ordinals : List (Bytes × Bytes)
ordinals =
    (codes "one", codes "first")
    ∷ (codes "two", codes "second")
    ∷ (codes "three", codes "third")
    ∷ (codes "four", codes "fourth")
    ∷ (codes "five", codes "fifth")
    ∷ (codes "six", codes "sixth")
    ∷ (codes "seven", codes "seventh")
    ∷ (codes "eight", codes "eighth")
    ∷ (codes "nine", codes "ninth")
    ∷ (codes "ten", codes "tenth")
    ∷ (codes "eleven", codes "eleventh")
    ∷ (codes "twelve", codes "twelfth")
    ∷ (codes "thirteen", codes "thirteenth")
    ∷ (codes "fourteen", codes "fourteenth")
    ∷ (codes "fifteen", codes "fifteenth")
    ∷ (codes "sixteen", codes "sixteenth")
    ∷ (codes "seventeen", codes "seventeenth")
    ∷ (codes "eighteen", codes "eighteenth")
    ∷ (codes "nineteen", codes "nineteenth")
    ∷ (codes "twenty", codes "twentieth")
    ∷ (codes "thirty", codes "thirtieth")
    ∷ (codes "forty", codes "fortieth")
    ∷ (codes "fifty", codes "fiftieth")
    ∷ (codes "sixty", codes "sixtieth")
    ∷ (codes "seventy", codes "seventieth")
    ∷ (codes "eighty", codes "eightieth")
    ∷ (codes "ninety", codes "ninetieth")
    ∷ (codes "hundred", codes "hundredth")
    ∷ (codes "thousand", codes "thousandth")
    ∷ (codes "million", codes "millionth")
    ∷ (codes "billion", codes "billionth")
    ∷ (codes "trillion", codes "trillionth")
    ∷ []

-- `irregulars`: the same table and `zeroth`, read from the ordinals.
abbrev pub irregulars : List (Bytes × Bytes)
irregulars = (codes "zero", codes "zeroth") ∷ ordinals

unfoldable pub ordinal_of : List (Bytes × Bytes) → Bytes → Option Bytes
unfolding bytes_eq
ordinal_of [] word = none
ordinal_of ((cardinal, ordinal) ∷ table) word =
    let rest = ordinal_of table word in if bytes_eq cardinal word then some ordinal else rest

unfoldable pub cardinal_of : List (Bytes × Bytes) → Bytes → Option Bytes
unfolding bytes_eq
cardinal_of [] word = none
cardinal_of ((cardinal, ordinal) ∷ table) word =
    let rest = cardinal_of table word in if bytes_eq ordinal word then some cardinal else rest

-- A byte in front of what stands up to the last separator and of the last word.
unfoldable pub attach : ℕ → Bytes × Bytes → Bytes × Bytes
attach c (c' ∷ prefix, last) = (c ∷ c' ∷ prefix, last)
attach c ([], last) = if c == b' ' || c == b'-' then (c ∷ [], last) else ([], c ∷ last)

-- The loop from the end to the last blank or hyphen: what stands up to it and with it, and the last word.
unfoldable pub split_last : Bytes → Bytes × Bytes
unfolding attach
split_last [] = ([], [])
split_last (c ∷ s) = attach c (split_last s)

-- A last word of `y`, without it, and `ieth`.
unfoldable pub ordinal_y : Bytes → Option Bytes
ordinal_y [] = none
ordinal_y (c ∷ []) = if c == b'y' then some (codes "ieth") else none
ordinal_y (c ∷ d ∷ s) = elim (ordinal_y (d ∷ s)) [ none ↦ none | some t ↦ some (c ∷ t) ]

unfoldable pub ordinal_word : Bytes → Bytes
unfolding ordinal_of ordinal_y
ordinal_word last = elim (ordinal_of ordinals last) [
  | some ordinal ↦ ordinal
  | none ↦ elim (ordinal_y last) [ some ordinal ↦ ordinal | none ↦ last ++ codes "th" ]
]

unfoldable pub apply_ordinal_word : Bytes → Bytes
unfolding split_last ordinal_word
apply_ordinal_word word = let (prefix, last) = split_last word in prefix ++ ordinal_word last

unfoldable pub cardinal_word : Bytes → Bytes
unfolding cardinal_of
cardinal_word last = elim (cardinal_of irregulars last) [ some cardinal ↦ cardinal | none ↦ last ]

unfoldable pub de_ordinalise : Bytes → Bytes
unfolding split_last cardinal_word
de_ordinalise s = let (prefix, last) = split_last s in prefix ++ cardinal_word last

-- `wordsToBigInt`
unfoldable pub words_to_big_int : ℕ → Bytes → ParsedInteger
unfolding de_ordinalise fields add_words
words_to_big_int max_digits s = add_words max_digits [] 0 (fields (de_ordinalise s))
