-- ===== src/Integers/Words.antt =====
-- Integers as English words: `bigIntToWords` and `wordsToBigInt` of
-- go/internal/engine/functions/string_format_integer.go. Of `intToWords` only what `bigIntToWords` calls, numbers below
-- a thousand.
pub mod Ordinals
pub mod Splits
pub mod Small
pub mod Scales
pub mod Segments
pub mod Reads
pub mod Casing
pub mod Ends
pub mod RoundTrip
pub mod Formats
use jsonata.Base.{
  ℕ, zero, suc, ◌+◌, ◌-◌, ◌*◌, ◌/◌, ◌%◌, ◌≤◌, Bool, true, false, ◌&&◌, ◌||◌, List, [], ◌∷◌, ◌++◌,
  map, Option, none, some, Bytes, codes, bytes_eq, get_elem?, ltb, leb, ◌==◌, if◌then◌else◌,
}
use jsonata.Strings.Utf8.{decode_rune}
use jsonata.Integers.Alphabetic.{
  IntegerError, ParsedInteger, parsed, failed, d3137, work_limit, too_long,
}

unfoldable pub get_bytes : List Bytes → ℕ → Bytes
get_bytes [] n = []
get_bytes (x ∷ xs) zero = x
get_bytes (x ∷ xs) (suc n) = get_bytes xs n

abbrev pub ones : List Bytes
ones =
    codes ""
    ∷ codes "one"
    ∷ codes "two"
    ∷ codes "three"
    ∷ codes "four"
    ∷ codes "five"
    ∷ codes "six"
    ∷ codes "seven"
    ∷ codes "eight"
    ∷ codes "nine"
    ∷ codes "ten"
    ∷ codes "eleven"
    ∷ codes "twelve"
    ∷ codes "thirteen"
    ∷ codes "fourteen"
    ∷ codes "fifteen"
    ∷ codes "sixteen"
    ∷ codes "seventeen"
    ∷ codes "eighteen"
    ∷ codes "nineteen"
    ∷ []

abbrev pub tens : List Bytes
tens =
    codes ""
    ∷ codes ""
    ∷ codes "twenty"
    ∷ codes "thirty"
    ∷ codes "forty"
    ∷ codes "fifty"
    ∷ codes "sixty"
    ∷ codes "seventy"
    ∷ codes "eighty"
    ∷ codes "ninety"
    ∷ []

unfoldable pub below_hundred : ℕ → Bytes
unfolding get_bytes
below_hundred n =
    if n == 0
    then []
    else if ltb n 20
    then get_bytes ones n
    else if n % 10 == 0
    then get_bytes tens (n / 10)
    else get_bytes tens (n / 10) ++ b'-' ∷ get_bytes ones (n % 10)

unfoldable pub below_thousand : ℕ → Bytes
unfolding below_hundred get_bytes
below_thousand n =
    if ltb n 100
    then below_hundred n
    else if n % 100 == 0
    then get_bytes ones (n / 100) ++ codes " hundred"
    else get_bytes ones (n / 100) ++ codes " hundred and " ++ below_hundred (n % 100)

-- `intToWords` below a thousand.
unfoldable pub int_to_words : ℕ → Bytes
unfolding below_thousand
int_to_words n = if n == 0 then codes "zero" else below_thousand n

pub record Scale : Type 0 where
  pub name : Bytes
  pub value : ℕ

abbrev pub trillion : Scale
trillion = record { name = codes "trillion"; value = 1000000000000 }

abbrev pub billion : Scale
billion = record { name = codes "billion"; value = 1000000000 }

abbrev pub million : Scale
million = record { name = codes "million"; value = 1000000 }

abbrev pub thousand : Scale
thousand = record { name = codes "thousand"; value = 1000 }

-- The first scale that is not above `n`, for an `n` of a thousand or more.
unfoldable pub scale_of : ℕ → Scale
scale_of n =
    if leb 1000000000000 n
    then trillion
    else if leb 1000000000 n
    then billion
    else if leb 1000000 n
    then million
    else thousand

-- What stands between a scale and the words of the rest.
abbrev pub joint : ℕ → Bytes
joint rest = if ltb rest 100 then codes " and " else codes ", "

-- `bigIntToWords`; more rounds than `n` are enough.
unfoldable pub big_words : ℕ → ℕ → Bytes
unfolding int_to_words scale_of
big_words zero n = []
big_words (suc fuel) n =
    let scale = scale_of n in
    let rest = n % scale.value in
    let head : Bytes = big_words fuel (n / scale.value) ++ b' ' ∷ scale.name in
    let whole : Bytes = head ++ (joint rest ++ big_words fuel rest) in
    if ltb n 1000 then int_to_words n else if rest == 0 then head else whole

unfoldable pub big_int_to_words : ℕ → Bytes
unfolding big_words
big_int_to_words n = big_words (suc n) n

-- `unicode.IsSpace`
abbrev pub is_space : ℕ → Bool
is_space r =
    (leb 9 r && leb r 13)
    || r == 32
    || r == 133
    || r == 160
    || r == 5760
    || (leb 8192 r && leb r 8202)
    || r == 8232
    || r == 8233
    || r == 8239
    || r == 8287
    || r == 12288

-- The text with one blank for each space, hyphen and comma; the first `skip` bytes belong to a space.
unfoldable pub blanks : ℕ → Bytes → Bytes
unfolding decode_rune
blanks skip [] = []
blanks (suc skip) (c ∷ s) = blanks skip s
blanks zero (c ∷ s) =
    let (r, more) = decode_rune c s in
    let blank = is_space r || c == b'-' || c == b',' in
    let front : Bytes → Bytes = (λ t. if blank then b' ' ∷ t else c ∷ t) in
    front (blanks (if blank then more else 0) s)

abbrev pub flush : Bytes → List Bytes → List Bytes
flush [] words = words
flush (c ∷ word) words = (c ∷ word) ∷ words

-- The words of a text with blanks, behind the begun `word`.
unfoldable pub split_blanks : Bytes → Bytes → List Bytes
split_blanks word [] = flush word []
split_blanks word (c ∷ s) =
    let next = split_blanks (if c == b' ' then [] else word ++ c ∷ []) s in
    if c == b' ' then flush word next else next

-- `strings.Fields` behind the replacer.
unfoldable pub fields : Bytes → List Bytes
unfolding blanks split_blanks
fields s = split_blanks [] (blanks 0 s)

unfoldable pub index_of : Bytes → List Bytes → Option ℕ
index_of word [] = none
index_of word (x ∷ xs) =
    let rest : Option ℕ = elim (index_of word xs) [ none ↦ none | some n ↦ some (suc n) ] in
    if bytes_eq word x then some 0 else rest

-- The value of the word with this index in `ones` or in `tens`.
unfoldable pub unit_value : Option ℕ → Option ℕ → Option ℕ
unit_value (some (suc n)) t = some (suc n)
unit_value n (some (suc (suc t))) = some (10 * (t + 2))
unit_value n t = none

-- `values`
unfoldable pub word_value : Bytes → Option ℕ
unfolding bytes_eq index_of unit_value
word_value word =
    if bytes_eq word (codes "zero")
    then some 0
    else if bytes_eq word (codes "hundred")
    then some 100
    else if bytes_eq word thousand.name
    then some thousand.value
    else if bytes_eq word million.name
    then some million.value
    else if bytes_eq word billion.name
    then some billion.value
    else if bytes_eq word trillion.name
    then some trillion.value
    else unit_value (index_of word ones) (index_of word tens)

pub record Segment : Type 0 where
  pub amount : ℕ
  pub scale : ℕ

-- The inner loop over the segments, the last one first.
unfoldable pub absorb : ℕ → List Segment → ℕ → ℕ × List Segment
absorb v [] current = (current, [])
absorb v (g ∷ segments) current =
    let rest = absorb v segments (current + g.amount) in
    if leb g.scale v then rest else (current, g ∷ segments)

-- What the loop keeps behind a word, or its error.
pub data Counted : Type 0 where
  counted : List Segment → ℕ → Counted
  refused : IntegerError → Counted

-- The `switch` on the value of a word.
unfoldable pub take_value : ℕ → ℕ → List Segment → ℕ → Counted
unfolding absorb
take_value max_digits v segments current =
    let (all, left) = absorb v segments current in
    if ltb v 100
    then counted segments (current + v)
    else if v == 100
    then counted segments (current * v)
    else if too_long max_digits (all * v)
    then refused work_limit
    else counted (record { amount = all * v; scale = v } ∷ left) 0

unfoldable pub take_found : ℕ → Option ℕ → List Segment → ℕ → Counted
unfolding take_value
take_found max_digits none segments current = refused d3137
take_found max_digits (some v) segments current = take_value max_digits v segments current

-- One round of the loop.
unfoldable pub take_word : ℕ → Bytes → List Segment → ℕ → Counted
unfolding bytes_eq word_value take_found
take_word max_digits word segments current =
    if bytes_eq word (codes "and")
    then counted segments current
    else take_found max_digits (word_value word) segments current

unfoldable pub total_of : ℕ → List Segment → ℕ
total_of current [] = current
total_of current (g ∷ segments) = total_of (current + g.amount) segments

-- The loop over the words.
unfoldable pub add_words : ℕ → List Segment → ℕ → List Bytes → ParsedInteger
unfolding take_word total_of
add_words max_digits segments current [] = parsed (total_of current segments)
add_words max_digits segments current (word ∷ words) =
    elim (take_word max_digits word segments current) [
      | refused e ↦ failed e
      | counted segments' current' ↦ add_words max_digits segments' current' words
    ]
