-- ===== src/Integers/Decimal.antt =====
-- Decimal integer pictures: the digit pictures of `formatIntegerWithPicture` and `parseIntegerWithPicture`,
-- `formatIntegerDecimal` and `applyIntegerGrouping` of go/internal/engine/functions/string_format_integer.go, and
-- `DigitZero` of go/internal/engine/internal/unicodecase/case.go. A text is the list of its runes.
pub mod Families
pub mod Kept
pub mod RoundTrip
use jsonata.Base.{
  ℕ, zero, suc, ◌+◌, ◌-◌, ◌*◌, ◌%◌, ◌≤◌, Bool, true, false, not, ◌&&◌, ◌||◌, List, [], ◌∷◌, ◌++◌,
  map, Option, none, some, Bytes, codes, length, replicate, all, any, ltb, leb, ◌==◌, if◌then◌else◌,
}
use jsonata.Base.Int.{ℤ, pos, negsuc}
use jsonata.Number.Grammar.{is_digit}
use jsonata.Number.Parts.{read_digits}
use jsonata.Number.Format.{decimal}
use jsonata.Number.Control.{minus}
use jsonata.Integers.Words.Ordinals.{ordinal_suffix}

-- The table of data.go in that folder.
abbrev pub decimal_zeros : List ℕ
decimal_zeros =
    0x30 ∷ 0x660 ∷ 0x6f0 ∷ 0x7c0 ∷ 0x966 ∷ 0x9e6 ∷ 0xa66 ∷ 0xae6 ∷ 0xb66 ∷ 0xbe6 ∷ 0xc66 ∷ 0xce6
    ∷ 0xd66 ∷ 0xde6 ∷ 0xe50 ∷ 0xed0 ∷ 0xf20 ∷ 0x1040 ∷ 0x1090 ∷ 0x17e0 ∷ 0x1810 ∷ 0x1946 ∷ 0x19d0
    ∷ 0x1a80 ∷ 0x1a90 ∷ 0x1b50 ∷ 0x1bb0 ∷ 0x1c40 ∷ 0x1c50 ∷ 0xa620 ∷ 0xa8d0 ∷ 0xa900 ∷ 0xa9d0
    ∷ 0xa9f0 ∷ 0xaa50 ∷ 0xabf0 ∷ 0xff10 ∷ 0x104a0 ∷ 0x10d30 ∷ 0x10d40 ∷ 0x11066 ∷ 0x110f0 ∷ 0x11136
    ∷ 0x111d0 ∷ 0x112f0 ∷ 0x11450 ∷ 0x114d0 ∷ 0x11650 ∷ 0x116c0 ∷ 0x116d0 ∷ 0x116da ∷ 0x11730
    ∷ 0x118e0 ∷ 0x11950 ∷ 0x11bf0 ∷ 0x11c50 ∷ 0x11d50 ∷ 0x11da0 ∷ 0x11f50 ∷ 0x16130 ∷ 0x16a60
    ∷ 0x16ac0 ∷ 0x16b50 ∷ 0x16d70 ∷ 0x1ccf0 ∷ 0x1d7ce ∷ 0x1d7d8 ∷ 0x1d7e2 ∷ 0x1d7ec ∷ 0x1d7f6
    ∷ 0x1e140 ∷ 0x1e2f0 ∷ 0x1e4f0 ∷ 0x1e5f1 ∷ 0x1e950 ∷ 0x1fbf0 ∷ []

unfoldable pub zero_in : List ℕ → ℕ → ℕ
zero_in [] c = 0
zero_in (z ∷ zeros) c = if leb z c && leb c (z + 9) then z else zero_in zeros c

-- `DigitZero`
unfoldable pub digit_zero : ℕ → ℕ
unfolding zero_in
digit_zero c = zero_in decimal_zeros c

-- A digit, of any family.
abbrev pub is_any_digit : ℕ → Bool
is_any_digit c = is_digit c || not (digit_zero c == 0)

-- A digit or `#`.
abbrev pub is_place : ℕ → Bool
is_place c = c == b'#' || is_any_digit c

pub data PictureError : Type 0 where
  d3130 d3131 : PictureError

-- One round of the loop for the digit family: whether one was found, and its zero; `none` is D3131.
unfoldable pub next_family : Bool → ℕ → ℕ → Option (Bool × ℕ)
unfolding digit_zero
next_family found z c =
    if is_digit c
    then (if found && not (z == b'0') then none else some (true, b'0'))
    else if digit_zero c == 0
    then some (found, z)
    else if found && (not (z == digit_zero c) || z == b'0')
    then none
    else some (true, digit_zero c)

unfoldable pub family_from : Bool → ℕ → List ℕ → Option ℕ
unfolding next_family
family_from found z [] = some z
family_from found z (c ∷ runes) = elim (next_family found z c) [
  | none ↦ none
  | some (found', z') ↦ family_from found' z' runes
]

unfoldable pub mandatory_count : List ℕ → ℕ
unfolding digit_zero
mandatory_count [] = 0
mandatory_count (c ∷ runes) =
    if is_any_digit c then suc (mandatory_count runes) else mandatory_count runes

-- A separator, and the number of places behind it.
pub record Group : Type 0 where
  pub separator : ℕ
  pub position : ℕ

-- One round of the loop from the right, with the groups and the places so far.
unfoldable pub add_group : ℕ → List Group × ℕ → List Group × ℕ
unfolding digit_zero
add_group c (groups, places) =
    if is_place c
    then (groups, suc places)
    else if ltb 0 places
    then (groups ++ record { separator = c; position = places } ∷ [], places)
    else (groups, places)

unfoldable pub groups_of : List ℕ → List Group × ℕ
unfolding add_group
groups_of [] = ([], 0)
groups_of (c ∷ runes) = add_group c (groups_of runes)

-- `posSet`: of two groups with one position the second counts.
unfoldable pub separator_at : ℕ → List Group → Option ℕ
separator_at n [] = none
separator_at n (g ∷ groups) = elim (separator_at n groups) [
  | some c ↦ some c
  | none ↦ if g.position == n then some g.separator else none
]

abbrev pub same_separator : ℕ → List Group → Bool
same_separator c groups = all (λ (g : Group). g.separator == c) groups

unfoldable pub is_regular : ℕ → ℕ → List Group → Bool
is_regular interval last [] = true
is_regular interval last (g ∷ groups) =
    g.position - last == interval && is_regular interval g.position groups

-- The positions that the loop over the multiples of the first one fills in.
unfoldable pub filled_at : ℕ → List Group → Option ℕ
unfolding is_regular
filled_at n [] = none
filled_at n (g ∷ groups) =
    if same_separator g.separator groups
      && is_regular g.position g.position groups
      && n % g.position == 0
    then some g.separator
    else none

unfoldable pub inserted_at : List Group → ℕ → Option ℕ
unfolding separator_at filled_at
inserted_at groups n = elim (separator_at n groups) [ some c ↦ some c | none ↦ filled_at n groups ]

abbrev pub optional : Option ℕ → List ℕ → List ℕ
optional none s = s
optional (some c) s = c ∷ s

-- The loop over the digits; no separator stands in front of the first.
unfoldable pub group_digits : (ℕ → Option ℕ) → Bool → List ℕ → List ℕ
group_digits inserted first [] = []
group_digits inserted first (c ∷ s) =
    optional (if first then none else inserted (suc (length s))) (c ∷ group_digits inserted false s)

-- `applyDigitFamilyRune`, where the family is not that of ASCII.
unfoldable pub in_family : ℕ → ℕ → ℕ
in_family z c = if not (z == b'0') && is_digit c then z + c - b'0' else c

abbrev pub padded : ℕ → List ℕ → List ℕ
padded n digits = replicate (n - length digits) b'0' ++ digits

-- The digits in their groups.
unfoldable pub grouped : ℕ → List ℕ → List ℕ
unfolding mandatory_count groups_of inserted_at group_digits decimal
grouped n picture =
    group_digits (inserted_at (groups_of picture).0) true
      (padded (mandatory_count picture) (decimal n))

pub data Written : Type 0 where
  written : List ℕ → Written
  refused : PictureError → Written

-- `formatIntegerDecimal`, on a picture with a place.
unfoldable pub format_integer_decimal : ℕ → List ℕ → Written
unfolding family_from grouped in_family
format_integer_decimal n picture = elim (family_from false b'0' picture) [
  | none ↦ refused d3131
  | some z ↦ written (map (in_family z) (grouped n picture))
]

abbrev pub absolute : ℤ → ℕ
absolute (pos n) = n
absolute (negsuc n) = suc n

abbrev pub signed : ℤ → List ℕ → List ℕ
signed (pos n) s = s
signed (negsuc n) s = b'-' ∷ s

unfoldable pub with_modifier : ℤ → Bool → Written → Written
unfolding ordinal_suffix
with_modifier n ordinal (refused e) = refused e
with_modifier n ordinal (written s) =
    written (signed n (if ordinal then s ++ ordinal_suffix (absolute n % 100) else s))

-- `formatIntegerWithPicture`, for a token that is none of letters, Roman numerals and words.
unfoldable pub format_digits : ℤ → List ℕ → Bool → Written
unfolding digit_zero format_integer_decimal with_modifier
format_digits n picture ordinal =
    if any is_place picture
    then with_modifier n ordinal (format_integer_decimal (absolute n) picture)
    else refused d3130

-- The loop for the digit family in `parseIntegerWithPicture`: the last digit decides.
unfoldable pub picture_family : Bool → ℕ → List ℕ → Bool × ℕ
unfolding digit_zero
picture_family has z [] = (has, z)
picture_family has z (c ∷ runes) =
    picture_family (has || is_any_digit c)
      (if is_digit c then b'0' else if digit_zero c == 0 then z else digit_zero c) runes

-- What is kept of a rune.
unfoldable pub kept_rune : ℕ → ℕ → List ℕ
kept_rune z c =
    if c == b'-' || is_digit c
    then c ∷ []
    else if not (z == b'0') && leb z c && leb c (z + 9)
    then (b'0' + c - z) ∷ []
    else []

unfoldable pub kept : ℕ → List ℕ → List ℕ
unfolding kept_rune
kept z [] = []
kept z (c ∷ s) = kept_rune z c ++ kept z s

-- `SetString` of an optional sign and digits.
abbrev pub digits_only : Bytes → Option ℕ
digits_only [] = none
digits_only (c ∷ s) = if all is_digit (c ∷ s) then some (read_digits 0 (c ∷ s)) else none

unfoldable pub set_string : Bytes → Option ℤ
unfolding read_digits
set_string [] = none
set_string (c ∷ s) =
    if c == b'-'
    then (elim (digits_only s) [ none ↦ none | some n ↦ some (minus n) ])
    else (elim (digits_only (c ∷ s)) [ none ↦ none | some n ↦ some (pos n) ])

pub data ReadError : Type 0 where
  d3130 d3137 work_limit : ReadError

pub data Read : Type 0 where
  read : ℤ → Read
  failed : ReadError → Read

abbrev pub of_string : Option ℤ → Read
of_string none = failed d3137
of_string (some n) = read n

-- `parseIntegerWithPicture`, for a picture of digits.
unfoldable pub parse_digits : ℕ → List ℕ → List ℕ → Read
unfolding picture_family kept set_string
parse_digits max_digits s picture =
    let (has, z) = picture_family false b'0' picture in
    if not has
    then failed d3130
    else if ltb (max_digits + 1) (length (kept z s))
    then failed work_limit
    else of_string (set_string (kept z s))
