-- ===== src/Lexer/Regex.antt =====
-- The regular expression literals of `Next`.
use jsonata.Base.{
  ℕ, suc, ◌%◌, Bool, true, false, not, ◌&&◌, ◌||◌, [], ◌∷◌, ◌++◌, Option, none, some, Bytes, ◌==◌,
  if◌then◌else◌,
}
use mathlib.Core.List.{reverse}
use jsonata.Lexer.Token.{Lexed, lexed, failed, s0301, s0302, bad_regex}
use jsonata.Strings.Utf8.{between}

-- The backslashes in front of a slash, from the pattern read so far, its last byte first.
unfoldable pub backslashes : Bytes → ℕ
backslashes [] = 0
backslashes (c ∷ read) = let more = backslashes read in if c == 92 then suc more else 0

-- Whether the byte `c` closes the pattern.
unfoldable pub closes : Bool → Bool → Bytes → ℕ → Bool
unfolding backslashes
closes escaped in_class read c =
    not escaped && c == b'/' && not in_class && backslashes read % 2 == 0

-- Whether the byte behind `c` is inside a class.
abbrev pub class_after : Bool → Bool → ℕ → Bool
class_after true in_class c = in_class
class_after false in_class c = if c == b'[' then true else if c == b']' then false else in_class

-- The loop over a pattern; `escaped` says that the last byte was a backslash that escapes this one.
unfoldable pub scan_pattern : Bool → Bool → Bytes → Bytes → Option (Bytes × Bytes)
unfolding closes
scan_pattern escaped in_class read [] = none
scan_pattern escaped in_class read (c ∷ s) =
    let more =
      scan_pattern (not escaped && c == 92) (class_after escaped in_class c) (c ∷ read) s in
    if closes escaped in_class read c then some (reverse read, s) else more

-- `unicode.IsLetter` of a byte.
unfoldable pub is_letter : ℕ → Bool
is_letter c =
    between b'a' b'z' c
    || between b'A' b'Z' c
    || c == 170
    || c == 181
    || c == 186
    || between 192 214 c
    || between 216 246 c
    || between 248 255 c

abbrev pub with_flag : ℕ → Lexed (Bytes × Bytes) → Lexed (Bytes × Bytes)
with_flag c (failed e) = failed e
with_flag c (lexed (flags, rest)) = lexed (c ∷ flags, rest)

-- The loop over the flags.
unfoldable pub scan_flags : Bytes → Lexed (Bytes × Bytes)
unfolding is_letter
scan_flags [] = lexed ([], [])
scan_flags (c ∷ s) =
    let more = with_flag c (scan_flags s) in
    if not (is_letter c)
    then lexed ([], c ∷ s)
    else if c == b'i' || c == b'm'
    then more
    else failed s0302

-- The end of a literal, from its flags on; `compiles` is whether `ecmaregex.Compile` takes the pattern and the flags.
unfoldable pub close_flags :
    (Bytes → Bytes → Bool) → Bytes → Lexed (Bytes × Bytes) → Lexed (Bytes × Bytes × Bytes)
close_flags compiles pattern (failed e) = failed e
close_flags compiles pattern (lexed (flags, rest)) =
    if compiles pattern (flags ++ b'g' ∷ [])
    then lexed (pattern, flags ++ b'g' ∷ [], rest)
    else failed bad_regex

unfoldable pub close_pattern :
    (Bytes → Bytes → Bool) → Option (Bytes × Bytes) → Lexed (Bytes × Bytes × Bytes)
unfolding close_flags scan_flags
close_pattern compiles none = failed s0302
close_pattern compiles (some ([], after)) = failed s0301
close_pattern compiles (some (c ∷ p, after)) = close_flags compiles (c ∷ p) (scan_flags after)

-- The pattern, the flags and the text behind them.
unfoldable pub scan_regex : (Bytes → Bytes → Bool) → Bytes → Lexed (Bytes × Bytes × Bytes)
unfolding scan_pattern close_pattern
scan_regex compiles s = close_pattern compiles (scan_pattern false false [] s)
