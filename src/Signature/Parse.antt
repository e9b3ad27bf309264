-- ===== src/Signature/Parse.antt =====
-- `ParseSig` of go/internal/engine/internal/parser/signature.go. A position `i` in `s` is the text behind it.
use jsonata.Base.{
  ℕ, zero, suc, Bool, true, false, not, ◌&&◌, ◌||◌, List, [], ◌∷◌, ◌++◌, Option, none, some, Bytes,
  length, ◌==◌, if◌then◌else◌, any,
}
use jsonata.Base.Int.{ℤ, pos, negsuc, ◌+ℤ◌}
use jsonata.Signature.Spec.{
  Result, ok, err, s0401, s0402, ◌>>=◌, ParamSpec, contains, is_valid_type,
}

-- The loop of `sigStripReturnType`, with the depths of the brackets, the text before the last colon outside
-- brackets so far, and the text read.
unfoldable pub last_colon : ℤ → ℤ → Option Bytes → Bytes → Bytes → Option Bytes
last_colon paren angle found read [] = found
last_colon paren angle found read (c ∷ s) =
    last_colon
      (if c == b'(' then paren +ℤ pos 1 else if c == b')' then paren +ℤ negsuc 0 else paren)
      (if c == b'<' then angle +ℤ pos 1 else if c == b'>' then angle +ℤ negsuc 0 else angle)
      (if c == b':' && is_zero paren && is_zero angle then some read else found) (read ++ c ∷ []) s
  where
    is_zero : ℤ → Bool
    is_zero (pos n) = n == 0
    is_zero (negsuc n) = false

unfoldable pub strip_return_type : Bytes → Bytes
unfolding last_colon
strip_return_type s = elim (last_colon (pos 0) (pos 0) none [] s) [ some t ↦ t | none ↦ s ]

-- `parseSigUnion`: the types of the group and the text behind its `)`.
unfoldable pub parse_union : Bytes → Bytes → Result (Bytes × Bytes)
parse_union types [] = err s0402
parse_union types (c ∷ s) =
    let rest = parse_union (types ++ c ∷ []) s in
    if c == b')'
    then (elim types [ [] ↦ err s0402 | t ∷ ts ↦ ok (t ∷ ts, s) ])
    else if c == b'<'
    then err s0402
    else if is_valid_type c
    then rest
    else err s0402

-- `skipBrackets` behind its first `<`: the text behind the `>` that closes `depth` brackets.
unfoldable pub skip_brackets : ℕ → Bytes → Bytes
skip_brackets zero s = s
skip_brackets (suc depth) [] = []
skip_brackets (suc depth) (c ∷ s) =
    skip_brackets (if c == b'<' then suc (suc depth) else if c == b'>' then depth else suc depth) s

-- `skipBracketsKeepClose`: the text from that `>` on.
unfoldable pub skip_brackets_keep_close : ℕ → Bytes → Bytes
skip_brackets_keep_close zero s = s
skip_brackets_keep_close (suc depth) [] = []
skip_brackets_keep_close (suc depth) (c ∷ s) =
    let deeper = skip_brackets_keep_close (suc (suc depth)) s in
    let same = skip_brackets_keep_close (suc depth) s in
    let up = close_bracket depth (c ∷ s) (skip_brackets_keep_close depth s) in
    if c == b'<' then deeper else if c == b'>' then up else same
  where
    close_bracket : ℕ → Bytes → Bytes → Bytes
    close_bracket zero here behind = here
    close_bracket (suc depth) here behind = behind

unfoldable pub skip_nested : Bytes → Bytes
skip_nested [] = []
skip_nested (c ∷ s) = if c == b'<' then skip_brackets 1 s else c ∷ s

-- The content type behind `<`, and the text at the `>` that must follow.
unfoldable pub content_of : Bytes → Bytes → ℕ × Bytes
content_of types [] = (0, [])
content_of types (c ∷ s) =
    if contains types b'a' && is_valid_type c
    then (c, skip_nested s)
    else (0, skip_brackets_keep_close 1 (c ∷ s))

abbrev pub takes_content : ℕ → Bool
takes_content t = t == b'a' || t == b'f'

-- `parseSigContentType`, behind its `<`.
unfoldable pub parse_content_type : Bytes → Bytes → Result (ℕ × Bytes)
parse_content_type types s =
    let (content, rest) = content_of types s in
    if any (λ t. not (takes_content t)) types
    then err s0401
    else (elim rest [ [] ↦ err s0402 | c ∷ t ↦ if c == b'>' then ok (content, t) else err s0402 ])

-- The loop over the modifiers `?`, `+` and `-`.
unfoldable pub parse_modifiers : ParamSpec → Bytes → ParamSpec × Bytes
parse_modifiers spec [] = (spec, [])
parse_modifiers spec (c ∷ s) =
    let optional = parse_modifiers (record spec { optional = true }) s in
    let variadic = parse_modifiers (record spec { variadic = true }) s in
    let context = parse_modifiers (record spec { context = true }) s in
    if c == b'?'
    then optional
    else if c == b'+'
    then variadic
    else if c == b'-'
    then context
    else (spec, c ∷ s)

-- The types of one parameter.
unfoldable pub parse_types : Bytes → Result (Bytes × Bytes)
unfolding parse_union
parse_types [] = err s0402
parse_types (c ∷ s) =
    if c == b'(' then parse_union [] s else if is_valid_type c then ok (c ∷ [], s) else err s0402

-- Its content type, if a `<` follows.
unfoldable pub parse_content : Bytes → Bytes → Result (ℕ × Bytes)
unfolding parse_content_type
parse_content types [] = ok (0, [])
parse_content types (c ∷ s) = if c == b'<' then parse_content_type types s else ok (0, c ∷ s)

-- One round of the loop of `ParseSig`.
unfoldable pub parse_param : Bytes → Result (ParamSpec × Bytes)
unfolding parse_types parse_content parse_modifiers
parse_param s = do
  (types, after_types) ← parse_types s
  (content, after_content) ← parse_content types after_types
  ok (
      parse_modifiers
        (record {
          types = types;
          content_type = content;
          optional = false;
          variadic = false;
          context = false;
        })
        after_content)

-- The loop of `ParseSig`; `none` means that the fuel ran out.
unfoldable pub parse_params : ℕ → List ParamSpec → Bytes → Option (Result (List ParamSpec))
unfolding parse_param
parse_params fuel specs [] = some (ok specs)
parse_params zero specs (c ∷ s) = none
parse_params (suc fuel) specs (c ∷ s) = elim (parse_param (c ∷ s)) [
  | err e ↦ some (err e)
  | ok (spec, rest) ↦ parse_params fuel (specs ++ spec ∷ []) rest
]

-- `ParseSig`, with a round for each byte.
unfoldable pub parse_sig : Bytes → Option (Result (List ParamSpec))
unfolding parse_params strip_return_type content_of skip_nested skip_brackets
    skip_brackets_keep_close contains is_valid_type
parse_sig raw = let s = strip_return_type raw in parse_params (length s) [] s
