-- ===== src/Parser/Splits.antt =====
-- Names of go/internal/engine/internal/parser/analysis.go, escaped for a path and read back.
use jsonata.Base.{
  append-nil, append_assoc, ℕ, Bool, true, false, not, ◌&&◌, ◌||◌, [], ◌∷◌, ◌++◌, none, some, List,
  Bytes, ◌==◌, if◌then◌else◌, ◌≡◌, refl, ap, sym, ◌∙◌,
}
use mathlib.Core.Option.{some-injective}
use jsonata.Lexer.Spans.{member}
use jsonata.Parser.FastPaths.{is_special, escape_ticks, starts_at, escape_name}

-- The names of a path: a dot ends a name, unless it stands between two backticks.
unfoldable pub split_path : Bool → Bytes → Bytes → List Bytes
split_path quoted part [] = part ∷ []
split_path quoted part (c ∷ s) =
    if c == b'`'
    then split_path (not quoted) part s
    else if c == b'.' && not quoted
    then part ∷ split_path false [] s
    else split_path quoted (part ++ (c ∷ [])) s

-- No backtick.
unfoldable pub is_tickless : Bytes → Bool
is_tickless [] = true
is_tickless (c ∷ s) = not (c == b'`') && is_tickless s

escape_ticks-same : (s : Bytes) → is_tickless s ≡ true → escape_ticks s ≡ s
unfolding is_tickless escape_ticks
escape_ticks-same [] h = refl
escape_ticks-same (c ∷ s) h = of_test (c == b'`') h (escape_ticks-same s)
  where
    of_test :
        (t : Bool)
        → (not t && is_tickless s) ≡ true
        → (is_tickless s ≡ true → escape_ticks s ≡ s)
        → if◌then◌else◌ {A = Bytes} t (b'\\' ∷ b'`' ∷ escape_ticks s) (c ∷ escape_ticks s) ≡ c ∷ s
    of_test true h k = cc
    of_test false h k = ap (λ r. c ∷ r) (k h)

-- What stands between two backticks.
split_path-quoted :
    (s part rest : Bytes)
    → is_tickless s ≡ true
    → split_path true part (s ++ (b'`' ∷ rest)) ≡ split_path false (part ++ s) rest
unfolding split_path is_tickless
split_path-quoted [] part rest h = ap (λ t. split_path false t rest) (sym (append-nil part))
split_path-quoted (c ∷ s) part rest h =
    of_tests (c == b'`') (c == b'.') h (split_path-quoted s (part ++ (c ∷ [])) rest)
    ∙ ap (λ t. split_path false t rest) (append_assoc part (c ∷ []) s)
  where
    next : List Bytes
    next = split_path true (part ++ (c ∷ [])) (s ++ (b'`' ∷ rest))

    of_tests :
        (a b : Bool)
        → (not a && is_tickless s) ≡ true
        → (is_tickless s ≡ true → next ≡ split_path false ((part ++ (c ∷ [])) ++ s) rest)
        → (if a
            then split_path false part (s ++ (b'`' ∷ rest))
            else (if b && false then part ∷ split_path false [] (s ++ (b'`' ∷ rest)) else next))
          ≡ split_path false ((part ++ (c ∷ [])) ++ s) rest
    of_tests true b h k = cc
    of_tests false true h k = k h
    of_tests false false h k = k h

not_dot :
    (c : ℕ) (s : Bytes)
    → is_special (c ∷ s) ≡ false
    → ((c == b'.') ≡ false) × (is_special s ≡ false)
unfolding is_special member
not_dot c s h = of_tests (c == b'.') _ (is_special s) h
  where
    of_tests : (a m r : Bool) → ((a || m) || r) ≡ false → (a ≡ false) × (r ≡ false)
    of_tests true m r h = cc
    of_tests false true r h = cc
    of_tests false false r h = (refl, h)

-- A name that needs no quotes.
split_path-plain :
    (s part rest : Bytes)
    → is_tickless s ≡ true
    → is_special s ≡ false
    → split_path false part (s ++ rest) ≡ split_path false (part ++ s) rest
unfolding split_path is_tickless
split_path-plain [] part rest h k = ap (λ t. split_path false t rest) (sym (append-nil part))
split_path-plain (c ∷ s) part rest h k =
    of_tests (c == b'`') (c == b'.') h (not_dot c s k).0
      (λ g. split_path-plain s (part ++ (c ∷ [])) rest g (not_dot c s k).1)
    ∙ ap (λ t. split_path false t rest) (append_assoc part (c ∷ []) s)
  where
    next : List Bytes
    next = split_path false (part ++ (c ∷ [])) (s ++ rest)

    of_tests :
        (a b : Bool)
        → (not a && is_tickless s) ≡ true
        → b ≡ false
        → (is_tickless s ≡ true → next ≡ split_path false ((part ++ (c ∷ [])) ++ s) rest)
        → (if a
            then split_path true part (s ++ rest)
            else (if b && true then part ∷ split_path false [] (s ++ rest) else next))
          ≡ split_path false ((part ++ (c ∷ [])) ++ s) rest
    of_tests true b h e k = cc
    of_tests false true h e k = cc
    of_tests false false h e k = k h

split_path-ticks :
    (s rest : Bytes)
    → is_tickless s ≡ true
    → split_path false [] ((b'`' ∷ (escape_ticks s ++ (b'`' ∷ []))) ++ rest)
      ≡ split_path false s rest
unfolding split_path
split_path-ticks s rest h =
    ap (λ t. split_path true [] ((t ++ (b'`' ∷ [])) ++ rest)) (escape_ticks-same s h)
    ∙ ap (split_path true []) (append_assoc s (b'`' ∷ []) rest)
    ∙ split_path-quoted s [] rest h

-- An escaped name, read back.
pub split_path-escape_name :
    (s part rest : Bytes)
    → escape_name s ≡ some part
    → is_tickless s ≡ true
    → split_path false [] (part ++ rest) ≡ split_path false s rest
unfolding escape_name
split_path-escape_name s part rest e h = of_tests (starts_at s) (is_special s) refl e
  where
    quoted : Bytes
    quoted = b'`' ∷ (escape_ticks s ++ (b'`' ∷ []))

    of_tests :
        (a b : Bool)
        → is_special s ≡ b
        → (if a then none else if b then some quoted else some s) ≡ some part
        → split_path false [] (part ++ rest) ≡ split_path false s rest
    of_tests true b k g = cc
    of_tests false true k g = rw (sym (some-injective quoted part g)) (split_path-ticks s rest h)
    of_tests false false k g = rw (sym (some-injective s part g)) (split_path-plain s [] rest h k)
