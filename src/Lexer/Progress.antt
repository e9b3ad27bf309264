-- ===== src/Lexer/Progress.antt =====
-- `Next` ends, and reads forward.
use jsonata.Base.{
  ℕ, zero, suc, ◌+◌, ◌-◌, ◌<◌, ◌≤◌, Bool, true, false, not, ◌&&◌, ◌||◌, ◌⊎◌, inl, inr, [], ◌∷◌,
  Option, none, some, Bytes, length, ◌==◌, ◌≡◌, ◌≢◌, refl, sym, ap, subst, ◌∙◌, arith,
  if◌then◌else◌, Bool-cases,
}
use jsonata.Number.Grammar.{is_digit, valid}
use jsonata.Strings.Utf8.{decode_rune}
use jsonata.Lexer.Token.{
  Token, TokenKind, end_of_file, name, regex_literal, string, number, Lexed, lexed, failed,
  out_of_fuel, Lexer, advance, plain_token,
}
use jsonata.Lexer.Spans.{skip_white, starts_with, tail, skip_comment, span, number_span}
use jsonata.Lexer.Literals.{scan_string}
use jsonata.Lexer.Regex.{scan_regex}
use jsonata.Lexer.Next.{
  two_char_op, single_char_op, token_at, as_string, as_name, as_regex, is_word_byte, as_word,
  pair_token, after_comment, next_from, word_token, string_token, number_token, backtick_token,
  regex_token, literal_token, operator_token, next_at, next,
}
use jsonata.Lexer.Suffix.{
  Suffix, Suffix_refl, Behind-Suffix, Suffix_trans, length-Suffix, drop-Suffix, tail-Suffix,
  skip_white-Suffix, skip_comment-Suffix, span-Suffix, number_span-Suffix,
}
use jsonata.Lexer.Scans.{Scans, RestBehind, scan_string-Scans, RegexSuffix, scan_regex-Scans}

-- What a call of `Next` at `l` may give: an error, though not for want of fuel, or a token and a lexer that stands
-- further on in the same text, or at its end if the token says so.
abbrev pub Moves : Lexer → Lexed (Token × Lexer) → Type 0
Moves l (failed e) = e ≢ out_of_fuel
Moves l (lexed (t, l')) =
    Suffix l'.rest l.rest
    × (l'.pos + length l'.rest ≡ l.pos + length l.rest)
    × ((length l'.rest < length l.rest) ⊎ ((t.kind ≡ end_of_file) × (l'.rest ≡ [])))

Moves-trans :
    (l : Lexer) (s : Bytes) (r : Lexed (Token × Lexer))
    → Suffix s l.rest
    → Moves (advance l s) r
    → Moves l r
Moves-trans l s (failed e) h k = k
Moves-trans l s (lexed (t, l')) h (back, place, onward) =
    let shorter = length-Suffix s l.rest h in
    (Suffix_trans l'.rest s l.rest back h, omega (arith, shorter), go onward)
  where
    go :
        ((length l'.rest < length s) ⊎ ((t.kind ≡ end_of_file) × (l'.rest ≡ [])))
        → (length l'.rest < length l.rest) ⊎ ((t.kind ≡ end_of_file) × (l'.rest ≡ []))
    go (inl lt) = inl (omega (arith, length-Suffix s l.rest h))
    go (inr done) = inr done

if_Moves :
    (l : Lexer) (b : Bool) (x y : Lexed (Token × Lexer))
    → Moves l x
    → Moves l y
    → Moves l (if b then x else y)
if_Moves l true x y h k = h
if_Moves l false x y h k = k

-- The branches of `Next` at the byte `c`, in front of `s`.
module _ (p c : ℕ) (s : Bytes) where
  abbrev here : Lexer
  here = record { pos = p; rest = c ∷ s }

  moved : (t : Token) (rest : Bytes) → Suffix rest s → Moves here (lexed (t, advance here rest))
  moved t rest h =
      (inr h, omega (arith, length-Suffix rest s h), inl (omega (arith, length-Suffix rest s h)))

  string_token-Moves : (quote : ℕ) → Moves here (string_token here quote s)
  unfolding string_token
  string_token-Moves quote = go (scan_string quote 0 [] s) (scan_string-Scans quote 0 [] s)
    where
      go : (r : Lexed (Bytes × Bytes)) → Scans (RestBehind s) r → Moves here (as_string here r)
      go (failed e) h = h
      go (lexed (text, rest)) h = moved (plain_token p string text) rest (Behind-Suffix rest s h)

  number_token-Moves : is_digit c ≡ true → Moves here (number_token here c s)
  unfolding number_token
  number_token-Moves h =
      if_Moves here (valid (number_span c s).0) _ _
        (moved (plain_token p number (number_span c s).0) (number_span c s).1
          (number_span-Suffix c s h))
        (λ e. cc)

  backtick_token-Moves : Moves here (backtick_token here s)
  unfolding backtick_token
  backtick_token-Moves = go (span (λ d. not (d == 96)) s) (span-Suffix (λ d. not (d == 96)) s)
    where
      go : (r : Bytes × Bytes) → Suffix r.1 s → Moves here (as_name here r)
      go (text, []) h = λ e. cc
      go (text, d ∷ rest) h =
          moved (plain_token p name text) rest
            (Suffix_trans rest (d ∷ rest) s (inr (Suffix_refl rest)) h)

  regex_token-Moves : (compiles : Bytes → Bytes → Bool) → Moves here (regex_token compiles here s)
  unfolding regex_token
  regex_token-Moves compiles = go (scan_regex compiles s) (scan_regex-Scans compiles s)
    where
      go :
          (r : Lexed (Bytes × Bytes × Bytes))
          → Scans (RegexSuffix s) r
          → Moves here (as_regex here r)
      go (failed e) h = h
      go (lexed (pattern, flags, rest)) h =
          moved (record (plain_token p regex_literal []) { regex_pat = pattern; regex_flg = flags })
            rest h

  -- With a call of `Next` further on that moves, each branch moves.
  module _ (again : Lexer → Lexed (Token × Lexer))
      (later : (t : Bytes) → Suffix t s → Moves (advance here t) (again (advance here t))) where
    again-Moves : (t : Bytes) → Suffix t s → Moves here (again (advance here t))
    again-Moves t h = Moves-trans here t _ (inr h) (later t h)

    word-Moves :
        (r : Bytes × Bytes) → r ≡ span is_word_byte (c ∷ s) → Moves here (as_word again here c s r)
    word-Moves ([], rest) q = again-Moves _ (drop-Suffix (decode_rune c s).1 s)
    word-Moves (d ∷ id, rest) q =
        moved (word_token p (d ∷ id)) rest (elim (Bool-cases (is_word_byte c)) [
          | inl word ↦
              subst (λ (u : Bytes). Suffix u s)
                (sym (ap (λ (r : Bytes × Bytes). r.1) (q ∙ span_more word)))
                (span-Suffix is_word_byte s)
          | inr other ↦ absurd (cc (ap (λ (r : Bytes × Bytes). r.0) (q ∙ span_none other)))
        ])
      where
        span_more :
            is_word_byte c ≡ true
            → span is_word_byte (c ∷ s) ≡ (c ∷ (span is_word_byte s).0, (span is_word_byte s).1)
        span_more h = unfold span in rw h

        span_none : is_word_byte c ≡ false → span is_word_byte (c ∷ s) ≡ ([], c ∷ s)
        span_none h = unfold span in rw h

    literal_token-Moves : Moves here (literal_token again here c s)
    unfolding literal_token
    literal_token-Moves =
        if_Moves here (c == 34 || c == 39) _ _ (string_token-Moves c) (digit_case (is_digit c) refl)
      where
        digit_case :
            (b : Bool)
            → is_digit c ≡ b
            → Moves here (
                if b
                then number_token here c s
                else if c == 96
                then backtick_token here s
                else as_word again here c s (span is_word_byte (c ∷ s)))
        digit_case true h = number_token-Moves h
        digit_case false h = if_Moves here (c == 96) _ _ backtick_token-Moves (word-Moves _ refl)

    operator_token-Moves : Moves here (operator_token again here c s)
    unfolding operator_token
    operator_token-Moves = go (single_char_op c)
      where
        go :
            (r : Option TokenKind)
            → Moves here (elim r [
              | some k ↦ lexed (token_at here k (c ∷ []) s)
              | none ↦ literal_token again here c s
            ])
        go none = literal_token-Moves
        go (some k) = moved (plain_token p k (c ∷ [])) s (Suffix_refl s)

    pair_token-Moves : Moves here (pair_token again here c s)
    unfolding pair_token
    pair_token-Moves = go s refl
      where
        two :
            (d : ℕ) (u : Bytes) (r : Option TokenKind)
            → s ≡ d ∷ u
            → Moves here (operator_token again here c (d ∷ u))
            → Moves here (elim r [
              | some k ↦ lexed (token_at here k (c ∷ d ∷ []) u)
              | none ↦ operator_token again here c (d ∷ u)
            ])
        two d u none q h = h
        two d u (some k) q h =
            moved (plain_token p k (c ∷ d ∷ [])) u (subst (Suffix u) (sym q) (inr (Suffix_refl u)))

        go : (u : Bytes) → s ≡ u → Moves here (pair_token again here c u)
        go [] q =
            subst (λ (v : Bytes). Moves here (operator_token again here c v)) q operator_token-Moves
        go (d ∷ u) q = two d u (two_char_op c d) q (
            subst (λ (v : Bytes). Moves here (operator_token again here c v)) q
              operator_token-Moves)

    next_at-Moves :
        (compiles : Bytes → Bytes → Bool) (after_value : Bool)
        → Moves here (next_at compiles again after_value here c s)
    unfolding next_at
    next_at-Moves compiles after_value =
        if_Moves here (c == b'/' && starts_with b'*' s) _ _ (go (skip_comment (tail s)) refl) (
          if_Moves here (c == b'/' && not after_value) _ _ (regex_token-Moves compiles)
            pair_token-Moves)
      where
        go :
            (r : Option Bytes) → skip_comment (tail s) ≡ r → Moves here (after_comment again here r)
        go none q = λ e. cc
        go (some rest) q = again-Moves rest (
            Suffix_trans rest (tail s) s (skip_comment-Suffix (tail s) {t = rest} q)
              (tail-Suffix s))

next_from-Moves :
    (compiles : Bytes → Bytes → Bool) (fuel : ℕ) (after_value : Bool) (l : Lexer) (s : Bytes)
    → Suffix s l.rest
    → length s ≤ fuel
    → ((m : Lexer) → length m.rest < fuel → Moves m (next compiles fuel after_value m))
    → Moves l (next_from compiles (next compiles fuel after_value) after_value l s)
next_from-Moves compiles fuel after_value l [] h k ih =
    (h, omega (arith, length-Suffix [] l.rest h), inr (refl, refl))
next_from-Moves compiles fuel after_value l (c ∷ s) h k ih = Moves-trans l (c ∷ s) _ h (
    next_at-Moves (l.pos + (length l.rest - length (c ∷ s))) c s (next compiles fuel after_value)
      (λ u back. ih _ (omega (arith, length-Suffix u s back))) compiles after_value)

-- `Next` ends on every text, with a unit of fuel for each byte and one more: it returns an error of its own, or a
-- token and a lexer whose text is an end of the one before, whose position counts the bytes between them, and which
-- has moved forward unless the token is the one for the end of the text.
pub next-Moves :
    (compiles : Bytes → Bytes → Bool) (fuel : ℕ) (after_value : Bool) (l : Lexer)
    → length l.rest < fuel
    → Moves l (next compiles fuel after_value l)
unfolding next
next-Moves compiles zero after_value l h = absurd (omega arith)
next-Moves compiles (suc fuel) after_value l h =
    next_from-Moves compiles fuel after_value l (skip_white l.rest) (skip_white-Suffix l.rest)
      (omega (arith, length-Suffix (skip_white l.rest) l.rest (skip_white-Suffix l.rest)))
      (next-Moves compiles fuel after_value)
