-- ===== src/Lexer/Numerals.antt =====
-- Number literals: a valid token is read whole.
use jsonata.Base.{
  ℕ, suc, ◌+◌, ◌-◌, Bool, true, false, ◌&&◌, ◌||◌, inl, inr, [], ◌∷◌, ◌++◌, none, Bytes, length,
  ◌==◌, ◌≡◌, refl, sym, ap, ◌∙◌, arith, if◌then◌else◌, Bool-cases, append_assoc, append-nil,
}
use jsonata.Number.Grammar.{
  is_digit, skip_digits, digits_end, exponent_end, fraction_end, integer_end, valid,
}
use jsonata.Lexer.Token.{Token, number, plain_token, Lexed, lexed, Lexer, advance}
use jsonata.Lexer.Spans.{
  span, integer_span, fraction_span, sign_span, exponent_span, number_span, skip_white, is_white,
}
use jsonata.Lexer.Next.{
  as_number, number_token, next_from, next, next_at, pair_token, operator_token, literal_token,
  two_char_op, single_char_op,
}

-- A span and what follows it are the text.
abbrev Splits : Bytes → Bytes × Bytes → Type 0
Splits s r = r.0 ++ r.1 ≡ s

if_Splits :
    (s : Bytes) (b : Bool) (x y : Bytes × Bytes)
    → Splits s x
    → Splits s y
    → Splits s (if b then x else y)
if_Splits s true x y h k = h
if_Splits s false x y h k = k

span-Splits : (test : ℕ → Bool) (s : Bytes) → Splits s (span test s)
unfolding span
span-Splits test [] = refl
span-Splits test (c ∷ s) =
    if_Splits (c ∷ s) (test c) (c ∷ (span test s).0, (span test s).1) ([], c ∷ s)
      (ap (◌∷◌ c) (span-Splits test s)) refl

span_rest : (s : Bytes) → (span is_digit s).1 ≡ skip_digits s
unfolding span skip_digits
span_rest [] = refl
span_rest (c ∷ s) = ground (arith, span_rest s)

integer_span-Splits : (c : ℕ) (s : Bytes) → Splits (c ∷ s) (integer_span c s)
unfolding integer_span
integer_span-Splits c s =
    if_Splits (c ∷ s) (c == b'0') (c ∷ [], s) (span is_digit (c ∷ s)) refl
      (span-Splits is_digit (c ∷ s))

fraction_span-Splits : (s : Bytes) → Splits s (fraction_span s)
unfolding fraction_span
fraction_span-Splits [] = refl
fraction_span-Splits (c ∷ []) = refl
fraction_span-Splits (c ∷ d ∷ s) =
    if_Splits (c ∷ d ∷ s) (c == b'.' && is_digit d)
      (c ∷ (span is_digit (d ∷ s)).0, (span is_digit (d ∷ s)).1) ([], c ∷ d ∷ s)
      (ap (◌∷◌ c) (span-Splits is_digit (d ∷ s))) refl

sign_span-Splits : (s : Bytes) → Splits s (sign_span s)
unfolding sign_span
sign_span-Splits [] = refl
sign_span-Splits (c ∷ s) =
    if_Splits (c ∷ s) (c == b'+' || c == b'-') (c ∷ [], s) ([], c ∷ s) refl refl

exponent_span-Splits : (s : Bytes) → Splits s (exponent_span s)
unfolding exponent_span
exponent_span-Splits [] = refl
exponent_span-Splits (c ∷ s) =
    let sign = sign_span s in
    let digits = span is_digit sign.1 in
    if_Splits (c ∷ s) (c == b'e' || c == b'E') (c ∷ (sign.0 ++ digits.0), digits.1) ([], c ∷ s)
      (ap (◌∷◌ c) (
        append_assoc sign.0 digits.0 digits.1
        ∙ ap (λ (t : Bytes). sign.0 ++ t) (span-Splits is_digit sign.1)
        ∙ sign_span-Splits s))
      refl

number_span-Splits : (c : ℕ) (s : Bytes) → Splits (c ∷ s) (number_span c s)
unfolding number_span
number_span-Splits c s =
    let i = integer_span c s in
    let f = fraction_span i.1 in
    let e = exponent_span f.1 in
    append_assoc i.0 (f.0 ++ e.0) e.1
    ∙ ap (λ (t : Bytes). i.0 ++ t)
        (append_assoc f.0 e.0 e.1
          ∙ ap (λ (t : Bytes). f.0 ++ t) (exponent_span-Splits f.1)
          ∙ fraction_span-Splits i.1)
    ∙ integer_span-Splits c s

-- What the recogniser takes whole, the spans take whole.
digits_done : (s : Bytes) → digits_end s ≡ true → skip_digits s ≡ []
unfolding digits_end skip_digits
digits_done [] h = cc
digits_done (c ∷ s) h = ground arith

exponent_done : (s : Bytes) → exponent_end s ≡ true → (exponent_span s).1 ≡ []
unfolding exponent_end exponent_span sign_span
exponent_done [] h = refl
exponent_done (c ∷ []) h = cc
exponent_done (c ∷ d ∷ s) h =
    ground (arith, digits_done s, digits_done (d ∷ s), span_rest s, span_rest (d ∷ s))

fraction_done : (s : Bytes) → fraction_end s ≡ true → (exponent_span (fraction_span s).1).1 ≡ []
unfolding fraction_end fraction_span
fraction_done [] h = unfold exponent_span in refl
fraction_done (c ∷ []) h = cc
fraction_done (c ∷ d ∷ s) h = ground (
  arith,
  exponent_done (skip_digits s),
  exponent_done (c ∷ d ∷ s),
  span_rest (d ∷ s),
  span_rest s,
)

number_done :
    (c : ℕ) (s : Bytes) → is_digit c ≡ true → valid (c ∷ s) ≡ true → (number_span c s).1 ≡ []
unfolding valid integer_end number_span integer_span skip_digits span
number_done c s d h = elim (Bool-cases (c == b'0')) [
  | inl zero_digit ↦ rw zero_digit (fraction_done s (ground arith))
  | inr other ↦
      rw (other, d)
        (ap (λ (t : Bytes). (exponent_span (fraction_span t).1).1) (span_rest s)
          ∙ fraction_done (skip_digits s) (ground arith))
]

number_whole :
    (c : ℕ) (s : Bytes) → is_digit c ≡ true → valid (c ∷ s) ≡ true → number_span c s ≡ (c ∷ s, [])
number_whole c s d h =
    let done = number_done c s d h in
    let whole =
      sym (append-nil (number_span c s).0)
      ∙ ap (λ (t : Bytes). (number_span c s).0 ++ t) (sym done)
      ∙ number_span-Splits c s in
    λ i. (whole i, done i)

-- What a digit is not.
module _ (c : ℕ) (digit : is_digit c ≡ true) where
  not_white : is_white c ≡ false
  not_white = ground arith

  not_slash : (c == b'/') ≡ false
  not_slash = ground arith

  not_quote : (c == 34 || c == 39) ≡ false
  not_quote = ground arith

  no_operator : single_char_op c ≡ none
  unfolding single_char_op
  no_operator = ground arith

  no_pair : (d : ℕ) → two_char_op c d ≡ none
  unfolding two_char_op
  no_pair d = ground arith

  kept : (s : Bytes) → skip_white (c ∷ s) ≡ c ∷ s
  unfolding skip_white
  kept s = rw not_white

  -- The call of `Next` at a digit.
  module _ (again : Lexer → Lexed (Token × Lexer)) (l : Lexer) where
    literal_digit : (s : Bytes) → literal_token again l c s ≡ number_token l c s
    unfolding literal_token
    literal_digit s = rw (not_quote, digit)

    operator_digit : (s : Bytes) → operator_token again l c s ≡ number_token l c s
    unfolding operator_token
    operator_digit s = rw (no_operator, operator_token) (literal_digit s)

    pair_digit : (s : Bytes) → pair_token again l c s ≡ number_token l c s
    unfolding pair_token
    pair_digit [] = operator_digit []
    pair_digit (d ∷ s) = rw (no_pair d, pair_token) (operator_digit (d ∷ s))

    next_digit :
        (compiles : Bytes → Bytes → Bool) (after_value : Bool) (s : Bytes)
        → next_at compiles again after_value l c s ≡ number_token l c s
    unfolding next_at
    next_digit compiles after_value s = rw not_slash (pair_digit s)

  digit_step :
      (compiles : Bytes → Bytes → Bool) (fuel : ℕ) (after_value : Bool) (p : ℕ) (s : Bytes)
      → next compiles (suc fuel) after_value (record { pos = p; rest = c ∷ s })
        ≡ number_token (advance (record { pos = p; rest = c ∷ s }) (c ∷ s)) c s
  unfolding next
  digit_step compiles fuel after_value p s =
      let l : Lexer = record { pos = p; rest = c ∷ s } in
      ap (next_from compiles (next compiles fuel after_value) after_value l) (kept s)
      ∙ next_digit (next compiles fuel after_value) (advance l (c ∷ s)) compiles after_value s

-- Every valid number without a sign is one token with its own text, and ends the text.
pub next-valid :
    (compiles : Bytes → Bytes → Bool) (fuel : ℕ) (after_value : Bool) (p c : ℕ) (s : Bytes)
    → is_digit c ≡ true
    → valid (c ∷ s) ≡ true
    → next compiles (suc fuel) after_value (record { pos = p; rest = c ∷ s })
      ≡ lexed (plain_token p number (c ∷ s), record { pos = p + length (c ∷ s); rest = [] })
unfolding number_token
next-valid compiles fuel after_value p c s d h =
    digit_step c d compiles fuel after_value p s
    ∙ ap (as_number at_digit) (number_whole c s d h)
    ∙ rw h (λ i. lexed (plain_token (start i) number (c ∷ s), record { pos = place i; rest = [] }))
  where
    at_digit : Lexer
    at_digit = advance (record { pos = p; rest = c ∷ s }) (c ∷ s)

    start : p + (suc (length s) - suc (length s)) ≡ p
    start = omega arith

    place : p + (suc (length s) - suc (length s)) + (suc (length s) - 0) ≡ p + suc (length s)
    place = omega arith
