-- ===== src/Lexer/Quoted.antt =====
-- String literals: what a string with escaped quotes and backslashes is read as.
use jsonata.Base.{
  ℕ, zero, suc, ◌+◌, ◌-◌, ◌<◌, Bool, true, false, ◌&&◌, ◌||◌, inl, inr, [], ◌∷◌, ◌++◌, Bytes,
  length, take, ◌==◌, ◌≡◌, refl, sym, ap, ◌∙◌, arith, if◌then◌else◌, ltb, Bool-cases, append_assoc,
  append-nil, length-append,
}
use jsonata.Strings.Utf8.{
  decode_rune, decode_two, decode_three, decode_four, is_tail, second_fits, rune_error, between,
}
use jsonata.Lexer.Token.{string, plain_token, lexed, Lexer, advance}
use jsonata.Lexer.Spans.{skip_white}
use jsonata.Lexer.Literals.{piece_at, scan_string, escape, simple_escape}
use jsonata.Lexer.Next.{
  next, next_at, pair_token, operator_token, literal_token, string_token, as_string, two_char_op,
  single_char_op,
}

-- A literal's text: a backslash in front of every quote and every backslash.
unfoldable pub escaped : Bytes → Bytes
escaped [] = []
escaped (c ∷ s) = let rest = escaped s in if c == 34 || c == 92 then 92 ∷ c ∷ rest else c ∷ rest

-- The first `n` bytes are there, and each follows a first byte of a character.
abbrev TailRun : ℕ → Bytes → Type 0
TailRun zero s = Unit
TailRun (suc n) [] = ⊥
TailRun (suc n) (d ∷ s) = (is_tail d ≡ true) × TailRun n s

second_tail : (c b : ℕ) → second_fits c b ≡ true → is_tail b ≡ true
second_tail c b h = ground arith

both : (x y : Bool) → (x && y) ≡ true → (x ≡ true) × (y ≡ true)
both true y h = (refl, h)
both false y h = cc

decode_two-TailRun : (c : ℕ) (s : Bytes) → TailRun (decode_two c s).1 s
unfolding decode_two
decode_two-TailRun c [] = tt
decode_two-TailRun c (b ∷ s) = elim (Bool-cases (is_tail b)) [
  | inl fits ↦ rw fits (fits, tt)
  | inr bad ↦ rw bad tt
]

decode_three-TailRun : (c : ℕ) (s : Bytes) → TailRun (decode_three c s).1 s
unfolding decode_three
decode_three-TailRun c [] = tt
decode_three-TailRun c (b ∷ []) = tt
decode_three-TailRun c (b ∷ d ∷ s) = elim (Bool-cases (second_fits c b && is_tail d)) [
  | inl fits ↦
      let (x, y) = both (second_fits c b) (is_tail d) fits in rw fits (second_tail c b x, (y, tt))
  | inr bad ↦ rw bad tt
]

decode_four-TailRun : (c : ℕ) (s : Bytes) → TailRun (decode_four c s).1 s
unfolding decode_four
decode_four-TailRun c [] = tt
decode_four-TailRun c (b ∷ []) = tt
decode_four-TailRun c (b ∷ d ∷ []) = tt
decode_four-TailRun c (b ∷ d ∷ e ∷ s) =
    elim (Bool-cases (second_fits c b && is_tail d && is_tail e)) [
      | inl fits ↦
          let (xy, z) = both (second_fits c b && is_tail d) (is_tail e) fits in
          let (x, y) = both (second_fits c b) (is_tail d) xy in
          rw fits (second_tail c b x, (y, (z, tt)))
      | inr bad ↦ rw bad tt
    ]

decode_rune-TailRun : (c : ℕ) (s : Bytes) → TailRun (decode_rune c s).1 s
unfolding decode_rune
decode_rune-TailRun c s =
    pick (ltb c 128) (c, 0) _ tt
      (pick (between 194 223 c) _ _ (decode_two-TailRun c s) (
        pick (between 224 239 c) _ _ (decode_three-TailRun c s)
          (pick (between 240 244 c) _ (rune_error, 0) (decode_four-TailRun c s) tt)))
  where
    pick :
        (b : Bool) (x y : ℕ × ℕ) → TailRun x.1 s → TailRun y.1 s → TailRun (if b then x else y).1 s
    pick true x y h k = h
    pick false x y h k = k

-- A plain byte is copied, whatever the length of its character.
module _ (quote : ℕ) (ascii : quote < 128) where
  lone_piece : (d : ℕ) (s : Bytes) → is_tail d ≡ true → piece_at d s ≡ lexed (d ∷ [], 0)
  unfolding piece_at decode_rune
  lone_piece d s h = ground arith

  step :
      (d : ℕ) (out s piece : Bytes) (taken : ℕ)
      → (d == quote) ≡ false
      → piece_at d s ≡ lexed (piece, taken)
      → scan_string quote 0 out (d ∷ s) ≡ scan_string quote taken (out ++ piece) s
  unfolding scan_string
  step d out s piece taken h k = rw (h, k)

  tail_plain : (d : ℕ) → is_tail d ≡ true → (d == quote) ≡ false
  tail_plain d h = ground arith

  scan_run :
      (n : ℕ) (out s : Bytes)
      → TailRun n s
      → scan_string quote n (out ++ take n s) s ≡ scan_string quote 0 out s
  scan_run zero out s h = ap (λ (o : Bytes). scan_string quote 0 o s) (append-nil out)
  scan_run (suc n) out [] h = absurd h
  scan_run (suc n) out (d ∷ s) (h, k) =
      passed n d s (out ++ d ∷ take n s)
      ∙ ap (λ (o : Bytes). scan_string quote n o s) (sym (append_assoc out (d ∷ []) (take n s)))
      ∙ scan_run n (out ++ d ∷ []) s k
      ∙ sym (step d out s (d ∷ []) 0 (tail_plain d h) (lone_piece d s h))
    where
      passed :
          (m c : ℕ) (u o : Bytes) → scan_string quote (suc m) o (c ∷ u) ≡ scan_string quote m o u
      passed m c u o = unfold scan_string in refl

  plain_piece :
      (c : ℕ) (s : Bytes)
      → (c == 92) ≡ false
      → piece_at c s ≡ lexed (c ∷ take (decode_rune c s).1 s, (decode_rune c s).1)
  unfolding piece_at
  plain_piece c s h = rw h

  scan_plain :
      (c : ℕ) (out s : Bytes)
      → (c == quote) ≡ false
      → (c == 92) ≡ false
      → scan_string quote 0 out (c ∷ s) ≡ scan_string quote 0 (out ++ c ∷ []) s
  scan_plain c out s h k =
      let n = (decode_rune c s).1 in
      step c out s (c ∷ take n s) n h (plain_piece c s k)
      ∙ ap (λ (o : Bytes). scan_string quote n o s) (sym (append_assoc out (c ∷ []) (take n s)))
      ∙ scan_run n (out ++ c ∷ []) s (decode_rune-TailRun c s)

scan_escape :
    (c : ℕ) (out s : Bytes)
    → (c == 34 || c == 92) ≡ true
    → scan_string 34 0 out (92 ∷ c ∷ s) ≡ scan_string 34 0 (out ++ c ∷ []) s
unfolding scan_string piece_at escape simple_escape
scan_escape c out s h = ground arith

-- The literal is read as the string.
scan_escaped :
    (s out rest : Bytes) → scan_string 34 0 out (escaped s ++ 34 ∷ rest) ≡ lexed (out ++ s, rest)
unfolding escaped
scan_escaped [] out rest =
    unfold scan_string in ap (λ (o : Bytes). lexed (o, rest)) (sym (append-nil out))
scan_escaped (c ∷ s) out rest =
    let onward : scan_string 34 0 (out ++ c ∷ []) (escaped s ++ 34 ∷ rest)
        ≡ lexed (out ++ c ∷ s, rest) =
      scan_escaped s (out ++ c ∷ []) rest
      ∙ ap (λ (o : Bytes). lexed (o, rest)) (append_assoc out (c ∷ []) s) in
    elim (Bool-cases (c == 34 || c == 92)) [
      | inl special ↦ rw special (scan_escape c out (escaped s ++ 34 ∷ rest) special ∙ onward)
      | inr plain ↦ rw plain (
          scan_plain 34 (omega arith) c out (escaped s ++ 34 ∷ rest) (ground arith) (ground arith)
          ∙ onward)
    ]

-- The call of `Next` at a quote.
quote_step :
    (compiles : Bytes → Bytes → Bool) (fuel : ℕ) (after_value : Bool) (p : ℕ) (s : Bytes)
    → next compiles (suc fuel) after_value (record { pos = p; rest = 34 ∷ s })
      ≡ string_token (advance (record { pos = p; rest = 34 ∷ s }) (34 ∷ s)) 34 s
unfolding next next_at pair_token operator_token literal_token skip_white two_char_op single_char_op
quote_step compiles fuel after_value p [] = refl
quote_step compiles fuel after_value p (c ∷ s) = refl

-- Every byte string is the value of the string literal that writes it in double quotes, with a backslash in front of
-- each quote and backslash, whatever text follows.
pub next-escaped :
    (compiles : Bytes → Bytes → Bool) (fuel : ℕ) (after_value : Bool) (p : ℕ) (s rest : Bytes)
    → next compiles
        (suc fuel)
        after_value
        (record { pos = p; rest = 34 ∷ (escaped s ++ 34 ∷ rest) })
      ≡ lexed (plain_token p string s, record { pos = p + (length (escaped s) + 2); rest = rest })
unfolding string_token
next-escaped compiles fuel after_value p s rest =
    quote_step compiles fuel after_value p (escaped s ++ 34 ∷ rest)
    ∙ ap (as_string at_quote) (scan_escaped s [] rest)
    ∙ (λ i. lexed (plain_token (start i) string s, record { pos = place i; rest = rest }))
  where
    at_quote : Lexer
    at_quote =
        advance (record { pos = p; rest = 34 ∷ (escaped s ++ 34 ∷ rest) })
          (34 ∷ (escaped s ++ 34 ∷ rest))

    start : p + (suc (length (escaped s ++ 34 ∷ rest)) - suc (length (escaped s ++ 34 ∷ rest))) ≡ p
    start = omega arith

    place :
        p
          + (suc (length (escaped s ++ 34 ∷ rest)) - suc (length (escaped s ++ 34 ∷ rest)))
          + (suc (length (escaped s ++ 34 ∷ rest)) - length rest)
        ≡ p + (length (escaped s) + 2)
    place = omega (arith, length-append (escaped s) (34 ∷ rest))
