-- ===== src/Strings/Canonical.antt =====
-- The strings that `FromUnits` makes are canonical.
use jsonata.Base.{
  ℕ, zero, suc, ◌+◌, ◌/◌, ◌%◌, ◌<◌, ◌≤◌, Bool, true, false, ◌&&◌, ◌||◌, List, [], ◌∷◌, ◌++◌, Bytes,
  ◌≡◌, refl, ap, ◌∙◌, arith, ltb, Bool-cases, inl, inr, if◌then◌else◌, ltb→lt, sym, append-nil,
  drop,
}
use jsonata.Strings.Utf8.{encode_rune, decode_rune, decode_two, decode_three, join_halves}
use jsonata.Strings.Units.{surrogate, code_unit, is_high, is_low, from_units}
use jsonata.Strings.CodeUnits.{
  half_code, one_code, two_code, three_code, four_code, four_decoded, no_half,
}
use jsonata.Strings.RoundTrip.{AllUnits, paired, unpaired, pair_range}
use jsonata.Strings.Scan.{valid_round, valid_after, valid}

three_no_half :
    (u : ℕ) (t : Bytes)
    → 2048 ≤ u
    → u < 65536
    → (is_high u || is_low u) ≡ false
    → surrogate (224 + u / 4096) ((128 + (u / 64) % 64) ∷ (128 + u % 64) ∷ t) ≡ 0
unfolding surrogate
three_no_half u t l h s = ground arith

three_decoded :
    (u : ℕ) (t : Bytes)
    → 2048 ≤ u
    → u < 65536
    → (is_high u || is_low u) ≡ false
    → decode_rune (224 + u / 4096) ((128 + (u / 64) % 64) ∷ (128 + u % 64) ∷ t) ≡ (u, 2)
unfolding decode_rune decode_three
three_decoded u t l h s = ground arith

valid_skip : (p size : ℕ) (s : Bytes) → valid_after p size s ≡ valid_after p 0 (drop size s)
unfolding valid_after
valid_skip p zero s = refl
valid_skip p (suc size) [] = refl
valid_skip p (suc size) (c ∷ s) = valid_skip p size s

module _ (p : ℕ) where
  one_round : (u : ℕ) (t : Bytes) → u < 128 → valid_round p u t ≡ (true, 0, 0)
  unfolding valid_round decode_rune surrogate
  one_round u [] h = ground arith
  one_round u (b ∷ []) h = ground arith
  one_round u (b ∷ c ∷ t) h = ground arith

  two_round :
      (u : ℕ) (t : Bytes)
      → 128 ≤ u
      → u < 2048
      → valid_round p (192 + u / 64) ((128 + u % 64) ∷ t) ≡ (true, 0, 1)
  unfolding valid_round decode_rune surrogate decode_two
  two_round u [] l h = ground arith
  two_round u (c ∷ t) l h = ground arith

  three_round :
      (u : ℕ) (t : Bytes)
      → 2048 ≤ u
      → u < 65536
      → (is_high u || is_low u) ≡ false
      → valid_round p (224 + u / 4096) ((128 + (u / 64) % 64) ∷ (128 + u % 64) ∷ t) ≡ (true, 0, 2)
  unfolding valid_round
  three_round u t l h s = rw (three_no_half u t l h s, three_decoded u t l h s)

  half_round :
      (u : ℕ) (t : Bytes)
      → (is_high u || is_low u) ≡ true
      → (is_high p && is_low u) ≡ false
      → valid_round p (224 + u / 4096) ((128 + (u / 64) % 64) ∷ (128 + u % 64) ∷ t) ≡ (true, u, 2)
  unfolding valid_round surrogate
  half_round u t h k = ground arith

  four_round :
      (r : ℕ) (t : Bytes)
      → 65536 ≤ r
      → r < 1114112
      → valid_round p
          (240 + r / 262144)
          ((128 + (r / 4096) % 64) ∷ (128 + (r / 64) % 64) ∷ (128 + r % 64) ∷ t)
        ≡ (true, 0, 3)
  unfolding valid_round
  four_round r t l h = rw (no_half r _ h l, four_decoded r t l h)

  round_step :
      (c unit size : ℕ) (s : Bytes)
      → valid_round p c s ≡ (true, unit, size)
      → valid_after p 0 (c ∷ s) ≡ valid_after unit 0 (drop size s)
  unfolding valid_after
  round_step c unit size s h =
      ap (λ (r : Bool × ℕ × ℕ). if r.0 then valid_after r.1 r.2 s else false) h
      ∙ valid_skip unit size s

  scan : (t : Bytes) {b b' : Bytes} → b ≡ b' → valid_after p 0 (b ++ t) ≡ valid_after p 0 (b' ++ t)
  scan t e = ap (λ (b : Bytes). valid_after p 0 (b ++ t)) e

  -- The loop of `Valid` over the bytes of one code unit, or of one pair.
  whole_scan :
      (u : ℕ) (t : Bytes)
      → u < 65536
      → (is_high u || is_low u) ≡ false
      → valid_after p 0 (code_unit u ++ t) ≡ valid_after 0 0 t
  whole_scan u t h whole = elim (Bool-cases (ltb u 128)) [
    | inl one ↦
        scan t (one_code u (ltb→lt u 128 one))
        ∙ round_step _ _ _ _ (one_round u t (ltb→lt u 128 one))
    | inr more ↦ elim (Bool-cases (ltb u 2048)) [
      | inl two ↦
          scan t (two_code u (ground arith) (ltb→lt u 2048 two))
          ∙ round_step _ _ _ _ (two_round u t (ground arith) (ltb→lt u 2048 two))
      | inr three ↦
          scan t (three_code u (ground arith) h whole)
          ∙ round_step _ _ _ _ (three_round u t (ground arith) h whole)
    ]
  ]

  half_scan :
      (u : ℕ) (t : Bytes)
      → (is_high u || is_low u) ≡ true
      → (is_high p && is_low u) ≡ false
      → valid_after p 0 (code_unit u ++ t) ≡ valid_after u 0 t
  half_scan u t h k = scan t (half_code u h) ∙ round_step _ _ _ _ (half_round u t h k)

  pair_scan :
      (r : ℕ) (t : Bytes)
      → 65536 ≤ r
      → r < 1114112
      → valid_after p 0 (encode_rune r ++ t) ≡ valid_after 0 0 t
  pair_scan r t l h = scan t (four_code r l h) ∙ round_step _ _ _ _ (four_round r t l h)

-- No pair is left apart behind the code unit `p`.
abbrev Follows : ℕ → List ℕ → Type 0
Follows p [] = Unit
Follows p (u ∷ us) = (is_high p && is_low u) ≡ false

Follows-zero : (us : List ℕ) → Follows 0 us
Follows-zero [] = tt
Follows-zero (u ∷ us) = refl

unit_scan :
    (p u : ℕ) (us : List ℕ) (t : Bytes)
    → u < 65536
    → (is_high p && is_low u) ≡ false
    → Follows u us
    → ((q : ℕ) → Follows q us → valid_after q 0 t ≡ true)
    → valid_after p 0 (code_unit u ++ t) ≡ true
unit_scan p u us t h apart next rest = elim (Bool-cases (is_high u || is_low u)) [
  | inl half ↦ half_scan p u t half apart ∙ rest u next
  | inr whole ↦ whole_scan p u t h whole ∙ rest 0 (Follows-zero us)
]

valid_from :
    (us : List ℕ) (p : ℕ) → AllUnits us → Follows p us → valid_after p 0 (from_units us) ≡ true
valid_from [] p h apart = unfold from_units valid_after in refl
valid_from (u ∷ []) p (h, _) apart =
    unfold from_units in
    ap (valid_after p 0) (sym (append-nil (code_unit u)))
    ∙ unit_scan p u [] [] h apart tt (λ q _. unfold valid_after in refl)
valid_from (u ∷ v ∷ us) p (h, (k, all)) apart = elim (Bool-cases (is_high u && is_low v)) [
  | inl pair ↦
      let (low, high) = pair_range u v pair in
      ap (valid_after p 0) (paired u v us pair)
      ∙ pair_scan p (join_halves u v) (from_units us) low high
      ∙ valid_from us 0 all (Follows-zero us)
  | inr single ↦
      ap (valid_after p 0) (unpaired u v us single)
      ∙ unit_scan p u (v ∷ us) (from_units (v ∷ us)) h apart single
          (λ q next. valid_from (v ∷ us) q (k, all) next)
]

-- What `FromUnits` makes of 16-bit code units is canonical: `Valid` accepts it.
pub valid-from_units : (us : List ℕ) → AllUnits us → valid (from_units us) ≡ true
unfolding valid
valid-from_units us h = valid_from us 0 h (Follows-zero us)
