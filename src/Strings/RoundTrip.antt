-- ===== src/Strings/RoundTrip.antt =====
-- Strings keep their code units.
use jsonata.Base.{
  ◌||◌, ℕ, ◌<◌, ◌≤◌, true, false, ◌&&◌, List, [], ◌∷◌, ◌++◌, Bytes, ◌≡◌, refl, ap, ◌∙◌, arith, ltb,
  ltb→lt, sym, append-nil, Bool-cases, inl, inr,
}
use jsonata.Strings.Utf8.{encode_rune, join_halves, high_half, low_half}
use jsonata.Strings.Units.{code_unit, units_after, units, is_high, is_low, from_units}
use jsonata.Strings.CodeUnits.{
  one_byte, two_bytes, three_bytes, half_bytes, four_bytes, half_code, one_code, two_code,
  three_code, four_code,
}

-- A loop that reads one code unit off its bytes.
module _ (u : ℕ) (t : Bytes) where
  after_one : u < 128 → units_after 0 (code_unit u ++ t) ≡ u ∷ units_after 0 t
  unfolding units_after
  after_one h = rw (one_code u h, units_after, one_byte u t h)

  after_two : 128 ≤ u → u < 2048 → units_after 0 (code_unit u ++ t) ≡ u ∷ units_after 0 t
  unfolding units_after
  after_two l h = rw (two_code u l h, units_after, two_bytes u t l h)

  after_three :
      2048 ≤ u
      → u < 65536
      → (is_high u || is_low u) ≡ false
      → units_after 0 (code_unit u ++ t) ≡ u ∷ units_after 0 t
  unfolding units_after
  after_three l h s = rw (three_code u l h s, units_after, three_bytes u t l h s)

  after_half :
      (is_high u || is_low u) ≡ true → units_after 0 (code_unit u ++ t) ≡ u ∷ units_after 0 t
  unfolding units_after
  after_half h = rw (half_code u h, units_after, half_bytes u t h)

  after_code_unit : u < 65536 → units_after 0 (code_unit u ++ t) ≡ u ∷ units_after 0 t
  after_code_unit h = elim (Bool-cases (is_high u || is_low u)) [
    | inl half ↦ after_half half
    | inr whole ↦ elim (Bool-cases (ltb u 128)) [
      | inl one ↦ after_one (ltb→lt u 128 one)
      | inr more ↦ elim (Bool-cases (ltb u 2048)) [
        | inl two ↦ after_two (ground arith) (ltb→lt u 2048 two)
        | inr three ↦ after_three (ground arith) h whole
      ]
    ]
  ]

after_pair :
    (r : ℕ) (t : Bytes)
    → 65536 ≤ r
    → r < 1114112
    → units_after 0 (encode_rune r ++ t) ≡ high_half r ∷ low_half r ∷ units_after 0 t
unfolding units_after
after_pair r t l h = rw (four_code r l h, units_after, four_bytes r t l h)

pub pair_range :
    (u v : ℕ)
    → (is_high u && is_low v) ≡ true
    → (65536 ≤ join_halves u v) × (join_halves u v < 1114112)
pair_range u v h = ground arith

pair_halves :
    (u v : ℕ)
    → (is_high u && is_low v) ≡ true
    → (high_half (join_halves u v) ≡ u) × (low_half (join_halves u v) ≡ v)
pair_halves u v h = ground arith

-- Sixteen bits each.
abbrev pub AllUnits : List ℕ → Type 0
AllUnits [] = Unit
AllUnits (u ∷ us) = (u < 65536) × AllUnits us

pub paired :
    (u v : ℕ) (us : List ℕ)
    → (is_high u && is_low v) ≡ true
    → from_units (u ∷ v ∷ us) ≡ encode_rune (join_halves u v) ++ from_units us
unfolding from_units
paired u v us h = rw (h, from_units)

pub unpaired :
    (u v : ℕ) (us : List ℕ)
    → (is_high u && is_low v) ≡ false
    → from_units (u ∷ v ∷ us) ≡ code_unit u ++ from_units (v ∷ us)
unfolding from_units
unpaired u v us h = ground arith

both_then :
    {a b c d : ℕ} {xs ys : List ℕ}
    → a ≡ b
    → c ≡ d
    → xs ≡ ys
    → ◌≡◌ {A = List ℕ} (a ∷ c ∷ xs) (b ∷ d ∷ ys)
both_then p q r i = p i ∷ q i ∷ r i

after_from_units : (us : List ℕ) → AllUnits us → units_after 0 (from_units us) ≡ us
unfolding units_after
after_from_units [] h = unfold from_units in refl
after_from_units (u ∷ []) (h, _) =
    unfold from_units in
    ap (units_after 0) (sym (append-nil (code_unit u))) ∙ after_code_unit u [] h
after_from_units (u ∷ v ∷ us) (h, (k, rest)) = elim (Bool-cases (is_high u && is_low v)) [
  | inl pair ↦
      let (low, high) = pair_range u v pair in
      let (first, second) = pair_halves u v pair in
      ap (units_after 0) (paired u v us pair)
      ∙ after_pair (join_halves u v) (from_units us) low high
      ∙ both_then first second (after_from_units us rest)
  | inr single ↦
      ap (units_after 0) (unpaired u v us single)
      ∙ after_code_unit u (from_units (v ∷ us)) h
      ∙ ap (◌∷◌ u) (after_from_units (v ∷ us) (k, rest))
]

-- A list of 16-bit code units, isolated surrogates included, is read back from the string that `FromUnits` makes of it.
pub units-from_units : (us : List ℕ) → AllUnits us → units (from_units us) ≡ us
unfolding units
units-from_units us h = after_from_units us h
