-- ===== src/Strings/CodeUnits.antt =====
-- The bytes that stand for one code unit or one pair, written and read.
use jsonata.Base.{
  ◌||◌, ℕ, ◌+◌, ◌*◌, ◌/◌, ◌%◌, ◌<◌, ◌≤◌, true, false, [], ◌∷◌, Bytes, ◌≡◌, refl, ap, ◌∙◌, arith,
  ltb, if◌then◌else◌, lt→ltb,
}
use jsonata.Strings.Utf8.{
  encode_rune, decode_rune, decode_two, decode_three, decode_four, is_tail, second_fits, between,
  rune_error, high_half, low_half,
}
use jsonata.Strings.Units.{surrogate, code_unit, next_units, is_high, is_low}

-- The bytes of one code unit, by their number.
pub one_byte : (u : ℕ) (t : Bytes) → u < 128 → next_units u t ≡ (u ∷ [], 0)
unfolding next_units decode_rune surrogate
one_byte u [] h = ground arith
one_byte u (b ∷ []) h = ground arith
one_byte u (b ∷ c ∷ t) h = ground arith

pub two_bytes :
    (u : ℕ) (t : Bytes)
    → 128 ≤ u
    → u < 2048
    → next_units (192 + u / 64) ((128 + u % 64) ∷ t) ≡ (u ∷ [], 1)
unfolding next_units decode_rune surrogate decode_two
two_bytes u [] l h = ground arith
two_bytes u (c ∷ t) l h = ground arith

pub three_bytes :
    (u : ℕ) (t : Bytes)
    → 2048 ≤ u
    → u < 65536
    → (is_high u || is_low u) ≡ false
    → next_units (224 + u / 4096) ((128 + (u / 64) % 64) ∷ (128 + u % 64) ∷ t) ≡ (u ∷ [], 2)
unfolding next_units decode_rune surrogate decode_three
three_bytes u t l h s = ground arith

pub half_bytes :
    (u : ℕ) (t : Bytes)
    → (is_high u || is_low u) ≡ true
    → next_units (224 + u / 4096) ((128 + (u / 64) % 64) ∷ (128 + u % 64) ∷ t) ≡ (u ∷ [], 2)
unfolding next_units surrogate
half_bytes u t h = ground arith

four_value :
    (r : ℕ)
    → r < 1114112
    → ((240 + r / 262144) % 8) * 262144
        + ((128 + (r / 4096) % 64) % 64) * 4096
        + ((128 + (r / 64) % 64) % 64) * 64
        + (128 + r % 64) % 64
      ≡ r
four_value r h = omega arith

four_fit :
    (r : ℕ)
    → 65536 ≤ r
    → r < 1114112
    → second_fits (240 + r / 262144) (128 + (r / 4096) % 64) ≡ true
four_fit r l h = ground arith

tails : (q : ℕ) → is_tail (128 + q % 64) ≡ true
tails q = ground arith

leads :
    (r : ℕ) (x y z w : ℕ × ℕ)
    → r < 1114112
    → (if ltb (240 + r / 262144) 128
        then x
        else if between 194 223 (240 + r / 262144)
        then y
        else if between 224 239 (240 + r / 262144)
        then z
        else if between 240 244 (240 + r / 262144)
        then w
        else (rune_error, 0))
      ≡ w
leads r x y z w h = ground arith

pub four_decoded :
    (r : ℕ) (t : Bytes)
    → 65536 ≤ r
    → r < 1114112
    → decode_rune
        (240 + r / 262144)
        ((128 + (r / 4096) % 64) ∷ (128 + (r / 64) % 64) ∷ (128 + r % 64) ∷ t)
      ≡ (r, 3)
unfolding decode_rune decode_four
four_decoded r t l h =
    leads r _ _ _ _ h
    ∙ rw (four_fit r l h, tails (r / 64), tails r) (ap (λ (n : ℕ). (n, 3)) (four_value r h))

pub no_half : (r : ℕ) (s : Bytes) → r < 1114112 → 65536 ≤ r → surrogate (240 + r / 262144) s ≡ 0
unfolding surrogate
no_half r [] h l = refl
no_half r (b ∷ []) h l = refl
no_half r (b ∷ d ∷ s) h l = ground arith

pub four_bytes :
    (r : ℕ) (t : Bytes)
    → 65536 ≤ r
    → r < 1114112
    → next_units
        (240 + r / 262144)
        ((128 + (r / 4096) % 64) ∷ (128 + (r / 64) % 64) ∷ (128 + r % 64) ∷ t)
      ≡ (high_half r ∷ low_half r ∷ [], 3)
unfolding next_units
four_bytes r t l h = rw (no_half r _ h l, four_decoded r t l h, lt→ltb 65535 r (omega arith))

pub half_code :
    (u : ℕ)
    → (is_high u || is_low u) ≡ true
    → code_unit u ≡ (224 + u / 4096) ∷ (128 + (u / 64) % 64) ∷ (128 + u % 64) ∷ []
unfolding code_unit
half_code u h = ground arith

pub one_code : (u : ℕ) → u < 128 → code_unit u ≡ u ∷ []
unfolding code_unit encode_rune
one_code u h = ground arith

pub two_code : (u : ℕ) → 128 ≤ u → u < 2048 → code_unit u ≡ (192 + u / 64) ∷ (128 + u % 64) ∷ []
unfolding code_unit encode_rune
two_code u l h = ground arith

pub three_code :
    (u : ℕ)
    → 2048 ≤ u
    → u < 65536
    → (is_high u || is_low u) ≡ false
    → code_unit u ≡ (224 + u / 4096) ∷ (128 + (u / 64) % 64) ∷ (128 + u % 64) ∷ []
unfolding code_unit encode_rune
three_code u l h s = ground arith

pub four_code :
    (r : ℕ)
    → 65536 ≤ r
    → r < 1114112
    → encode_rune r
      ≡ (240 + r / 262144) ∷ (128 + (r / 4096) % 64) ∷ (128 + (r / 64) % 64) ∷ (128 + r % 64) ∷ []
unfolding encode_rune
four_code r l h = ground arith
