-- ===== src/Integers/Alphabetic.antt =====
-- `bigIntToAlphabetic`, and the letters of `parseIntegerWithPicture`, in
-- go/internal/engine/functions/string_format_integer.go.
use jsonata.Base.{
  ℕ, zero, suc, ◌+◌, ◌-◌, ◌*◌, ◌/◌, ◌%◌, ◌^◌, ◌<◌, ◌≤◌, Bool, true, false, not, ◌&&◌, [], ◌∷◌, map,
  Bytes, leb, ◌==◌, if◌then◌else◌, ◌≡◌, refl, sym, ap, ◌∙◌, arith, Bool-cases, inl, inr,
}
use jsonata.Number.Parts.{to_lower}

-- The loop of `bigIntToAlphabetic`, each letter in front of those before it; `n` rounds are enough.
unfoldable pub letters : ℕ → ℕ → ℕ → Bytes → Bytes
letters zero base n out = out
letters (suc fuel) base n out = elim (n == 0) [
  | true ↦ out
  | false ↦ letters fuel base ((n - 1) / 26) ((base + (n - 1) % 26) ∷ out)
]

unfoldable pub alphabetic : ℕ → ℕ → Bytes
unfolding letters
alphabetic n base = letters n base n []

-- D3137 and the work limit.
pub data IntegerError : Type 0 where
  d3137 work_limit : IntegerError

pub data ParsedInteger : Type 0 where
  parsed : ℕ → ParsedInteger
  failed : IntegerError → ParsedInteger

-- Whether the decimal notation of `n` has more than `max_digits` digits.
abbrev pub too_long : ℕ → ℕ → Bool
too_long max_digits n = leb (10 ^ max_digits) n

-- The loop over the letters, in lower case.
unfoldable pub parse_letters : ℕ → ℕ → Bytes → ParsedInteger
parse_letters max_digits n [] = parsed n
parse_letters max_digits n (c ∷ s) =
    let m = n * 26 + (c - b'a' + 1) in
    let more = parse_letters max_digits m s in
    if not (leb b'a' c && leb c b'z')
    then failed d3137
    else if too_long max_digits m
    then failed work_limit
    else more

letters_stop : (fuel base n : ℕ) (out : Bytes) → (n == 0) ≡ true → letters fuel base n out ≡ out
unfolding letters
letters_stop zero base n out h = refl
letters_stop (suc fuel) base n out h = rw (h, letters)

letters_more :
    (fuel base n : ℕ) (out : Bytes)
    → (n == 0) ≡ false
    → letters (suc fuel) base n out ≡ letters fuel base ((n - 1) / 26) ((base + (n - 1) % 26) ∷ out)
unfolding letters
letters_more fuel base n out h = rw (h, letters)

-- One letter takes the loop from `m` to `m * 26 + d + 1`.
letter_step :
    (max_digits m d n : ℕ) (out : Bytes)
    → d < 26
    → m * 26 + d + 1 ≡ n
    → n < 10 ^ max_digits
    → parse_letters max_digits m ((b'a' + d) ∷ out) ≡ parse_letters max_digits n out
unfolding parse_letters
letter_step max_digits m d n out h e bound =
    let value : m * 26 + (b'a' + d - b'a' + 1) ≡ n = omega arith in
    rw (value, parse_letters) (ground arith)

-- The letters of `n` bring the loop from 0 to `n`.
letters_read :
    (max_digits fuel n : ℕ) (out : Bytes)
    → n ≤ fuel
    → n < 10 ^ max_digits
    → parse_letters max_digits 0 (letters fuel b'a' n out) ≡ parse_letters max_digits n out
letters_read max_digits zero n out h bound =
    ap (parse_letters max_digits 0) (letters_stop 0 b'a' n out (ground arith))
    ∙ ap (λ (k : ℕ). parse_letters max_digits k out) (omega arith)
letters_read max_digits (suc fuel) n out h bound = elim (Bool-cases (n == 0)) [
  | inl nothing ↦
      ap (parse_letters max_digits 0) (letters_stop (suc fuel) b'a' n out nothing)
      ∙ ap (λ (k : ℕ). parse_letters max_digits k out) (ground arith)
  | inr more ↦
      let positive : 0 < n = ground arith in
      ap (parse_letters max_digits 0) (letters_more fuel b'a' n out more)
      ∙ letters_read max_digits fuel ((n - 1) / 26) ((b'a' + (n - 1) % 26) ∷ out) (omega arith)
          (omega arith)
      ∙ letter_step max_digits ((n - 1) / 26) ((n - 1) % 26) n out (omega arith) (omega arith) bound
]

-- The letters from another base, in lower case.
lower_letters :
    (base : ℕ)
    → ((d : ℕ) → d < 26 → to_lower (base + d) ≡ b'a' + d)
    → (fuel n : ℕ) (out : Bytes)
    → map to_lower (letters fuel base n out) ≡ letters fuel b'a' n (map to_lower out)
unfolding letters
lower_letters base low zero n out = refl
lower_letters base low (suc fuel) n out = elim (Bool-cases (n == 0)) [
  | inl nothing ↦
      ap (map to_lower) (letters_stop (suc fuel) base n out nothing)
      ∙ sym (letters_stop (suc fuel) b'a' n (map to_lower out) nothing)
  | inr more ↦
      ap (map to_lower) (letters_more fuel base n out more)
      ∙ lower_letters base low fuel ((n - 1) / 26) ((base + (n - 1) % 26) ∷ out)
      ∙ ap (λ (c : ℕ). letters fuel b'a' ((n - 1) / 26) (c ∷ map to_lower out))
          (low ((n - 1) % 26) (omega arith))
      ∙ sym (letters_more fuel b'a' n (map to_lower out) more)
]

-- The base of small letters, or of capital ones.
abbrev pub letter_base : Bool → ℕ
letter_base upper = if upper then b'A' else b'a'

lower_base : (upper : Bool) (d : ℕ) → d < 26 → to_lower (letter_base upper + d) ≡ b'a' + d
lower_base true d h = ground arith
lower_base false d h = ground arith

-- A number with at most `max_digits` digits is read back from its letters, small or capital.
pub parse_letters-alphabetic :
    (max_digits n : ℕ) (upper : Bool)
    → n < 10 ^ max_digits
    → parse_letters max_digits 0 (map to_lower (alphabetic n (letter_base upper))) ≡ parsed n
unfolding alphabetic
parse_letters-alphabetic max_digits n upper h =
    ap (parse_letters max_digits 0) (lower_letters (letter_base upper) (lower_base upper) n n [])
    ∙ letters_read max_digits n n [] (omega arith) h
    ∙ unfold parse_letters in refl
