-- ===== src/Integers/Words/Scales.antt =====
-- The scales: thousand, million, billion and trillion.
use jsonata.Base.{
  ℕ, ◌+◌, ◌*◌, ◌/◌, ◌%◌, ◌<◌, ◌≤◌, true, false, ◌⊎◌, [], ◌∷◌, some, codes, bytes_eq, all, leb, ◌≡◌,
  refl, arith, Bool-cases, inl, inr,
}
use jsonata.Integers.Words.{
  Scale, trillion, billion, million, thousand, scale_of, fields, word_value,
}
use jsonata.Integers.Words.Splits.{plain}

pub by_scale {ℓ} :
    (P : Scale → Type ℓ) (n : ℕ)
    → (1000000000000 ≤ n → P trillion)
    → (1000000000 ≤ n → n < 1000000000000 → P billion)
    → (1000000 ≤ n → n < 1000000000 → P million)
    → (n < 1000000 → P thousand)
    → P (scale_of n)
unfolding scale_of
by_scale P n a b c d = elim (Bool-cases (leb 1000000000000 n)) [
  | inl h ↦ rw h (a (ground arith))
  | inr not_a ↦ elim (Bool-cases (leb 1000000000 n)) [
    | inl h ↦ rw (not_a, h) (b (ground arith) (ground arith))
    | inr not_b ↦ elim (Bool-cases (leb 1000000 n)) [
      | inl h ↦ rw (not_a, not_b, h) (c (ground arith) (ground arith))
      | inr not_c ↦ rw (not_a, not_b, not_c) (d (ground arith))
    ]
  ]
]

-- How a scale divides `n`.
abbrev pub Divides : ℕ → Scale → Type 0
Divides n s =
    (1000 ≤ s.value)
    × (s.value ≤ n)
    × (s.value ≤ 1000000000000)
    × ((n / s.value < 1000) ⊎ (s.value ≡ 1000000000000))
    × (n / s.value * s.value + n % s.value ≡ n)
    × (n % s.value < s.value)
    × (n / s.value < n)

pub scale_of-Divides : (n : ℕ) → 1000 ≤ n → Divides n (scale_of n)
scale_of-Divides n h =
    by_scale (Divides n) n
      (λ a. (omega arith, a, omega arith, inr refl, omega arith, omega arith, omega arith))
      (λ a b.
        (omega arith, a, omega arith, inl (omega arith), omega arith, omega arith, omega arith))
      (λ a b.
        (omega arith, a, omega arith, inl (omega arith), omega arith, omega arith, omega arith))
      (λ b. (omega arith, h, omega arith, inl (omega arith), omega arith, omega arith, omega arith))

-- The name is one plain word, and is worth its value.
abbrev pub IsNamed : Scale → Type 0
IsNamed s =
    (all plain s.name ≡ true)
    × (fields s.name ≡ s.name ∷ [])
    × (bytes_eq s.name (codes "and") ≡ false)
    × (word_value s.name ≡ some s.value)

pub scale_of-IsNamed : (n : ℕ) → IsNamed (scale_of n)
unfolding fields bytes_eq word_value
scale_of-IsNamed n =
    by_scale IsNamed n (λ _. (refl, refl, refl, refl)) (λ _ _. (refl, refl, refl, refl))
      (λ _ _. (refl, refl, refl, refl)) (λ _. (refl, refl, refl, refl))
