-- ===== src/Strings/Characters.antt =====
-- Characters of go/internal/engine/internal/jstring/string.go split a string into pieces that have its code units.
use jsonata.Base.{
  ℕ, zero, suc, ◌+◌, ◌*◌, ◌%◌, Bool, true, false, ◌&&◌, List, [], ◌∷◌, ◌++◌, Bytes, ◌≡◌, refl, sym,
  ap, subst, ◌∙◌, take, drop, ltb, ◌==◌, take-append-drop, append-nil, if◌then◌else◌, arith,
}
use jsonata.Strings.Utf8.{
  between, is_tail, second_fits, rune_error, high_half, low_half, decode_two, decode_three,
  decode_four, decode_rune,
}
use jsonata.Strings.Units.{surrogate, next_units, units_after, units, is_high, is_low}
use jsonata.Strings.Scan.{char_size, characters_after, characters}

abbrev pub flat : List Bytes → Bytes
flat [] = []
flat (s ∷ parts) = s ++ flat parts

flat_after : (skip : ℕ) (s : Bytes) → flat (characters_after skip s) ≡ drop skip s
unfolding characters_after
flat_after zero [] = refl
flat_after (suc skip) [] = refl
flat_after (suc skip) (c ∷ s) = flat_after skip s
flat_after zero (c ∷ s) =
    ap (λ (r : Bytes). c ∷ take (char_size c s) s ++ r) (flat_after (char_size c s) s)
    ∙ ap (◌∷◌ c) (take-append-drop (char_size c s) s)

-- A rune is decoded from its own bytes alone.
decode_two-own : (c : ℕ) (s : Bytes) → decode_two c (take (decode_two c s).1 s) ≡ decode_two c s
unfolding decode_two
decode_two-own c [] = refl
decode_two-own c (b ∷ s) = of_test (is_tail b) refl
  where
    r : ℕ
    r = (c % 32) * 64 + b % 64

    of_test :
        (t : Bool)
        → is_tail b ≡ t
        → decode_two c (take (if◌then◌else◌ {A = ℕ × ℕ} t (r, 1) (rune_error, 0)).1 (b ∷ s))
          ≡ (if t then (r, 1) else (rune_error, 0))
    of_test true e = rw e refl
    of_test false e = refl

decode_three-own :
    (c : ℕ) (s : Bytes) → decode_three c (take (decode_three c s).1 s) ≡ decode_three c s
unfolding decode_three
decode_three-own c [] = refl
decode_three-own c (b ∷ []) = refl
decode_three-own c (b ∷ d ∷ s) = of_test (second_fits c b && is_tail d) refl
  where
    r : ℕ
    r = (c % 16) * 4096 + (b % 64) * 64 + d % 64

    of_test :
        (t : Bool)
        → (second_fits c b && is_tail d) ≡ t
        → decode_three c (take (if◌then◌else◌ {A = ℕ × ℕ} t (r, 2) (rune_error, 0)).1 (b ∷ d ∷ s))
          ≡ (if t then (r, 2) else (rune_error, 0))
    of_test true e = rw e refl
    of_test false e = refl

decode_four-own : (c : ℕ) (s : Bytes) → decode_four c (take (decode_four c s).1 s) ≡ decode_four c s
unfolding decode_four
decode_four-own c [] = refl
decode_four-own c (b ∷ []) = refl
decode_four-own c (b ∷ d ∷ []) = refl
decode_four-own c (b ∷ d ∷ e ∷ s) = of_test (second_fits c b && is_tail d && is_tail e) refl
  where
    r : ℕ
    r = (c % 8) * 262144 + (b % 64) * 4096 + (d % 64) * 64 + e % 64

    of_test :
        (t : Bool)
        → (second_fits c b && is_tail d && is_tail e) ≡ t
        → decode_four c
            (take (if◌then◌else◌ {A = ℕ × ℕ} t (r, 3) (rune_error, 0)).1 (b ∷ d ∷ e ∷ s))
          ≡ (if t then (r, 3) else (rune_error, 0))
    of_test true e = rw e refl
    of_test false e = refl

decode_rune-own : (c : ℕ) (s : Bytes) → decode_rune c (take (decode_rune c s).1 s) ≡ decode_rune c s
unfolding decode_rune
decode_rune-own c s =
    of_tests (ltb c 128) (between 194 223 c) (between 224 239 c) (between 240 244 c)
  where
    chosen : Bool → Bool → Bool → Bool → Bytes → ℕ × ℕ
    chosen t u v w r =
        if t
        then (c, 0)
        else if u
        then decode_two c r
        else if v
        then decode_three c r
        else if w
        then decode_four c r
        else (rune_error, 0)

    of_tests : (t u v w : Bool) → chosen t u v w (take (chosen t u v w s).1 s) ≡ chosen t u v w s
    of_tests true u v w = refl
    of_tests false true v w = decode_two-own c s
    of_tests false false true w = decode_three-own c s
    of_tests false false false true = decode_four-own c s
    of_tests false false false false = refl

-- No isolated code unit comes about when bytes are cut off, and one is read from its own bytes alone.
surrogate-take :
    (c k : ℕ) (s : Bytes) → (surrogate c s == 0) ≡ true → (surrogate c (take k s) == 0) ≡ true
unfolding surrogate
surrogate-take c zero s h = refl
surrogate-take c (suc k) [] h = refl
surrogate-take c (suc zero) (b ∷ s) h = refl
surrogate-take c (suc (suc k)) (b ∷ []) h = refl
surrogate-take c (suc (suc k)) (b ∷ d ∷ s) h = h

surrogate-own :
    (c : ℕ) (s : Bytes) → (surrogate c s == 0) ≡ false → surrogate c (take 2 s) ≡ surrogate c s
unfolding surrogate
surrogate-own c [] h = refl
surrogate-own c (b ∷ []) h = refl
surrogate-own c (b ∷ d ∷ s) h = refl

-- A round of `Units`, from the isolated code unit and the rune that are read.
units_of : ℕ → ℕ × ℕ → List ℕ × ℕ
units_of u r =
    if u == 0
    then (if ltb 65535 r.0 then (high_half r.0 ∷ low_half r.0 ∷ [], r.1) else (r.0 ∷ [], r.1))
    else (u ∷ [], 2)

-- One code unit, or a pair of halves.
abbrev IsCodePoint : List ℕ → Type 0
IsCodePoint [] = ⊥
IsCodePoint (u ∷ []) = Unit
IsCodePoint (u ∷ v ∷ []) = (is_high u ≡ true) × (is_low v ≡ true)
IsCodePoint (u ∷ v ∷ w ∷ us) = ⊥

units_of-IsCodePoint : (u : ℕ) (r : ℕ × ℕ) → IsCodePoint (units_of u r).0
unfolding units_of
units_of-IsCodePoint u r = of_tests (u == 0) (ltb 65535 r.0)
  where
    of_tests :
        (a b : Bool)
        → IsCodePoint
            (if◌then◌else◌ {A = List ℕ × ℕ} a
              (if b then (high_half r.0 ∷ low_half r.0 ∷ [], r.1) else (r.0 ∷ [], r.1))
              (u ∷ [], 2)).0
    of_tests true true = ((ground arith), (ground arith))
    of_tests true false = tt
    of_tests false b = tt

next_units-IsCodePoint : (c : ℕ) (s : Bytes) → IsCodePoint (next_units c s).0
unfolding next_units units_of
next_units-IsCodePoint c s = units_of-IsCodePoint (surrogate c s) (decode_rune c s)

units_of-size : (c : ℕ) (s : Bytes) → (next_units c s).1 ≡ char_size c s
unfolding next_units char_size
units_of-size c s = of_tests (surrogate c s == 0) (ltb 65535 (decode_rune c s).0)
  where
    r : ℕ × ℕ
    r = decode_rune c s

    of_tests :
        (a b : Bool)
        → (if◌then◌else◌ {A = List ℕ × ℕ} a
            (if b then (high_half r.0 ∷ low_half r.0 ∷ [], r.1) else (r.0 ∷ [], r.1))
            (surrogate c s ∷ [], 2)).1
          ≡ (if a then r.1 else 2)
    of_tests true true = refl
    of_tests true false = refl
    of_tests false b = refl

is_zero_lem : (u : ℕ) → (u == 0) ≡ true → u ≡ 0
is_zero_lem u h = ground arith

-- The first character has the code units of the first round.
next_units-own : (c : ℕ) (s : Bytes) → next_units c (take (char_size c s) s) ≡ next_units c s
unfolding next_units char_size units_of
next_units-own c s = of_test (surrogate c s == 0) refl
  where
    of_test :
        (t : Bool)
        → (surrogate c s == 0) ≡ t
        → units_of
            (surrogate c (take (if t then (decode_rune c s).1 else 2) s))
            (decode_rune c (take (if t then (decode_rune c s).1 else 2) s))
          ≡ units_of (surrogate c s) (decode_rune c s)
    of_test true e =
        let nothing : (surrogate c (take (decode_rune c s).1 s) == 0) ≡ true =
          surrogate-take c (decode_rune c s).1 s e in
        let same : surrogate c (take (decode_rune c s).1 s) ≡ surrogate c s =
          is_zero_lem (surrogate c (take (decode_rune c s).1 s)) nothing
          ∙ sym (is_zero_lem (surrogate c s) e) in
        ap (λ u. units_of u (decode_rune c (take (decode_rune c s).1 s))) same
        ∙ ap (units_of (surrogate c s)) (decode_rune-own c s)
    of_test false e =
        ap (λ u. units_of u (decode_rune c (take 2 s))) (surrogate-own c s e) ∙ rw e refl

units_after-take : (k : ℕ) (s : Bytes) → units_after k (take k s) ≡ []
unfolding units_after
units_after-take zero s = refl
units_after-take (suc k) [] = refl
units_after-take (suc k) (c ∷ s) = units_after-take k s

units-first : (c : ℕ) (s : Bytes) → units (c ∷ take (char_size c s) s) ≡ (next_units c s).0
unfolding units units_after
units-first c s =
    ap (λ r. r.0 ++ units_after r.1 (take (char_size c s) s)) (next_units-own c s)
    ∙ ap (λ k. (next_units c s).0 ++ units_after k (take (char_size c s) s)) (units_of-size c s)
    ∙ ap (λ us. (next_units c s).0 ++ us) (units_after-take (char_size c s) s)
    ∙ append-nil (next_units c s).0

-- The code units of the pieces, one after the other.
abbrev pub flat_units : List Bytes → List ℕ
flat_units [] = []
flat_units (p ∷ ps) = units p ++ flat_units ps

abbrev pub AllCodePoints : List Bytes → Type 0
AllCodePoints [] = Unit
AllCodePoints (p ∷ ps) = IsCodePoint (units p) × AllCodePoints ps

flat_units_after :
    (skip : ℕ) (s : Bytes) → flat_units (characters_after skip s) ≡ units_after skip s
unfolding characters_after units_after
flat_units_after zero [] = refl
flat_units_after (suc skip) [] = refl
flat_units_after (suc skip) (c ∷ s) = flat_units_after skip s
flat_units_after zero (c ∷ s) =
    ap (λ us. us ++ flat_units (characters_after (char_size c s) s)) (units-first c s)
    ∙ ap (λ us. (next_units c s).0 ++ us)
        (flat_units_after (char_size c s) s ∙ ap (λ k. units_after k s) (sym (units_of-size c s)))

characters_after-AllCodePoints : (skip : ℕ) (s : Bytes) → AllCodePoints (characters_after skip s)
unfolding characters_after
characters_after-AllCodePoints zero [] = tt
characters_after-AllCodePoints (suc skip) [] = tt
characters_after-AllCodePoints (suc skip) (c ∷ s) = characters_after-AllCodePoints skip s
characters_after-AllCodePoints zero (c ∷ s) = (
  subst (λ us. IsCodePoint us) (sym (units-first c s)) (next_units-IsCodePoint c s),
  characters_after-AllCodePoints (char_size c s) s,
)

-- The characters of any byte string, one after the other, are the string, and their code units are those of the string;
-- each character is one code unit, or the high and the low half of a pair.
pub units-characters :
    (s : Bytes)
    → (flat (characters s) ≡ s)
      × (flat_units (characters s) ≡ units s)
      × AllCodePoints (characters s)
unfolding characters units
units-characters s = (flat_after 0 s, flat_units_after 0 s, characters_after-AllCodePoints 0 s)
