-- ===== src/Integers/Roman/Reads.antt =====
-- `fromRoman` reads what `toRoman` writes, of go/internal/engine/functions/string_format_integer.go.
use jsonata.Base.{
  ℕ, zero, suc, ◌+◌, ◌-◌, ◌%◌, ◌<◌, ◌≤◌, Bool, true, false, [], ◌∷◌, ◌++◌, map, Option, none, some,
  Bytes, codes, leb, ◌==◌, ◌≡◌, refl, ap, ◌∙◌, arith, Bool-cases, inl, inr, all_below,
  all_below_lem,
}
use jsonata.Base.Int.{ℤ, pos, negsuc, ◌+ℤ◌, +ℤ_parts, eq_of_parts}
use jsonata.Number.Parts.{to_lower}
use jsonata.Integers.Roman.{
  to_upper, repeat_symbol, roman_from, small_symbols, to_roman, roman_value, next_larger, minus,
  add_symbol, roman_total, from_roman,
}

+ℤ_assoc : (a b c : ℤ) → (a +ℤ b) +ℤ c ≡ a +ℤ (b +ℤ c)
+ℤ_assoc a b c =
    eq_of_parts ((a +ℤ b) +ℤ c) (a +ℤ (b +ℤ c))
      (omega (arith, +ℤ_parts (a +ℤ b) c, +ℤ_parts a (b +ℤ c), +ℤ_parts a b, +ℤ_parts b c))

-- A result on top of `a`.
shift : ℤ → Option ℤ → Option ℤ
shift a none = none
shift a (some b) = some (a +ℤ b)

shift_symbol : (a b : ℤ) (v : ℕ) (s : Bytes) → add_symbol (a +ℤ b) v s ≡ a +ℤ add_symbol b v s
shift_symbol a b v s = elim (Bool-cases (next_larger v s)) [
  | inl larger ↦ rw larger (+ℤ_assoc a b (minus v))
  | inr last ↦ rw last (+ℤ_assoc a b (pos v))
]

shift_total : (a b : ℤ) (s : Bytes) → roman_total (a +ℤ b) s ≡ shift a (roman_total b s)
unfolding roman_total shift
shift_total a b [] = refl
shift_total a b (c ∷ s) = of_value (roman_value c) (λ x y. shift_total x y s)
  where
    of_value :
        (r : Option ℕ)
        → ((x y : ℤ) → roman_total (x +ℤ y) s ≡ shift x (roman_total y s))
        → (elim r [ none ↦ none | some v ↦ roman_total (add_symbol (a +ℤ b) v s) s ])
          ≡ shift a (elim r [ none ↦ none | some v ↦ roman_total (add_symbol b v s) s ])
    of_value none rec = refl
    of_value (some v) rec =
        ap (λ (t : ℤ). roman_total t s) (shift_symbol a b v s) ∙ rec a (add_symbol b v s)

-- No symbol is worth more than a thousand.
none_larger : (s : Bytes) → next_larger 1000 s ≡ false
unfolding next_larger roman_value
none_larger [] = refl
none_larger (c ∷ s) = ground arith

thousand : (a : ℕ) (s : Bytes) → roman_total (pos a) (b'M' ∷ s) ≡ roman_total (pos (a + 1000)) s
unfolding roman_total roman_value
thousand a s = rw (none_larger s) (
    ap (λ (t : ℤ). roman_total t s)
      (eq_of_parts (pos a +ℤ pos 1000) (pos (a + 1000))
        (omega (arith, +ℤ_parts (pos a) (pos 1000)))))

repeat_stop :
    (fuel n : ℕ) → n ≤ fuel → leb 1000 n ≡ false → repeat_symbol fuel 1000 (codes "M") n ≡ ([], n)
unfolding repeat_symbol
repeat_stop zero n le h = refl
repeat_stop (suc fuel) n le h = rw (h, repeat_symbol)

repeat_more :
    (fuel n : ℕ)
    → leb 1000 n ≡ true
    → repeat_symbol (suc fuel) 1000 (codes "M") n ≡ (
      b'M' ∷ (repeat_symbol fuel 1000 (codes "M") (n - 1000)).0,
      (repeat_symbol fuel 1000 (codes "M") (n - 1000)).1,
    )
unfolding repeat_symbol
repeat_more fuel n h = rw (h, repeat_symbol)

-- A change of letters that keeps `M`: the thousands are read, and what is below a thousand is left.
module _ (g : ℕ → ℕ) (keep : g b'M' ≡ b'M') where
  -- The total after the symbols of `p`, from `a`, in front of what is written for the rest.
  read_thousands : ℕ → Bytes × ℕ → (ℕ → Bytes) → Option ℤ
  read_thousands a p f = roman_total (pos a) (map g (p.0 ++ f p.1))

  read_thousands_lem :
      (fuel n a : ℕ) (f : ℕ → Bytes)
      → n ≤ fuel
      → read_thousands a (repeat_symbol fuel 1000 (codes "M") n) f
        ≡ roman_total (pos (a + (n - n % 1000))) (map g (f (n % 1000)))
  unfolding read_thousands
  read_thousands_lem zero n a f h =
      ap (λ (p : Bytes × ℕ). read_thousands a p f) (repeat_stop 0 n h (ground arith))
      ∙ (let e : n ≡ 0 = omega arith in
          rw e (ap (λ (k : ℕ). roman_total (pos k) (map g (f 0))) (omega arith)))
  read_thousands_lem (suc fuel) n a f h = elim (Bool-cases (leb 1000 n)) [
    | inr small ↦
        let lt : n < 1000 = ground arith in
        let e : n % 1000 ≡ n = omega arith in
        let d : a ≡ a + (n - n) = omega arith in
        ap (λ (p : Bytes × ℕ). read_thousands a p f) (repeat_stop (suc fuel) n h small)
        ∙ rw e (ap (λ (k : ℕ). roman_total (pos k) (map g (f n))) d)
    | inl large ↦
        let ge : 1000 ≤ n = ground arith in
        let e : (n - 1000) % 1000 ≡ n % 1000 = omega arith in
        let d : a + 1000 + (n - 1000 - n % 1000) ≡ a + (n - n % 1000) = omega arith in
        ap (λ (p : Bytes × ℕ). read_thousands a p f) (repeat_more fuel n large)
        ∙ ap
            (λ (c : ℕ). roman_total (pos a) (
              c
              ∷ map g (
                  (repeat_symbol fuel 1000 (codes "M") (n - 1000)).0
                  ++ f (repeat_symbol fuel 1000 (codes "M") (n - 1000)).1)))
            keep
        ∙ thousand a (
            map g (
              (repeat_symbol fuel 1000 (codes "M") (n - 1000)).0
              ++ f (repeat_symbol fuel 1000 (codes "M") (n - 1000)).1))
        ∙ read_thousands_lem fuel (n - 1000) (a + 1000) f (omega arith)
        ∙ ap (λ (k : ℕ). roman_total (pos (a + 1000 + (n - 1000 - k))) (map g (f k))) e
        ∙ ap (λ (k : ℕ). roman_total (pos k) (map g (f (n % 1000)))) d
  ]

-- What is written for a number below a thousand is read back.
reads_small : (ℕ → ℕ) → ℕ → Bool
unfolding roman_total roman_from
reads_small g n = elim (roman_total (pos 0) (map g (roman_from small_symbols n))) [
  | some (pos m) ↦ m == n
  | _ ↦ false
]

reads_small_lem :
    (g : ℕ → ℕ) (n : ℕ)
    → reads_small g n ≡ true
    → roman_total (pos 0) (map g (roman_from small_symbols n)) ≡ some (pos n)
unfolding reads_small
reads_small_lem g n h = of_total (roman_total (pos 0) (map g (roman_from small_symbols n))) h
  where
    of_total :
        (r : Option ℤ) → (elim r [ some (pos m) ↦ m == n | _ ↦ false ]) ≡ true → r ≡ some (pos n)
    of_total (some (pos m)) h = ground arith
    of_total (some (negsuc m)) h = cc
    of_total none h = cc

capitals : all_below 1000 (reads_small to_upper) ≡ true
unfolding all_below reads_small
capitals = refl

small_letters : all_below 1000 (reads_small (λ c. to_upper (to_lower c))) ≡ true
unfolding all_below reads_small
small_letters = refl

module _ (g : ℕ → ℕ) (keep : g b'M' ≡ b'M') (small : all_below 1000 (reads_small g) ≡ true) where
  reads_all :
      (n : ℕ)
      → roman_total (pos 0) (map g (roman_from ((1000, codes "M") ∷ small_symbols) n))
        ≡ some (pos n)
  unfolding roman_from read_thousands shift
  reads_all n =
      read_thousands_lem g keep n n 0 (roman_from small_symbols) (omega arith)
      ∙ ap (λ (t : ℤ). roman_total t (map g (roman_from small_symbols (n % 1000))))
          (start (n - n % 1000))
      ∙ shift_total (pos (n - n % 1000)) (pos 0) (map g (roman_from small_symbols (n % 1000)))
      ∙ ap (shift (pos (n - n % 1000))) (
          reads_small_lem g (n % 1000)
            (all_below_lem 1000 (reads_small g) (n % 1000) small (omega arith)))
      ∙ ap some (
          eq_of_parts (pos (n - n % 1000) +ℤ pos (n % 1000)) (pos n)
            (omega (arith, +ℤ_parts (pos (n - n % 1000)) (pos (n % 1000)))))
    where
      start : (a : ℕ) → pos (0 + a) ≡ pos a +ℤ pos 0
      start a = eq_of_parts (pos (0 + a)) (pos a +ℤ pos 0) (omega (arith, +ℤ_parts (pos a) (pos 0)))

map-map_bytes : (f g : ℕ → ℕ) (s : Bytes) → map f (map g s) ≡ map (λ c. f (g c)) s
map-map_bytes f g [] = refl
map-map_bytes f g (c ∷ s) = ap (◌∷◌ (f (g c))) (map-map_bytes f g s)

-- The Roman numeral of every number, in capital or small letters, is read back as the number; that of 0 is the empty
-- text, which is read as 0.
pub from_roman-to_roman :
    (n : ℕ) (upper : Bool) → from_roman (map to_upper (to_roman n upper)) ≡ some (pos n)
unfolding from_roman
from_roman-to_roman n upper = elim (Bool-cases (n == 0)) [
  | inl nothing ↦ of_zero n upper nothing
  | inr more ↦ of_positive n upper more
]
  where
    of_zero :
        (n : ℕ) (upper : Bool)
        → (n == 0) ≡ true
        → roman_total (pos 0) (map to_upper (to_roman n upper)) ≡ some (pos n)
    of_zero n upper h = unfold to_roman roman_total in let e : n ≡ 0 = ground arith in rw e refl

    of_positive :
        (n : ℕ) (upper : Bool)
        → (n == 0) ≡ false
        → roman_total (pos 0) (map to_upper (to_roman n upper)) ≡ some (pos n)
    of_positive n true h = unfold to_roman in rw h (reads_all to_upper refl capitals n)
    of_positive n false h =
        unfold to_roman in
        rw h (
          ap (roman_total (pos 0))
            (map-map_bytes to_upper to_lower (roman_from ((1000, codes "M") ∷ small_symbols) n))
          ∙ reads_all (λ c. to_upper (to_lower c)) refl small_letters n)
