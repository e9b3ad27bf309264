-- ===== src/Number/Reading.antt =====
-- `parts` of the three notations that `Format` writes, for a given coefficient.
use jsonata.Base.{
  ℕ, zero, suc, ◌+◌, Bool, false, [], ◌∷◌, ◌++◌, Option, none, some, Bytes, length, replicate,
  append-nil, ◌≡◌, refl, sym, ap, ◌∙◌, arith, ◌==◌, length-append,
}
use mathlib.Core.Path.{◌≡⟨◌⟩◌, ◌∎}
use jsonata.Base.Int.{ℤ, pos, negsuc, sub_ℕ, ◌+ℤ◌}
use jsonata.Number.Digits.{AllDigits}
use jsonata.Number.Decimal.{append-AllDigits}
use jsonata.Number.Format.{prefix, plain}
use jsonata.Number.Parts.{Parts, parts, assign, trim_left, trim_right, cons_unless_zero}
use jsonata.Number.Token.{pointed, marked, exponent_or_zero, parts_of_token}

trim_left_zeros : (k : ℕ) (s : Bytes) → trim_left (replicate k b'0' ++ s) ≡ trim_left s
unfolding trim_left
trim_left_zeros zero s = refl
trim_left_zeros (suc k) s = trim_left_zeros k s

trim_right-replicate : (k : ℕ) → trim_right (replicate k b'0') ≡ []
unfolding trim_right cons_unless_zero
trim_right-replicate zero = refl
trim_right-replicate (suc k) = rw (trim_right-replicate k)

trim_right_zeros : (s : Bytes) (k : ℕ) → trim_right (s ++ replicate k b'0') ≡ trim_right s
unfolding trim_right
trim_right_zeros [] k = trim_right-replicate k
trim_right_zeros (c ∷ s) k = ap (cons_unless_zero c) (trim_right_zeros s k)

pub length-replicate : (k d : ℕ) → length (replicate k d) ≡ k
length-replicate zero d = refl
length-replicate (suc k) d = ap suc (length-replicate k d)

replicate-AllDigits : (k : ℕ) → AllDigits (replicate k b'0')
replicate-AllDigits zero = tt
replicate-AllDigits (suc k) = ground (arith, replicate-AllDigits k)

-- A nonzero coefficient, as `parts` makes it.
pub record IsCoefficient (x : ℕ) (t : Bytes) : Type 0 where
  pub head : (x == b'0') ≡ false
  pub trimmed : trim_right (x ∷ t) ≡ x ∷ t
  pub digits : AllDigits (x ∷ t)

AllDigits-split : (u v : Bytes) → AllDigits (u ++ v) → AllDigits u × AllDigits v
AllDigits-split [] v h = (tt, h)
AllDigits-split (c ∷ u) v h = ground (arith, AllDigits-split u v)

trim_left_first : (x : ℕ) (s : Bytes) → (x == b'0') ≡ false → trim_left (x ∷ s) ≡ x ∷ s
unfolding trim_left
trim_left_first x s h = rw h

pub pos_exponent : (n k m : ℕ) → k ≡ n + m → pos 0 +ℤ sub_ℕ k m ≡ pos n
unfolding ◌+ℤ◌
pos_exponent n k m h = ground arith

neg_exponent : (n k m : ℕ) → k + suc n ≡ m → pos 0 +ℤ sub_ℕ k m ≡ negsuc n
unfolding ◌+ℤ◌
neg_exponent n k m h = ground arith

pub same_exponent : (e : ℤ) (k : ℕ) → e +ℤ sub_ℕ k k ≡ e
unfolding ◌+ℤ◌
same_exponent e k = ground arith

abbrev pub with_exponent : Bool → Bytes → ℤ → Parts
with_exponent negative c e = record { negative = negative; coefficient = c; adjusted = e }

module _ (negative : Bool) (x : ℕ) (t : Bytes) (h : IsCoefficient x t) where
  pub assign_padded :
      (e : ℤ) (k j fraction : ℕ)
      → assign negative e (trim_left (replicate k b'0' ++ ((x ∷ t) ++ replicate j b'0'))) fraction
        ≡ with_exponent negative (x ∷ t) (e +ℤ sub_ℕ (length t + suc j) (fraction + 1))
  unfolding assign
  assign_padded e k j fraction =
      rw
        (
          trim_left_zeros k ((x ∷ t) ++ replicate j b'0'),
          trim_left_first x (t ++ replicate j b'0') h.head,
          trim_right_zeros (x ∷ t) j,
          h.trimmed,
          length-append t (replicate j b'0'),
          length-replicate j b'0',
        )
        (ap (λ (n : ℕ). with_exponent negative (x ∷ t) (e +ℤ sub_ℕ n (fraction + 1))) (omega arith))

  pub parts_small :
      (n : ℕ)
      → parts (prefix negative ++ plain (negsuc n) (x ∷ t))
        ≡ with_exponent negative (x ∷ t) (negsuc n)
  unfolding plain
  parts_small n =
      let f = replicate n b'0' ++ x ∷ t in
      parts (prefix negative ++ b'0' ∷ b'.' ∷ f)
      ≡⟨ ap (λ (s : Bytes). parts (prefix negative ++ b'0' ∷ b'.' ∷ s)) (sym (append-nil f)) ⟩
        parts (prefix negative ++ ((b'0' ∷ []) ++ ((b'.' ∷ f) ++ [])))
      ≡⟨ parts_of_token negative b'0' [] (some f) none (omega arith)
          (append-AllDigits _ _ (replicate-AllDigits n) h.digits) ⟩
        assign negative (pos 0) (trim_left (b'0' ∷ f)) (length f)
      ≡⟨ ap
          (λ (s : Bytes).
            assign negative (pos 0) (trim_left (b'0' ∷ (replicate n b'0' ++ x ∷ s))) (length f))
          (sym (append-nil t)) ⟩
        assign negative (pos 0) (trim_left (replicate (suc n) b'0' ++ ((x ∷ t) ++ []))) (length f)
      ≡⟨ assign_padded (pos 0) (suc n) 0 (length f) ⟩
        with_exponent negative (x ∷ t) (pos 0 +ℤ sub_ℕ (length t + 1) (length f + 1))
      ≡⟨ ap (with_exponent negative (x ∷ t)) (
          neg_exponent n (length t + 1) (length f + 1)
            (omega (arith, length-append (replicate n b'0') (x ∷ t), length-replicate n b'0'))) ⟩
        with_exponent negative (x ∷ t) (negsuc n) ∎

  pub parts_whole :
      (j : ℕ)
      → parts (prefix negative ++ ((x ∷ t) ++ replicate j b'0'))
        ≡ with_exponent negative (x ∷ t) (pos (length t + j))
  parts_whole j =
      let w = t ++ replicate j b'0' in
      parts (prefix negative ++ x ∷ w)
      ≡⟨ ap (λ (s : Bytes). parts (prefix negative ++ x ∷ s)) (sym (append-nil w)) ⟩
        parts (prefix negative ++ ((x ∷ w) ++ ([] ++ [])))
      ≡⟨ parts_of_token negative x w none none
          (append-AllDigits (x ∷ t) (replicate j b'0') h.digits (replicate-AllDigits j)) tt ⟩
        assign negative (pos 0) (trim_left ((x ∷ w) ++ [])) 0
      ≡⟨ ap (λ (s : Bytes). assign negative (pos 0) (trim_left s) 0) (append-nil (x ∷ w)) ⟩
        assign negative (pos 0) (trim_left (x ∷ w)) 0
      ≡⟨ assign_padded (pos 0) 0 j 0 ⟩
        with_exponent negative (x ∷ t) (pos 0 +ℤ sub_ℕ (length t + suc j) (0 + 1))
      ≡⟨ ap (with_exponent negative (x ∷ t))
          (pos_exponent (length t + j) (length t + suc j) (0 + 1) (omega arith)) ⟩
        with_exponent negative (x ∷ t) (pos (length t + j)) ∎

  -- The digits `d ∷ u` before a point and `v` behind it.
  pub parts_split :
      (y : Option ℤ) (u v : Bytes)
      → u ++ v ≡ t
      → parts (prefix negative ++ ((x ∷ u) ++ (pointed (some v) ++ marked y)))
        ≡ with_exponent negative (x ∷ t) (exponent_or_zero y +ℤ sub_ℕ (length t + 1) (length v + 1))
  parts_split y u v split =
      let d : AllDigits (x ∷ u) × AllDigits v = AllDigits-split (x ∷ u) v (rw split h.digits) in
      parts (prefix negative ++ ((x ∷ u) ++ (pointed (some v) ++ marked y)))
      ≡⟨ parts_of_token negative x u (some v) y d.0 d.1 ⟩
        assign negative (exponent_or_zero y) (trim_left (x ∷ (u ++ v))) (length v)
      ≡⟨ ap (λ (s : Bytes). assign negative (exponent_or_zero y) (trim_left (x ∷ s)) (length v))
          (split ∙ sym (append-nil t)) ⟩
        assign negative (exponent_or_zero y) (trim_left ((x ∷ t) ++ [])) (length v)
      ≡⟨ assign_padded (exponent_or_zero y) 0 0 (length v) ⟩
        with_exponent negative (x ∷ t) (exponent_or_zero y +ℤ sub_ℕ (length t + 1) (length v + 1)) ∎
