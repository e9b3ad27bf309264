-- ===== src/Lexer/Suffix.antt =====
-- What the scanners leave is an end of what they were given.
use jsonata.Base.{
  ℕ, zero, suc, ◌≤◌, Bool, true, false, not, ◌&&◌, ◌||◌, ◌⊎◌, inl, inr, [], ◌∷◌, ◌++◌, some, Bytes,
  length, drop, ◌==◌, ◌≡◌, refl, ap, subst, arith, if◌then◌else◌, Bool-cases,
}
use jsonata.Number.Grammar.{is_digit}
use jsonata.Lexer.Spans.{
  is_white, skip_white, starts_with, tail, skip_comment, span, integer_span, fraction_span,
  sign_span, exponent_span, number_span,
}
use jsonata.Lexer.Regex.{closes, class_after, scan_pattern}

-- `t` is an end of `s`.
abbrev pub Suffix : Bytes → Bytes → Type 0
Suffix t [] = t ≡ []
Suffix t (c ∷ s) = (t ≡ c ∷ s) ⊎ Suffix t s

-- A proper one.
abbrev pub Behind : Bytes → Bytes → Type 0
Behind t [] = ⊥
Behind t (c ∷ s) = Suffix t s

pub Suffix_refl : (s : Bytes) → Suffix s s
Suffix_refl [] = refl
Suffix_refl (c ∷ s) = inl refl

pub Behind-Suffix : (t s : Bytes) → Behind t s → Suffix t s
Behind-Suffix t [] h = elim h [ ]
Behind-Suffix t (c ∷ s) h = inr h

pub Suffix_trans : (u t s : Bytes) → Suffix u t → Suffix t s → Suffix u s
Suffix_trans u t [] h k = subst (Suffix u) k h
Suffix_trans u t (c ∷ s) h (inl k) = subst (Suffix u) k h
Suffix_trans u t (c ∷ s) h (inr k) = inr (Suffix_trans u t s h k)

pub length-Suffix : (t s : Bytes) → Suffix t s → length t ≤ length s
length-Suffix t [] h = omega (arith, ap length h)
length-Suffix t (c ∷ s) (inl h) = omega (arith, ap length h)
length-Suffix t (c ∷ s) (inr h) = omega (arith, length-Suffix t s h)

pub drop-Suffix : (n : ℕ) (s : Bytes) → Suffix (drop n s) s
drop-Suffix zero s = Suffix_refl s
drop-Suffix (suc n) [] = refl
drop-Suffix (suc n) (c ∷ s) = inr (drop-Suffix n s)

pub tail-Suffix : (s : Bytes) → Suffix (tail s) s
tail-Suffix [] = refl
tail-Suffix (c ∷ s) = inr (Suffix_refl s)

pub if_Suffix :
    (b : Bool) (t s : Bytes) (c : ℕ) → Suffix t s → Suffix (if b then t else c ∷ s) (c ∷ s)
if_Suffix true t s c h = inr h
if_Suffix false t s c h = inl refl

pub run_Suffix :
    (b : Bool) (run t s : Bytes) (c : ℕ)
    → Suffix t s
    → Suffix (if◌then◌else◌ {A = Bytes × Bytes} b (c ∷ run, t) ([], c ∷ s)).1 (c ∷ s)
run_Suffix true run t s c h = inr h
run_Suffix false run t s c h = inl refl

pub skip_white-Suffix : (s : Bytes) → Suffix (skip_white s) s
unfolding skip_white
skip_white-Suffix [] = refl
skip_white-Suffix (c ∷ s) = if_Suffix (is_white c) (skip_white s) s c (skip_white-Suffix s)

pub skip_comment-Suffix : (s : Bytes) {t : Bytes} → skip_comment s ≡ some t → Suffix t s
unfolding skip_comment
skip_comment-Suffix [] h = cc
skip_comment-Suffix (c ∷ s) {t} h = elim (Bool-cases (c == b'*' && starts_with b'/' s)) [
  | inl ended ↦ inr (subst (λ (u : Bytes). Suffix u s) (cc (rw ended at h)) (tail-Suffix s))
  | inr open_still ↦ inr (skip_comment-Suffix s (rw open_still at h))
]

pub span-Suffix : (test : ℕ → Bool) (s : Bytes) → Suffix (span test s).1 s
unfolding span
span-Suffix test [] = refl
span-Suffix test (c ∷ s) = run_Suffix (test c) _ (span test s).1 s c (span-Suffix test s)

pub scan_pattern-Behind :
    (escaped in_class : Bool) (read s : Bytes) {pattern rest : Bytes}
    → scan_pattern escaped in_class read s ≡ some (pattern, rest)
    → Behind rest s
unfolding scan_pattern
scan_pattern-Behind escaped in_class read [] h = cc
scan_pattern-Behind escaped in_class read (c ∷ s) {pattern} {rest} h =
    elim (Bool-cases (closes escaped in_class read c)) [
      | inl closed ↦ subst (λ (u : Bytes). Suffix u s) (cc (rw closed at h)) (Suffix_refl s)
      | inr inside ↦ Behind-Suffix rest s (
          scan_pattern-Behind (not escaped && c == 92) (class_after escaped in_class c) (c ∷ read) s
            {pattern = pattern} {rest = rest} (rw inside at h))
    ]

pub integer_span-Suffix : (c : ℕ) (s : Bytes) → is_digit c ≡ true → Suffix (integer_span c s).1 s
unfolding integer_span span
integer_span-Suffix c s h = elim (Bool-cases (c == b'0')) [
  | inl zero_digit ↦ rw zero_digit (Suffix_refl s)
  | inr other ↦ rw (other, h) (span-Suffix is_digit s)
]

pub fraction_span-Suffix : (s : Bytes) → Suffix (fraction_span s).1 s
unfolding fraction_span
fraction_span-Suffix [] = refl
fraction_span-Suffix (c ∷ []) = inl refl
fraction_span-Suffix (c ∷ d ∷ s) = either (c == b'.' && is_digit d)
  where
    either :
        (b : Bool)
        → Suffix
            (if◌then◌else◌ {A = Bytes × Bytes} b
              (let (digits, rest) = span is_digit (d ∷ s) in (c ∷ digits, rest))
              ([], c ∷ d ∷ s)).1
            (c ∷ d ∷ s)
    either true = inr (span-Suffix is_digit (d ∷ s))
    either false = inl refl

pub sign_span-Suffix : (s : Bytes) → Suffix (sign_span s).1 s
unfolding sign_span
sign_span-Suffix [] = refl
sign_span-Suffix (c ∷ s) = run_Suffix (c == b'+' || c == b'-') [] s s c (Suffix_refl s)

pub exponent_span-Suffix : (s : Bytes) → Suffix (exponent_span s).1 s
unfolding exponent_span
exponent_span-Suffix [] = refl
exponent_span-Suffix (c ∷ s) =
    run_Suffix (c == b'e' || c == b'E') ((sign_span s).0 ++ (span is_digit (sign_span s).1).0) _ s c
      (Suffix_trans _ (sign_span s).1 s (span-Suffix is_digit (sign_span s).1) (sign_span-Suffix s))

pub number_span-Suffix : (c : ℕ) (s : Bytes) → is_digit c ≡ true → Suffix (number_span c s).1 s
unfolding number_span
number_span-Suffix c s h =
    let i = (integer_span c s).1 in
    let f = (fraction_span i).1 in
    Suffix_trans _ f s (exponent_span-Suffix f)
      (Suffix_trans f i s (fraction_span-Suffix i) (integer_span-Suffix c s h))
