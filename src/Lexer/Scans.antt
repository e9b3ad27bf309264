-- ===== src/Lexer/Scans.antt =====
-- The scanners of literals: their errors, and what they leave.
use jsonata.Base.{
  ℕ, zero, suc, Bool, true, false, not, ◌||◌, inl, inr, [], ◌∷◌, ◌++◌, Option, none, some, Bytes,
  ◌==◌, ◌≡◌, ◌≢◌, refl, if◌then◌else◌,
}
use jsonata.Lexer.Token.{Lexed, lexed, failed, out_of_fuel, s0103, s0104}
use jsonata.Lexer.Literals.{
  piece_at, scan_string, escape, unicode_escape, hex_four, unit_escape, simple_escape,
}
use jsonata.Lexer.Regex.{
  scan_pattern, scan_flags, with_flag, scan_regex, close_flags, close_pattern, is_letter,
}
use jsonata.Lexer.Suffix.{
  Suffix, Behind, Suffix_refl, Behind-Suffix, Suffix_trans, scan_pattern-Behind,
}

-- What a scanner returns satisfies `P`, and it never lacks fuel.
abbrev pub Scans {ℓ} : {A : Type ℓ} → (A → Type 0) → Lexed A → Type 0
Scans P (failed e) = e ≢ out_of_fuel
Scans P (lexed a) = P a

pub if_Scans {ℓ} :
    {A : Type ℓ} (P : A → Type 0) (b : Bool) (x y : Lexed A)
    → Scans P x
    → Scans P y
    → Scans P (if b then x else y)
if_Scans P true x y h k = h
if_Scans P false x y h k = k

abbrev pub Any : Bytes × ℕ → Type 0
Any r = Unit

pub unicode_escape-Scans : (s : Bytes) → Scans Any (unicode_escape s)
unfolding unicode_escape
unicode_escape-Scans (a ∷ b ∷ c ∷ d ∷ s) = go (hex_four a b c d)
  where
    go :
        (r : Option ℕ)
        → Scans Any (elim r [ none ↦ failed s0104 | some u ↦ lexed (unit_escape u s) ])
    go none = λ e. cc
    go (some u) = tt
unicode_escape-Scans [] = λ e. cc
unicode_escape-Scans (a ∷ []) = λ e. cc
unicode_escape-Scans (a ∷ b ∷ []) = λ e. cc
unicode_escape-Scans (a ∷ b ∷ c ∷ []) = λ e. cc

pub escape-Scans : (s : Bytes) → Scans Any (escape s)
unfolding escape
escape-Scans [] = λ e. cc
escape-Scans (c ∷ s) = go (simple_escape c)
  where
    go :
        (r : Option ℕ)
        → Scans Any (elim r [
          | some b ↦ lexed (b ∷ [], 1)
          | none ↦ if c == b'u' then unicode_escape s else failed s0103
        ])
    go none = if_Scans Any (c == b'u') _ _ (unicode_escape-Scans s) (λ e. cc)
    go (some u) = tt

pub piece_at-Scans : (c : ℕ) (s : Bytes) → Scans Any (piece_at c s)
unfolding piece_at
piece_at-Scans c s = if_Scans Any (c == 92) _ _ (escape-Scans s) tt

abbrev pub RestBehind : Bytes → Bytes × Bytes → Type 0
RestBehind s r = Behind r.1 s

pub later :
    (s : Bytes) (c : ℕ) (r : Lexed (Bytes × Bytes))
    → Scans (RestBehind s) r
    → Scans (RestBehind (c ∷ s)) r
later s c (failed e) h = h
later s c (lexed (text, rest)) h = Behind-Suffix rest s h

pub scan_string-Scans :
    (quote skip : ℕ) (out s : Bytes) → Scans (RestBehind s) (scan_string quote skip out s)
unfolding scan_string
scan_string-Scans quote skip out [] = λ e. cc
scan_string-Scans quote (suc skip) out (c ∷ s) =
    later s c (scan_string quote skip out s) (scan_string-Scans quote skip out s)
scan_string-Scans quote zero out (c ∷ s) =
    if_Scans (RestBehind (c ∷ s)) (c == quote) _ _ (Suffix_refl s) (
      go (piece_at c s) (piece_at-Scans c s)
        (λ piece taken. later s c _ (scan_string-Scans quote taken (out ++ piece) s)))
  where
    go :
        (r : Lexed (Bytes × ℕ))
        → Scans Any r
        → ((piece : Bytes) (taken : ℕ)
            → Scans (RestBehind (c ∷ s)) (scan_string quote taken (out ++ piece) s))
        → Scans (RestBehind (c ∷ s)) (elim r [
          | failed e ↦ failed e
          | lexed (piece, taken) ↦ scan_string quote taken (out ++ piece) s
        ])
    go (failed e) h k = h
    go (lexed (piece, taken)) h k = k piece taken

abbrev pub RestSuffix : Bytes → Bytes × Bytes → Type 0
RestSuffix s r = Suffix r.1 s

pub scan_flags-Scans : (s : Bytes) → Scans (RestSuffix s) (scan_flags s)
unfolding scan_flags
scan_flags-Scans [] = refl
scan_flags-Scans (c ∷ s) = if_Scans (RestSuffix (c ∷ s)) (not (is_letter c)) _ _ (inl refl) (
    if_Scans (RestSuffix (c ∷ s)) (c == b'i' || c == b'm') _ _
      (go (scan_flags s) (scan_flags-Scans s)) (λ e. cc))
  where
    go :
        (r : Lexed (Bytes × Bytes))
        → Scans (RestSuffix s) r
        → Scans (RestSuffix (c ∷ s)) (with_flag c r)
    go (failed e) h = h
    go (lexed (flags, rest)) h = inr h

abbrev pub RegexSuffix : Bytes → Bytes × Bytes × Bytes → Type 0
RegexSuffix s r = Suffix r.2 s

pub close_flags-Scans :
    (compiles : Bytes → Bytes → Bool) (pattern s : Bytes) (r : Lexed (Bytes × Bytes))
    → Scans (RestSuffix s) r
    → Scans (RegexSuffix s) (close_flags compiles pattern r)
unfolding close_flags
close_flags-Scans compiles pattern s (failed e) h = h
close_flags-Scans compiles pattern s (lexed (flags, rest)) h =
    if_Scans (RegexSuffix s) (compiles pattern (flags ++ b'g' ∷ [])) _ _ h (λ e. cc)

pub scan_regex-Scans :
    (compiles : Bytes → Bytes → Bool) (s : Bytes) → Scans (RegexSuffix s) (scan_regex compiles s)
unfolding scan_regex close_pattern
scan_regex-Scans compiles s = go (scan_pattern false false [] s) refl
  where
    widen :
        (after : Bytes) (r : Lexed (Bytes × Bytes × Bytes))
        → Suffix after s
        → Scans (RegexSuffix after) r
        → Scans (RegexSuffix s) r
    widen after (failed e) h k = k
    widen after (lexed (p, f, rest)) h k = Suffix_trans rest after s k h

    go :
        (r : Option (Bytes × Bytes))
        → scan_pattern false false [] s ≡ r
        → Scans (RegexSuffix s) (close_pattern compiles r)
    go none q = λ e. cc
    go (some ([], after)) q = λ e. cc
    go (some (c ∷ p, after)) q =
        widen after _
          (Behind-Suffix after s
            (scan_pattern-Behind false false [] s {pattern = c ∷ p} {rest = after} q))
          (close_flags-Scans compiles (c ∷ p) after _ (scan_flags-Scans after))
