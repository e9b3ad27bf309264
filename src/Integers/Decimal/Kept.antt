-- ===== src/Integers/Decimal/Kept.antt =====
-- What `parseIntegerWithPicture` keeps of a written integer: of
-- go/internal/engine/functions/string_format_integer.go.
use jsonata.Base.{
  ℕ, suc, ◌+◌, ◌-◌, ◌%◌, ◌<◌, ◌≤◌, Bool, true, false, not, ◌&&◌, ◌||◌, List, [], ◌∷◌, ◌++◌, map,
  Option, none, some, codes, length, any, ltb, leb, ◌==◌, if◌then◌else◌, ◌≡◌, refl, ap, sym, subst,
  ◌∙◌, arith, Bool-cases, inl, inr, append_assoc,
}
use jsonata.Number.Grammar.{is_digit}
use jsonata.Number.Digits.{AllDigits}
use jsonata.Integers.Words.Ordinals.{ordinal_suffix}
use jsonata.Integers.Decimal.{
  digit_zero, is_place, Group, add_group, groups_of, separator_at, same_separator, is_regular,
  filled_at, inserted_at, optional, group_digits, in_family, kept_rune, kept,
}
use jsonata.Integers.Decimal.Families.{IsFamily, family_large, digit_zero_outside}

-- No digit, no place and no minus sign.
abbrev pub IsSeparator : ℕ → Type 0
IsSeparator c = (is_place c || c == b'-') ≡ false

pub kept-append : (z : ℕ) (s t : List ℕ) → kept z (s ++ t) ≡ kept z s ++ kept z t
unfolding kept
kept-append z [] t = refl
kept-append z (c ∷ s) t =
    ap (λ (u : List ℕ). kept_rune z c ++ u) (kept-append z s t)
    ∙ sym (append_assoc (kept_rune z c) (kept z s) (kept z t))

separator_parts :
    (a b e : Bool) (d : ℕ)
    → ((a || (b || not (d == 0))) || e) ≡ false
    → (b ≡ false) × (d ≡ 0) × (e ≡ false)
separator_parts a b e d h = ground arith

-- A rune of no family, and one of this family.
module _ (z c : ℕ) where
  drop_rune :
      (c == b'-') ≡ false
      → is_digit c ≡ false
      → (leb z c && leb c (z + 9)) ≡ false
      → kept_rune z c ≡ []
  unfolding kept_rune
  drop_rune minus digit out =
      of_tests (c == b'-') (is_digit c) (not (z == b'0')) (leb z c) (leb c (z + 9)) minus digit out
    where
      of_tests :
          (a b e f g : Bool)
          → a ≡ false
          → b ≡ false
          → (f && g) ≡ false
          → (if a || b then c ∷ [] else if e && f && g then (b'0' + c - z) ∷ [] else []) ≡ []
      of_tests a b e f g p q r = ground arith

  keep_rune :
      (c == b'-') ≡ false
      → is_digit c ≡ false
      → (z == b'0') ≡ false
      → leb z c ≡ true
      → leb c (z + 9) ≡ true
      → kept_rune z c ≡ (b'0' + c - z) ∷ []
  unfolding kept_rune
  keep_rune minus digit other low high = rw (minus, digit, other, low, high) refl

  keep_digit : is_digit c ≡ true → kept_rune z c ≡ c ∷ []
  unfolding kept_rune
  keep_digit digit = of_test (c == b'-') (is_digit c) digit
    where
      of_test :
          (a b : Bool)
          → b ≡ true
          → (if a || b
              then c ∷ []
              else if not (z == b'0') && leb z c && leb c (z + 9)
              then (b'0' + c - z) ∷ []
              else [])
            ≡ c ∷ []
      of_test true b h = refl
      of_test false true h = refl
      of_test false false h = cc

  in_family_plain : is_digit c ≡ false → in_family z c ≡ c
  unfolding in_family
  in_family_plain h = of_tests (not (z == b'0')) (is_digit c) h
    where
      of_tests : (a b : Bool) → b ≡ false → (if a && b then z + c - b'0' else c) ≡ c
      of_tests true false h = refl
      of_tests true true h = cc
      of_tests false b h = refl

  in_family_ascii : (z == b'0') ≡ true → in_family z c ≡ c
  unfolding in_family
  in_family_ascii h = rw h refl

  in_family_digit : (z == b'0') ≡ false → is_digit c ≡ true → in_family z c ≡ z + c - b'0'
  unfolding in_family
  in_family_digit h k = rw (h, k) refl

-- A separator is dropped.
pub kept_rune-separator : (z c : ℕ) → IsFamily z → IsSeparator c → kept_rune z (in_family z c) ≡ []
kept_rune-separator z c h sep =
    let (digit, unknown, minus) =
      separator_parts (c == b'#') (is_digit c) (c == b'-') (digit_zero c) sep in
    ap (kept_rune z) (in_family_plain z c digit)
    ∙ drop_rune z c minus digit (digit_zero_outside z c h unknown)

-- A digit is kept.
pub kept_rune-digit :
    (z c : ℕ) → IsFamily z → is_digit c ≡ true → kept_rune z (in_family z c) ≡ c ∷ []
kept_rune-digit z c h digit = elim (Bool-cases (z == b'0')) [
  | inl ascii ↦ ap (kept_rune z) (in_family_ascii z c ascii) ∙ keep_digit z c digit
  | inr other ↦
      let big = family_large z h other in
      let (low, high) = digit_bounds c digit in
      ap (kept_rune z) (in_family_digit z c other digit)
      ∙ keep_rune z (z + c - b'0') (ground arith) (beyond (z + c - b'0') (omega arith)) other
          (ground arith) (ground arith)
      ∙ ap (λ (k : ℕ). k ∷ []) (omega arith)
]
  where
    digit_bounds : (c : ℕ) → is_digit c ≡ true → (b'0' ≤ c) × (c ≤ b'9')
    digit_bounds c h = ground arith

    beyond : (x : ℕ) → 500 < x → is_digit x ≡ false
    beyond x h = ground arith

module _ (z : ℕ) (h : IsFamily z) where
  kept-optional :
      (o : Option ℕ) (s : List ℕ)
      → ((c : ℕ) → o ≡ some c → IsSeparator c)
      → kept z (map (in_family z) (optional o s)) ≡ kept z (map (in_family z) s)
  unfolding kept
  kept-optional none s seps = refl
  kept-optional (some c) s seps =
      ap (λ (t : List ℕ). t ++ kept z (map (in_family z) s))
        (kept_rune-separator z c h (seps c refl))

  -- The digits are kept out of their groups.
  pub kept-group_digits :
      (inserted : ℕ → Option ℕ) (first : Bool) (s : List ℕ)
      → ((n c : ℕ) → inserted n ≡ some c → IsSeparator c)
      → AllDigits s
      → kept z (map (in_family z) (group_digits inserted first s)) ≡ s
  unfolding group_digits kept
  kept-group_digits inserted first [] seps digits = refl
  kept-group_digits inserted first (c ∷ s) seps (low, high, digits) =
      kept-optional (if first then none else inserted (suc (length s)))
        (c ∷ group_digits inserted false s) (of_first first)
      ∙ ap (λ (t : List ℕ). t ++ kept z (map (in_family z) (group_digits inserted false s)))
          (kept_rune-digit z c h (ground arith))
      ∙ ap (◌∷◌ c) (kept-group_digits inserted false s seps digits)
    where
      of_first :
          (b : Bool) (x : ℕ)
          → (if b then none else inserted (suc (length s))) ≡ some x
          → IsSeparator x
      of_first true x e = cc
      of_first false x e = seps (suc (length s)) x e

abbrev AllSeparators : List Group → Type 0
AllSeparators [] = Unit
AllSeparators (g ∷ groups) = IsSeparator g.separator × AllSeparators groups

AllSeparators-last :
    (groups : List Group) (g : Group)
    → AllSeparators groups
    → IsSeparator g.separator
    → AllSeparators (groups ++ g ∷ [])
AllSeparators-last [] g h k = (k, tt)
AllSeparators-last (x ∷ groups) g (h, hs) k = (h, AllSeparators-last groups g hs k)

add_group-AllSeparators :
    (c : ℕ) (r : List Group × ℕ)
    → (c == b'-') ≡ false
    → AllSeparators r.0
    → AllSeparators (add_group c r).0
unfolding add_group
add_group-AllSeparators c (groups, places) minus h = of_tests (is_place c) (ltb 0 places) refl
  where
    apart : (a b : Bool) → a ≡ false → b ≡ false → (a || b) ≡ false
    apart a b p q = ground arith

    of_tests :
        (place behind : Bool)
        → is_place c ≡ place
        → AllSeparators (
            (if◌then◌else◌ {A = List Group × ℕ} place
              (groups, suc places)
              (if behind
                then (groups ++ record { separator = c; position = places } ∷ [], places)
                else (groups, places))).0)
    of_tests true behind e = h
    of_tests false true e =
        AllSeparators-last groups (record { separator = c; position = places }) h
          (apart (is_place c) (c == b'-') e minus)
    of_tests false false e = h

groups_of-AllSeparators :
    (picture : List ℕ)
    → any (λ (c : ℕ). c == b'-') picture ≡ false
    → AllSeparators (groups_of picture).0
unfolding groups_of
groups_of-AllSeparators [] h = tt
groups_of-AllSeparators (c ∷ picture) h =
    let (first, more) = both (c == b'-') (any (λ (d : ℕ). d == b'-') picture) h in
    add_group-AllSeparators c (groups_of picture) first (groups_of-AllSeparators picture more)
  where
    both : (a b : Bool) → (a || b) ≡ false → (a ≡ false) × (b ≡ false)
    both a b h = ground arith

separator_at-IsSeparator :
    (n c : ℕ) (groups : List Group)
    → AllSeparators groups
    → separator_at n groups ≡ some c
    → IsSeparator c
unfolding separator_at
separator_at-IsSeparator n c [] h e = cc
separator_at-IsSeparator n c (g ∷ groups) (first, more) e =
    of_rest (separator_at n groups) (g.position == n) refl e
      (λ (k : separator_at n groups ≡ some c). separator_at-IsSeparator n c groups more k)
  where
    of_rest :
        (r : Option ℕ) (b : Bool)
        → separator_at n groups ≡ r
        → (elim r [ some x ↦ some x | none ↦ if b then some g.separator else none ]) ≡ some c
        → (separator_at n groups ≡ some c → IsSeparator c)
        → IsSeparator c
    of_rest (some x) b q e rec = rec (q ∙ e)
    of_rest none true q e rec =
        let same : g.separator ≡ c = ground arith in subst IsSeparator same first
    of_rest none false q e rec = cc

filled_at-IsSeparator :
    (n c : ℕ) (groups : List Group)
    → AllSeparators groups
    → filled_at n groups ≡ some c
    → IsSeparator c
unfolding filled_at
filled_at-IsSeparator n c [] h e = cc
filled_at-IsSeparator n c (g ∷ groups) (first, more) e =
    of_test
      (same_separator g.separator groups
        && is_regular g.position g.position groups
        && n % g.position == 0)
      e
  where
    of_test : (b : Bool) → (if b then some g.separator else none) ≡ some c → IsSeparator c
    of_test true e = let same : g.separator ≡ c = ground arith in subst IsSeparator same first
    of_test false e = cc

-- What is put between the digits stands in the picture, and is dropped.
pub inserted_at-IsSeparator :
    (picture : List ℕ) (n c : ℕ)
    → any (λ (d : ℕ). d == b'-') picture ≡ false
    → inserted_at (groups_of picture).0 n ≡ some c
    → IsSeparator c
unfolding inserted_at
inserted_at-IsSeparator picture n c h e = of_lookup (separator_at n (groups_of picture).0) refl e
  where
    all_groups : AllSeparators (groups_of picture).0
    all_groups = groups_of-AllSeparators picture h

    of_lookup :
        (r : Option ℕ)
        → separator_at n (groups_of picture).0 ≡ r
        → (elim r [ some x ↦ some x | none ↦ filled_at n (groups_of picture).0 ]) ≡ some c
        → IsSeparator c
    of_lookup (some x) q e = separator_at-IsSeparator n c (groups_of picture).0 all_groups (q ∙ e)
    of_lookup none q e = filled_at-IsSeparator n c (groups_of picture).0 all_groups e

-- The letters of an ordinal are dropped.
pub kept-ordinal_suffix : (z n : ℕ) → IsFamily z → kept z (ordinal_suffix n) ≡ []
unfolding ordinal_suffix
kept-ordinal_suffix z n h =
    of_tests (leb 11 (n % 100) && leb (n % 100) 13) (n % 10 == 1) (n % 10 == 2) (n % 10 == 3)
  where
    letter :
        (c : ℕ) → is_digit c ≡ false → (c == b'-') ≡ false → digit_zero c ≡ 0 → kept_rune z c ≡ []
    letter c p q u = drop_rune z c q p (digit_zero_outside z c h u)

    pair : (c d : ℕ) → kept_rune z c ≡ [] → kept_rune z d ≡ [] → kept z (c ∷ d ∷ []) ≡ []
    pair c d p q = unfold kept in λ i. p i ++ (q i ++ [])

    of_tests :
        (a b e f : Bool)
        → kept z (
            if a
            then codes "th"
            else if b
            then codes "st"
            else if e
            then codes "nd"
            else if f
            then codes "rd"
            else codes "th")
          ≡ []
    of_tests true b e f =
        pair b't' b'h' (unfold digit_zero in letter b't' refl refl refl)
          (unfold digit_zero in letter b'h' refl refl refl)
    of_tests false true e f =
        pair b's' b't' (unfold digit_zero in letter b's' refl refl refl)
          (unfold digit_zero in letter b't' refl refl refl)
    of_tests false false true f =
        pair b'n' b'd' (unfold digit_zero in letter b'n' refl refl refl)
          (unfold digit_zero in letter b'd' refl refl refl)
    of_tests false false false true =
        pair b'r' b'd' (unfold digit_zero in letter b'r' refl refl refl)
          (unfold digit_zero in letter b'd' refl refl refl)
    of_tests false false false false =
        pair b't' b'h' (unfold digit_zero in letter b't' refl refl refl)
          (unfold digit_zero in letter b'h' refl refl refl)
