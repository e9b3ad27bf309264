-- ===== src/Integers/Words/Segments.antt =====
-- The segments of the loop over the words: a scale behind the words that it multiplies.
use jsonata.Base.{ℕ, ◌+◌, ◌*◌, ◌<◌, ◌≤◌, ◌^◌, List, [], ◌∷◌, ◌++◌, ◌≡◌, refl, ◌∙◌, arith}
use jsonata.Integers.Words.{
  Scale, Segment, counted, absorb, take_value, take_found, take_word, total_of,
}
use jsonata.Integers.Words.Scales.{IsNamed}

-- No scale above `m`.
abbrev pub AllLow : ℕ → List Segment → Type 0
AllLow m [] = Unit
AllLow m (g ∷ gs) = (g.scale ≤ m) × AllLow m gs

-- Each scale above `m`.
abbrev pub AllHigh : ℕ → List Segment → Type 0
AllHigh m [] = Unit
AllHigh m (g ∷ gs) = (m < g.scale) × AllHigh m gs

pub AllLow-mono : (m k : ℕ) (gs : List Segment) → m ≤ k → AllLow m gs → AllLow k gs
AllLow-mono m k [] h low = tt
AllLow-mono m k (g ∷ gs) h (l, low) = (omega arith, AllLow-mono m k gs h low)

pub AllHigh-mono : (m k : ℕ) (gs : List Segment) → k ≤ m → AllHigh m gs → AllHigh k gs
AllHigh-mono m k [] h high = tt
AllHigh-mono m k (g ∷ gs) h (l, high) = (omega arith, AllHigh-mono m k gs h high)

pub AllLow-last :
    (m : ℕ) (gs : List Segment) (g : Segment) → AllLow m gs → g.scale ≤ m → AllLow m (gs ++ g ∷ [])
AllLow-last m [] g low h = (h, tt)
AllLow-last m (x ∷ gs) g (l, low) h = (l, AllLow-last m gs g low h)

pub total_of-add :
    (current : ℕ) (gs : List Segment) (g : Segment)
    → total_of current (gs ++ g ∷ []) ≡ total_of current gs + g.amount
unfolding total_of
total_of-add current [] g = refl
total_of-add current (x ∷ gs) g = total_of-add (current + x.amount) gs g

absorb_high :
    (v : ℕ) (old : List Segment) (current : ℕ)
    → AllHigh v old
    → absorb v old current ≡ (current, old)
unfolding absorb
absorb_high v [] current h = refl
absorb_high v (g ∷ gs) current (h, _) = ground arith

absorb_low :
    (v : ℕ) (new old : List Segment) (current : ℕ)
    → AllLow v new
    → AllHigh v old
    → absorb v (new ++ old) current ≡ (total_of current new, old)
unfolding total_of
absorb_low v [] old current low high = absorb_high v old current high
absorb_low v (g ∷ gs) old current (l, low) high =
    absorb_over v g (gs ++ old) current l ∙ absorb_low v gs old (current + g.amount) low high
  where
    absorb_over :
        (v : ℕ) (g : Segment) (gs : List Segment) (current : ℕ)
        → g.scale ≤ v
        → absorb v (g ∷ gs) current ≡ absorb v gs (current + g.amount)
    absorb_over v g gs current h = unfold absorb in ground arith

-- A scale takes over all that is below it.
pub take_scale :
    (max_digits : ℕ) (s : Scale) (new old : List Segment) (current : ℕ)
    → IsNamed s
    → 1000 ≤ s.value
    → AllLow s.value new
    → AllHigh s.value old
    → total_of current new * s.value < 10 ^ max_digits
    → take_word max_digits s.name (new ++ old) current
      ≡ counted (record { amount = total_of current new * s.value; scale = s.value } ∷ old) 0
unfolding take_word take_found
take_scale max_digits s new old current (_, _, other, value) h low high bound =
    rw (other, value) taken
  where
    taken :
        take_value max_digits s.value (new ++ old) current
        ≡ counted (record { amount = total_of current new * s.value; scale = s.value } ∷ old) 0
    taken = unfold take_value in rw (absorb_low s.value new old current low high) (ground arith)
