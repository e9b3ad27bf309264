-- ===== src/Cache/Window.antt =====
-- The copy loop read as a window on the ring, and what a write at its end does to it.
use native.Mathlib.Nat.{mod-eq_of_lt, mod-lt, mod-eq-sub-mod, add-mod_right}
use jsonata.Base.{
  ℕ, zero, suc, ◌+◌, ◌-◌, ◌%◌, ◌<◌, ◌≤◌, List, [], ◌∷◌, ◌++◌, length, set, drop, ◌≡◌, ◌≢◌, refl,
  sym, ap, subst, ◌∙◌, arith, ◌⊎◌, inl, inr,
}
use mathlib.Core.Path.{ap₂}
use jsonata.Cache.Ring.{get_or, window}

-- A position below twice the capacity wraps round at most once.
pub wrap :
    (x cap : ℕ) → x < cap + cap → ((x % cap ≡ x) × (x < cap)) ⊎ ((x % cap + cap ≡ x) × (cap ≤ x))
wrap x cap h = grind (arith, mod-eq_of_lt, mod-lt, mod-eq-sub-mod)

pub get_or-set_self {ℓ} :
    {A : Type ℓ} (xs : List A) (i : ℕ) (v d : A) → i < length xs → get_or (set xs i v) i d ≡ v
get_or-set_self [] i v d h = elim h [ ]
get_or-set_self (x ∷ xs) zero v d h = refl
get_or-set_self (x ∷ xs) (suc i) v d h = get_or-set_self xs i v d (omega arith)

pub get_or-set_ne {ℓ} :
    {A : Type ℓ} (xs : List A) (i j : ℕ) (v d : A) → i ≢ j → get_or (set xs i v) j d ≡ get_or xs j d
get_or-set_ne [] i j v d h = refl
get_or-set_ne (x ∷ xs) zero zero v d h = absurd (h refl)
get_or-set_ne (x ∷ xs) zero (suc j) v d h = refl
get_or-set_ne (x ∷ xs) (suc i) zero v d h = refl
get_or-set_ne (x ∷ xs) (suc i) (suc j) v d h = get_or-set_ne xs i j v d (λ e. h (ap suc e))

module _ {ℓ} {A : Type ℓ} (blank : A) (cap : ℕ) where
  -- One entry more at the end.
  pub window_snoc :
      (ring : List A) (base n : ℕ)
      → window blank cap ring base (suc n)
        ≡ window blank cap ring base n ++ get_or ring ((base + n) % cap) blank ∷ []
  unfolding window
  window_snoc ring base zero = ap (λ (i : ℕ). get_or ring (i % cap) blank ∷ []) (omega arith)
  window_snoc ring base (suc n) = ap (◌∷◌ (get_or ring (base % cap) blank)) (
      window_snoc ring (base + 1) n
      ∙ ap (λ (i : ℕ). window blank cap ring (base + 1) n ++ get_or ring (i % cap) blank ∷ [])
          (omega arith))

  -- A window that starts a capacity further on is the same.
  pub window_shift :
      (ring : List A) (base n : ℕ)
      → window blank cap ring (base + cap) n ≡ window blank cap ring base n
  unfolding window
  window_shift ring base zero = refl
  window_shift ring base (suc n) =
      ap₂ (λ (i : ℕ) (w : List A). get_or ring i blank ∷ w) (add-mod_right base cap)
        (ap (λ (i : ℕ). window blank cap ring i n) (omega arith) ∙ window_shift ring (base + 1) n)

  -- A write outside the window is not seen.
  pub window-set :
      (ring : List A) (e : A) (i base n : ℕ)
      → ((j : ℕ) → j < n → i ≢ (base + j) % cap)
      → window blank cap (set ring i e) base n ≡ window blank cap ring base n
  unfolding window
  window-set ring e i base zero h = refl
  window-set ring e i base (suc n) h =
      ap₂ (λ (x : A) (w : List A). x ∷ w)
        (get_or-set_ne ring i (base % cap) e blank
          (λ q. h 0 (omega arith) (q ∙ ap (λ (k : ℕ). k % cap) (omega arith))))
        (window-set ring e i (base + 1) n
          (λ j lt q. h (suc j) (omega arith) (q ∙ ap (λ (k : ℕ). k % cap) (omega arith))))

  pub length-window : (ring : List A) (base n : ℕ) → length (window blank cap ring base n) ≡ n
  unfolding window
  length-window ring base zero = refl
  length-window ring base (suc n) = ap suc (length-window ring (base + 1) n)

  -- The start counts modulo the capacity.
  window-mod :
      (ring : List A) (x n : ℕ)
      → x < cap + cap
      → window blank cap ring (x % cap) n ≡ window blank cap ring x n
  window-mod ring x n h = elim (wrap x cap h) [
    | inl (e, _) ↦ ap (λ (i : ℕ). window blank cap ring i n) e
    | inr (e, _) ↦ sym (window_shift ring (x % cap) n) ∙ ap (λ (i : ℕ). window blank cap ring i n) e
  ]

  -- A write at the place behind a window of `n`, with room left in the ring.
  window_extend :
      (ring : List A) (e : A) (head base n : ℕ)
      → length ring ≡ cap
      → head < cap
      → base ≤ cap
      → n < cap
      → (base + n) % cap ≡ head
      → window blank cap (set ring head e) base (suc n) ≡ window blank cap ring base n ++ e ∷ []
  window_extend ring e head base n sized lt bound room place =
      window_snoc (set ring head e) base n
      ∙ ap₂ (λ (w : List A) (x : A). w ++ x ∷ [])
          (window-set ring e head base n (λ j k q. omega (
            arith,
            place,
            q,
            wrap (base + n) cap (omega arith),
            wrap (base + j) cap (omega arith),
          )))
          (ap (λ (i : ℕ). get_or (set ring head e) i blank) place
            ∙ get_or-set_self ring head e blank (omega arith))

  window_start :
      (ring : List A) (count n : ℕ)
      → count < cap
      → window blank cap ring ((count + 1) % cap + cap - (count + 1)) n
        ≡ window blank cap ring cap n
  window_start ring count n lt = elim (wrap (count + 1) cap (omega arith)) [
    | inl below ↦ ap (λ (i : ℕ). window blank cap ring i n) (omega arith)
    | inr round ↦
        ap (λ (i : ℕ). window blank cap ring i n) (omega arith)
        ∙ sym (window_shift ring 0 n)
        ∙ ap (λ (i : ℕ). window blank cap ring i n) (omega arith)
  ]

  -- While the ring fills, the copy loop yields the old entries and the new one.
  pub window_filling :
      (ring : List A) (e : A) (count : ℕ)
      → length ring ≡ cap
      → count < cap
      → window blank cap (set ring count e) ((count + 1) % cap + cap - (count + 1)) (suc count)
        ≡ window blank cap ring (count + cap - count) count ++ e ∷ []
  window_filling ring e count sized lt =
      window_start (set ring count e) count (suc count) lt
      ∙ window_extend ring e count cap count sized lt (omega arith) lt
          (omega (arith, wrap (cap + count) cap (omega arith)))
      ∙ ap (λ (i : ℕ). window blank cap ring i count ++ e ∷ []) (omega arith)

  full_step :
      (ring : List A) (e : A) (head m : ℕ)
      → length ring ≡ cap
      → head < cap
      → suc m ≡ cap
      → window blank cap (set ring head e) ((head + 1) % cap + cap - cap) (suc m)
        ≡ drop 1 (window blank cap ring (head + cap - cap) (suc m)) ++ e ∷ []
  full_step ring e head m sized lt full =
      ap (λ (i : ℕ). window blank cap (set ring head e) i (suc m)) (omega arith)
      ∙ window-mod (set ring head e) (head + 1) (suc m) (omega arith)
      ∙ window_extend ring e head (head + 1) m sized lt (omega arith) (omega arith)
          (omega (arith, wrap (head + 1 + m) cap (omega arith)))
      ∙ unfold window in ap (λ (i : ℕ). window blank cap ring i m ++ e ∷ []) (omega arith)

  -- Once it is full, the oldest entry goes.
  pub window_full :
      (ring : List A) (e : A) (head : ℕ)
      → length ring ≡ cap
      → head < cap
      → window blank cap (set ring head e) ((head + 1) % cap + cap - cap) cap
        ≡ drop 1 (window blank cap ring (head + cap - cap) cap) ++ e ∷ []
  window_full ring e head sized lt =
      subst
        (λ (n : ℕ).
          window blank cap (set ring head e) ((head + 1) % cap + cap - cap) n
          ≡ drop 1 (window blank cap ring (head + cap - cap) n) ++ e ∷ [])
        (omega arith) (full_step ring e head (cap - 1) sized lt (omega arith))
