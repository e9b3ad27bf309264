-- ===== src/Cache/Queue.antt =====
-- The abstract view of the cache: a queue of entries, oldest first, and what the index finds in it.
use jsonata.Base.{
  ℕ, suc, ◌+◌, Bool, true, false, List, [], ◌∷◌, ◌++◌, Option, none, some, length, drop, ite,
  if_pos, if_neg, leb, ◌≡◌, refl, arith, if◌then◌else◌,
}
use mathlib.Core.Option
use jsonata.Cache.Ring.{CacheEntry, get_or, find_index, build_index}

module _ {ℓ} {K P : Type ℓ} (dec : Discrete K) where
  -- The position of a key.
  unfoldable pub place : K → List (CacheEntry K P) → Option ℕ
  place key [] = none
  place key (e ∷ q) = ite (dec e.key key) (some 0) (Option.map suc (place key q))

  -- The plan that is stored for a key.
  unfoldable pub plan_of : K → List (CacheEntry K P) → Option (Option P)
  plan_of key [] = none
  plan_of key (e ∷ q) = ite (dec e.key key) (some e.plan) (plan_of key q)

  -- No key twice.
  abbrev pub Distinct : List (CacheEntry K P) → Type ℓ
  Distinct [] = Unit
  Distinct (e ∷ q) = (place e.key q ≡ none) × Distinct q

  -- `Set` on the queue: a key that is there stays as it is; a full queue loses its oldest entry.
  unfoldable pub queue_put : ℕ → List (CacheEntry K P) → K → Option P → List (CacheEntry K P) × Bool
  queue_put capacity q key plan = elim (place key q) [
    | some _ ↦ (q, false)
    | none ↦
        if leb capacity (length q)
        then (drop 1 q ++ record { key = key; plan = plan } ∷ [], true)
        else (q ++ record { key = key; plan = plan } ∷ [], false)
  ]

  map_behind :
      (blank e : CacheEntry K P) (i : Option ℕ) (q : List (CacheEntry K P))
      → Option.map (λ j. (get_or q j blank).plan) i
        ≡ Option.map (λ j. (get_or (e ∷ q) j blank).plan) (Option.map suc i)
  map_behind blank e none q = refl
  map_behind blank e (some i) q = refl

  pub plan_of-place :
      (blank : CacheEntry K P) (key : K) (q : List (CacheEntry K P))
      → plan_of key q ≡ Option.map (λ i. (get_or q i blank).plan) (place key q)
  unfolding plan_of place
  plan_of-place blank key [] = refl
  plan_of-place blank key (e ∷ q) = elim (dec e.key key) [
    | yes p ↦ rw (if_pos (dec e.key key) p, if_pos (dec e.key key) p)
    | no p ↦
        rw (if_neg (dec e.key key) p, if_neg (dec e.key key) p, plan_of-place blank key q)
          (map_behind blank e (place key q) q)
  ]

  -- With no key twice, the index finds the position of a key.
  pub find-build_index :
      (key : K) (i : ℕ) (q : List (CacheEntry K P)) (index : List (K × ℕ))
      → Distinct q
      → find_index dec key (build_index i q index)
        ≡ elim (place key q) [ some j ↦ some (i + j) | none ↦ find_index dec key index ]
  unfolding find_index build_index place
  find-build_index key i [] index h = refl
  find-build_index key i (e ∷ q) index (new, rest) =
      ground (arith, find-build_index key (i + 1) q ((e.key, i) ∷ index) rest)

  pub place_snoc :
      (key : K) (q : List (CacheEntry K P)) (e : CacheEntry K P)
      → place key q ≡ none
      → place key (q ++ e ∷ []) ≡ ite (dec e.key key) (some (length q)) none
  unfolding place
  place_snoc key [] e h = refl
  place_snoc key (d ∷ q) e h = ground (arith, place_snoc key q e)

  pub Distinct-snoc :
      (q : List (CacheEntry K P)) (e : CacheEntry K P)
      → Distinct q
      → place e.key q ≡ none
      → Distinct (q ++ e ∷ [])
  unfolding place
  Distinct-snoc [] e h new = (refl, tt)
  Distinct-snoc (d ∷ q) e (first, rest) new =
      ground (arith, place_snoc d.key q e, Distinct-snoc q e rest)
