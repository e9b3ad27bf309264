-- ===== src/Cache/Refinement.antt =====
-- The ring buffer with its published snapshot refines a bounded first-in-first-out queue.
use mathlib.Core.Path.{ap₂}
use native.Mathlib.Nat.{mod-eq_of_lt}
use jsonata.Base.{
  ℕ, suc, ◌+◌, ◌-◌, ◌%◌, ◌≤◌, ◌<◌, Bool, true, false, List, [], ◌∷◌, ◌++◌, Option, none, some,
  length, set, drop, leb, ◌≡◌, refl, sym, ap, subst, ◌∙◌, arith, if◌then◌else◌, length-set, ltb,
  lt→ltb, inl, inr, Bool-cases, Option-cases,
}
use jsonata.Cache.Ring.{
  CacheEntry, BoundedCache, get, put, insert, window, find_index, build_index, blank,
}
use jsonata.Cache.Window.{window_filling, window_full, length-window}
use jsonata.Cache.Queue.{
  place, plan_of, Distinct, queue_put, plan_of-place, find-build_index, Distinct-snoc,
}

next_filling :
    (head count cap : ℕ)
    → (count < cap → head ≡ count)
    → count ≤ cap
    → (if ltb count cap then count + 1 else count) < cap
    → (head + 1) % cap ≡ (if ltb count cap then count + 1 else count)
next_filling head count cap start bound room =
    let lt : count + 1 < cap = ground arith in
    let e : head ≡ count = start (omega arith) in
    rw (e, lt→ltb count cap (omega arith)) (mod-eq_of_lt lt)

module _ {ℓ} {K P : Type ℓ} (dec : Discrete K) (empty_key : K) where
  -- The invariant between two calls: the ring is well formed, and the snapshot is the copy of its last `count`
  -- entries, oldest first and no key twice, with the index of that copy.
  pub record IsValid (c : BoundedCache K P) : Type ℓ where
    pub positive : 0 < c.capacity
    pub sized : length c.entries ≡ c.capacity
    pub bounded : c.count ≤ c.capacity
    pub in_ring : c.head < c.capacity
    pub filling : c.count < c.capacity → c.head ≡ c.count
    pub view :
        c.snapshot.entries
        ≡ window (blank dec empty_key) c.capacity c.entries (c.head + c.capacity - c.count) c.count
    pub indexed : c.snapshot.index ≡ build_index 0 c.snapshot.entries []
    pub distinct : Distinct dec c.snapshot.entries

  length-snapshot : (c : BoundedCache K P) → IsValid c → length c.snapshot.entries ≡ c.count
  length-snapshot c v = ap length v.view ∙ length-window _ _ _ _ _

  find_index-place :
      (c : BoundedCache K P) (key : K)
      → IsValid c
      → find_index dec key c.snapshot.index ≡ place dec key c.snapshot.entries
  unfolding find_index
  find_index-place c key v =
      ap (find_index dec key) v.indexed
      ∙ find-build_index dec key 0 c.snapshot.entries [] v.distinct
      ∙ same (place dec key c.snapshot.entries)
    where
      same : (o : Option ℕ) → elim o [ some j ↦ some (0 + j) | none ↦ none ] ≡ o
      same none = refl
      same (some j) = ap some (omega arith)

  -- The entries that `insert` publishes.
  insert-entries :
      (c : BoundedCache K P) (key : K) (plan : Option P)
      → IsValid c
      → (insert dec empty_key c key plan).0.snapshot.entries
        ≡ (if leb c.capacity c.count then drop 1 c.snapshot.entries else c.snapshot.entries)
          ++ record { key = key; plan = plan } ∷ []
  unfolding insert
  insert-entries c key plan v = elim (Bool-cases (leb c.capacity c.count)) [
    | inl full ↦ rw full (
        ap (λ (n : ℕ). copied c.head n) (ground arith)
        ∙ window_full empty c.capacity c.entries e c.head v.sized v.in_ring
        ∙ ap
            (λ (n : ℕ).
              drop 1 (window empty c.capacity c.entries (c.head + c.capacity - n) n) ++ e ∷ [])
            (ground arith)
        ∙ ap (λ (q : List (CacheEntry K P)). drop 1 q ++ e ∷ []) (sym v.view))
    | inr room ↦
        let start : c.head ≡ c.count = v.filling (ground arith) in
        rw room (
          ap₂ copied start (ground arith)
          ∙ ap
              (λ (n : ℕ).
                window empty c.capacity (set c.entries c.count e)
                  ((c.count + 1) % c.capacity + c.capacity - n) (suc c.count))
              (omega arith)
          ∙ window_filling empty c.capacity c.entries e c.count v.sized (ground arith)
          ∙ ap
              (λ (h : ℕ).
                window empty c.capacity c.entries (h + c.capacity - c.count) c.count ++ e ∷ [])
              (sym start)
          ∙ ap (λ (q : List (CacheEntry K P)). q ++ e ∷ []) (sym v.view))
  ]
    where
      empty : CacheEntry K P
      empty = blank dec empty_key

      e : CacheEntry K P
      e = record { key = key; plan = plan }

      copied : ℕ → ℕ → List (CacheEntry K P)
      copied h n =
          window empty c.capacity (set c.entries h e) ((h + 1) % c.capacity + c.capacity - n) n

  Distinct-drop : (q : List (CacheEntry K P)) → Distinct dec q → Distinct dec (drop 1 q)
  Distinct-drop [] h = h
  Distinct-drop (e ∷ q) h = h.1

  place-drop :
      (key : K) (q : List (CacheEntry K P))
      → place dec key q ≡ none
      → place dec key (drop 1 q) ≡ none
  unfolding place
  place-drop key [] h = refl
  place-drop key (e ∷ q) h = ground arith

  kept :
      (b : Bool) (key : K) (q : List (CacheEntry K P))
      → Distinct dec q
      → place dec key q ≡ none
      → Distinct dec (if b then drop 1 q else q)
        × (place dec key (if b then drop 1 q else q) ≡ none)
  kept true key q d h = (Distinct-drop q d, place-drop key q h)
  kept false key q d h = (d, h)

  insert-IsValid :
      (c : BoundedCache K P) (key : K) (plan : Option P)
      → IsValid c
      → place dec key c.snapshot.entries ≡ none
      → IsValid (insert dec empty_key c key plan).0
  unfolding insert
  insert-IsValid c key plan v new =
      let (d, n) = kept (leb c.capacity c.count) key c.snapshot.entries v.distinct new in
      record {
        positive = v.positive;
        sized = length-set c.entries c.head _ ∙ v.sized;
        bounded = ground arith;
        in_ring = omega (arith, v.positive);
        filling = next_filling c.head c.count c.capacity v.filling v.bounded;
        view = refl;
        indexed = refl;
        distinct =
            subst (Distinct dec) (sym (insert-entries c key plan v))
              (Distinct-snoc dec _ (record { key = key; plan = plan }) d n);
      }

  insert-evicts :
      (c : BoundedCache K P) (key : K) (plan : Option P)
      → (insert dec empty_key c key plan).1 ≡ leb c.capacity c.count
  unfolding insert
  insert-evicts c key plan = refl

  insert-queue_put :
      (c : BoundedCache K P) (key : K) (plan : Option P)
      → IsValid c
      → place dec key c.snapshot.entries ≡ none
      → queue_put dec c.capacity c.snapshot.entries key plan ≡ (
        (insert dec empty_key c key plan).0.snapshot.entries,
        (insert dec empty_key c key plan).1,
      )
  unfolding queue_put
  insert-queue_put c key plan v new =
      rw
        (new, queue_put, length-snapshot c v, insert-entries c key plan v, insert-evicts c key plan)
        (either (leb c.capacity c.count))
    where
      either :
          (b : Bool)
          → ◌≡◌ {A = List (CacheEntry K P) × Bool}
              (if b
                then (drop 1 c.snapshot.entries ++ record { key = key; plan = plan } ∷ [], true)
                else (c.snapshot.entries ++ record { key = key; plan = plan } ∷ [], false))
              (
                (if b then drop 1 c.snapshot.entries else c.snapshot.entries)
                    ++ record { key = key; plan = plan } ∷ [],
                b,
              )
      either true = refl
      either false = refl

  -- `Set` keeps the invariant, and does to the published entries what the queue does: a key that is there
  -- keeps its plan and nothing changes, a new key goes to the end, and the oldest entry is evicted, and reported, exactly when
  -- the cache is full.
  pub put-queue_put :
      (c : BoundedCache K P) (key : K) (plan : Option P)
      → IsValid c
      → IsValid (put dec empty_key c key plan).0
        × (queue_put dec c.capacity c.snapshot.entries key plan
            ≡ ((put dec empty_key c key plan).0.snapshot.entries, (put dec empty_key c key plan).1))
  unfolding put queue_put
  put-queue_put c key plan v = elim (Option-cases (place dec key c.snapshot.entries)) [
    | inl new ↦
        rw (find_index-place c key v, new, put)
          (insert-IsValid c key plan v new, insert-queue_put c key plan v new)
    | inr (i, old) ↦ rw (find_index-place c key v, old, put) (v, rw (old, queue_put))
  ]

  -- `Get` answers with the plan that the queue holds for the key, and counts a hit or a miss.
  pub get-plan_of :
      (c : BoundedCache K P) (key : K)
      → IsValid c
      → get dec empty_key c key ≡ elim (plan_of dec key c.snapshot.entries) [
        | some plan ↦ (record c { hits = c.hits + 1 }, plan, true)
        | none ↦ (record c { misses = c.misses + 1 }, none, false)
      ]
  unfolding get
  get-plan_of c key v = elim (Option-cases (place dec key c.snapshot.entries)) [
    | inl new ↦
        rw (find_index-place c key v, new, get)
          (rw (plan_of-place dec (blank dec empty_key) key c.snapshot.entries, new))
    | inr (i, old) ↦
        rw (find_index-place c key v, old, get)
          (rw (plan_of-place dec (blank dec empty_key) key c.snapshot.entries, old))
  ]
