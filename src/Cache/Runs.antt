-- ===== src/Cache/Runs.antt =====
-- Whole histories of calls: a new cache answers them like an empty queue.
use jsonata.Base.{
  ℕ, zero, suc, ◌+◌, Bool, true, false, List, [], ◌∷◌, Option, none, some, length, replicate, leb,
  ◌≡◌, refl, ap, ◌∙◌, arith, if◌then◌else◌, Option-cases, inl, inr,
}
use jsonata.Cache.Ring.{
  CacheEntry, BoundedCache, new_cache, get, put, insert, invalidate, window, find_index,
  build_index,
}
use jsonata.Cache.Queue.{plan_of, queue_put}
use jsonata.Cache.Refinement.{IsValid, put-queue_put, get-plan_of}

pub data Call {ℓ} (K P : Type ℓ) : Type ℓ where
  get_call : K → Call K P
  put_call : K → Option P → Call K P
  invalidate_call : Call K P

-- What a caller sees.
pub data Answer {ℓ} (P : Type ℓ) : Type ℓ where
  found : Option P → Bool → Answer P
  stored : Bool → Answer P
  cleared : Answer P

length-replicate {ℓ} : {A : Type ℓ} (n : ℕ) (a : A) → length (replicate n a) ≡ n
length-replicate zero a = refl
length-replicate (suc n) a = ap suc (length-replicate n a)

module _ {ℓ} {K P : Type ℓ} (dec : Discrete K) (empty_key : K) where
  unfoldable pub step : BoundedCache K P → Call K P → BoundedCache K P × Answer P
  step c (get_call key) = let (c', plan, hit) = get dec empty_key c key in (c', found plan hit)
  step c (put_call key plan) =
      let (c', evicted) = put dec empty_key c key plan in (c', stored evicted)
  step c invalidate_call = (invalidate dec empty_key c, cleared)

  unfoldable pub run : BoundedCache K P → List (Call K P) → List (Answer P)
  run c [] = []
  run c (call ∷ calls) = let (c', a) = step c call in a ∷ run c' calls

  abbrev answer_of : Option (Option P) → Answer P
  answer_of none = found none false
  answer_of (some plan) = found plan true

  unfoldable pub queue_step :
      ℕ → List (CacheEntry K P) → Call K P → List (CacheEntry K P) × Answer P
  queue_step capacity q (get_call key) = (q, answer_of (plan_of dec key q))
  queue_step capacity q (put_call key plan) =
      let (q', evicted) = queue_put dec capacity q key plan in (q', stored evicted)
  queue_step capacity q invalidate_call = ([], cleared)

  unfoldable pub queue_run : ℕ → List (CacheEntry K P) → List (Call K P) → List (Answer P)
  queue_run capacity q [] = []
  queue_run capacity q (call ∷ calls) =
      let (q', a) = queue_step capacity q call in a ∷ queue_run capacity q' calls

  invalidate-IsValid :
      (c : BoundedCache K P)
      → IsValid dec empty_key c
      → IsValid dec empty_key (invalidate dec empty_key c)
  unfolding invalidate window build_index
  invalidate-IsValid c v = record {
    positive = v.positive;
    sized = length-replicate (length c.entries) _ ∙ v.sized;
    bounded = omega arith;
    in_ring = v.positive;
    filling = λ _. refl;
    view = refl;
    indexed = refl;
    distinct = tt;
  }

  put-capacity :
      (c : BoundedCache K P) (key : K) (plan : Option P)
      → (put dec empty_key c key plan).0.capacity ≡ c.capacity
  unfolding put insert
  put-capacity c key plan = elim (Option-cases (find_index dec key c.snapshot.index)) [
    | inl new ↦ rw (new, put)
    | inr (i, old) ↦ rw (old, put)
  ]

  counted-IsValid :
      (c : BoundedCache K P) (hits misses : ℕ)
      → IsValid dec empty_key c
      → IsValid dec empty_key (record c { hits = hits; misses = misses })
  counted-IsValid c hits misses v = record {
    positive = v.positive;
    sized = v.sized;
    bounded = v.bounded;
    in_ring = v.in_ring;
    filling = v.filling;
    view = v.view;
    indexed = v.indexed;
    distinct = v.distinct;
  }

  step-queue_step :
      (c : BoundedCache K P) (call : Call K P)
      → IsValid dec empty_key c
      → IsValid dec empty_key (step c call).0
        × ((step c call).0.capacity ≡ c.capacity)
        × (queue_step c.capacity c.snapshot.entries call
            ≡ ((step c call).0.snapshot.entries, (step c call).1))
  unfolding step queue_step invalidate
  step-queue_step c (get_call key) v = elim (Option-cases (plan_of dec key c.snapshot.entries)) [
    | inl miss ↦
        rw (get-plan_of dec empty_key c key v, miss)
          (counted-IsValid c c.hits (c.misses + 1) v, refl, refl)
    | inr (plan, hit) ↦
        rw (get-plan_of dec empty_key c key v, hit)
          (counted-IsValid c (c.hits + 1) c.misses v, refl, refl)
  ]
  step-queue_step c (put_call key plan) v =
      let (w, e) = put-queue_put dec empty_key c key plan v in
      (w, put-capacity c key plan, ap (λ (r : List (CacheEntry K P) × Bool). (r.0, stored r.1)) e)
  step-queue_step c invalidate_call v = (invalidate-IsValid c v, refl, refl)

  run-queue_run :
      (c : BoundedCache K P) (calls : List (Call K P))
      → IsValid dec empty_key c
      → run c calls ≡ queue_run c.capacity c.snapshot.entries calls
  unfolding run queue_run
  run-queue_run c [] v = refl
  run-queue_run c (call ∷ calls) v =
      let (w, cap, e) = step-queue_step c call v in
      rw e (
        ap (◌∷◌ (step c call).1) (
          run-queue_run (step c call).0 calls w
          ∙ ap (λ (n : ℕ). queue_run n (step c call).0.snapshot.entries calls) cap))

  new_cache-IsValid :
      (capacity : ℕ) → IsValid {P = P} dec empty_key (new_cache dec empty_key capacity)
  unfolding new_cache window build_index
  new_cache-IsValid capacity = record {
    positive = ground arith;
    sized = length-replicate _ _;
    bounded = omega arith;
    in_ring = ground arith;
    filling = λ _. refl;
    view = refl;
    indexed = refl;
    distinct = tt;
  }

  -- Every history of calls on a new cache has the answers of a first-in-first-out queue of its capacity, where a
  -- capacity of 0 counts as 1 and a key that is set again keeps its plan and its place.
  pub new_cache-queue_run :
      (capacity : ℕ) (calls : List (Call K P))
      → run (new_cache dec empty_key capacity) calls
        ≡ queue_run (if leb capacity 0 then 1 else capacity) [] calls
  new_cache-queue_run capacity calls =
      run-queue_run (new_cache dec empty_key capacity) calls (new_cache-IsValid capacity)
      ∙ unfold new_cache in refl
