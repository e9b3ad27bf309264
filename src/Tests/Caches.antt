-- ===== src/Tests/Caches.antt =====
-- The plan cache at a capacity of two.
use native.Mathlib.Decide.{ℕ_discrete as dec}
use jsonata.Base.{ℕ, true, false, List, [], ◌∷◌, none, some, ◌≡◌, refl, arith}
use jsonata.Cache.Ring.{
  BoundedCache, new_cache, get, put, invalidate, window, find_index, build_index,
}
use jsonata.Cache.Queue.{place, plan_of, queue_put}
use jsonata.Cache.Refinement.{IsValid, put-queue_put, get-plan_of}
use jsonata.Cache.Runs.{
  Call, get_call, put_call, invalidate_call, found, stored, cleared, step, run, queue_run,
  new_cache-queue_run,
}

-- Two entries, with the ring wrapped round once.
abbrev wrapped : BoundedCache ℕ ℕ
wrapped = record {
  capacity = 2;
  entries = record { key = 3; plan = some 30 } ∷ record { key = 2; plan = some 20 } ∷ [];
  head = 1;
  count = 2;
  snapshot = record {
    entries = record { key = 2; plan = some 20 } ∷ record { key = 3; plan = some 30 } ∷ [];
    index = (3, 1) ∷ (2, 0) ∷ [];
  };
  hits = 0;
  misses = 0;
  evictions = 1;
}

filled :
    (put dec 0 (put dec 0 (put dec 0 (new_cache dec 0 2) 1 (some 10)).0 2 (some 20)).0 3 (some 30))
    ≡ (wrapped, true)
unfolding new_cache put find_index window dec
filled = refl

wrapped-IsValid : IsValid dec 0 wrapped
unfolding window build_index place dec
wrapped-IsValid = record {
  positive = omega arith;
  sized = refl;
  bounded = omega arith;
  in_ring = omega arith;
  filling = λ h. absurd (omega arith);
  view = refl;
  indexed = refl;
  distinct = (refl, (refl, tt));
}

put-queue_put_example :
    IsValid dec 0 (put dec 0 wrapped 4 (some 40)).0
    × (queue_put dec 2 wrapped.snapshot.entries 4 (some 40)
        ≡ ((put dec 0 wrapped 4 (some 40)).0.snapshot.entries, (put dec 0 wrapped 4 (some 40)).1))
put-queue_put_example = put-queue_put dec 0 wrapped 4 (some 40) wrapped-IsValid

get-plan_of_example : get dec 0 wrapped 3 ≡ elim (plan_of dec 3 wrapped.snapshot.entries) [
  | some plan ↦ (record wrapped { hits = 1 }, plan, true)
  | none ↦ (record wrapped { misses = 1 }, none, false)
]
get-plan_of_example = get-plan_of dec 0 wrapped 3 wrapped-IsValid

abbrev history : List (Call ℕ ℕ)
history =
    put_call 1 (some 10)
    ∷ put_call 2 (some 20)
    ∷ get_call 1
    ∷ put_call 3 (some 30)
    ∷ get_call 1
    ∷ invalidate_call
    ∷ get_call 3
    ∷ []

answers :
    run dec 0 (new_cache dec 0 2) history
    ≡ stored false
      ∷ stored false
      ∷ found (some 10) true
      ∷ stored true
      ∷ found none false
      ∷ cleared
      ∷ found none false
      ∷ []
unfolding run step new_cache get put invalidate find_index window dec
answers = refl

new_cache-queue_run_example : run dec 0 (new_cache dec 0 2) history ≡ queue_run dec 0 2 [] history
new_cache-queue_run_example = new_cache-queue_run dec 0 2 history
