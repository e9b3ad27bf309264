-- ===== src/Tests/Scopes.antt =====
-- Scopes of two frames.
use jsonata.Base.{ℕ, ◌≤◌, true, false, ◌⊎◌, [], ◌∷◌, none, some, codes, bytes_eq, ◌≡◌, refl}
use jsonata.Scope.Environment.{
  Frame, Counters, new_counter, new_child, bind, lookup, lookup_with_env, number_limits, timestamp,
  context, standard_library_only, call_counter, find,
}
use jsonata.Scope.Lookup.{FoundIn, lookup_with_env-FoundIn}
use jsonata.Scope.Depth.{incr_eval_depth, decr_eval_depth, decr-incr_eval_depth}

-- `$x` outside; values, contexts and instants are numbers.
abbrev outer : Frame ℕ ℕ ℕ
outer = record {
  standard_library_only = false;
  bindings = (codes "x", 1) ∷ [];
  calls = some 0;
  ctx = none;
  numbers = none;
  timestamp = some 5;
}

hidden : lookup (codes "x") (bind (λ v. v) (codes "x") 2 (new_child 9 (outer ∷ []))) ≡ some 2
unfolding lookup bind new_child find bytes_eq
hidden = refl

inherited :
    (lookup (codes "x") (new_child 9 (outer ∷ [])) ≡ lookup (codes "x") (outer ∷ []))
    × (number_limits (new_child 9 (outer ∷ [])) ≡ number_limits (outer ∷ []))
    × (timestamp (new_child 9 (outer ∷ [])) ≡ timestamp (outer ∷ []))
    × (context 8 (new_child 9 (outer ∷ [])) ≡ context 8 (outer ∷ []))
    × (standard_library_only (new_child 9 (outer ∷ [])) ≡ standard_library_only (outer ∷ []))
    × (call_counter (new_child 9 (outer ∷ [])) ≡ some 0)
unfolding new_child lookup number_limits timestamp context standard_library_only call_counter
inherited = (refl, refl, refl, refl, refl, refl)

lookup_with_env-FoundIn_example :
    FoundIn
      (codes "x")
      (new_child 9 (outer ∷ []))
      (lookup_with_env (codes "x") (new_child 9 (outer ∷ [])))
lookup_with_env-FoundIn_example = lookup_with_env-FoundIn (codes "x") (new_child 9 (outer ∷ []))

abbrev counters : Counters
counters i = record new_counter { eval_depth = 3 }

decr-incr_eval_depth_example :
    (((incr_eval_depth 0 4 counters).1 ≡ false)
      × ((incr_eval_depth 0 4 counters).0 ≡ counters)
      × (4 ≤ 3))
    ⊎ (((incr_eval_depth 0 4 counters).1 ≡ true)
        × (((incr_eval_depth 0 4 counters).0 0).eval_depth ≤ 4)
        × (decr_eval_depth 0 (incr_eval_depth 0 4 counters).0 ≡ counters))
decr-incr_eval_depth_example = decr-incr_eval_depth 0 4 counters
