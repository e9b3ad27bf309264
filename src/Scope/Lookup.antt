-- ===== src/Scope/Lookup.antt =====
-- Lexical scoping: what a lookup finds.
use jsonata.Base.{
  ℕ, [], ◌∷◌, ◌++◌, Option, none, some, Bytes, bytes_eq, if◌then◌else◌, ◌≡◌, refl, ap, arith,
  Option-cases, inl, inr,
}
use jsonata.Scope.Environment.{
  Environment, Frame, find, new_child, bind, lookup, lookup_with_env, lookup_direct,
}

module _ {V C T : Type 0} where
  -- A name bound in a new child scope hides the outer binding of that name there, and no other name; the scope
  -- outside is the one it was.
  pub lookup-bind :
      (admit : V → V) (fresh : ℕ) (name other : Bytes) (v : V) (f : Frame V C T)
      (parent : Environment V C T)
      → lookup other (bind admit name v (new_child fresh (f ∷ parent)))
        ≡ (if bytes_eq name other then some (admit v) else lookup other (f ∷ parent))
  unfolding lookup bind new_child
  lookup-bind admit fresh name other v f parent = ground arith

  -- What `LookupWithEnv` may answer.
  abbrev pub FoundIn : Bytes → Environment V C T → Option (V × Environment V C T) → Type 0
  FoundIn name e none = lookup name e ≡ none
  FoundIn name e (some (v, found)) =
      (inner : Environment V C T) × (e ≡ inner ++ found)
      × (lookup name inner ≡ none)
      × (lookup_direct name found ≡ some v)
      × (lookup name e ≡ some v)

  found_further :
      (name : Bytes) (f : Frame V C T) (parent : Environment V C T)
      (r : Option (V × Environment V C T))
      → find name f.bindings ≡ none
      → FoundIn name parent r
      → FoundIn name (f ∷ parent) r
  unfolding lookup
  found_further name f parent none h k = rw (h, lookup) k
  found_further name f parent (some (v, found)) h (inner, split, before, here, whole) =
      (f ∷ inner, ap (◌∷◌ f) split, rw (h, lookup) before, here, rw (h, lookup) whole)

  -- The scope that `LookupWithEnv` returns is an end of the chain whose innermost frame binds the name, no frame
  -- before it does, and the value is the one that `Lookup` returns; it finds nothing exactly if `Lookup` does not.
  pub lookup_with_env-FoundIn :
      (name : Bytes) (e : Environment V C T) → FoundIn name e (lookup_with_env name e)
  unfolding lookup_with_env lookup lookup_direct
  lookup_with_env-FoundIn name [] = refl
  lookup_with_env-FoundIn name (f ∷ parent) = elim (Option-cases (find name f.bindings)) [
    | inl further ↦
        rw (further, lookup_with_env)
          (found_further name f parent _ further (lookup_with_env-FoundIn name parent))
    | inr (v, here) ↦ rw (here, lookup_with_env) ([], refl, refl, here, rw (here, lookup))
  ]
