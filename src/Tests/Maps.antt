-- ===== src/Tests/Maps.antt =====
-- Ordered maps.
use native.Mathlib.Decide.{ℕ_discrete as dec}
use jsonata.Base.{ℕ, suc, ◌+◌, Bool, List, [], ◌∷◌, Option, ltb, ◌≡◌, refl}
use jsonata.OrderedMap.Ops.{OrderedMap, new_ordered_map, put, delete, range}
use jsonata.OrderedMap.Entries.{
  insert, remove, Shows, each, new_ordered_map-Shows, put-Shows, delete-Shows, range-Shows,
}

-- What `Set` stores, with an admission that one can see.
abbrev two : OrderedMap ℕ ℕ
two = put dec suc (put dec suc new_ordered_map 1 10) 2 20

abbrev entries : List (ℕ × ℕ)
entries = insert dec 2 21 (insert dec 1 11 [])

two-Shows : Shows dec two entries
two-Shows =
    put-Shows dec suc (put dec suc new_ordered_map 1 10) (insert dec 1 11 []) 2 20
      (put-Shows dec suc new_ordered_map [] 1 10 (new_ordered_map-Shows dec))

overwritten : (put dec suc two 1 30).keys ≡ 1 ∷ 2 ∷ []
unfolding put new_ordered_map dec
overwritten = refl

put-Shows_example : Shows dec (put dec suc two 1 30) (insert dec 1 31 entries)
put-Shows_example = put-Shows dec suc two entries 1 30 two-Shows

delete-Shows_example : Shows dec (delete dec two 1) (remove dec 1 entries)
delete-Shows_example = delete-Shows dec two entries 1 two-Shows

-- Adds up the keys, up to a sum of two.
abbrev add_key : ℕ → ℕ → Option ℕ → ℕ × Bool
add_key s k v = (s + k, ltb (s + k) 2)

range-Shows_example : range dec two add_key 0 ≡ each dec add_key 0 entries
range-Shows_example = range-Shows dec two entries add_key 0 two-Shows
