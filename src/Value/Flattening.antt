-- ===== src/Value/Flattening.antt =====
-- What the collapsing and flattening rules guarantee.
use jsonata.Base.{Bool, true, false, ◌⊎◌, inl, inr, some, ◌≡◌, refl, ℕ, Bool-cases, if◌then◌else◌}
use jsonata.Value.Data.{
  Value, undefined, null, boolean, text, float, number, sequence, slice, object, host_map, function,
  Values, nil, cons, append, array_values,
}
use jsonata.Value.Sequence.{collapse_and_keep, append_to_sequence, append_items}

-- An element that a flattened sequence may hold.
abbrev pub flat_item : Value → Bool
flat_item undefined = false
flat_item (sequence i f xs) = f.cons_array
flat_item _ = true

abbrev pub IsFlat : Values → Type 0
IsFlat nil = Unit
IsFlat (cons x xs) = (flat_item x ≡ true) × IsFlat xs

append-IsFlat :
    (xs : Values) (y : Value) → IsFlat xs → flat_item y ≡ true → IsFlat (append xs (cons y nil))
append-IsFlat nil y h k = (k, tt)
append-IsFlat (cons x xs) y (hx, hxs) k = (hx, append-IsFlat xs y hxs k)

if_IsFlat :
    (b : Bool) (acc : Values) (v : Value) (flattened : Values)
    → IsFlat acc
    → flat_item v ≡ b
    → IsFlat flattened
    → IsFlat (if b then append acc (cons v nil) else flattened)
if_IsFlat true acc v flattened h e k = append-IsFlat acc v h e
if_IsFlat false acc v flattened h e k = k

mutual
  unfolding append_to_sequence

  append_value-IsFlat : (v : Value) (acc : Values) → IsFlat acc → IsFlat (append_to_sequence acc v)
  append_value-IsFlat undefined acc h = h
  append_value-IsFlat (sequence i f xs) acc h =
      if_IsFlat f.cons_array acc (sequence i f xs) (append_items acc xs) h refl
        (append_items-IsFlat xs acc h)
  append_value-IsFlat null acc h = append-IsFlat acc _ h refl
  append_value-IsFlat (boolean b) acc h = append-IsFlat acc _ h refl
  append_value-IsFlat (text s) acc h = append-IsFlat acc _ h refl
  append_value-IsFlat (float n) acc h = append-IsFlat acc _ h refl
  append_value-IsFlat (number s) acc h = append-IsFlat acc _ h refl
  append_value-IsFlat (slice xs) acc h = append-IsFlat acc _ h refl
  append_value-IsFlat (object i e m) acc h = append-IsFlat acc _ h refl
  append_value-IsFlat (host_map m) acc h = append-IsFlat acc _ h refl
  append_value-IsFlat (function k i) acc h = append-IsFlat acc _ h refl

  append_items-IsFlat : (xs : Values) (acc : Values) → IsFlat acc → IsFlat (append_items acc xs)
  append_items-IsFlat nil acc h = h
  append_items-IsFlat (cons y ys) acc h =
      append_items-IsFlat ys (append_to_sequence acc y) (append_value-IsFlat y acc h)

-- Appending any value to a sequence with no undefined element and no query sequence inside leaves it so.
pub append_to_sequence-IsFlat :
    (acc : Values) (v : Value) → IsFlat acc → IsFlat (append_to_sequence acc v)
append_to_sequence-IsFlat acc v h = append_value-IsFlat v acc h

-- With `keepArray` a call result is undefined or a list, and a second round changes nothing.
pub collapse_and_keep_stable :
    (j : ℕ) (v : Value)
    → ((collapse_and_keep j v true ≡ undefined)
        ⊎ ((xs : Values) × (array_values (collapse_and_keep j v true) ≡ some xs)))
      × (collapse_and_keep j (collapse_and_keep j v true) true ≡ collapse_and_keep j v true)
unfolding collapse_and_keep
collapse_and_keep_stable j undefined = (inl refl, refl)
collapse_and_keep_stable j (sequence i f nil) = elim (Bool-cases f.cons_array) [
  | inl array ↦ rw array (inr (nil, refl), refl)
  | inr query ↦ rw query (inl refl, refl)
]
collapse_and_keep_stable j (sequence i f (cons x nil)) = elim (Bool-cases f.cons_array) [
  | inl array ↦ rw array (inr (cons x nil, refl), refl)
  | inr query ↦ rw query (inr (cons x nil, refl), refl)
]
collapse_and_keep_stable j (sequence i f (cons x (cons y xs))) = (inr (_, refl), refl)
collapse_and_keep_stable j (slice xs) = (inr (_, refl), refl)
collapse_and_keep_stable j v = (inr (_, refl), refl)
