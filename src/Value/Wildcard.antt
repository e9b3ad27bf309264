-- ===== src/Value/Wildcard.antt =====
-- What a wildcard can answer.
use jsonata.Base.{
  ℕ, Bool, true, false, Option, none, some, ◌==◌, if◌then◌else◌, ◌≡◌, refl, sym, subst,
}
use jsonata.Value.Data.{
  Value, undefined, null, boolean, text, float, number, sequence, slice, object, host_map, function,
  Values, nil, cons, Fields, end, field, append, array_values, field_count,
}
use jsonata.Value.Sequence.{plain_flags, collapse_sequence}
use jsonata.Value.Navigate.{
  append_wildcard, append_wildcards, wildcard_fields, wildcard_map, eval_wildcard,
}

-- Values that are no list.
abbrev pub AllAtoms : Values → Type 0
AllAtoms nil = Unit
AllAtoms (cons x xs) = (array_values x ≡ none) × AllAtoms xs

append-AllAtoms :
    (xs : Values) (y : Value)
    → AllAtoms xs
    → array_values y ≡ none
    → AllAtoms (append xs (cons y nil))
append-AllAtoms nil y h k = (k, tt)
append-AllAtoms (cons x xs) y (hx, hxs) k = (hx, append-AllAtoms xs y hxs k)

mutual
  unfolding append_wildcard

  append_wildcard-AllAtoms :
      (v : Value) (acc : Values) → AllAtoms acc → AllAtoms (append_wildcard acc v)
  append_wildcard-AllAtoms (sequence i f xs) acc h = append_wildcards-AllAtoms xs acc h
  append_wildcard-AllAtoms (slice xs) acc h = append_wildcards-AllAtoms xs acc h
  append_wildcard-AllAtoms undefined acc h = append-AllAtoms acc _ h refl
  append_wildcard-AllAtoms null acc h = append-AllAtoms acc _ h refl
  append_wildcard-AllAtoms (boolean b) acc h = append-AllAtoms acc _ h refl
  append_wildcard-AllAtoms (text s) acc h = append-AllAtoms acc _ h refl
  append_wildcard-AllAtoms (float n) acc h = append-AllAtoms acc _ h refl
  append_wildcard-AllAtoms (number s) acc h = append-AllAtoms acc _ h refl
  append_wildcard-AllAtoms (object i e m) acc h = append-AllAtoms acc _ h refl
  append_wildcard-AllAtoms (host_map m) acc h = append-AllAtoms acc _ h refl
  append_wildcard-AllAtoms (function k i) acc h = append-AllAtoms acc _ h refl

  append_wildcards-AllAtoms : (xs acc : Values) → AllAtoms acc → AllAtoms (append_wildcards acc xs)
  append_wildcards-AllAtoms nil acc h = h
  append_wildcards-AllAtoms (cons x xs) acc h =
      append_wildcards-AllAtoms xs (append_wildcard acc x) (append_wildcard-AllAtoms x acc h)

wildcard_fields-AllAtoms :
    (m : Fields) (acc : Values) → AllAtoms acc → AllAtoms (wildcard_fields acc m)
unfolding wildcard_fields
wildcard_fields-AllAtoms end acc h = h
wildcard_fields-AllAtoms (field k v m) acc h =
    wildcard_fields-AllAtoms m (append_wildcard acc v) (append_wildcard-AllAtoms v acc h)

-- A value that is no list, or a list of such values.
abbrev pub Expanded : Option Values → Type 0
Expanded none = Unit
Expanded (some xs) = AllAtoms xs

atom-Expanded : (x : Value) → array_values x ≡ none → Expanded (array_values x)
atom-Expanded x h = subst Expanded (sym h) tt

sequence-Expanded :
    (j : ℕ) (xs : Values)
    → AllAtoms xs
    → Expanded (array_values (collapse_sequence j plain_flags xs))
unfolding collapse_sequence
sequence-Expanded j nil h = tt
sequence-Expanded j (cons x nil) (h, _) = atom-Expanded x h
sequence-Expanded j (cons x (cons y xs)) h = h

fields-Expanded :
    (j : ℕ) (xs : Values)
    → AllAtoms xs
    → Expanded (
        array_values (elim xs [
          | nil ↦ undefined
          | cons x xs ↦ elim xs [
            | nil ↦ x
            | cons y ys ↦ collapse_sequence j plain_flags (cons x (cons y ys))
          ]
        ]))
unfolding collapse_sequence
fields-Expanded j nil h = tt
fields-Expanded j (cons x nil) (h, _) = atom-Expanded x h
fields-Expanded j (cons x (cons y xs)) h = h

map-Expanded : (j : ℕ) (m : Fields) → Expanded (array_values (wildcard_map j m))
unfolding wildcard_map
map-Expanded j m = either (field_count m == 0)
  where
    either :
        (b : Bool)
        → Expanded (
            array_values (
              if b then undefined else (elim (wildcard_fields nil m) [
                | nil ↦ undefined
                | cons x xs ↦ elim xs [
                  | nil ↦ x
                  | cons y ys ↦ collapse_sequence j plain_flags (cons x (cons y ys))
                ]
              ])))
    either true = tt
    either false = fields-Expanded j (wildcard_fields nil m) (wildcard_fields-AllAtoms m nil tt)

-- A wildcard on any value answers with a value that is no list, or with a list none of whose elements is a list.
pub eval_wildcard-Expanded : (j : ℕ) (v : Value) → Expanded (array_values (eval_wildcard j v))
unfolding eval_wildcard
eval_wildcard-Expanded j (object i e m) = map-Expanded j m
eval_wildcard-Expanded j (host_map m) = map-Expanded j m
eval_wildcard-Expanded j (sequence i f xs) =
    sequence-Expanded j _ (append_wildcards-AllAtoms xs nil tt)
eval_wildcard-Expanded j (slice xs) = sequence-Expanded j _ (append_wildcards-AllAtoms xs nil tt)
eval_wildcard-Expanded j v = tt
