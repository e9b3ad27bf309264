-- ===== src/Tests/Callbacks.antt =====
-- Functions with callbacks.
use jsonata.Base.{
  ℕ, ◌+◌, ◌≤◌, true, false, List, [], ◌∷◌, none, some, Bytes, codes, ◌≡◌, refl, arith, ◌==◌,
  if◌then◌else◌,
}
use jsonata.Value.Data.{
  native_function, Value, undefined, null, boolean, text, float, slice, function, nil, cons, count,
}
use jsonata.Value.Sequence.{plain_flags, collapse_sequence}
use jsonata.Functions.Arrays.{d3006, d3050, d3138, d3139, d3141, wrap_array, array_argument}
use jsonata.Functions.HigherOrder.{
  callback, own, Outcome, gives, throws, function_arity, map_over, filter_over, single_match,
  reduce_over, fn_map, fn_filter, fn_single, fn_reduce, fails, fn_assert, fn_type_of,
}
use jsonata.Functions.HigherOrder.Endings.{calls, ending, ending-map_over-filter_over}
use mathlib.Core.List.{foldl}
use jsonata.Functions.HigherOrder.Lists.{reduced}
use jsonata.Functions.HigherOrder.Pipelines.{
  indexed, first, mapped, filtered, accumulate, map_over-mapped, reduce_over-foldl,
}

abbrev first_of : List Value → Value
first_of [] = undefined
first_of (v ∷ args) = v

abbrev last_of : List Value → Value
last_of [] = undefined
last_of (v ∷ []) = v
last_of (v ∷ w ∷ args) = last_of (w ∷ args)

-- A callback that counts its calls and refuses null.
abbrev counting : Value → List Value → Value → ℕ → Outcome Value Bytes ℕ
counting fn (null ∷ args) focus s = throws (codes "null") (s + 1)
counting fn args focus s = gives (first_of args) (s + 1)

abbrev keeping : Value → List Value → Value → ℕ → Outcome Value Bytes ℕ
keeping fn args focus s = gives (first_of args) s

abbrev latest : Value → List Value → Value → ℕ → Outcome Value Bytes ℕ
latest fn args focus s = gives (last_of args) s

-- Functions of two parameters.
abbrev two : ℕ → ℕ
two i = 2

abbrev f : Value
f = function native_function 7

abbrev items : Value
items = slice (cons (boolean true) (cons null (cons (boolean false) nil)))

abbrev flags : Value
flags = slice (cons (boolean true) (cons (boolean false) nil))

ending-map_over-filter_over_example :
    (ending (map_over counting two float 1 2 items f undefined 0)
      ≡ calls counting two float f (array_argument 2 items) undefined 0 (wrap_array items) 0)
    × (ending (filter_over counting two float 1 2 items f undefined 0)
        ≡ calls counting two float f (array_argument 2 items) undefined 0 (wrap_array items) 0)
ending-map_over-filter_over_example =
    ending-map_over-filter_over counting two float 1 2 items f undefined 0

second_fails :
    map_over counting two float 1 2 items f undefined 0 ≡ throws (callback (codes "null")) 2
unfolding map_over
second_fails = refl

map_over-mapped_example :
    (map_over keeping two float 1 2 flags f undefined 0
      ≡ gives
          (collapse_sequence 1 plain_flags (
            mapped first_of
              (function_arity two f)
              float
              (array_argument 2 flags)
              (wrap_array flags)))
          0)
    × (filter_over keeping two float 1 2 flags f undefined 0
        ≡ gives
            (collapse_sequence 1 plain_flags (
              filtered first_of
                (function_arity two f)
                float
                (array_argument 2 flags)
                (wrap_array flags)))
            0)
    × (single_match keeping two float 2 flags f undefined 0 ≡ (
        let items =
          filtered first_of
            (function_arity two f)
            float
            (array_argument 2 flags)
            (wrap_array flags) in
        if count items == 1
        then gives (first items) 0
        else throws (own (if count items == 0 then d3139 else d3138)) 0))
map_over-mapped_example =
    map_over-mapped keeping two float first_of 1 2 flags f undefined 0 refl (λ args t. refl)

enough_parameters : 2 ≤ function_arity two f
unfolding function_arity
enough_parameters = omega arith

reduce_over-foldl_example :
    reduce_over latest two float 2 flags f none undefined 0
    ≡ gives
        (reduced
          (λ i acc xs.
            foldl
              (accumulate last_of (function_arity two f) float (array_argument 2 flags))
              acc
              (indexed i xs))
          none
          (wrap_array flags))
        0
reduce_over-foldl_example =
    reduce_over-foldl latest two float last_of 2 flags f undefined none 0 refl enough_parameters
      (λ args t. refl)

single_match_value :
    (fn_single keeping two float 2 (flags ∷ f ∷ []) undefined 0 ≡ gives (boolean true) 0)
    × (fn_single keeping two float 2 (flags ∷ []) undefined 0 ≡ throws (own d3138) 0)
    × (fn_single keeping two float 2 (slice nil ∷ []) undefined 0 ≡ throws (own d3139) 0)
unfolding fn_single
single_match_value = (refl, refl, refl)

whole_calls :
    (fn_map keeping two float 1 2 [] undefined 0 ≡ throws (own d3006) 0)
    × (fn_map keeping two float 1 2 (flags ∷ f ∷ []) undefined 0
        ≡ gives
            (collapse_sequence 1 plain_flags (cons (boolean true) (cons (boolean false) nil)))
            0)
    × (fn_filter keeping two float 1 2 (flags ∷ f ∷ []) undefined 0 ≡ gives (boolean true) 0)
    × (fn_reduce latest two float 2 (flags ∷ f ∷ []) undefined 0 ≡ gives (boolean false) 0)
    × (fn_reduce latest two float 2 (flags ∷ text (codes "f") ∷ []) undefined 0
        ≡ throws (own d3050) 0)
unfolding fn_map fn_filter fn_reduce collapse_sequence
whole_calls = (refl, refl, refl, refl, refl)

asserted :
    (fn_assert (boolean false ∷ text (codes "no") ∷ []) ≡ fails d3141 (codes "no"))
    × (fn_type_of (flags ∷ []) ≡ some (codes "array"))
unfolding fn_assert fn_type_of
asserted = (refl, refl)
