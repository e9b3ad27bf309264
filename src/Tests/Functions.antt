-- ===== src/Tests/Functions.antt =====
-- The array functions.
use jsonata.Base.{true, [], ◌∷◌, codes, ◌≡◌, refl}
use jsonata.Value.Data.{Value, null, text, boolean, slice, nil, cons}
use jsonata.Value.Sequence.{create_sequence, new_array}
use jsonata.Functions.Arrays.{
  returns, raises, t0410, d3006, fn_append, fn_count, reverse_value, fn_reverse, array_argument,
  reverse_onto,
}

abbrev pair : Value
pair = create_sequence 0 (cons null (cons (text (codes "a")) nil))

together :
    fn_append (pair ∷ boolean true ∷ [])
    ≡ returns (slice (cons null (cons (text (codes "a")) (cons (boolean true) nil))))
unfolding fn_append
together = refl

counted :
    (fn_count (pair ∷ []) ≡ returns 2)
    × (fn_count (pair ∷ pair ∷ []) ≡ raises t0410)
    × (fn_append (pair ∷ []) ≡ raises d3006)
unfolding fn_count fn_append
counted = (refl, refl, refl)

backwards :
    (fn_reverse 5 (pair ∷ []) ≡ slice (cons (text (codes "a")) (cons null nil)))
    × (fn_reverse 5 (null ∷ []) ≡ new_array 5 (cons null nil))
unfolding fn_reverse reverse_value array_argument reverse_onto
backwards = (refl, refl)
