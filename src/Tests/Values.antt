-- ===== src/Tests/Values.antt =====
-- Values: truth, flattening and collapsing.
use jsonata.Base.{ℕ, Bool, true, false, Bytes, codes, if◌then◌else◌, ◌≡◌, refl}
use jsonata.Number.Grammar.{valid}
use jsonata.Number.Parts.{parts, is_zero}
use jsonata.Number.Compare.{compare_text, compare_parts, compare_digits, magnitude_order}
use jsonata.Value.Data.{
  Value, undefined, text, number, slice, nil, cons, is_finite, float_zero, numeric_text,
}
use jsonata.Value.Sequence.{create_sequence, new_array, append_to_sequence}
use jsonata.Value.Flattening.{IsFlat, append_to_sequence-IsFlat}
use jsonata.Value.Truth.{to_boolean}
use jsonata.Value.Equality.{deep_equal, number_deep_equal}
use jsonata.Value.EqualTruth.{to_boolean-deep_equal}

-- `[1, [2, undefined]]` of two query sequences.
abbrev nested : Value
nested = create_sequence 0 (
    cons (number (codes "1"))
      (cons (create_sequence 1 (cons (number (codes "2")) (cons undefined nil))) nil))

flattened :
    append_to_sequence nil nested ≡ cons (number (codes "1")) (cons (number (codes "2")) nil)
unfolding append_to_sequence
flattened = refl

kept :
    append_to_sequence nil (new_array 0 (cons undefined nil))
    ≡ cons (new_array 0 (cons undefined nil)) nil
unfolding append_to_sequence
kept = refl

append_to_sequence-IsFlat_example : IsFlat (append_to_sequence (cons (text (codes "a")) nil) nested)
append_to_sequence-IsFlat_example =
    append_to_sequence-IsFlat (cons (text (codes "a")) nil) nested (refl, tt)

-- A notation of floats that tells zero from the rest.
abbrev zero_or_one : ℕ → Bytes
zero_or_one bits = if float_zero bits then codes "0" else codes "1"

either : (b : Bool) → is_zero (parts (if b then codes "0" else codes "1")) ≡ b
unfolding is_zero parts
either true = refl
either false = refl

zero_or_one_zero :
    (bits : ℕ) → is_finite bits ≡ true → is_zero (parts (zero_or_one bits)) ≡ float_zero bits
zero_or_one_zero bits h = either (float_zero bits)

same_number :
    deep_equal zero_or_one
      (slice (cons (number (codes "1e2")) nil))
      (new_array 0 (cons (number (codes "100")) nil))
    ≡ true
unfolding deep_equal number_deep_equal numeric_text valid compare_text compare_parts is_zero parts
    magnitude_order compare_digits
same_number = refl

to_boolean-deep_equal_example :
    to_boolean (slice (cons (number (codes "1e2")) nil))
    ≡ to_boolean (new_array 0 (cons (number (codes "100")) nil))
to_boolean-deep_equal_example =
    to_boolean-deep_equal zero_or_one zero_or_one_zero (slice (cons (number (codes "1e2")) nil))
      (new_array 0 (cons (number (codes "100")) nil)) same_number
