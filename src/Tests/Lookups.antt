-- ===== src/Tests/Lookups.antt =====
-- Comparisons, field lookups and wildcards.
use jsonata.Base.{ℕ, false, Bytes, codes, bytes_eq, ◌≡◌, refl}
use jsonata.Value.Data.{
  Value, undefined, null, text, number, slice, object, nil, cons, end, field, array_values,
  is_numeric, numeric_text, get_field,
}
use jsonata.Value.Sequence.{create_sequence, append_to_sequence, collapse_sequence}
use jsonata.Value.Compare.{failed, t2009, compare_order, compare_values, compare_kinds}
use jsonata.Value.Navigate.{
  eval_name, eval_wildcard, name_round, add_found, collected, append_wildcard,
}
use jsonata.Value.Wildcard.{Expanded, eval_wildcard-Expanded}
use jsonata.Number.Grammar.{valid}

abbrev no_floats : ℕ → Bytes
no_floats bits = codes "0"

mixed : compare_values no_floats (number (codes "1")) (text (codes "a")) (codes "<") ≡ failed t2009
unfolding compare_values compare_order compare_kinds is_numeric numeric_text valid
mixed = refl

-- `{"a": [1, null]}` and `{"b": 2}`
abbrev first : Value
first =
    object 0 false (field (codes "a") (slice (cons (number (codes "1")) (cons undefined nil))) end)

abbrev second : Value
second = object 1 false (field (codes "b") (number (codes "2")) end)

looked_up :
    (eval_name 9 (codes "a") (slice (cons first (cons second nil)))
      ≡ create_sequence 9 (cons (number (codes "1")) (cons null nil)))
    × (eval_name 9 (codes "b") (slice (cons first (cons second nil))) ≡ number (codes "2"))
    × (eval_name 9 (codes "c") (slice (cons first (cons second nil))) ≡ undefined)
unfolding eval_name name_round add_found collected get_field bytes_eq append_to_sequence
    collapse_sequence
looked_up = (refl, refl, refl)

expanded :
    eval_wildcard 9 (slice (cons (slice (cons null nil)) (cons second nil)))
    ≡ create_sequence 9 (cons null (cons second nil))
unfolding eval_wildcard append_wildcard collapse_sequence
expanded = refl

eval_wildcard-Expanded_example : Expanded (array_values (eval_wildcard 9 first))
eval_wildcard-Expanded_example = eval_wildcard-Expanded 9 first
