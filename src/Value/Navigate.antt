-- ===== src/Value/Navigate.antt =====
-- Field lookup and wildcards: `evalName`, `evalWildcard` and `appendWildcardValue` of
-- go/internal/engine/internal/evaluator/eval_helpers.go. None of them returns an error. Of the sequences that one
-- call creates only the outermost is returned, with the identity `j`.
use jsonata.Base.{ℕ, Bool, true, false, Option, none, some, Bytes, ◌==◌, if◌then◌else◌}
use jsonata.Value.Data.{
  Value, undefined, null, sequence, slice, object, host_map, Values, nil, cons, Fields, end, field,
  append, get_field, field_count,
}
use jsonata.Value.Sequence.{plain_flags, collapse_sequence, append_to_sequence}

-- A stored Go nil is read as null.
abbrev pub null_for : Option Value → Value
null_for none = undefined
null_for (some undefined) = null
null_for (some v) = v

abbrev pub nulls : Values → Values
nulls nil = nil
nulls (cons undefined xs) = cons null (nulls xs)
nulls (cons x xs) = cons x (nulls xs)

-- What a round of the loop over a list adds.
unfoldable pub add_found : Values → Value → Values
unfolding append_to_sequence
add_found acc (sequence i f ys) = append acc ys
add_found acc (slice ys) = append acc (nulls ys)
add_found acc v = append_to_sequence acc v

-- The value that the loop over a list ends with.
unfoldable pub collected : ℕ → Values × Bool → Value
unfolding collapse_sequence
collected j (nil, found) = if found then slice nil else undefined
collected j (cons x nil, found) = x
collected j (cons x (cons y xs), found) = collapse_sequence j plain_flags (cons x (cons y xs))

-- One round of the loop over a list: the values so far, and whether a field was found.
unfoldable pub name_round : Value → Values × Bool → Values × Bool
unfolding add_found
name_round undefined s = s
name_round v s = (add_found s.0 v, true)

module _ (j : ℕ) (name : Bytes) where
  unfoldable mutual
    unfolding get_field name_round collected

    pub eval_name : Value → Value
    eval_name (object i e m) = null_for (get_field name m)
    eval_name (host_map m) = null_for (get_field name m)
    eval_name (slice xs) = collected j (name_items xs (nil, false))
    eval_name (sequence i f xs) = collected j (name_items xs (nil, false))
    eval_name _ = undefined

    pub name_items : Values → Values × Bool → Values × Bool
    name_items nil s = s
    name_items (cons x xs) s = name_items xs (name_round (eval_name x) s)

-- `appendWildcardValue`, and its loop.
unfoldable mutual
  pub append_wildcard : Values → Value → Values
  append_wildcard acc (sequence i f xs) = append_wildcards acc xs
  append_wildcard acc (slice xs) = append_wildcards acc xs
  append_wildcard acc v = append acc (cons v nil)

  pub append_wildcards : Values → Values → Values
  append_wildcards acc nil = acc
  append_wildcards acc (cons x xs) = append_wildcards (append_wildcard acc x) xs

-- The loop of `MapRange`.
unfoldable pub wildcard_fields : Values → Fields → Values
unfolding append_wildcard
wildcard_fields acc end = acc
wildcard_fields acc (field k v m) = wildcard_fields (append_wildcard acc v) m

unfoldable pub wildcard_map : ℕ → Fields → Value
unfolding wildcard_fields collapse_sequence
wildcard_map j m = if field_count m == 0 then undefined else (elim (wildcard_fields nil m) [
  | nil ↦ undefined
  | cons x xs ↦ elim xs [
    | nil ↦ x
    | cons y ys ↦ collapse_sequence j plain_flags (cons x (cons y ys))
  ]
])

unfoldable pub eval_wildcard : ℕ → Value → Value
unfolding wildcard_map append_wildcard collapse_sequence
eval_wildcard j (object i e m) = wildcard_map j m
eval_wildcard j (host_map m) = wildcard_map j m
eval_wildcard j (sequence i f xs) = collapse_sequence j plain_flags (append_wildcards nil xs)
eval_wildcard j (slice xs) = collapse_sequence j plain_flags (append_wildcards nil xs)
eval_wildcard j _ = undefined
