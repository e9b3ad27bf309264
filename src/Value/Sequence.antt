-- ===== src/Value/Sequence.antt =====
-- The collapsing rules of go/internal/engine/internal/evaluator/value.go and the constructors of list_value.go.
use jsonata.Base.{ℕ, Bool, true, false, not, if◌then◌else◌}
use jsonata.Value.Data.{Value, undefined, sequence, slice, Values, nil, cons, Flags, append}

abbrev pub plain_flags : Flags
plain_flags = record {
  keep_singleton = false;
  cons_array = false;
  outer_wrapper = false;
  tuple_stream = false;
}

-- `CreateSequence` and `NewArray`, at a fresh identity.
abbrev pub create_sequence : ℕ → Values → Value
create_sequence i xs = sequence i plain_flags xs

abbrev pub new_array : ℕ → Values → Value
new_array i xs = sequence i (record plain_flags { cons_array = true }) xs

unfoldable pub is_sequence : Value → Bool
is_sequence (sequence _ f _) = not f.cons_array
is_sequence _ = false

unfoldable pub is_array : Value → Bool
is_array (sequence _ f _) = f.cons_array
is_array (slice _) = true
is_array _ = false

-- `CollapseSequence`, on the parts of the `*Sequence`.
unfoldable pub collapse_sequence : ℕ → Flags → Values → Value
collapse_sequence i f nil = if f.cons_array then sequence i f nil else undefined
collapse_sequence i f (cons x nil) =
    if f.cons_array
    then sequence i f (cons x nil)
    else if f.keep_singleton
    then sequence i f (cons x nil)
    else x
collapse_sequence i f (cons x (cons y xs)) = sequence i f (cons x (cons y xs))

-- The first half of `CollapseAndKeep`; `j` is the identity of the copy that `keepArray` makes.
unfoldable pub collapse_result : ℕ → Value → Bool → Value
unfolding collapse_sequence
collapse_result j (sequence i f xs) keep_array =
    if keep_array
    then collapse_sequence j (record f { keep_singleton = true }) xs
    else collapse_sequence i f xs
collapse_result j v keep_array = v

unfoldable pub wrap_scalar : Value → Value
wrap_scalar undefined = undefined
wrap_scalar (slice xs) = slice xs
wrap_scalar (sequence i f xs) = sequence i f xs
wrap_scalar v = slice (cons v nil)

unfoldable pub collapse_and_keep : ℕ → Value → Bool → Value
unfolding collapse_result wrap_scalar
collapse_and_keep j v keep_array =
    let result = collapse_result j v keep_array in if keep_array then wrap_scalar result else result

-- `appendToSequence`: a query sequence is flattened, at every depth, and an array is one element.
unfoldable mutual
  pub append_to_sequence : Values → Value → Values
  append_to_sequence acc undefined = acc
  append_to_sequence acc (sequence i f xs) =
      if f.cons_array then append acc (cons (sequence i f xs) nil) else append_items acc xs
  append_to_sequence acc v = append acc (cons v nil)

  pub append_items : Values → Values → Values
  append_items acc nil = acc
  append_items acc (cons y ys) = append_items (append_to_sequence acc y) ys
