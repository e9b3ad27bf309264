-- ===== src/Value/Truth.antt =====
-- `ToBoolean` of go/internal/engine/internal/evaluator/value.go.
use jsonata.Base.{Bool, true, false, not, ◌&&◌, ◌||◌, Bytes, [], ◌∷◌, ltb}
use jsonata.Number.Parts.{parts, is_zero}
use jsonata.Value.Data.{
  Value, undefined, null, boolean, text, float, number, sequence, slice, object, host_map, function,
  Values, nil, cons, field_count, is_numeric, float_zero,
}

abbrev pub is_empty : Bytes → Bool
is_empty [] = true
is_empty (c ∷ s) = false

unfoldable mutual
  unfolding is_numeric is_zero

  pub to_boolean : Value → Bool
  to_boolean undefined = false
  to_boolean null = false
  to_boolean (boolean b) = b
  to_boolean (text s) = not (is_empty s)
  to_boolean (float n) = not (float_zero n)
  to_boolean (number s) = is_numeric (number s) && not (is_zero (parts s))
  to_boolean (object i e m) = ltb 0 (field_count m)
  to_boolean (host_map m) = ltb 0 (field_count m)
  to_boolean (slice xs) = list_boolean xs
  to_boolean (sequence i f xs) = list_boolean xs
  to_boolean (function k i) = false

  -- The cases on the length of the list.
  pub list_boolean : Values → Bool
  list_boolean nil = false
  list_boolean (cons x nil) = to_boolean x
  list_boolean (cons x (cons y ys)) = to_boolean x || some_boolean (cons y ys)

  -- `slices.ContainsFunc(val, ToBoolean)`
  pub some_boolean : Values → Bool
  some_boolean nil = false
  some_boolean (cons x xs) = to_boolean x || some_boolean xs
