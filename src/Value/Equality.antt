-- ===== src/Value/Equality.antt =====
-- `DeepEqual` of go/internal/engine/internal/evaluator/value.go.
use Prim.Native.Nat.{Ordering}
use jsonata.Base.{ℕ, Bool, true, false, not, ◌&&◌, none, some, Bytes, ◌==◌, bytes_eq, if◌then◌else◌}
use jsonata.Number.Compare.{compare_text}
use jsonata.Value.Data.{
  Value, undefined, null, boolean, text, float, number, sequence, slice, object, host_map, function,
  Values, nil, cons, Fields, end, field, FunctionKind, native_function, signed_builtin, lambda,
  regex, count, field_count, array_values, map_get, map_len, is_map, numeric_text, float_eq,
}

-- Two pointers of one Go type; raw Go functions are never equal.
abbrev pub same_function : FunctionKind → ℕ → Value → Bool
same_function native_function i (function native_function j) = i == j
same_function signed_builtin i (function signed_builtin j) = i == j
same_function lambda i (function lambda j) = i == j
same_function regex i (function regex j) = i == j
same_function _ _ _ = false

abbrev pub is_eq : Ordering → Bool
is_eq Ordering.eq = true
is_eq _ = false

-- `numeric.Compare(a, b) == 0` for the text of a number and any value.
unfoldable pub number_equal : (ℕ → Bytes) → Bytes → Value → Bool
number_equal format_float s b = elim (numeric_text format_float b) [
  | some t ↦ is_eq (compare_text s t)
  | none ↦ false
]

abbrev pub text_equal : Bytes → Value → Bool
text_equal s (text t) = bytes_eq s t
text_equal s _ = false

abbrev pub boolean_equal : Bool → Value → Bool
boolean_equal true (boolean b) = b
boolean_equal false (boolean b) = not b
boolean_equal _ _ = false

abbrev pub float_equal : ℕ → Value → Bool
float_equal n (float k) = float_eq n k
float_equal n _ = false

abbrev pub is_undefined : Value → Bool
is_undefined undefined = true
is_undefined _ = false

abbrev pub is_null : Value → Bool
is_null null = true
is_null _ = false

-- The numeric cases: a number against any value, and a float that is no number.
unfoldable pub float_deep_equal : (ℕ → Bytes) → ℕ → Value → Bool
unfolding number_equal
float_deep_equal format_float n b = elim (numeric_text format_float (float n)) [
  | some s ↦ number_equal format_float s b
  | none ↦ float_equal n b
]

unfoldable pub number_deep_equal : (ℕ → Bytes) → Bytes → Value → Bool
unfolding number_equal
number_deep_equal format_float s b = elim (numeric_text format_float (number s)) [
  | some t ↦ number_equal format_float t b
  | none ↦ false
]

module _ (format_float : ℕ → Bytes) where
  unfoldable mutual
    pub deep_equal : Value → Value → Bool
    deep_equal undefined b = is_undefined b
    deep_equal null b = is_null b
    deep_equal (boolean x) b = boolean_equal x b
    deep_equal (text s) b = text_equal s b
    deep_equal (float n) b = float_deep_equal format_float n b
    deep_equal (number s) b = number_deep_equal format_float s b
    deep_equal (sequence i f xs) b = elim (array_values b) [
      | some ys ↦ if count xs == count ys then equal_items xs ys else false
      | none ↦ false
    ]
    deep_equal (slice xs) b = elim (array_values b) [
      | some ys ↦ if count xs == count ys then equal_items xs ys else false
      | none ↦ false
    ]
    deep_equal (object i e m) b =
        if is_map b && map_len b == field_count m then equal_fields m b else false
    deep_equal (host_map m) b =
        if is_map b && map_len b == field_count m then equal_fields m b else false
    deep_equal (function k i) b = same_function k i b

    -- The loop over two lists of one length.
    pub equal_items : Values → Values → Bool
    equal_items nil ys = true
    equal_items (cons x xs) nil = false
    equal_items (cons x xs) (cons y ys) = deep_equal x y && equal_items xs ys

    -- Every entry is in the other map, at an equal value.
    pub equal_fields : Fields → Value → Bool
    equal_fields end b = true
    equal_fields (field k v m) b = elim (map_get b k) [
      | some w ↦ deep_equal v w && equal_fields m b
      | none ↦ false
    ]
