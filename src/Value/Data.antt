-- ===== src/Value/Data.antt =====
-- The Go `any` of the evaluator, and the containers of go/internal/engine/internal/evaluator/value.go.
-- A pointer carries a number that stands for its identity.
use jsonata.Base.{
  ℕ, suc, ◌/◌, ◌%◌, ◌^◌, Bool, true, false, not, ◌&&◌, ◌||◌, Option, none, some, Bytes, ◌==◌,
  if◌then◌else◌, bytes_eq,
}
use jsonata.Number.Grammar.{valid}

-- The Go types that hold a function of the language.
pub data FunctionKind : Type 0 where
  builtin env_builtin native_function signed_builtin lambda regex : FunctionKind

-- The Boolean fields of `Sequence`.
pub record Flags : Type 0 where
  pub keep_singleton : Bool
  pub cons_array : Bool
  pub outer_wrapper : Bool
  pub tuple_stream : Bool

-- `undefined` is Go's nil, `float` a float64 by its bits, `number` a json.Number, `slice` a `[]any`, `object` an
-- `*OrderedMap` with its `external` mark, and `host_map` a `map[string]any` by its entries.
mutual
  pub data Value : Type 0 where
    undefined null : Value
    boolean : Bool → Value
    text : Bytes → Value
    float : ℕ → Value
    number : Bytes → Value
    sequence : ℕ → Flags → Values → Value
    slice : Values → Value
    object : ℕ → Bool → Fields → Value
    host_map : Fields → Value
    function : FunctionKind → ℕ → Value

  pub data Values : Type 0 where
    nil : Values
    cons : Value → Values → Values

  pub data Fields : Type 0 where
    end : Fields
    field : Bytes → Value → Fields → Fields

abbrev pub count : Values → ℕ
count nil = 0
count (cons x xs) = suc (count xs)

abbrev pub field_count : Fields → ℕ
field_count end = 0
field_count (field k v m) = suc (field_count m)

abbrev pub append : Values → Values → Values
append nil ys = ys
append (cons x xs) ys = cons x (append xs ys)

unfoldable pub get_field : Bytes → Fields → Option Value
get_field key end = none
get_field key (field k v m) = if bytes_eq k key then some v else get_field key m

-- `ArrayValues`
abbrev pub array_values : Value → Option Values
array_values (slice xs) = some xs
array_values (sequence _ _ xs) = some xs
array_values _ = none

-- `MapGet`, `MapLen` and `IsMap`.
abbrev pub fields_of : Value → Option Fields
fields_of (object _ _ m) = some m
fields_of (host_map m) = some m
fields_of _ = none

unfoldable pub map_get : Value → Bytes → Option Value
unfolding get_field
map_get v key = elim (fields_of v) [ some m ↦ get_field key m | none ↦ none ]

abbrev pub map_len : Value → ℕ
map_len v = elim (fields_of v) [ some m ↦ field_count m | none ↦ 0 ]

abbrev pub is_map : Value → Bool
is_map v = elim (fields_of v) [ some _ ↦ true | none ↦ false ]

-- The exponent field of a float64 is all ones in an infinity and in a NaN.
abbrev pub is_finite : ℕ → Bool
is_finite bits = not ((bits / 2 ^ 52) % 2048 == 2047)

abbrev pub is_nan : ℕ → Bool
is_nan bits = not (is_finite bits) && not (bits % 2 ^ 52 == 0)

-- `n == 0` of a float64, for both zeros.
abbrev pub float_zero : ℕ → Bool
float_zero bits = bits % 2 ^ 63 == 0

-- `==` of two float64.
abbrev pub float_eq : ℕ → ℕ → Bool
float_eq a b = not (is_nan a) && not (is_nan b) && (a == b || float_zero a && float_zero b)

-- `numeric.Text`, where `format_float` is `strconv.FormatFloat(n, 'g', -1, 64)`.
unfoldable pub numeric_text : (ℕ → Bytes) → Value → Option Bytes
numeric_text format_float (number s) = if valid s then some s else none
numeric_text format_float (float n) = if is_finite n then some (format_float n) else none
numeric_text format_float _ = none

-- `IsNumeric`
unfoldable pub is_numeric : Value → Bool
is_numeric (number s) = valid s
is_numeric (float n) = is_finite n
is_numeric _ = false
