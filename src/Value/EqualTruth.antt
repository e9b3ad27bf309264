-- ===== src/Value/EqualTruth.antt =====
-- Structurally equal values have the same truth value.
use Prim.Native.Nat.{Ordering}
use jsonata.Base.{
  ℕ, Bool, true, false, not, ◌||◌, some, Bytes, bytes_eq→eq, ◌≡◌, refl, sym, ap, ◌∙◌, arith, ltb,
  Option-cases, inl, inr,
}
use mathlib.Core.Path.{ap₂}
use jsonata.Number.Compare.{compare_text}
use jsonata.Number.Order.{compare_text-eq_iff}
use jsonata.Number.Parts.{Parts, parts, is_zero}
use jsonata.Value.Data.{
  Value, undefined, null, boolean, text, float, number, sequence, slice, object, host_map, function,
  Values, nil, cons, FunctionKind, builtin, env_builtin, native_function, signed_builtin, lambda,
  regex, count, array_values, map_len, is_map, is_numeric, numeric_text, is_finite, float_zero,
}
use jsonata.Value.Truth.{to_boolean, is_empty, list_boolean, some_boolean}
use jsonata.Value.Equality.{
  deep_equal, equal_items, number_equal, text_equal, boolean_equal, float_equal, same_function,
  is_undefined, is_null, is_eq, float_deep_equal, number_deep_equal,
}

list-some : (xs : Values) → list_boolean xs ≡ some_boolean xs
unfolding to_boolean
list-some nil = refl
list-some (cons x nil) = ground arith
list-some (cons x (cons y ys)) = refl

text_truth : (s : Bytes) (b : Value) → text_equal s b ≡ true → to_boolean (text s) ≡ to_boolean b
unfolding to_boolean
text_truth s (text t) h = ap (λ (u : Bytes). not (is_empty u)) (bytes_eq→eq s t h)
text_truth s undefined h = cc
text_truth s _ h = cc

boolean_truth : (x : Bool) (b : Value) → boolean_equal x b ≡ true → x ≡ to_boolean b
unfolding to_boolean
boolean_truth true (boolean b) h = sym h
boolean_truth false (boolean b) h = ground arith
boolean_truth true _ h = cc
boolean_truth false _ h = cc

function_truth :
    (k : FunctionKind) (i : ℕ) (b : Value) → same_function k i b ≡ true → false ≡ to_boolean b
unfolding to_boolean
function_truth k i (function l j) h = refl
function_truth builtin i _ h = cc
function_truth env_builtin i _ h = cc
function_truth native_function i _ h = cc
function_truth signed_builtin i _ h = cc
function_truth lambda i _ h = cc
function_truth regex i _ h = cc

float_truth : (n : ℕ) (b : Value) → float_equal n b ≡ true → to_boolean (float n) ≡ to_boolean b
unfolding to_boolean
float_truth n (float k) h = ground arith
float_truth n undefined h = cc
float_truth n _ h = cc

map_truth : (b : Value) → is_map b ≡ true → to_boolean b ≡ ltb 0 (map_len b)
unfolding to_boolean
map_truth (object i e m) h = refl
map_truth (host_map m) h = refl
map_truth _ h = cc

list_truth : (b : Value) (ys : Values) → array_values b ≡ some ys → to_boolean b ≡ some_boolean ys
unfolding to_boolean
list_truth (sequence i f xs) ys h = list-some xs ∙ ground arith
list_truth (slice xs) ys h = list-some xs ∙ ground arith
list_truth _ ys h = cc

undefined_truth : (b : Value) → is_undefined b ≡ true → false ≡ to_boolean b
unfolding to_boolean
undefined_truth undefined h = refl
undefined_truth _ h = cc

null_truth : (b : Value) → is_null b ≡ true → false ≡ to_boolean b
unfolding to_boolean
null_truth null h = refl
null_truth _ h = cc

is_eq→eq : (o : Ordering) → is_eq o ≡ true → o ≡ Ordering.eq
is_eq→eq o h = ground arith

-- `format_float` writes a zero exactly for the two zeros.
module _ (format_float : ℕ → Bytes)
    (zero_text : (n : ℕ)
      → is_finite n ≡ true
      → is_zero (parts (format_float n)) ≡ float_zero n) where
  numeric_truth :
      (b : Value) (t : Bytes)
      → numeric_text format_float b ≡ some t
      → to_boolean b ≡ not (is_zero (parts t))
  unfolding to_boolean numeric_text is_numeric
  numeric_truth (number s) t h = ground arith
  numeric_truth (float n) t h = ground (arith, zero_text n)
  numeric_truth _ t h = cc

  number_truth :
      (s : Bytes) (b : Value)
      → number_equal format_float s b ≡ true
      → not (is_zero (parts s)) ≡ to_boolean b
  unfolding number_equal
  number_truth s b h = elim (Option-cases (numeric_text format_float b)) [
    | inl other ↦ cc (rw (other, number_equal) at h)
    | inr (t, numeric) ↦
        ap (λ (p : Parts). not (is_zero p))
          ((compare_text-eq_iff s t).0
            (is_eq→eq (compare_text s t) (rw (numeric, number_equal) at h)))
        ∙ sym (numeric_truth b t numeric)
  ]

  float_deep_truth :
      (n : ℕ) (b : Value)
      → float_deep_equal format_float n b ≡ true
      → to_boolean (float n) ≡ to_boolean b
  float_deep_truth n b h = elim (Option-cases (numeric_text format_float (float n))) [
    | inl other ↦ float_truth n b (unfold float_deep_equal in rw (other, float_deep_equal) at h)
    | inr (s, numeric) ↦
        numeric_truth (float n) s numeric
        ∙ number_truth s b (unfold float_deep_equal in rw (numeric, float_deep_equal) at h)
  ]

  number_deep_truth :
      (u : Bytes) (b : Value)
      → number_deep_equal format_float u b ≡ true
      → to_boolean (number u) ≡ to_boolean b
  number_deep_truth u b h = elim (Option-cases (numeric_text format_float (number u))) [
    | inl other ↦ unfold number_deep_equal in cc (rw (other, number_deep_equal) at h)
    | inr (s, numeric) ↦
        numeric_truth (number u) s numeric
        ∙ number_truth s b (unfold number_deep_equal in rw (numeric, number_deep_equal) at h)
  ]

  mutual
    unfolding to_boolean deep_equal

    equal_truth : (a b : Value) → deep_equal format_float a b ≡ true → to_boolean a ≡ to_boolean b
    equal_truth undefined b h = undefined_truth b h
    equal_truth null b h = null_truth b h
    equal_truth (boolean x) b h = boolean_truth x b h
    equal_truth (text s) b h = text_truth s b h
    equal_truth (float n) b h = float_deep_truth n b h
    equal_truth (number u) b h = number_deep_truth u b h
    equal_truth (sequence i f xs) b h = elim (Option-cases (array_values b)) [
      | inl other ↦ ground arith
      | inr (ys, list) ↦ ground (arith, items_truth xs ys, list_truth b ys, list-some xs)
    ]
    equal_truth (slice xs) b h = elim (Option-cases (array_values b)) [
      | inl other ↦ ground arith
      | inr (ys, list) ↦ ground (arith, items_truth xs ys, list_truth b ys, list-some xs)
    ]
    equal_truth (object i e m) b h = ground (arith, map_truth b)
    equal_truth (host_map m) b h = ground (arith, map_truth b)
    equal_truth (function k i) b h = function_truth k i b h

    items_truth :
        (xs ys : Values)
        → count xs ≡ count ys
        → equal_items format_float xs ys ≡ true
        → some_boolean xs ≡ some_boolean ys
    items_truth nil nil e h = refl
    items_truth nil (cons y ys) e h = absurd (omega arith)
    items_truth (cons x xs) nil e h = cc
    items_truth (cons x xs) (cons y ys) e h =
        ap₂ ◌||◌ (equal_truth x y (ground arith)) (items_truth xs ys (omega arith) (ground arith))

  -- Two values that `DeepEqual` identifies have the same truth value under `ToBoolean`, given that a finite float is
  -- written as a zero exactly when it is one.
  pub to_boolean-deep_equal :
      (a b : Value) → deep_equal format_float a b ≡ true → to_boolean a ≡ to_boolean b
  to_boolean-deep_equal a b h = equal_truth a b h
