-- ===== src/Functions/HigherOrder.antt =====
-- The higher-order functions of go/internal/engine/functions/hof_funcs.go, `$assert` and `$typeOf`, with
-- `FunctionArity` of go/internal/engine/internal/evaluator/env.go.
pub mod Arguments
pub mod Endings
pub mod Lists
pub mod Pipelines
use jsonata.Base.{
  ℕ, zero, suc, ◌+◌, Bool, true, false, List, [], ◌∷◌, Option, none, some, Bytes, codes, ltb,
  if◌then◌else◌,
}
use jsonata.Value.Data.{
  FunctionKind, native_function, lambda, signed_builtin, Value, undefined, null, boolean, text,
  float, number, sequence, slice, object, host_map, function, Values, nil, cons, append,
}
use jsonata.Value.Sequence.{plain_flags, collapse_sequence}
use jsonata.Value.Truth.{to_boolean}
use jsonata.Value.Equality.{is_undefined}
use jsonata.Functions.Arrays.{
  FunctionError, t0410, d3006, d3050, d3138, d3139, d3141, wrap_array, array_argument,
}

-- An error of a function, or of its callback.
pub data CallError (E : Type 0) : Type 0 where
  own : FunctionError → CallError E
  callback : E → CallError E

-- A result, or an error, with the state that is left.
pub data Outcome (A E S : Type 0) : Type 0 where
  gives : A → S → Outcome A E S
  throws : E → S → Outcome A E S

abbrev pub min_of : ℕ → ℕ → ℕ
min_of a b = if ltb a b then a else b

-- `fillHofArgs`, on a buffer of this length.
unfoldable pub fill_hof_args : ℕ → Value → Value → Value → List Value
fill_hof_args zero value index arr = []
fill_hof_args (suc zero) value index arr = value ∷ []
fill_hof_args (suc (suc zero)) value index arr = value ∷ index ∷ []
fill_hof_args (suc (suc (suc n))) value index arr = value ∷ index ∷ arr ∷ []

-- The buffer of `$reduce`, for an arity of two at least.
unfoldable pub reduce_args : ℕ → Value → Value → Value → Value → List Value
reduce_args arity acc value index arr =
    if ltb arity 3
    then acc ∷ value ∷ []
    else if ltb arity 4
    then acc ∷ value ∷ index ∷ []
    else acc ∷ value ∷ index ∷ arr ∷ []

-- `FunctionArity`; `declared` is the number of parameters that the function with an identity was made with.
unfoldable pub function_arity : (ℕ → ℕ) → Value → ℕ
function_arity declared (function native_function i) = declared i
function_arity declared (function lambda i) = declared i
function_arity declared (function signed_builtin i) = declared i
function_arity declared v = 1

-- `hofArity`
unfoldable pub hof_arity : (ℕ → ℕ) → Value → ℕ
unfolding function_arity
hof_arity declared fn = min_of (function_arity declared fn) 3

-- `CollapseSequence` of the values of a new sequence `j`.
unfoldable pub collapsed :
    {E S : Type 0} → ℕ → Outcome Values (CallError E) S → Outcome Value (CallError E) S
unfolding collapse_sequence
collapsed j (gives xs s) = gives (collapse_sequence j plain_flags xs) s
collapsed j (throws e s) = throws e s

-- One value, or an error.
unfoldable pub only_one : {E S : Type 0} → Values → S → Outcome Value (CallError E) S
only_one nil s = throws (own d3139) s
only_one (cons x nil) s = gives x s
only_one (cons x (cons y xs)) s = throws (own d3138) s

unfoldable pub matched_one :
    {E S : Type 0} → Outcome Values (CallError E) S → Outcome Value (CallError E) S
unfolding only_one
matched_one (gives xs s) = only_one xs s
matched_one (throws e s) = throws e s

-- `eval_fn` is the `evalFn` that the source takes as an argument, on the evaluator's state; `from_int` is `float64(i)`.
module _ {E S : Type 0} (eval_fn : Value → List Value → Value → S → Outcome Value E S)
    (declared : ℕ → ℕ) (from_int : ℕ → Value) where
  -- The loop of `$map`, from the index `i`, with what is in the sequence.
  unfoldable pub map_from :
      Value → Value → Value → ℕ → Values → Values → S → Outcome Values (CallError E) S
  unfolding fill_hof_args hof_arity
  map_from fn arr focus i acc nil s = gives acc s
  map_from fn arr focus i acc (cons item items) s =
      elim (eval_fn fn (fill_hof_args (hof_arity declared fn) item (from_int i) arr) focus s) [
        | throws e s' ↦ throws (callback e) s'
        | gives v s' ↦
            map_from fn arr focus (i + 1) (if is_undefined v then acc else append acc (cons v nil))
              items s'
      ]

  -- The loop of `$filter`, and that of `$single`.
  unfoldable pub filter_from :
      Value → Value → Value → ℕ → Values → Values → S → Outcome Values (CallError E) S
  unfolding fill_hof_args hof_arity to_boolean
  filter_from fn arr focus i acc nil s = gives acc s
  filter_from fn arr focus i acc (cons item items) s =
      elim (eval_fn fn (fill_hof_args (hof_arity declared fn) item (from_int i) arr) focus s) [
        | throws e s' ↦ throws (callback e) s'
        | gives v s' ↦
            filter_from fn arr focus (i + 1)
              (if to_boolean v then append acc (cons item nil) else acc) items s'
      ]

  -- The loop of `$reduce`.
  unfoldable pub reduce_from :
      Value → Value → Value → ℕ → Value → Values → S → Outcome Value (CallError E) S
  unfolding reduce_args function_arity
  reduce_from fn arr focus i acc nil s = gives acc s
  reduce_from fn arr focus i acc (cons item items) s =
      elim (eval_fn fn (reduce_args (function_arity declared fn) acc item (from_int i) arr) focus
        s) [
          | throws e s' ↦ throws (callback e) s'
          | gives v s' ↦ reduce_from fn arr focus (i + 1) v items s'
        ]

  -- In what follows `j` and `k` are the identities of the new sequence and of a new array argument.
  unfoldable pub map_over : ℕ → ℕ → Value → Value → Value → S → Outcome Value (CallError E) S
  unfolding map_from collapsed wrap_array array_argument
  map_over j k v fn focus s =
      collapsed j (map_from fn (array_argument k v) focus 0 nil (wrap_array v) s)

  unfoldable pub fn_map : ℕ → ℕ → List Value → Value → S → Outcome Value (CallError E) S
  unfolding map_over
  fn_map j k [] focus s = throws (own d3006) s
  fn_map j k (fn ∷ []) focus s =
      if is_undefined focus then throws (own t0410) s else map_over j k focus fn focus s
  fn_map j k (v ∷ fn ∷ args) focus s =
      if is_undefined v then gives undefined s else map_over j k v fn focus s

  unfoldable pub filter_over : ℕ → ℕ → Value → Value → Value → S → Outcome Value (CallError E) S
  unfolding filter_from collapsed wrap_array array_argument
  filter_over j k v fn focus s =
      if is_undefined v
      then gives undefined s
      else collapsed j (filter_from fn (array_argument k v) focus 0 nil (wrap_array v) s)

  unfoldable pub fn_filter : ℕ → ℕ → List Value → Value → S → Outcome Value (CallError E) S
  unfolding filter_over
  fn_filter j k [] focus s = throws (own d3006) s
  fn_filter j k (fn ∷ []) focus s = filter_over j k focus fn focus s
  fn_filter j k (v ∷ fn ∷ args) focus s = filter_over j k v fn focus s

  unfoldable pub single_over : Value → S → Outcome Value (CallError E) S
  unfolding only_one wrap_array
  single_over v s = if is_undefined v then gives undefined s else only_one (wrap_array v) s

  unfoldable pub single_match : ℕ → Value → Value → Value → S → Outcome Value (CallError E) S
  unfolding matched_one filter_from wrap_array array_argument
  single_match k v fn focus s =
      matched_one (filter_from fn (array_argument k v) focus 0 nil (wrap_array v) s)

  unfoldable pub fn_single : ℕ → List Value → Value → S → Outcome Value (CallError E) S
  unfolding single_over single_match
  fn_single k [] focus s = single_over focus s
  fn_single k (v ∷ []) focus s = single_over v s
  fn_single k (v ∷ fn ∷ args) focus s =
      if is_undefined v
      then gives undefined s
      else if is_undefined fn
      then single_over v s
      else single_match k v fn focus s

  -- The items behind the start of `$reduce`.
  unfoldable pub reduce_items :
      Value → Value → Value → Option Value → Values → S → Outcome Value (CallError E) S
  unfolding reduce_from
  reduce_items fn arr focus (some init) nil s = gives init s
  reduce_items fn arr focus none nil s = gives undefined s
  reduce_items fn arr focus (some init) (cons x xs) s =
      reduce_from fn arr focus 0 init (cons x xs) s
  reduce_items fn arr focus none (cons x xs) s = reduce_from fn arr focus 1 x xs s

  unfoldable pub reduce_over :
      ℕ → Value → Value → Option Value → Value → S → Outcome Value (CallError E) S
  unfolding function_arity reduce_items wrap_array array_argument
  reduce_over k v fn init focus s =
      if is_undefined v
      then gives undefined s
      else if ltb (function_arity declared fn) 2
      then throws (own d3050) s
      else reduce_items fn (array_argument k v) focus init (wrap_array v) s

  unfoldable pub fn_reduce : ℕ → List Value → Value → S → Outcome Value (CallError E) S
  unfolding reduce_over
  fn_reduce k [] focus s = throws (own d3006) s
  fn_reduce k (fn ∷ []) focus s = reduce_over k focus fn none focus s
  fn_reduce k (v ∷ fn ∷ []) focus s = reduce_over k v fn none focus s
  fn_reduce k (v ∷ fn ∷ init ∷ args) focus s = reduce_over k v fn (some init) focus s

-- `$assert`, which returns nothing; D3141 with its message, the other errors without theirs.
pub data Asserted : Type 0 where
  holds : Asserted
  fails : FunctionError → Bytes → Asserted

unfoldable pub assertion : Bool → Bytes → Asserted
assertion true message = holds
assertion false message = fails d3141 message

abbrev pub message_of : Value → Bytes
message_of (text message) = message
message_of v = codes "assertion failed"

unfoldable pub fn_assert : List Value → Asserted
unfolding assertion
fn_assert (boolean b ∷ []) = assertion b (codes "assertion failed")
fn_assert (boolean b ∷ v ∷ []) = assertion b (message_of v)
fn_assert args = fails t0410 []

-- `$typeOf`, where `none` is undefined.
unfoldable pub fn_type_of : List Value → Option Bytes
fn_type_of [] = none
fn_type_of (undefined ∷ args) = none
fn_type_of (null ∷ args) = some (codes "null")
fn_type_of (float n ∷ args) = some (codes "number")
fn_type_of (number n ∷ args) = some (codes "number")
fn_type_of (text s ∷ args) = some (codes "string")
fn_type_of (boolean b ∷ args) = some (codes "boolean")
fn_type_of (slice xs ∷ args) = some (codes "array")
fn_type_of (sequence i f xs ∷ args) = some (codes "array")
fn_type_of (object i e m ∷ args) = some (codes "object")
fn_type_of (host_map m ∷ args) = some (codes "object")
fn_type_of (function k i ∷ args) = some (codes "function")
