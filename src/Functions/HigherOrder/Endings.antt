-- ===== src/Functions/HigherOrder/Endings.antt =====
-- Which callbacks `$map` and `$filter` call, and how they end, of go/internal/engine/functions/hof_funcs.go.
use jsonata.Base.{
  ℕ, ◌+◌, [], ◌∷◌, take, Bool, true, false, List, Option, none, some, if◌then◌else◌, ◌≡◌, refl, ◌∙◌,
}
use jsonata.Value.Data.{Value, undefined, Values, nil, cons, append}
use jsonata.Value.Truth.{to_boolean}
use jsonata.Value.Equality.{is_undefined}
use jsonata.Functions.Arrays.{wrap_array, array_argument}
use jsonata.Functions.HigherOrder.Arguments.{fill_hof_args-hof_arity}
use jsonata.Functions.HigherOrder.{
  CallError, callback, Outcome, gives, throws, function_arity, map_from, filter_from, collapsed,
  map_over, filter_over,
}

module _ {E S : Type 0} (eval_fn : Value → List Value → Value → S → Outcome Value E S)
    (declared : ℕ → ℕ) (from_int : ℕ → Value) where
  -- The calls of `fn` on the items in their order, each with the item, its index and the array, as many of these as `fn`
  -- takes, up to the first that fails: its error and the state it leaves, or the
  -- state behind the last call.
  unfoldable pub calls : Value → Value → Value → ℕ → Values → S → Option (CallError E) × S
  unfolding function_arity
  calls fn arr focus i nil s = (none, s)
  calls fn arr focus i (cons item items) s =
      elim (eval_fn fn (take (function_arity declared fn) (item ∷ from_int i ∷ arr ∷ [])) focus s) [
        | throws e s' ↦ (some (callback e), s')
        | gives v s' ↦ calls fn arr focus (i + 1) items s'
      ]

-- The error of a result, if it is one, and the state that is left.
unfoldable pub ending : {A E S : Type 0} → Outcome A E S → Option E × S
ending (gives v s) = (none, s)
ending (throws e s) = (some e, s)

module _ {E S : Type 0} (eval_fn : Value → List Value → Value → S → Outcome Value E S)
    (declared : ℕ → ℕ) (from_int : ℕ → Value) (fn arr focus : Value) where
  ending-map_from :
      (i : ℕ) (acc items : Values) (s : S)
      → ending (map_from eval_fn declared from_int fn arr focus i acc items s)
        ≡ calls eval_fn declared from_int fn arr focus i items s
  unfolding ending map_from calls
  ending-map_from i acc nil s = refl
  ending-map_from i acc (cons item items) s =
      rw (fill_hof_args-hof_arity declared fn item (from_int i) arr, ending, map_from)
        (of_call
          (eval_fn fn (take (function_arity declared fn) (item ∷ from_int i ∷ arr ∷ [])) focus s)
          (λ (a : Values) (s' : S). ending-map_from (i + 1) a items s'))
    where
      of_call :
          (r : Outcome Value E S)
          → ((a : Values) (s' : S)
              → ending (map_from eval_fn declared from_int fn arr focus (i + 1) a items s')
                ≡ calls eval_fn declared from_int fn arr focus (i + 1) items s')
          → ending {A = Values} {E = CallError E} {S = S} (elim r [
            | throws e s' ↦ throws (callback e) s'
            | gives v s' ↦
                map_from eval_fn declared from_int fn arr focus
                  (i + 1)
                  (if is_undefined v then acc else append acc (cons v nil))
                  items
                  s'
          ])
            ≡ (elim r [
              | throws e s' ↦ (some (callback e), s')
              | gives v s' ↦ calls eval_fn declared from_int fn arr focus (i + 1) items s'
            ])
      of_call (throws e s') rec = refl
      of_call (gives v s') rec = rec (if is_undefined v then acc else append acc (cons v nil)) s'

  ending-filter_from :
      (i : ℕ) (acc items : Values) (s : S)
      → ending (filter_from eval_fn declared from_int fn arr focus i acc items s)
        ≡ calls eval_fn declared from_int fn arr focus i items s
  unfolding ending filter_from calls
  ending-filter_from i acc nil s = refl
  ending-filter_from i acc (cons item items) s =
      rw (fill_hof_args-hof_arity declared fn item (from_int i) arr, ending, filter_from)
        (of_call
          (eval_fn fn (take (function_arity declared fn) (item ∷ from_int i ∷ arr ∷ [])) focus s)
          (λ (a : Values) (s' : S). ending-filter_from (i + 1) a items s'))
    where
      of_call :
          (r : Outcome Value E S)
          → ((a : Values) (s' : S)
              → ending (filter_from eval_fn declared from_int fn arr focus (i + 1) a items s')
                ≡ calls eval_fn declared from_int fn arr focus (i + 1) items s')
          → ending {A = Values} {E = CallError E} {S = S} (elim r [
            | throws e s' ↦ throws (callback e) s'
            | gives v s' ↦
                filter_from eval_fn declared from_int fn arr focus
                  (i + 1)
                  (if to_boolean v then append acc (cons item nil) else acc)
                  items
                  s'
          ])
            ≡ (elim r [
              | throws e s' ↦ (some (callback e), s')
              | gives v s' ↦ calls eval_fn declared from_int fn arr focus (i + 1) items s'
            ])
      of_call (throws e s') rec = refl
      of_call (gives v s') rec = rec (if to_boolean v then append acc (cons item nil) else acc) s'

ending-collapsed :
    {E S : Type 0} (j : ℕ) (r : Outcome Values (CallError E) S) → ending (collapsed j r) ≡ ending r
unfolding ending collapsed
ending-collapsed j (gives xs s) = refl
ending-collapsed j (throws e s) = refl

-- `$map` and `$filter` on `v` call the function on each item of `v`, in order, with the item, its index and the array, as
-- many of these as its arity allows; they end with the first error of a call, in the state that this call leaves and
-- without a further call, or without an error in the state behind the last call.
pub ending-map_over-filter_over :
    {E S : Type 0} (eval_fn : Value → List Value → Value → S → Outcome Value E S) (declared : ℕ → ℕ)
    (from_int : ℕ → Value) (j k : ℕ) (v fn focus : Value) (s : S)
    → (ending (map_over eval_fn declared from_int j k v fn focus s)
        ≡ calls eval_fn declared from_int fn (array_argument k v) focus 0 (wrap_array v) s)
      × (ending (filter_over eval_fn declared from_int j k v fn focus s)
          ≡ calls eval_fn declared from_int fn (array_argument k v) focus 0 (wrap_array v) s)
unfolding map_over filter_over
ending-map_over-filter_over eval_fn declared from_int j k v fn focus s = (
  ending-collapsed j
        (map_from eval_fn declared from_int fn (array_argument k v) focus 0 nil (wrap_array v) s)
      ∙ ending-map_from eval_fn declared from_int fn (array_argument k v) focus 0 nil (wrap_array v)
          s,
  (of_test (is_undefined v) refl),
)
  where
    filtered :
        (v : Value)
        → ending (
            collapsed j (
              filter_from eval_fn declared from_int fn
                (array_argument k v)
                focus
                0
                nil
                (wrap_array v)
                s))
          ≡ calls eval_fn declared from_int fn (array_argument k v) focus 0 (wrap_array v) s
    filtered v =
        ending-collapsed j (
          filter_from eval_fn declared from_int fn (array_argument k v) focus 0 nil (wrap_array v)
            s)
        ∙ ending-filter_from eval_fn declared from_int fn (array_argument k v) focus 0 nil
            (wrap_array v) s

    nothing : (v : Value) → is_undefined v ≡ true → wrap_array v ≡ nil
    nothing v h = unfold wrap_array in rw h refl

    of_test :
        (b : Bool)
        → is_undefined v ≡ b
        → ending (
            if b
            then gives undefined s
            else collapsed j (
                filter_from eval_fn declared from_int fn
                  (array_argument k v)
                  focus
                  0
                  nil
                  (wrap_array v)
                  s))
          ≡ calls eval_fn declared from_int fn (array_argument k v) focus 0 (wrap_array v) s
    of_test true h = unfold calls ending in rw (nothing v h) refl
    of_test false h = filtered v
