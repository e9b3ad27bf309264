-- ===== src/Value/Compare.antt =====
-- `compareOrder` and `compareValues` of go/internal/engine/internal/evaluator/eval_helpers.go: the order behind the
-- comparison operators. An order below, at or above 0 is `lt`, `eq` or `gt`.
use Prim.Native.Nat.{Ordering}
use jsonata.Base.{
  ℕ, Bool, true, false, not, ◌&&◌, [], ◌∷◌, Option, none, some, Bytes, codes, bytes_eq, ltb,
  if◌then◌else◌,
}
use jsonata.Number.Compare.{compare_text}
use jsonata.Value.Data.{Value, text, numeric_text, is_numeric}
use jsonata.Value.Equality.{is_undefined}

-- T2007 to T2010 of the language, and the error for an operator that is none.
pub data CompareError : Type 0 where
  t2007 t2008 t2009 t2010 unknown_comparison : CompareError

pub data Compared {ℓ} (A : Type ℓ) : Type ℓ where
  order : A → Compared A
  failed : CompareError → Compared A

-- `strings.Compare`
unfoldable pub compare_bytes : Bytes → Bytes → Ordering
compare_bytes [] [] = Ordering.eq
compare_bytes [] (d ∷ t) = Ordering.lt
compare_bytes (c ∷ s) [] = Ordering.gt
compare_bytes (c ∷ s) (d ∷ t) =
    let rest = compare_bytes s t in
    if ltb c d then Ordering.lt else if ltb d c then Ordering.gt else rest

abbrev pub string_of : Value → Option Bytes
string_of (text s) = some s
string_of _ = none

-- The cases of `compareOrder` on two values that are there, by the number and the string that each is.
unfoldable pub compare_kinds :
    Option Bytes → Option Bytes → Option Bytes → Option Bytes → Compared Ordering
unfolding compare_bytes
compare_kinds (some s) (some t) _ _ = order (compare_text s t)
compare_kinds _ _ (some s) (some t) = order (compare_bytes s t)
compare_kinds (some _) _ _ (some _) = failed t2007
compare_kinds _ (some _) (some _) _ = failed t2007
compare_kinds _ _ _ _ = failed t2008

module _ (format_float : ℕ → Bytes) where
  unfoldable pub compare_order : Value → Value → Compared Ordering
  unfolding compare_kinds
  compare_order a b =
      if is_undefined a && is_undefined b
      then order Ordering.eq
      else if is_undefined a
      then order Ordering.gt
      else if is_undefined b
      then order Ordering.lt
      else compare_kinds (numeric_text format_float a) (numeric_text format_float b) (string_of a)
          (string_of b)

  -- The `switch` on the operator.
  unfoldable pub decide : Bytes → Ordering → Compared (Option Bool)
  decide op o =
      if bytes_eq op (codes "<")
      then order (some (elim o [ Ordering.lt ↦ true | _ ↦ false ]))
      else if bytes_eq op (codes "<=")
      then order (some (elim o [ Ordering.gt ↦ false | _ ↦ true ]))
      else if bytes_eq op (codes ">")
      then order (some (elim o [ Ordering.gt ↦ true | _ ↦ false ]))
      else if bytes_eq op (codes ">=")
      then order (some (elim o [ Ordering.lt ↦ false | _ ↦ true ]))
      else failed unknown_comparison

  -- The errors that `compareValues` makes of those of `compareOrder`.
  abbrev pub renamed : CompareError → CompareError
  renamed t2007 = t2009
  renamed _ = t2010

  -- `compareValues`; the answer is undefined or a Boolean.
  unfoldable pub compare_values : Value → Value → Bytes → Compared (Option Bool)
  unfolding compare_order decide is_numeric
  compare_values left right op =
      if not (is_undefined left)
        && not (is_numeric left)
        && not (elim (string_of left) [ some _ ↦ true | none ↦ false ])
      then failed t2010
      else if is_undefined left
      then order none
      else if is_undefined right
      then order none
      else (elim (compare_order left right) [
        | order o ↦ decide op o
        | failed e ↦ failed (renamed e)
      ])
