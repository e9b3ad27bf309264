-- ===== src/Signature/Call.antt =====
-- The checks of a call's arguments in go/internal/engine/internal/evaluator/signature.go.
use jsonata.Base.{
  ℕ, zero, suc, ◌+◌, ◌-◌, Bool, true, false, not, ◌&&◌, ◌||◌, List, [], ◌∷◌, ◌++◌, Option, none,
  some, Bytes, length, get_elem?, ltb, ◌==◌, if◌then◌else◌,
}
use mathlib.Core.Option
use jsonata.Signature.Spec.{
  SignatureError, t0410, t0412, Result, ok, err, ◌>>=◌, ParamSpec, contains,
}
use jsonata.Value.Data.{
  Value, undefined, boolean, text, float, number, slice, function, Values, nil, cons, array_values,
  is_map,
}
use jsonata.Value.Equality.{is_undefined, is_null}

abbrev pub is_function : Value → Bool
is_function (function _ _) = true
is_function _ = false

abbrev pub is_number : Value → Bool
is_number (float _) = true
is_number (number _) = true
is_number _ = false

abbrev pub is_text : Value → Bool
is_text (text _) = true
is_text _ = false

abbrev pub is_boolean : Value → Bool
is_boolean (boolean _) = true
is_boolean _ = false

abbrev pub is_list : Value → Bool
is_list v = elim (array_values v) [ some _ ↦ true | none ↦ false ]

-- `sigTypeMatches`
unfoldable pub type_matches : Value → ℕ → Bool
type_matches arg t =
    if t == b'x'
    then true
    else if t == b'j'
    then not (is_function arg)
    else if t == b'n'
    then is_number arg
    else if t == b's'
    then is_text arg
    else if t == b'b'
    then is_boolean arg
    else if t == b'l'
    then is_undefined arg || is_null arg
    else if t == b'a'
    then is_list arg
    else if t == b'o'
    then is_map arg
    else if t == b'f'
    then is_function arg
    else if t == b'u'
    then is_boolean arg || is_number arg || is_text arg || is_null arg
    else false

-- `sigArgMatchesTypes`
unfoldable pub matches_types : Value → Bytes → Bool
matches_types arg [] = false
matches_types arg (t ∷ types) = type_matches arg t || matches_types arg types

unfoldable pub all_match : Values → Bytes → Bool
all_match nil types = true
all_match (cons x xs) types = matches_types x types && all_match xs types

-- `validateOneCallArg`; `none` is Go's nil error.
unfoldable pub validate_one : ParamSpec → Value → Option SignatureError
validate_one spec arg =
    let has_content = not (spec.content_type == 0) in
    if not (matches_types arg spec.types)
    then some (if has_content then t0412 else t0410)
    else if has_content
    then (elim (array_values arg) [
      | some xs ↦ if all_match xs (spec.content_type ∷ []) then none else some t0412
      | none ↦ none
    ])
    else none

-- The specs that a variadic one must leave an argument for.
unfoldable pub mandatory_count : List ParamSpec → ℕ
mandatory_count [] = 0
mandatory_count (spec ∷ specs) =
    if not spec.optional && not spec.context
    then suc (mandatory_count specs)
    else mandatory_count specs

-- The loop of a variadic spec: at most `rounds` arguments from position `ai`, up to the first that does not match.
unfoldable pub consume : ParamSpec → List Value → ℕ → ℕ → ℕ
consume spec args ai zero = ai
consume spec args ai (suc rounds) = elim (get_elem? args ai) [
  | none ↦ ai
  | some arg ↦ elim (validate_one spec arg) [
    | none ↦ consume spec args (ai + 1) rounds
    | some _ ↦ ai
  ]
]

-- The loop of `validateCallArgs`, from argument `ai` on.
unfoldable pub validate_from : List ParamSpec → List Value → ℕ → Value → Result (List Value)
unfolding consume mandatory_count validate_one
validate_from [] args ai focus = if ltb ai (length args) then err t0410 else ok args
validate_from (spec ∷ specs) args ai focus =
    let stop = consume spec args ai (length args - mandatory_count specs - ai) in
    let behind = validate_from specs args stop focus in
    let injected = validate_from specs (args ++ focus ∷ []) (ai + 1) focus in
    let skipped = validate_from specs args ai focus in
    let matched = validate_from specs args (ai + 1) focus in
    if spec.variadic then behind else (elim (get_elem? args ai) [
      | none ↦ if spec.context then injected else if spec.optional then skipped else err t0410
      | some arg ↦ elim (validate_one spec arg) [
        | none ↦ matched
        | some e ↦ if spec.optional then skipped else err e
      ]
    ])

-- `validateCallArgs`
unfoldable pub validate_call_args : List ParamSpec → List Value → Value → Result (List Value)
unfolding validate_from
validate_call_args specs args focus = validate_from specs args 0 focus

-- The singleton coercion of one argument.
unfoldable pub coerce_arg : ParamSpec → Value → Value
coerce_arg spec arg =
    if contains spec.types b'a' && not (is_undefined arg) && not (matches_types arg (b'a' ∷ []))
    then (if spec.content_type == 0 || matches_types arg (spec.content_type ∷ [])
        then slice (cons arg nil)
        else arg)
    else arg

-- The first loop of `processCallArgs`; `none` means that the call returns undefined.
unfoldable pub coerce_args : List ParamSpec → List Value → Option (List Value)
unfolding coerce_arg
coerce_args [] args = some args
coerce_args (spec ∷ specs) [] = some []
coerce_args (spec ∷ specs) (arg ∷ args) =
    let rest = Option.map (λ xs. coerce_arg spec arg ∷ xs) (coerce_args specs args) in
    if spec.variadic
    then some (arg ∷ args)
    else if is_undefined arg && not (matches_types undefined spec.types)
    then none
    else rest

-- `processCallArgs`
unfoldable pub process_call_args :
    List ParamSpec → List Value → Value → Result (Option (List Value))
unfolding coerce_args validate_call_args
process_call_args specs args focus = elim (coerce_args specs args) [
  | none ↦ ok none
  | some coerced ↦ do expanded ← validate_call_args specs coerced focus; ok (some expanded)
]
