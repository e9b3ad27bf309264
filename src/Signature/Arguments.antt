-- ===== src/Signature/Arguments.antt =====
-- What the argument checks let through.
use jsonata.Base.{
  ℕ, suc, ◌+◌, Bool, true, false, not, ◌&&◌, List, [], ◌∷◌, ◌++◌, none, length, get_elem?,
  replicate, append_assoc, append-nil, length-append, ◌≡◌, ◌↔◌, refl, sym, ◌∙◌, arith, Bool-cases,
  Option-cases, inl, inr,
}
use mathlib.Core.Path.{subst₂}
use jsonata.Signature.Spec.{ok, ParamSpec}
use jsonata.Signature.Call.{validate_one, validate_from, validate_call_args}
use jsonata.Value.Data.{Value}

-- A spec with no modifier.
abbrev pub is_plain : ParamSpec → Bool
is_plain spec = not spec.optional && not spec.variadic && not spec.context

-- One argument for each spec, each of which matches.
abbrev pub Fits : List ParamSpec → List Value → Type 0
Fits [] [] = Unit
Fits [] (arg ∷ args) = ⊥
Fits (spec ∷ specs) [] = ⊥
Fits (spec ∷ specs) (arg ∷ args) = (validate_one spec arg ≡ none) × Fits specs args

abbrev pub AllPlain : List ParamSpec → Type 0
AllPlain [] = Unit
AllPlain (spec ∷ specs) = (is_plain spec ≡ true) × AllPlain specs

-- Checked arguments are those given, with the focus for the missing ones.
extends_step :
    (args result : List Value) (focus : Value) (k : ℕ)
    → result ≡ (args ++ focus ∷ []) ++ replicate k focus
    → result ≡ args ++ replicate (suc k) focus
extends_step args result focus k e = e ∙ append_assoc args (focus ∷ []) (replicate k focus)

validate_from_extends :
    (specs : List ParamSpec) (args : List Value) (ai : ℕ) (focus : Value) {result : List Value}
    → validate_from specs args ai focus ≡ ok result
    → (k : ℕ) × (result ≡ args ++ replicate k focus)
unfolding validate_from
validate_from_extends [] args ai focus {result} h = (0, ground (arith, append-nil args))
validate_from_extends (spec ∷ specs) args ai focus {result} h = elim (Bool-cases spec.variadic) [
  | inl v ↦ validate_from_extends specs args _ focus (rw v at h)
  | inr one ↦ elim (Option-cases (get_elem? args ai)) [
    | inr (arg, given) ↦ elim (Option-cases (validate_one spec arg)) [
      | inl fits ↦ validate_from_extends specs args (ai + 1) focus (rw (one, given, fits) at h)
      | inr (e, bad) ↦ elim (Bool-cases spec.optional) [
        | inl skip ↦ validate_from_extends specs args ai focus (rw (one, given, bad, skip) at h)
        | inr must ↦ cc (rw (one, given, bad, must) at h)
      ]
    ]
    | inl missing ↦ elim (Bool-cases spec.context) [
      | inl inject ↦
          let (k, e) =
            validate_from_extends specs (args ++ focus ∷ []) (ai + 1) focus
              (rw (one, missing, inject) at h) in
          (suc k, extends_step args result focus k e)
      | inr plain ↦ elim (Bool-cases spec.optional) [
        | inl skip ↦ validate_from_extends specs args ai focus (rw (one, missing, plain, skip) at h)
        | inr must ↦ cc (rw (one, missing, plain, must) at h)
      ]
    ]
  ]
]

-- Whatever the specs, checked arguments are the given ones in order, followed by nothing but copies of the focus.
pub validate_call_args-extends :
    (specs : List ParamSpec) (args : List Value) (focus : Value) {result : List Value}
    → validate_call_args specs args focus ≡ ok result
    → (k : ℕ) × (result ≡ args ++ replicate k focus)
unfolding validate_call_args
validate_call_args-extends specs args focus {result} h =
    validate_from_extends specs args 0 focus {result = result} h

get_behind :
    (before args : List Value) → get_elem? (before ++ args) (length before) ≡ get_elem? args 0
get_behind [] args = refl
get_behind (x ∷ before) args = get_behind before args

plain_tests :
    (spec : ParamSpec)
    → is_plain spec ≡ true
    → (spec.variadic ≡ false) × (spec.context ≡ false) × (spec.optional ≡ false)
plain_tests spec h = ground arith

move_over :
    (before : List Value) (arg : Value) (args : List Value)
    → (before ++ arg ∷ args ≡ (before ++ arg ∷ []) ++ args)
      × (length before + 1 ≡ length (before ++ arg ∷ []))
move_over before arg args =
    (sym (append_assoc before (arg ∷ []) args), omega (arith, length-append before (arg ∷ [])))

-- The check of plain specs from behind `before` on.
module _ (focus : Value) where
  plain_sound :
      (specs : List ParamSpec) (before args : List Value) {result : List Value}
      → AllPlain specs
      → validate_from specs (before ++ args) (length before) focus ≡ ok result
      → Fits specs args × (result ≡ before ++ args)
  unfolding validate_from
  plain_sound [] before [] h q = (tt, ground arith)
  plain_sound [] before (x ∷ args) h q = absurd (ground (arith, length-append before (x ∷ args)))
  plain_sound (spec ∷ specs) before [] (p, h) q =
      let (v, c, o) = plain_tests spec p in cc (rw (v, get_behind before [], c, o) at q)
  plain_sound (spec ∷ specs) before (x ∷ args) {result} (p, h) q =
      let (v, c, o) = plain_tests spec p in
      let (shift, next) = move_over before x args in
      elim (Option-cases (validate_one spec x)) [
        | inl fits ↦
            let q' : validate_from specs (before ++ x ∷ args) (length before + 1) focus
                ≡ ok result =
              rw (v, get_behind before (x ∷ args), fits) at q in
            let (k, e) = plain_sound specs (before ++ x ∷ []) args {result = result} h (
              subst₂ (λ (xs : List Value) (n : ℕ). validate_from specs xs n focus ≡ ok result) shift
                next q') in
            ((fits, k), e ∙ sym shift)
        | inr (e, bad) ↦ cc (rw (v, get_behind before (x ∷ args), bad, o) at q)
      ]

  plain_complete :
      (specs : List ParamSpec) (before args : List Value)
      → AllPlain specs
      → Fits specs args
      → validate_from specs (before ++ args) (length before) focus ≡ ok (before ++ args)
  unfolding validate_from
  plain_complete [] before [] h k = ground (arith, length-append before [])
  plain_complete [] before (x ∷ args) h k = absurd k
  plain_complete (spec ∷ specs) before [] h k = absurd k
  plain_complete (spec ∷ specs) before (x ∷ args) (p, h) (fits, k) =
      let (v, c, o) = plain_tests spec p in
      let (shift, next) = move_over before x args in
      rw (v, get_behind before (x ∷ args), fits)
        (subst₂ (λ (xs : List Value) (n : ℕ). validate_from specs xs n focus ≡ ok xs) (sym shift)
          (sym next) (plain_complete specs (before ++ x ∷ []) args h k))

-- Where no parameter has a modifier, a call is let through, with whatever arguments, exactly when there is one argument
-- for each parameter, in order, and each matches; and exactly then it is let through with the arguments unchanged.
pub validate_call_args-Fits_iff :
    (specs : List ParamSpec) (args : List Value) (focus : Value)
    → AllPlain specs
    → (((result : List Value) × (validate_call_args specs args focus ≡ ok result))
        ↔ Fits specs args)
      × ((validate_call_args specs args focus ≡ ok args) ↔ Fits specs args)
unfolding validate_call_args
validate_call_args-Fits_iff specs args focus plain =
    ((λ r. sound r.0 r.1, λ fits. (args, complete fits)), (sound args, complete))
  where
    sound : (result : List Value) → validate_from specs args 0 focus ≡ ok result → Fits specs args
    sound result h = (plain_sound focus specs [] args {result = result} plain h).0

    complete : Fits specs args → validate_from specs args 0 focus ≡ ok args
    complete fits = plain_complete focus specs [] args plain fits
