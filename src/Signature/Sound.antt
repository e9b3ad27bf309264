-- ===== src/Signature/Sound.antt =====
-- What `ParseSig` accepts: the parser ends, and its specs are well formed.
use jsonata.Base.{
  ℕ, zero, suc, ◌≤◌, true, false, not, ◌&&◌, List, [], ◌∷◌, ◌++◌, Option, some, Bytes, length, ◌==◌,
  if◌then◌else◌, ◌≡◌, ◌≢◌, ◌⊎◌, inl, inr, refl, sym, subst, arith, any, all, Bool-cases,
}
use mathlib.Core.Path.{subst₂}
use jsonata.Signature.Spec.{
  bind_ok, Result, ok, err, SignatureError, ParamSpec, contains, is_valid_type,
}
use jsonata.Signature.Parse.{
  parse_union, skip_brackets, skip_brackets_keep_close, content_of, takes_content,
  parse_content_type, parse_modifiers, skip_nested, parse_types, parse_content, parse_param,
  parse_params, parse_sig, strip_return_type,
}

-- A content type belongs to a group of array and function types with an array in it.
abbrev pub ContentFits : Bytes → ℕ → Type 0
ContentFits types c =
    (c ≡ 0)
    ⊎ ((is_valid_type c ≡ true)
        × (contains types b'a' ≡ true)
        × (any (λ t. not (takes_content t)) types ≡ false))

pub record IsSpec (spec : ParamSpec) : Type 0 where
  pub some_type : spec.types ≢ []
  pub valid_types : all is_valid_type spec.types ≡ true
  pub content : ContentFits spec.types spec.content_type

all-append :
    (s t : Bytes)
    → all is_valid_type s ≡ true
    → all is_valid_type t ≡ true
    → all is_valid_type (s ++ t) ≡ true
all-append [] t h k = k
all-append (c ∷ s) t h k = ground (arith, all-append s t)

parse_union_sound :
    (types s ts rest : Bytes)
    → all is_valid_type types ≡ true
    → parse_union types s ≡ ok (ts, rest)
    → (ts ≢ []) × (all is_valid_type ts ≡ true) × (length rest ≤ length s)
unfolding parse_union
parse_union_sound types [] ts rest h e = cc
parse_union_sound types (c ∷ s) ts rest h e = elim (Bool-cases (c == b')')) [
  | inl close ↦ ground arith
  | inr other ↦
      ground (arith, all-append types (c ∷ []), parse_union_sound (types ++ c ∷ []) s ts rest)
]

skip_brackets_le : (depth : ℕ) (s : Bytes) → length (skip_brackets depth s) ≤ length s
unfolding skip_brackets
skip_brackets_le zero s = omega arith
skip_brackets_le (suc depth) [] = omega arith
skip_brackets_le (suc depth) (c ∷ s) = omega (
  arith,
  skip_brackets_le (if c == b'<' then suc (suc depth) else if c == b'>' then depth else suc depth)
      s,
)

keep_close_le : (depth : ℕ) (s : Bytes) → length (skip_brackets_keep_close depth s) ≤ length s
unfolding skip_brackets_keep_close
keep_close_le zero s = omega arith
keep_close_le (suc depth) [] = omega arith
keep_close_le (suc zero) (c ∷ s) = ground (arith, keep_close_le 2 s, keep_close_le 1 s)
keep_close_le (suc (suc depth)) (c ∷ s) = ground (
  arith,
  keep_close_le (suc (suc (suc depth))) s,
  keep_close_le (suc (suc depth)) s,
  keep_close_le (suc depth) s,
)

skip_nested_le : (s : Bytes) → length (skip_nested s) ≤ length s
unfolding skip_nested
skip_nested_le [] = omega arith
skip_nested_le (c ∷ s) = ground (arith, skip_brackets_le 1 s)

content_of_sound :
    (types s : Bytes)
    → (length (content_of types s).1 ≤ length s)
      × (((content_of types s).0 ≡ 0)
          ⊎ ((is_valid_type (content_of types s).0 ≡ true) × (contains types b'a' ≡ true)))
unfolding content_of
content_of_sound types [] = (omega arith, inl refl)
content_of_sound types (c ∷ s) = elim (Bool-cases (contains types b'a' && is_valid_type c)) [
  | inl array ↦ rw array (omega (arith, skip_nested_le s), inr (ground arith, ground arith))
  | inr other ↦ rw other (keep_close_le 1 (c ∷ s), inl refl)
]

parse_content_type_sound :
    (types s : Bytes) {c : ℕ} {rest : Bytes}
    → parse_content_type types s ≡ ok (c, rest)
    → (length rest ≤ length s) × ContentFits types c
unfolding parse_content_type
parse_content_type_sound types s h = ground (arith, content_of_sound types s)

parse_modifiers_sound :
    (spec : ParamSpec) (s : Bytes)
    → (length (parse_modifiers spec s).1 ≤ length s)
      × ((parse_modifiers spec s).0.types ≡ spec.types)
      × ((parse_modifiers spec s).0.content_type ≡ spec.content_type)
unfolding parse_modifiers
parse_modifiers_sound spec [] = ground arith
parse_modifiers_sound spec (c ∷ s) = ground (
  arith,
  parse_modifiers_sound (record spec { optional = true }) s,
  parse_modifiers_sound (record spec { variadic = true }) s,
  parse_modifiers_sound (record spec { context = true }) s,
)

parse_types_sound :
    (c : ℕ) (s : Bytes) {ts rest : Bytes}
    → parse_types (c ∷ s) ≡ ok (ts, rest)
    → (ts ≢ []) × (all is_valid_type ts ≡ true) × (length rest ≤ length s)
unfolding parse_types
parse_types_sound c s {ts} {rest} h = ground (arith, parse_union_sound [] s ts rest refl)

parse_content_sound :
    (types s : Bytes) {c : ℕ} {rest : Bytes}
    → parse_content types s ≡ ok (c, rest)
    → (length rest ≤ length s) × ContentFits types c
unfolding parse_content
parse_content_sound types [] h = ground arith
parse_content_sound types (d ∷ s) {c} {rest} h =
    ground (arith, parse_content_type_sound types s {c = c} {rest = rest})

ok_injective {ℓ} : {A : Type ℓ} {a b : A} → ◌≡◌ {A = Result A} (ok a) (ok b) → a ≡ b
ok_injective e = cc e

abbrev unmodified : Bytes → ℕ → ParamSpec
unmodified types content = record {
  types = types;
  content_type = content;
  optional = false;
  variadic = false;
  context = false;
}

modifiers-IsSpec :
    (types : Bytes) (content : ℕ) (s : Bytes) {spec : ParamSpec} {rest : Bytes}
    → types ≢ []
    → all is_valid_type types ≡ true
    → ContentFits types content
    → parse_modifiers (unmodified types content) s ≡ (spec, rest)
    → IsSpec spec × (length rest ≤ length s)
modifiers-IsSpec types content s a b c result =
    let (shorter, same_types, same_content) = parse_modifiers_sound (unmodified types content) s in
    subst (λ (r : ParamSpec × Bytes). IsSpec r.0 × (length r.1 ≤ length s)) result
      (
        record {
          some_type = subst (λ (ts : Bytes). ts ≢ []) (sym same_types) a;
          valid_types = subst (λ (ts : Bytes). all is_valid_type ts ≡ true) (sym same_types) b;
          content = subst₂ ContentFits (sym same_types) (sym same_content) c;
        },
        shorter,
      )

parse_param_sound :
    (c : ℕ) (s : Bytes) {spec : ParamSpec} {rest : Bytes}
    → parse_param (c ∷ s) ≡ ok (spec, rest)
    → IsSpec spec × (length rest ≤ length s)
unfolding parse_param
parse_param_sound c s {spec} {rest} h =
    let (t, e1, h1) = bind_ok (parse_types (c ∷ s)) _ h in
    let (k, e2, h2) = bind_ok (parse_content t.0 t.1) _ h1 in
    let (some_type, valid_types, shorter) = parse_types_sound c s e1 in
    let (shorter', content) = parse_content_sound t.0 t.1 e2 in
    let (ok_spec, shorter'') =
      modifiers-IsSpec t.0 k.0 k.1 some_type valid_types content (ok_injective h2) in
    (ok_spec, omega arith)

abbrev pub AllSpecs : List ParamSpec → Type 0
AllSpecs [] = Unit
AllSpecs (spec ∷ specs) = IsSpec spec × AllSpecs specs

-- A run of the parser that ends, and what it returns.
abbrev pub Parsed : Option (Result (List ParamSpec)) → Type 0
Parsed r =
    ((specs : List ParamSpec) × (r ≡ some (ok specs)) × AllSpecs specs)
    ⊎ ((e : SignatureError) × (r ≡ some (err e)))

AllSpecs-snoc :
    (specs : List ParamSpec) (spec : ParamSpec)
    → AllSpecs specs
    → IsSpec spec
    → AllSpecs (specs ++ spec ∷ [])
AllSpecs-snoc [] spec h k = (k, tt)
AllSpecs-snoc (x ∷ specs) spec (hx, h) k = (hx, AllSpecs-snoc specs spec h k)

-- Enough fuel for a round for each byte.
parse_params_total :
    (fuel : ℕ) (specs : List ParamSpec) (s : Bytes)
    → length s ≤ fuel
    → AllSpecs specs
    → Parsed (parse_params fuel specs s)
unfolding parse_params
parse_params_total fuel specs [] h k = inl (specs, refl, k)
parse_params_total zero specs (c ∷ s) h k = absurd (omega arith)
parse_params_total (suc fuel) specs (c ∷ s) h k =
    go (parse_params_total fuel) (parse_param (c ∷ s)) refl
  where
    go :
        ((specs' : List ParamSpec) (t : Bytes)
          → length t ≤ fuel
          → AllSpecs specs'
          → Parsed (parse_params fuel specs' t))
        → (r : Result (ParamSpec × Bytes)) → parse_param (c ∷ s) ≡ r
        → Parsed (elim r [
          | err e ↦ some (err e)
          | ok (spec, rest) ↦ parse_params fuel (specs ++ spec ∷ []) rest
        ])
    go rec (err e) q = inr (e, refl)
    go rec (ok (spec, rest)) q =
        let (ok_spec, shorter) = parse_param_sound c s q in
        rec (specs ++ spec ∷ []) rest (omega arith) (AllSpecs-snoc specs spec k ok_spec)

-- `ParseSig` ends on every text: it returns an error, or specs of which each has a type, only known types, and a
-- content type only for a group of array and function types with an array in it.
pub parse_sig_total : (raw : Bytes) → Parsed (parse_sig raw)
parse_sig_total raw =
    unfold parse_sig in
    parse_params_total (length (strip_return_type raw)) [] (strip_return_type raw) (omega arith) tt
