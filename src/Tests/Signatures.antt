-- ===== src/Tests/Signatures.antt =====
-- Signatures: parsing, and checked calls.
use jsonata.Base.{
  ℕ, true, false, List, [], ◌∷◌, ◌++◌, some, Bytes, codes, replicate, ◌↔◌, ◌≡◌, refl,
}
use jsonata.Base.Int.{◌+ℤ◌}
use jsonata.Value.Data.{Value, undefined, text, number}
use jsonata.Signature.Spec.{ParamSpec, ok, is_valid_type, contains}
use jsonata.Signature.Parse.{
  parse_sig, parse_params, parse_param, strip_return_type, last_colon, parse_types, parse_content,
  parse_modifiers, parse_union, parse_content_type, content_of, skip_nested, skip_brackets,
  skip_brackets_keep_close,
}
use jsonata.Signature.Sound.{Parsed, parse_sig_total}
use jsonata.Signature.Call.{matches_types, type_matches, validate_call_args}
use jsonata.Signature.Arguments.{Fits, validate_call_args-extends, validate_call_args-Fits_iff}

abbrev plain_spec : Bytes → ParamSpec
plain_spec types = record {
  types = types;
  content_type = 0;
  optional = false;
  variadic = false;
  context = false;
}

read_signature :
    parse_sig (codes "a<n>(sn)?-:b")
    ≡ some (
        ok (
          record (plain_spec (codes "a")) { content_type = b'n' }
          ∷ record (plain_spec (codes "sn")) { optional = true; context = true }
          ∷ []))
unfolding parse_sig parse_params parse_param strip_return_type last_colon parse_types parse_content
    parse_modifiers parse_union parse_content_type content_of skip_nested skip_brackets
    skip_brackets_keep_close is_valid_type contains ◌+ℤ◌
read_signature = refl

parse_sig_total_example : Parsed (parse_sig (codes "a<n>(sn)?-:b"))
parse_sig_total_example = parse_sig_total (codes "a<n>(sn)?-:b")

abbrev from_context : List ParamSpec
from_context = plain_spec (codes "n") ∷ record (plain_spec (codes "s")) { context = true } ∷ []

injected :
    validate_call_args from_context (number (codes "1") ∷ []) (text (codes "a"))
    ≡ ok (number (codes "1") ∷ text (codes "a") ∷ [])
unfolding validate_call_args matches_types type_matches
injected = refl

validate_call_args-extends_example :
    (k : ℕ) × (number (codes "1") ∷ text (codes "a") ∷ []
      ≡ (number (codes "1") ∷ []) ++ replicate k (text (codes "a")))
validate_call_args-extends_example =
    validate_call_args-extends from_context (number (codes "1") ∷ []) (text (codes "a"))
      {result = number (codes "1") ∷ text (codes "a") ∷ []} injected

abbrev two_specs : List ParamSpec
two_specs = plain_spec (codes "n") ∷ plain_spec (codes "s") ∷ []

abbrev two_args : List Value
two_args = number (codes "1") ∷ text (codes "a") ∷ []

validate_call_args-Fits_iff_example :
    (((result : List Value) × (validate_call_args two_specs two_args undefined ≡ ok result))
      ↔ Fits two_specs two_args)
    × ((validate_call_args two_specs two_args undefined ≡ ok two_args) ↔ Fits two_specs two_args)
validate_call_args-Fits_iff_example =
    validate_call_args-Fits_iff two_specs two_args undefined (refl, (refl, tt))
