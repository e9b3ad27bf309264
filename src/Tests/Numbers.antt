-- ===== src/Tests/Numbers.antt =====
-- Number tokens.
use Prim.Native.Nat.{Ordering}
use jsonata.Base.{true, false, [], ◌∷◌, codes, all, any, ◌≡◌, ◌≢◌, ◌↔◌, refl}
use jsonata.Base.Int.{pos, negsuc}
use jsonata.Number.Grammar.{valid}
use jsonata.Number.Parts.{parts, is_zero}
use jsonata.Number.Compare.{flip, compare_digits, magnitude_order, compare_parts, compare_text}
use jsonata.Number.Order.{compare_text-flip, compare_text_trans, compare_text-eq_iff}
use jsonata.Number.Format.{format}
use jsonata.Number.RoundTrip.{parts-format, compare_text-format_iff}

accepted : all valid (codes "0" ∷ codes "-0.10" ∷ codes "12e+3" ∷ codes "9.5E-07" ∷ []) ≡ true
unfolding valid
accepted = refl

refused :
    any valid (codes "" ∷ codes "-" ∷ codes "01" ∷ codes "1." ∷ codes ".5" ∷ codes "1e" ∷ [])
    ≡ false
unfolding valid
refused = refl

normalised :
    parts (codes "-0012.500E+3")
    ≡ record { negative = true; coefficient = codes "125"; adjusted = pos 4 }
unfolding parts
normalised = refl

fraction_only :
    parts (codes "0.00120")
    ≡ record { negative = false; coefficient = codes "12"; adjusted = negsuc 2 }
unfolding parts
fraction_only = refl

below_zero : compare_text (codes "-2") (codes "-0.5") ≡ Ordering.lt
unfolding compare_text compare_parts magnitude_order compare_digits is_zero parts
below_zero = refl

notations :
    (format (codes "1.50e2") ≡ codes "150")
    × (format (codes "-0.00000012") ≡ codes "-1.2e-7")
    × (format (codes "1e21") ≡ codes "1e+21")
    × (format (codes "-0.0") ≡ codes "0")
unfolding format
notations = (refl, refl, refl, refl)

valid_price : valid (codes "1.50e2") ≡ true
unfolding valid
valid_price = refl

valid_whole : valid (codes "150") ≡ true
unfolding valid
valid_whole = refl

parts-format_example : parts (format (codes "1.50e2")) ≡ parts (codes "1.50e2")
parts-format_example = parts-format (codes "1.50e2") valid_price

compare_text-format_iff_example :
    (compare_text (codes "1.50e2") (codes "150") ≡ Ordering.eq)
    ↔ (format (codes "1.50e2") ≡ format (codes "150"))
compare_text-format_iff_example =
    compare_text-format_iff (codes "1.50e2") (codes "150") valid_price valid_whole

small : compare_text (codes "-2") (codes "0.5") ≢ Ordering.gt
unfolding compare_text compare_parts magnitude_order compare_digits is_zero parts
small = λ e. cc

large : compare_text (codes "0.5") (codes "5e-1") ≢ Ordering.gt
unfolding compare_text compare_parts magnitude_order compare_digits is_zero parts
large = λ e. cc

compare_text_trans_example : compare_text (codes "-2") (codes "5e-1") ≢ Ordering.gt
compare_text_trans_example =
    compare_text_trans (codes "-2") (codes "0.5") (codes "5e-1") small large

compare_text-flip_example :
    compare_text (codes "150") (codes "-3") ≡ flip (compare_text (codes "-3") (codes "150"))
compare_text-flip_example = compare_text-flip (codes "-3") (codes "150")

compare_text-eq_iff_example :
    (compare_text (codes "1.50e2") (codes "150") ≡ Ordering.eq)
    ↔ (parts (codes "1.50e2") ≡ parts (codes "150"))
compare_text-eq_iff_example = compare_text-eq_iff (codes "1.50e2") (codes "150")
