-- ===== src/Tests/Controls.antt =====
-- Numbers as indexes.
use jsonata.Base.{
  ◌-◌, ◌+◌, ltb, if◌then◌else◌, arith, [], ◌∷◌, none, some, codes, ◌≡◌, refl, true, false,
}
use jsonata.Base.Int.{pos, negsuc, ◌+ℤ◌}
use jsonata.Number.Parts.{parts, is_zero}
use jsonata.Number.Compare.{compare_text, compare_parts, magnitude_order, compare_digits}
use jsonata.Number.Control.{
  index, floor_int64, floor_from, trunc_int64, trunc_parts, iteration_limit, is_integer, format_int,
  parse_int, whole_digits, from_end, within,
}
use jsonata.Number.Integral.{index-format_int}
use jsonata.Value.Data.{undefined, boolean}
use jsonata.Functions.Arrays.{returns, raises, t0410}
use jsonata.Functions.Booleans.{fn_boolean, fn_not, fn_exists}
use jsonata.Value.Truth.{to_boolean}

last_but_one : index (codes "-1.5") 3 ≡ some 1
unfolding index floor_int64 floor_from trunc_int64 trunc_parts compare_text compare_parts
    magnitude_order compare_digits format_int parse_int whole_digits from_end within parts is_zero
    ◌+ℤ◌
last_but_one = refl

index-format_int_example :
    (index (format_int (pos 1)) 3 ≡ (if ltb 1 3 then some 1 else none))
    × (index (format_int (negsuc 0)) 3 ≡ (if ltb 0 3 then some (3 - (0 + 1)) else none))
index-format_int_example = index-format_int 3 1 0 (omega arith) (omega arith)

rounds : iteration_limit (codes "2.5") ≡ pos 3
unfolding iteration_limit trunc_int64 trunc_parts compare_text compare_parts magnitude_order
    compare_digits format_int parse_int whole_digits parts is_zero ◌+ℤ◌
rounds = refl

truths :
    (fn_not (boolean true ∷ []) ≡ returns (some false))
    × (fn_boolean (undefined ∷ []) ≡ returns none)
    × (fn_exists (undefined ∷ []) ≡ returns false)
    × (fn_exists [] ≡ raises t0410)
unfolding fn_not fn_boolean fn_exists to_boolean
truths = (refl, refl, refl, refl)

whole :
    (is_integer (codes "1.50e2") ≡ true)
    × (is_integer (codes "1.5") ≡ false)
    × (is_integer (codes "-0.0") ≡ true)
unfolding is_integer
whole = (refl, refl, refl)
