-- ===== src/Functions/Booleans.antt =====
-- `$boolean`, `$not` and `$exists` of go/internal/engine/functions/boolean_funcs.go; a result of `none` is undefined.
use jsonata.Base.{Bool, not, List, [], ◌∷◌, Option, none, some, if◌then◌else◌}
use jsonata.Value.Data.{Value}
use jsonata.Value.Truth.{to_boolean}
use jsonata.Value.Equality.{is_undefined}
use jsonata.Functions.Arrays.{Returned, returns, raises, t0410, d3006}

unfoldable pub fn_boolean : List Value → Returned (Option Bool)
unfolding to_boolean
fn_boolean [] = raises d3006
fn_boolean (v ∷ []) = if is_undefined v then returns none else returns (some (to_boolean v))
fn_boolean (v ∷ w ∷ args) = raises t0410

unfoldable pub fn_not : List Value → Returned (Option Bool)
unfolding to_boolean
fn_not [] = raises d3006
fn_not (v ∷ args) = if is_undefined v then returns none else returns (some (not (to_boolean v)))

unfoldable pub fn_exists : List Value → Returned Bool
fn_exists [] = raises t0410
fn_exists (v ∷ []) = returns (not (is_undefined v))
fn_exists (v ∷ w ∷ args) = raises t0410
