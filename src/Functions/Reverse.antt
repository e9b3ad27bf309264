-- ===== src/Functions/Reverse.antt =====
-- The positions of the items in `$reverse` of go/internal/engine/functions/array_funcs.go.
use jsonata.Base.{ℕ, zero, suc, Option, none, some}
use jsonata.Value.Data.{Value, Values, nil, cons}

-- The element at a position.
abbrev pub value_at : Values → ℕ → Option Value
value_at nil i = none
value_at (cons x xs) zero = some x
value_at (cons x xs) (suc i) = value_at xs i
