-- ===== src/Functions.antt =====
-- Functions of go/internal/engine/functions/array_funcs.go, boolean_funcs.go and hof_funcs.go.
pub mod Arrays
pub mod Append
pub mod Reverse
pub mod Booleans
pub mod HigherOrder
