-- ===== src/Value.antt =====
-- The values of the evaluator, go/internal/engine/internal/evaluator/value.go, list_value.go.
pub mod Data
pub mod Sequence
pub mod Flattening
pub mod Truth
pub mod Equality
pub mod EqualTruth
pub mod Compare
pub mod Navigate
pub mod Wildcard
pub mod Comparison
