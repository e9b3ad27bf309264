-- ===== src/OrderedMap.antt =====
-- The insertion-ordered objects of go/internal/engine/internal/evaluator/ordered_map.go.
pub mod Ops
pub mod Entries
