-- ===== src/Scope.antt =====
-- The scopes of go/internal/engine/internal/evaluator/env.go.
pub mod Environment
pub mod Lookup
pub mod Depth
